-- ===== src/System/Table/Rule.antt =====
-- The actions that leave ClientIdMap and SystemClients as they are, in one rule for all properties of
-- the two maps.
use go_websocket.Prelude.{
  ◌≡◌, refl, ℕ, true, false, Bool, Option, none, some, List, [], ◌∷◌, arith, if◌then◌else◌, ltb,
}
use go_websocket.Prelude.Text.{str_eq}
use go_websocket.Client.{Ref}
use go_websocket.World.{
  ClientInfo, Frame, Task, World, Progress, done, blocked, crashed, send_dis_connect,
}
use go_websocket.Server.{ping_timer}
use go_websocket.Connect.{
  Handshake, read_round, Received, message, closed_as_expected, failed, ping_failed,
}
use go_websocket.Events.{send_message2_local_group, send_message2_local_system}
use go_websocket.System.{
  Libraries, Action, connects, reads, takes_connect, takes_dis_connect, sends, closes, sends_group,
  sends_system, joins, sends_local_group, sends_local_system, runs, writes, pings, resumes, Rest,
  links, queues, writes_on, pings_on, sends_on, rounds_on, resume, perform, pick, take_message,
  read_end, or_stays, run_picked,
}
use go_websocket.System.Table.Keeps

pub Ends-if :
    (P : World → Type 0) (b : Bool) (p q : Progress World)
    → Keeps.Ends P p
    → Keeps.Ends P q
    → Keeps.Ends P (if b then p else q)
Ends-if P true p q h k = h
Ends-if P false p q h k = k

pub Ends-map :
    (P Q : World → Type 0) (p : Progress World)
    → ((w : World) → P w → Q w)
    → Keeps.Ends P p
    → Keeps.Ends Q p
Ends-map P Q (done w) f h = f w h
Ends-map P Q (blocked w) f h = f w h
Ends-map P Q crashed f h = tt

module _ (write_json : ℕ → Frame → Bool) where
  read_round-Has :
      (r : Ref) (received : Received) (w : World)
      → Keeps.Ends (Keeps.Has w.manager) (read_end (read_round write_json r received w))
  unfolding read_round send_dis_connect
  read_round-Has r (message kind) w = ground arith
  read_round-Has r closed_as_expected w = ground arith
  read_round-Has r failed w = (refl, refl)
  read_round-Has r ping_failed w = (refl, refl)

  take_message-Has :
      (l : List ClientInfo) (w : World)
      → Keeps.Ends (Keeps.Has w.manager) (take_message write_json l w)
  unfolding take_message
  take_message-Has [] w = (refl, refl)
  take_message-Has (info ∷ rest) w =
      Keeps.write_message-Has w.manager write_json info (record w { to_client_chan = rest })
        (refl, refl)

or_stays-Has :
    (w : World) (p : Progress World)
    → Keeps.Ends (Keeps.Has w.manager) p
    → Keeps.Ends (Keeps.Has w.manager) (or_stays w p)
or_stays-Has w (done v) h = h
or_stays-Has w (blocked v) h = (refl, refl)
or_stays-Has w crashed h = tt

run_picked-Has :
    (w : World) (o : Option (Task × List Task)) → Keeps.Ends (Keeps.Has w.manager) (run_picked w o)
run_picked-Has w none = (refl, refl)
run_picked-Has w (some (t, rest)) =
    or_stays-Has w _ (Keeps.run_task-Has w.manager t (record w { spawned = rest }) (refl, refl))

unless-Has :
    (w : World) (b : Bool) (p : Progress World)
    → Keeps.Ends (Keeps.Has w.manager) p
    → Keeps.Ends (Keeps.Has w.manager) (if b then done w else p)
unless-Has w b p h = Ends-if (Keeps.Has w.manager) b (done w) p (refl, refl) h

resume-Has :
    (lib : Libraries) (rest : Rest) (w : World)
    → Keeps.Ends (Keeps.Has w.manager) (resume lib rest w)
unfolding resume
resume-Has lib (links r) w =
    Ends-if (Keeps.Has w.manager) (ltb r w.next_client) _ (done w)
      (Keeps.send_connect-Has w.manager r w (refl, refl)) (refl, refl)
resume-Has lib (queues r) w = Keeps.send_dis_connect-Has w.manager r w (refl, refl)
resume-Has lib (writes_on info r entries) w =
    Keeps.Has-bind w.manager _ _ (Keeps.send_dis_connect-Has w.manager r w (refl, refl))
      (λ u k. Keeps.render_all-Has w.manager lib.write_json info entries u k)
resume-Has lib (pings_on r entries clients) w =
    Keeps.Has-bind w.manager _ _ (Keeps.send_dis_connect-Has w.manager r w (refl, refl)) (λ u k.
      Keeps.Has-bind w.manager _ _ (Keeps.ping_entries-Has w.manager lib.write_control entries u k)
        (λ x l. Keeps.ping_clients-Has w.manager lib.write_control clients x l))
resume-Has lib (sends_on info ids) w =
    Keeps.Has-bind w.manager _ _ (Keeps.local_client-Has w.manager info w (refl, refl))
      (λ u k. Keeps.send_to_all-Has w.manager info ids u k)
resume-Has lib (rounds_on group_key info rounds index view) w =
    Keeps.Has-bind w.manager _ _ (Keeps.local_client-Has w.manager info w (refl, refl))
      (λ u k. Keeps.local_group_rounds-Has w.manager group_key info rounds index view u k)

-- A handshake, and the loop Start where it takes a client, change the maps.
abbrev pub changes : Action → Bool
changes (connects now socket h) = true
changes takes_connect = true
changes takes_dis_connect = true
changes _ = false

-- A property that goes with the two maps holds where an action leaves the server, if it does so for
-- those that change them.
pub perform_rule :
    (lib : Libraries) (P : World → Type 0) (a : Action) (w : World)
    → ((v : World) → Keeps.Has w.manager v → P v)
    → (changes a ≡ true → Keeps.Ends P (perform lib a w))
    → Keeps.Ends P (perform lib a w)
unfolding perform send_message2_local_group send_message2_local_system ping_timer
perform_rule lib P (connects now socket h) w keep special = special refl
perform_rule lib P takes_connect w keep special = special refl
perform_rule lib P takes_dis_connect w keep special = special refl
perform_rule lib P (reads r received) w keep special =
    Ends-map (Keeps.Has w.manager) P _ keep (read_round-Has lib.write_json r received w)
perform_rule lib P (sends info) w keep special =
    Ends-map (Keeps.Has w.manager) P _ keep
      (Keeps.send_message2_client-Has w.manager lib.cipher info w (refl, refl))
perform_rule lib P (closes id system addr) w keep special =
    Ends-map (Keeps.Has w.manager) P _ keep
      (Keeps.close_client-Has w.manager lib.cipher id system addr w (refl, refl))
perform_rule lib P (sends_group mid system user group code msg content) w keep special =
    keep _ (
      Keeps.send_message2_group-Has w.manager mid system user group code msg content w (refl, refl))
perform_rule lib P (sends_system mid system user code msg content) w keep special =
    Ends-map (Keeps.Has w.manager) P _ keep
      (Keeps.send_message2_system-Has w.manager mid system user code msg content w (refl, refl))
perform_rule lib P (joins name r user extend) w keep special = keep _ (
    Keeps.add_client2_local_group-Has w.manager lib.marshal lib.uuid name r user extend w
      (refl, refl))
perform_rule lib P (sends_local_group system name info) w keep special =
    Ends-map (Keeps.Has w.manager) P _ keep (
      unless-Has w (str_eq name []) _
        (Keeps.local_group_rounds-Has w.manager _ info _ 0 _ w (refl, refl)))
perform_rule lib P (sends_local_system system info) w keep special =
    Ends-map (Keeps.Has w.manager) P _ keep
      (unless-Has w (str_eq system []) _ (Keeps.send_to_all-Has w.manager info _ w (refl, refl)))
perform_rule lib P (runs i) w keep special =
    Ends-map (Keeps.Has w.manager) P _ keep (run_picked-Has w (pick i w.spawned))
perform_rule lib P writes w keep special =
    Ends-map (Keeps.Has w.manager) P _ keep (take_message-Has lib.write_json w.to_client_chan w)
perform_rule lib P pings w keep special =
    Ends-map (Keeps.Has w.manager) P _ keep
      (Keeps.ping_clients-Has w.manager lib.write_control _ w (refl, refl))
perform_rule lib P (resumes rest) w keep special =
    Ends-map (Keeps.Has w.manager) P _ keep (resume-Has lib rest w)

-- A proof for the actions that change the maps is one for a handshake and the two of the loop Start.
pub change_cases :
    (Q : Action → Type 0)
    → ((now : ℕ) (socket : Option ℕ) (h : Handshake) → Q (connects now socket h))
    → Q takes_connect
    → Q takes_dis_connect
    → (a : Action) → changes a ≡ true
    → Q a
change_cases Q x y z (connects now socket h) e = x now socket h
change_cases Q x y z takes_connect e = y
change_cases Q x y z takes_dis_connect e = z
change_cases Q x y z (reads r received) e = absurd (ground (arith, e))
change_cases Q x y z (sends info) e = absurd (ground (arith, e))
change_cases Q x y z (closes id system addr) e = absurd (ground (arith, e))
change_cases Q x y z (sends_group mid system user group code msg content) e =
    absurd (ground (arith, e))
change_cases Q x y z (sends_system mid system user code msg content) e = absurd (ground (arith, e))
change_cases Q x y z (joins name r user extend) e = absurd (ground (arith, e))
change_cases Q x y z (sends_local_group system name info) e = absurd (ground (arith, e))
change_cases Q x y z (sends_local_system system info) e = absurd (ground (arith, e))
change_cases Q x y z (runs i) e = absurd (ground (arith, e))
change_cases Q x y z writes e = absurd (ground (arith, e))
change_cases Q x y z pings e = absurd (ground (arith, e))
change_cases Q x y z (resumes rest) e = absurd (ground (arith, e))
