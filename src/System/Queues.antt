-- ===== src/System/Queues.antt =====
-- The loop Start (servers/clientmanager.go) empties its channels Connect and DisConnect.
use go_websocket.Prelude.{
  ℕ, Bool, true, false, ◌+◌, ◌≡◌, refl, sym, ap, ◌∙◌, some, List, [], ◌∷◌, ◌++◌, length, arith,
  if◌then◌else◌,
}
use mathlib.Core.Path.{fun_ext}
use go_websocket.Prelude.Text.{Str}
use go_websocket.Client.{Client, Ref}
use go_websocket.Manager.Sound.{add_client-SameChannels, del_client-SameChannels}
use go_websocket.World.{World, Progress, done, blocked, crashed, ◌>>=◌}
use go_websocket.Server.{send_message2_group}
use go_websocket.Events.{
  event_connect, event_disconnect, tell_groups, start_connect, take_connect, start_dis_connect,
  take_dis_connect,
}
use go_websocket.System.{Libraries, Action, takes_connect, takes_dis_connect, perform, or_waits}
use go_websocket.System.Journey.{perform_all}

bind_assoc :
    (p : Progress World) (f g : World → Progress World) → (p >>= f >>= g) ≡ (p >>= λ w. f w >>= g)
bind_assoc (done w) f g = refl
bind_assoc (blocked w) f g = refl
bind_assoc crashed f g = refl

pub perform_all-append :
    (lib : Libraries) (xs ys : List Action) (w : World)
    → perform_all lib (xs ++ ys) w ≡ (perform_all lib xs w >>= λ v. perform_all lib ys v)
perform_all-append lib [] ys w = refl
perform_all-append lib (x ∷ xs) ys w =
    ap (λ k. perform lib x w >>= k) (fun_ext (λ v. perform_all-append lib xs ys v))
    ∙ sym (bind_assoc (perform lib x w) (λ v. perform_all lib xs v) (λ v. perform_all lib ys v))

-- Which of the two channels the `select` of Start takes from, round by round.
abbrev pub rounds : List Bool → List Action
rounds [] = []
rounds (true ∷ picks) = takes_connect ∷ rounds picks
rounds (false ∷ picks) = takes_dis_connect ∷ rounds picks

abbrev pub picks_of : Bool → List Bool → ℕ
picks_of true [] = 0
picks_of false [] = 0
picks_of true (p ∷ picks) = (if p then 1 else 0) + picks_of true picks
picks_of false (p ∷ picks) = (if p then 0 else 1) + picks_of false picks

module _ (marshal : List (Str × Str) → Str) (uuid : Str → Str) where
  tell_groups-manager :
      (c : Client) (names : List Str) (content : Str) (w : World)
      → (tell_groups marshal uuid c names content w).manager ≡ w.manager
  unfolding tell_groups send_message2_group
  tell_groups-manager c [] content w = refl
  tell_groups-manager c (name ∷ names) content w =
      tell_groups-manager c names content _ ∙ ground arith

  event_disconnect-channels :
      (r : Ref) (w : World)
      → ((event_disconnect marshal uuid r w).manager.connect ≡ w.manager.connect)
        × ((event_disconnect marshal uuid r w).manager.dis_connect ≡ w.manager.dis_connect)
  unfolding event_disconnect
  event_disconnect-channels r w =
      rw (tell_groups-manager (w.heap r) (w.heap r).group_list _ _)
        (del_client-SameChannels (some (w.heap r)) w.manager)

length-zero {ℓ} : {A : Type ℓ} (xs : List A) → length xs ≡ 0 → xs ≡ []
length-zero [] h = refl
length-zero (x ∷ xs) h = absurd (omega arith)

module _ (lib : Libraries) where
  -- The rounds of Start on channels that hold the clients `p` and `q`.
  start_rounds :
      (picks : List Bool) (p q : List Ref) (w : World)
      → w.manager.connect ≡ p
      → w.manager.dis_connect ≡ q
      → length p ≡ picks_of true picks
      → length q ≡ picks_of false picks
      → (v : World) × (perform_all lib (rounds picks) w ≡ done v)
        × (v.manager.connect ≡ [])
        × (v.manager.dis_connect ≡ [])
  unfolding perform start_connect take_connect start_dis_connect take_dis_connect event_connect
  start_rounds [] p q w e f a b = (w, refl, e ∙ length-zero p a, f ∙ length-zero q b)
  start_rounds (true ∷ picks) [] q w e f a b = absurd (omega arith)
  start_rounds (true ∷ picks) (r ∷ p) q w e f a b =
      let u = record w { manager = record w.manager { connect = p } } in
      let (same, left) = add_client-SameChannels (w.heap r) r u.manager in
      let (v, run, no_connect, no_dis_connect) =
        start_rounds picks p q (event_connect r u) same (left ∙ f) (omega arith) (omega arith) in
      (
        v,
        ap
              (λ l. or_waits w (take_connect lib.marshal lib.uuid l w) >>= λ x.
                perform_all lib (rounds picks) x)
              e
            ∙ run,
        no_connect,
        no_dis_connect,
      )
  start_rounds (false ∷ picks) p [] w e f a b = absurd (omega arith)
  start_rounds (false ∷ picks) p (r ∷ q) w e f a b =
      let u = record w { manager = record w.manager { dis_connect = q } } in
      let (same, left) = event_disconnect-channels lib.marshal lib.uuid r u in
      let (v, run, no_connect, no_dis_connect) =
        start_rounds picks p q (event_disconnect lib.marshal lib.uuid r u) (same ∙ e) left
          (omega arith) (omega arith) in
      (
        v,
        ap
              (λ l. or_waits w (take_dis_connect lib.marshal lib.uuid l w) >>= λ x.
                perform_all lib (rounds picks) x)
              f
            ∙ run,
        no_connect,
        no_dis_connect,
      )

  -- In whatever order the `select` of Start picks them, as many rounds as there are clients in the
  -- channels Connect and DisConnect neither wait nor panic, and leave both channels empty.
  pub start_empties :
      (picks : List Bool) (w : World)
      → picks_of true picks ≡ length w.manager.connect
      → picks_of false picks ≡ length w.manager.dis_connect
      → (v : World) × (perform_all lib (rounds picks) w ≡ done v)
        × (v.manager.connect ≡ [])
        × (v.manager.dis_connect ≡ [])
  start_empties picks w a b =
      start_rounds picks w.manager.connect w.manager.dis_connect w refl refl (sym a) (sym b)
