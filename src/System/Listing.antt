-- ===== src/System/Listing.antt =====
-- How often a connection lists its client as online: the handshake (servers/connect.go) and then
-- EventConnect (servers/clientmanager.go) both add the client.
use go_websocket.Prelude.{
  ℕ, ◌+◌, ◌≡◌, refl, ◌∙◌, ap, some, [], ◌∷◌, ◌++◌, false, true, arith, ==_iff,
}
use go_websocket.Prelude.Text.{Str, codes, str_eq, str_eq_refl}
use go_websocket.Client.{Client, Ref, new_client}
use go_websocket.Manager.{ClientManager, is_app, add_client, add_client2_system_client}
use go_websocket.Manager.Accounts.{online, in_account}
use go_websocket.Manager.Online.{online-add_client}
use go_websocket.Manager.Sound.{add_client2_system_client-SameChannels}
use go_websocket.World.{World, done, ◌>>=◌, conn_suc}
use go_websocket.Events.{start_connect, take_connect, event_connect}
use go_websocket.Connect.{Handshake, link_text}
use go_websocket.System.{Libraries, connects, takes_connect, perform, or_waits}
use go_websocket.System.Journey.{perform_all, id_of, linked, run_linked}

-- Adding an APP_ client lists it once more.
app_again :
    (c : Client) (r : Ref) (key : Str) (m : ClientManager)
    → is_app c.client_id ≡ true
    → in_account c.client_id key ≡ true
    → online c.client_id key (add_client c r m) ≡ online c.client_id key m + 1
app_again c r key m app acc =
    online-add_client c r c.client_id key m ∙ rw (app, acc, str_eq_refl c.client_id)

-- A server whose channel Connect is empty.
abbrev pub idle : World → World
idle w = record w { manager = record w.manager { connect = [] } }

module _ (lib : Libraries) (now socket : ℕ) (h : Handshake) where
  take_step :
      (w : World) (r : Ref)
      → w.manager.connect ≡ r ∷ []
      → perform lib takes_connect w ≡ done (event_connect r (idle w))
  unfolding perform start_connect take_connect
  take_step w r e = ap (λ l. or_waits w (take_connect lib.marshal lib.uuid l w)) e

  -- Where the channel Connect is empty, the handshake of a client with an APP_ id and an account,
  -- whose socket takes the frame that links it, and the round of the loop Start that it causes list the id
  -- two times more in the online list of its account.
  pub app_listed_twice :
      (w : World) (key : Str)
      → is_app (id_of h) ≡ true
      → in_account (id_of h) key ≡ true
      → str_eq (id_of h) [] ≡ false
      → lib.write_json socket (conn_suc (codes "Link") link_text) ≡ true
      → (v : World) × (perform_all lib (connects now (some socket) h ∷ takes_connect ∷ []) (idle w)
          ≡ done v)
        × (online (id_of h) key v.manager ≡ online (id_of h) key w.manager + 2)
  unfolding event_connect add_client2_system_client new_client
  app_listed_twice w key app acc n ok =
      let c = new_client now (id_of h) h.remote_addr (id_of h) socket in
      let (same, _) =
        add_client2_system_client-SameChannels (id_of h) c w.next_client (idle w).manager in
      let l = linked now socket h (idle w) in
      let first = app_again c w.next_client key (idle w).manager app acc in
      let second = app_again c w.next_client key (idle l).manager app acc in
      (
        event_connect w.next_client (idle l),
        ap (λ p. p >>= λ x. perform_all lib (takes_connect ∷ []) x)
              (run_linked lib now socket h (idle w) n (omega arith) ok)
            ∙ ap (λ p. p >>= λ x. done x)
                (take_step l w.next_client (ap (λ q. q ++ w.next_client ∷ []) same)),
        rw ((==_iff w.next_client w.next_client).1 refl) (omega (arith, first, second)),
      )
