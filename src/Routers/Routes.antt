-- ===== src/Routers/Routes.antt =====
-- routers/routers.go: Init puts the handlers into the table of net/http, with StartWebSocket of
-- servers/server.go, which adds its own and starts the loop of the connection manager.
use go_websocket.Prelude.{
  ◌≡◌, refl, sym, ◌∙◌, ap, Bool, true, false, Option, none, some, [], ◌∷◌, arith, if◌then◌else◌,
  Bool-cases, inl, inr,
}
use go_websocket.Prelude.Text.{Str, codes, str_eq, str_eq_iff}
use go_websocket.Prelude.Dict.{Dict, lookup, insert, NodupKeys, lookup-insert}

-- The handlers, each the Run of a controller.
pub data Handler : Type 0 where
  register_run send2_client_run send2_clients_run send2_group_run bind2_group_run : Handler
  get_online_list_run close_client_run client_statistics_run websocket_run : Handler

-- What a path leads to: a handler in AccessLogMiddleware, one in AccessTokenMiddleware, or a bare one.
pub data Route : Type 0 where
  access_logged access_checked bare : Handler → Route

-- The table of net/http, and which loops run as goroutines.
pub record Routing : Type 0 where
  pub mux : Dict Route
  pub manager_starts : Bool
  pub messages_written : Bool

-- http.HandleFunc; `none` is its panic for a pattern that is registered already.
unfoldable pub handle_func : Str → Route → Routing → Option Routing
handle_func path route s = elim (lookup path s.mux) [
  | none ↦ some (record s { mux = insert path route s.mux })
  | some old ↦ none
]

infixl 5 ◌>>=◌
abbrev pub ◌>>=◌ : Option Routing → (Routing → Option Routing) → Option Routing
none >>= f = none
some s >>= f = f s

-- StartWebSocket
unfoldable pub start_web_socket : Routing → Option Routing
start_web_socket s = handle_func (codes "/ws") (bare websocket_run) s >>= λ s.
    some (record s { manager_starts = true })

-- Init
unfoldable pub init : Routing → Option Routing
unfolding start_web_socket
init s = do
  s ← handle_func (codes "/api/register") (access_logged register_run) s
  s ← handle_func (codes "/api/send_to_client") (access_logged send2_client_run) s
  s ← handle_func (codes "/api/send_to_clients") (access_logged send2_clients_run) s
  s ← handle_func (codes "/api/send_to_group") (access_logged send2_group_run) s
  s ← handle_func (codes "/api/bind_to_group") (access_logged bind2_group_run) s
  s ← handle_func (codes "/api/get_online_list") (access_logged get_online_list_run) s
  s ← handle_func (codes "/api/close_client") (access_logged close_client_run) s
  s ← handle_func (codes "/api/account/client/count") (access_logged client_statistics_run) s
  s ← start_web_socket s
  some (record s { messages_written = true })

abbrev pub api_routes : Dict Route
api_routes =
    (codes "/api/register", access_logged register_run)
    ∷ (codes "/api/send_to_client", access_logged send2_client_run)
    ∷ (codes "/api/send_to_clients", access_logged send2_clients_run)
    ∷ (codes "/api/send_to_group", access_logged send2_group_run)
    ∷ (codes "/api/bind_to_group", access_logged bind2_group_run)
    ∷ (codes "/api/get_online_list", access_logged get_online_list_run)
    ∷ (codes "/api/close_client", access_logged close_client_run)
    ∷ (codes "/api/account/client/count", access_logged client_statistics_run)
    ∷ []

-- The interface of the server, each path with its handler.
abbrev pub interface : Dict Route
interface = (codes "/ws", bare websocket_run) ∷ api_routes

-- No path of a table is registered.
abbrev pub AreFree : Dict Route → Dict Route → Type 0
AreFree [] mux = Unit {0}
AreFree ((path, route) ∷ routes) mux = (lookup path mux ≡ none) × AreFree routes mux

abbrev pub route_or : Option Route → Option Route → Option Route
route_or (some route) old = some route
route_or none old = old

abbrev handle_all : Dict Route → (Routing → Option Routing) → Routing → Option Routing
handle_all [] last s = last s
handle_all ((path, route) ∷ routes) last s =
    handle_func path route s >>= λ s. handle_all routes last s

abbrev with_routes : Dict Route → Routing → Routing
with_routes [] s = s
with_routes ((path, route) ∷ routes) s =
    with_routes routes (record s { mux = insert path route s.mux })

handle_func_free :
    (path : Str) (route : Route) (s : Routing)
    → lookup path s.mux ≡ none
    → handle_func path route s ≡ some (record s { mux = insert path route s.mux })
unfolding handle_func
handle_func_free path route s h = rw (h, handle_func) refl

AreFree-insert :
    (path : Str) (route : Route) (routes mux : Dict Route)
    → lookup path routes ≡ none
    → AreFree routes mux
    → AreFree routes (insert path route mux)
unfolding lookup
AreFree-insert path route [] mux h a = tt
AreFree-insert path route ((p, r) ∷ routes) mux h (free, a) = (
  ground (arith, lookup-insert path p route mux, str_eq_iff p path, str_eq_iff path p, h, free),
  AreFree-insert path route routes mux (ground (arith, h)) a,
)

handle_all_free :
    (routes : Dict Route) (last : Routing → Option Routing) (s : Routing)
    → NodupKeys routes
    → AreFree routes s.mux
    → handle_all routes last s ≡ last (with_routes routes s)
handle_all_free [] last s n a = refl
handle_all_free ((path, route) ∷ routes) last s (fresh, n) (free, a) =
    rw (handle_func_free path route s free) (
      handle_all_free routes last (record s { mux = insert path route s.mux }) n
        (AreFree-insert path route routes s.mux fresh a))

lookup-with_routes :
    (path : Str) (routes : Dict Route) (s : Routing)
    → NodupKeys routes
    → lookup path (with_routes routes s).mux ≡ route_or (lookup path routes) (lookup path s.mux)
unfolding lookup
lookup-with_routes path [] s n = refl
lookup-with_routes path ((p, r) ∷ routes) s (fresh, n) =
    lookup-with_routes path routes (record s { mux = insert p r s.mux }) n
    ∙ elim (Bool-cases (str_eq p path)) [
      | inl e ↦
          let gone : lookup path routes ≡ none =
            ap (λ x. lookup x routes) (sym ((str_eq_iff p path).0 e)) ∙ fresh in
          rw (gone, lookup-insert p path r s.mux, e) refl
      | inr e ↦ rw (lookup-insert p path r s.mux, e) refl
    ]

api_routes-NodupKeys : NodupKeys api_routes
unfolding lookup str_eq
api_routes-NodupKeys = (refl, (refl, (refl, (refl, (refl, (refl, (refl, (refl, tt))))))))

ws_free :
    (s : Routing)
    → lookup (codes "/ws") s.mux ≡ none
    → lookup (codes "/ws") (with_routes api_routes s).mux ≡ none
unfolding lookup str_eq
ws_free s h = lookup-with_routes (codes "/ws") api_routes s api_routes-NodupKeys ∙ h

abbrev with_sockets : Routing → Routing
with_sockets s = record {
  mux = insert (codes "/ws") (bare websocket_run) s.mux;
  manager_starts = true;
  messages_written = true;
}

sockets :
    (s : Routing)
    → lookup (codes "/ws") s.mux ≡ none
    → (start_web_socket s >>= λ s. some (record s { messages_written = true }))
      ≡ some (with_sockets s)
unfolding start_web_socket
sockets s h = rw (handle_func_free (codes "/ws") (bare websocket_run) s h) refl

-- Where none of the nine paths is registered Init does not panic: each of them then leads to its
-- handler, in AccessLogMiddleware but for that of the websockets, every other path to what it did,
-- and the loop Start and WriteMessage run.
pub init_lem :
    (s : Routing)
    → AreFree interface s.mux
    → (t : Routing) × (init s ≡ some t)
      × ((path : Str) → lookup path t.mux ≡ route_or (lookup path interface) (lookup path s.mux))
      × (t.manager_starts ≡ true)
      × (t.messages_written ≡ true)
unfolding init lookup
init_lem s (ws, a) =
    let u = with_routes api_routes s in
    (
      with_sockets u,
      handle_all_free api_routes
            (λ s. start_web_socket s >>= λ s. some (record s { messages_written = true })) s
            api_routes-NodupKeys a
          ∙ sockets u (ws_free s ws),
      λ path.
          lookup-insert (codes "/ws") path (bare websocket_run) u.mux
          ∙ merged path (str_eq (codes "/ws") path)
              (lookup-with_routes path api_routes s api_routes-NodupKeys),
      refl,
      refl,
    )
  where
    merged :
        (path : Str) (b : Bool)
        → lookup path (with_routes api_routes s).mux
          ≡ route_or (lookup path api_routes) (lookup path s.mux)
        → (if b then some (bare websocket_run) else lookup path (with_routes api_routes s).mux)
          ≡ route_or
              (if b then some (bare websocket_run) else lookup path api_routes)
              (lookup path s.mux)
    merged path true h = refl
    merged path false h = h
