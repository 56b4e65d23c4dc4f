-- ===== src/Main/Steps.antt =====
-- The steps that main.go has taken where a server of a cluster has come to listen.
use go_websocket.Prelude.{
  none, some, ◌≡◌, refl, sym, ◌∙◌, ap, Bool, true, false, Option, some, ◌∷◌, ◌++◌, arith,
  if◌then◌else◌,
}
use go_websocket.Prelude.Text.{Str}
use go_websocket.Prelude.Dict.{Dict}
use go_websocket.Prelude.Result.{Result, ok, err, panic}
use go_websocket.Setting.{CommonConf}
use go_websocket.Util.{is_cluster}
use go_websocket.Discovery.{ClientDis, get_service, handle_events}
use go_websocket.Discovery.Laws.{puts, get_service_lem}
use go_websocket.Registration.{Leases, ServiceReg, new_service_reg, put_service}
use go_websocket.Routers.Routes.{Routing, init}
use go_websocket.Main.{
  etcd_server_list, Boot, Step, goes_on, panics, ◌>>=◌, init_rpc_server, discovered_list,
  connected_dis, put_done, host_port, registered, register_server, routed, main,
}

module _ {S : Type 0} (e : Leases S) (join : Str → Str → Str) (common : CommonConf) where
  -- What happened where registerServer of a cluster came to its end.
  abbrev pub HasRegistered : Boot S → Boot S → Type 0
  HasRegistered b c =
      (s : S) × (ser : ServiceReg) × (t : S) × (kvs : Dict (Option Str)) × (put_service e
          (etcd_server_list ++ host_port e join common b) (host_port e join common b) ser s
        ≡ (t, ok tt))
      × (e.get_prefix etcd_server_list t ≡ ok kvs)
      × (record b { etcd = t; global = handle_events (puts kvs) b.global } ≡ c)

  abbrev boot_of : Step S → Boot S
  boot_of (goes_on b) = b
  boot_of (panics b) = b

  from_answer :
      (b c : Boot S) (answer : Result (Dict (Option Str)))
      → discovered_list e join common b (get_service answer b.global) ≡ goes_on c
      → (kvs : Dict (Option Str)) × (answer ≡ ok kvs)
        × (record b { global = handle_events (puts kvs) b.global } ≡ c)
  unfolding get_service
  from_answer b c (ok kvs) h = (
    kvs,
    refl,
    sym (ap (λ r. record b { global = r.0 }) (get_service_lem kvs b.global)) ∙ ap boot_of h,
  )
  from_answer b c (err x) h = absurd (ground (arith, h))
  from_answer b c panic h = absurd (ground (arith, h))

  from_connection :
      (b c : Boot S) (r : Result (ClientDis (Unit {0})))
      → connected_dis e join common b r ≡ goes_on c
      → (kvs : Dict (Option Str)) × (e.get_prefix etcd_server_list b.etcd ≡ ok kvs)
        × (record b { global = handle_events (puts kvs) b.global } ≡ c)
  from_connection b c (ok u) h = from_answer b c (e.get_prefix etcd_server_list b.etcd) h
  from_connection b c (err x) h = absurd (ground (arith, h))
  from_connection b c panic h = absurd (ground (arith, h))

  from_put :
      (b c : Boot S) (p : S × Result (Unit {0}))
      → put_done e join common b p ≡ goes_on c
      → (t : S) × (kvs : Dict (Option Str)) × (p ≡ (t, ok tt))
        × (e.get_prefix etcd_server_list t ≡ ok kvs)
        × (record b { etcd = t; global = handle_events (puts kvs) b.global } ≡ c)
  from_put b c (t, ok u) h =
      let (kvs, answer, same) = from_connection (record b { etcd = t }) c _ h in
      (t, kvs, refl, answer, same)
  from_put b c (t, err x) h = absurd (ground (arith, h))
  from_put b c (t, panic) h = absurd (ground (arith, h))

  from_reg :
      (b c : Boot S) (p : S × Result ServiceReg)
      → registered e join common b p ≡ goes_on c
      → HasRegistered b c
  from_reg b c (s, ok ser) h =
      let (t, kvs, put, answer, same) = from_put b c _ h in (s, ser, t, kvs, put, answer, same)
  from_reg b c (s, err x) h = absurd (ground (arith, h))
  from_reg b c (s, panic) h = absurd (ground (arith, h))

  register_server-goes_on :
      (b c : Boot S)
      → is_cluster common ≡ true
      → register_server e join common b ≡ goes_on c
      → HasRegistered b c
  unfolding register_server
  register_server-goes_on b c k h = from_reg b c (new_service_reg e 5 b.etcd) (
      ap
        (λ (t : Bool).
          if t then registered e join common b (new_service_reg e 5 b.etcd) else goes_on b)
        (sym k)
      ∙ h)

  from_routes :
      (listens : Bool) (d c : Boot S) (o : Option Routing)
      → init d.routing ≡ o
      → routed e join common listens d o ≡ goes_on c
      → (d' : Boot S) × (goes_on d ≡ goes_on d')
        × (init d'.routing ≡ some c.routing)
        × (record d' {
          routing = c.routing;
          heartbeat = true;
          http_port = some (b':' ∷ common.http_port);
        }
            ≡ c)
  from_routes listens d c none i h = absurd (ground (arith, h))
  from_routes true d c (some routing) i h =
      let made : routing ≡ c.routing = ap (λ x. (boot_of x).routing) h in
      (
        d,
        refl,
        i ∙ ap some made,
        ap
              (λ r. record d {
                routing = r;
                heartbeat = true;
                http_port = some (b':' ∷ common.http_port);
              })
              (sym made)
            ∙ ap boot_of h,
      )
  from_routes false d c (some routing) i h = absurd (ground (arith, h))

  -- What the rest of main adds.
  from_listen :
      (listens : Bool) (p : Step S) (c : Boot S)
      → (p >>= λ d. routed e join common listens d (init d.routing)) ≡ goes_on c
      → (d : Boot S) × (p ≡ goes_on d)
        × (init d.routing ≡ some c.routing)
        × (record d {
          routing = c.routing;
          heartbeat = true;
          http_port = some (b':' ∷ common.http_port);
        }
            ≡ c)
  from_listen listens (goes_on d) c h = from_routes listens d c (init d.routing) refl h
  from_listen listens (panics d) c h = absurd (ground (arith, h))

  -- main of a cluster that comes to listen has gone through all its steps.
  pub main-goes_on :
      (listens : Bool) (b c : Boot S)
      → is_cluster common ≡ true
      → main e join common listens b ≡ goes_on c
      → (d : Boot S) × HasRegistered (record b { rpc_port = some (b':' ∷ common.rpc_port) }) d
        × (init d.routing ≡ some c.routing)
        × (record d {
          routing = c.routing;
          heartbeat = true;
          http_port = some (b':' ∷ common.http_port);
        }
            ≡ c)
  unfolding main init_rpc_server
  main-goes_on listens b c k h =
      let (d, reg, routes, same) =
        from_listen listens (register_server e join common (init_rpc_server e join common b)) c h in
      (
        d,
        register_server-goes_on (record b { rpc_port = some (b':' ∷ common.rpc_port) }) d k
            (ap
                (λ (t : Bool).
                  register_server e join common
                    (if t then record b { rpc_port = some (b':' ∷ common.rpc_port) } else b))
                (sym k)
              ∙ reg),
        routes,
        same,
      )
