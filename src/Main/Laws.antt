-- ===== src/Main/Laws.antt =====
-- What has happened when a server begins to listen (main.go), and what a server that then gets the
-- servers from etcd knows of the address that its client ids carry (tools/util/util.go, pkg/etcd).
use go_websocket.Prelude.{
  ℕ, ◌≡◌, refl, sym, ◌∙◌, ap, Bool, true, Option, some, [], ◌∷◌, ◌++◌, arith, length,
}
use go_websocket.Prelude.Text.{Str, has_prefix, Free}
use go_websocket.Prelude.Dict.{Dict, lookup, NodupKeys}
use go_websocket.Prelude.Result.{ok}
use go_websocket.Setting.{CommonConf, Global}
use go_websocket.Crypto.{Cipher, Bytes, IsLawful, new_cipher}
use go_websocket.Util.{is_addr_local, is_cluster, gen_client_id, get_addr_info_and_is_local}
use go_websocket.Util.Laws.{names, get_addr_info-gen_client_id, is_addr_local_self}
use go_websocket.Discovery.{get_service}
use go_websocket.Discovery.Laws.{puts, get_service_lem, lookup-handle_events}
use go_websocket.Discovery.Puts.{puts_present, handle_events-local_host}
use go_websocket.Registration.{Leases, put_service}
use go_websocket.Routers.Routes.{init}
use go_websocket.Main.Steps.{HasRegistered, main-goes_on}
use go_websocket.Main.{etcd_server_list, Boot, goes_on, host_port, main}

-- What etcd promises: after a Put without an error, a Get of a prefix of the key that succeeds gives
-- the key once, with the value.
abbrev pub KeepsPuts : {S : Type 0} → Leases S → Type 0
KeepsPuts {S} e =
    (k v p : Str) (lease : ℕ) (s t : S) (kvs : Dict (Option Str))
    → e.put_with_lease k v lease s ≡ (t, ok tt)
    → has_prefix k p ≡ true
    → e.get_prefix p t ≡ ok kvs
    → NodupKeys kvs × (lookup k kvs ≡ some (some v))

-- net.JoinHostPort puts a colon between the two, and brackets round a host only where it has a colon
-- or a percent sign.
abbrev pub JoinsPlain : (Str → Str → Str) → Type 0
JoinsPlain join =
    (host port : Str) → Free b':' host → Free b'%' host → join host port ≡ host ++ b':' ∷ port

has_prefix-append : (s t : Str) → has_prefix (s ++ t) s ≡ true
unfolding has_prefix
has_prefix-append [] t = refl
has_prefix-append (c ∷ s) t = ground (arith, has_prefix-append s t)

module _ {S : Type 0} (e : Leases S) (join : Str → Str → Str) (common : CommonConf) where
  -- A server that gets its list from etcd finds the server under its key, whatever it had before.
  found_by_all :
      KeepsPuts e
      → (b c : Boot S) → HasRegistered e join common b c
      → (g : Global)
      → lookup
          (etcd_server_list ++ host_port e join common b)
          (get_service (e.get_prefix etcd_server_list c.etcd) g).0.server_list
        ≡ some (host_port e join common b)
  unfolding put_service
  found_by_all keeps b c (s, ser, t, kvs, put, answer, same) g =
      let hp = host_port e join common b in
      let key = etcd_server_list ++ hp in
      let (nodup, has) =
        keeps key hp etcd_server_list ser.lease_resp s t kvs put
          (has_prefix-append etcd_server_list hp) answer in
      let got : e.get_prefix etcd_server_list c.etcd ≡ ok kvs =
        ap (λ d. e.get_prefix etcd_server_list d.etcd) (sym same) ∙ answer in
      ap (λ r. lookup key (get_service r g).0.server_list) got
      ∙ (ap (λ r. lookup key r.0.server_list) (get_service_lem kvs g)
          ∙ (lookup-handle_events key (puts kvs) g
              ∙ puts_present key hp kvs (lookup key g.server_list) nodup has))

  -- What registerServer leaves as it is, and the list of servers that it gets.
  after_registration :
      (b c : Boot S)
      → HasRegistered e join common b c
      → (c.global ≡ (get_service (e.get_prefix etcd_server_list c.etcd) b.global).0)
        × (c.global.local_host ≡ b.global.local_host)
        × (c.rpc_port ≡ b.rpc_port)
        × (c.routing ≡ b.routing)
  after_registration b c (s, ser, t, kvs, put, answer, same) =
      let got : e.get_prefix etcd_server_list c.etcd ≡ ok kvs =
        ap (λ d. e.get_prefix etcd_server_list d.etcd) (sym same) ∙ answer in
      (
        ap (λ d. d.global) (sym same)
            ∙ sym (
                ap (λ r. (get_service r b.global).0) got
                ∙ ap (λ r. r.0) (get_service_lem kvs b.global)),
        ap (λ d. d.global.local_host) (sym same) ∙ handle_events-local_host (puts kvs) b.global,
        ap (λ d. d.rpc_port) (sym same),
        ap (λ d. d.routing) (sym same),
      )

  -- Where main of a server in a cluster has come to listen, the RPC server runs on its port, the HTTP
  -- server on its own, the routes are what Init makes of those that there were, and the server is
  -- under its key in its own list of servers and in the list that any server gets from etcd as it
  -- then is. The promise is that etcd keeps what is put.
  pub main_lem :
      KeepsPuts e
      → (listens : Bool) (b c : Boot S) → is_cluster common ≡ true
      → main e join common listens b ≡ goes_on c
      → (c.rpc_port ≡ some (b':' ∷ common.rpc_port))
        × (c.http_port ≡ some (b':' ∷ common.http_port))
        × (init b.routing ≡ some c.routing)
        × (c.global.local_host ≡ b.global.local_host)
        × (lookup (etcd_server_list ++ host_port e join common b) c.global.server_list
            ≡ some (host_port e join common b))
        × ((g : Global)
            → lookup
                (etcd_server_list ++ host_port e join common b)
                (get_service (e.get_prefix etcd_server_list c.etcd) g).0.server_list
              ≡ some (host_port e join common b))
  main_lem keeps listens b c k h =
      let start = record b { rpc_port = some (b':' ∷ common.rpc_port) } in
      let key = etcd_server_list ++ host_port e join common b in
      let (d, reg, routes, same) = main-goes_on e join common listens b c k h in
      let (list, host, rpc, routing) = after_registration start d reg in
      let found = found_by_all keeps start d reg in
      (
        ap (λ x. x.rpc_port) (sym same) ∙ rpc,
        ap (λ x. x.http_port) (sym same),
        ap init (sym routing) ∙ routes,
        ap (λ x. x.global.local_host) (sym same) ∙ host,
        ap (λ x. lookup key x.global.server_list) (sym same)
            ∙ (ap (λ g. lookup key g.server_list) list ∙ found b.global),
        λ g.
            ap
              (λ x. lookup key (get_service (e.get_prefix etcd_server_list x.etcd) g).0.server_list)
              (sym same)
            ∙ found g,
      )

  -- Once main of a server in a cluster listens, GenClientId succeeds there, and the id tells the
  -- address of this server, its host and its RPC port, both to this server, as local, and to every
  -- other one with the same crypto key, as local exactly if the host and the port are its own too.
  -- This server has the address under the key of the address in its list of servers, and so has any
  -- other server, whatever its list was, once it gets the servers from etcd as main left it. Host and
  -- port are free of colons, the host of percent signs, AES takes the key, there are 16 random bytes,
  -- the libraries are lawful, etcd keeps what is put, and net.JoinHostPort joins by a colon.
  pub ids_name_servers :
      KeepsPuts e
      → JoinsPlain join
      → (cipher : Cipher) → IsLawful cipher
      → (iv : Bytes) → length iv ≡ 16
      → new_cipher common.crypto_key ≡ ok tt
      → (listens : Bool) (b c : Boot S) → is_cluster common ≡ true
      → Free b':' b.global.local_host
      → Free b'%' b.global.local_host
      → Free b':' common.rpc_port
      → main e join common listens b ≡ goes_on c
      → (reader : CommonConf) (other : Global) → reader.crypto_key ≡ common.crypto_key
      → (id : Str) × (addr : Str) × (addr ≡ c.global.local_host ++ b':' ∷ common.rpc_port)
        × (gen_client_id cipher (ok iv) common c.global ≡ ok id)
        × (get_addr_info_and_is_local cipher common c.global id
            ≡ ok (names c.global.local_host common.rpc_port true))
        × (lookup (etcd_server_list ++ addr) c.global.server_list ≡ some addr)
        × (get_addr_info_and_is_local cipher reader other id
            ≡ ok (
                names c.global.local_host common.rpc_port
                  (is_addr_local c.global.local_host common.rpc_port reader other)))
        × (lookup
              (etcd_server_list ++ addr)
              (get_service (e.get_prefix etcd_server_list c.etcd) other).0.server_list
            ≡ some addr)
  ids_name_servers keeps plain cipher law iv i key listens b c k colon percent port h reader other
        shared =
      let (rpc, http, routes, host, own, found) = main_lem keeps listens b c k h in
      let (id, made, read) =
        get_addr_info-gen_client_id cipher law common c.global iv key i (rw host colon) port in
      let joined : host_port e join common b ≡ c.global.local_host ++ b':' ∷ common.rpc_port =
        plain b.global.local_host common.rpc_port colon percent
        ∙ ap (λ x. x ++ b':' ∷ common.rpc_port) (sym host) in
      (
        id,
        host_port e join common b,
        joined,
        made,
        read common c.global refl
            ∙ ap (λ l. ok (names c.global.local_host common.rpc_port l))
                (is_addr_local_self common c.global),
        own,
        read reader other shared,
        found other,
      )
