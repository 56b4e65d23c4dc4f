-- ===== src/Util.antt =====
-- tools/util/util.go: the client ids that name a machine, and the keys of groups.
pub mod Laws
use go_websocket.Prelude.{
  ℕ, ◌-◌, ◌≡◌, Bool, true, false, List, [], ◌∷◌, ◌++◌, ◌&&◌, ltb, ◌==◌, if◌then◌else◌, length, take,
  drop,
}
use go_websocket.Prelude.Text.{Str, str_eq, split}
use go_websocket.Prelude.Result.{Result, ok, err, panic, ◌>>=◌, malformed_address}
use go_websocket.Crypto.{Bytes, Cipher, encrypt, decrypt}
use go_websocket.Setting.{CommonConf, Global}

-- strings.Replace(s, "-", "", -1)
unfoldable pub remove_dashes : Str → Str
remove_dashes [] = []
remove_dashes (c ∷ s) = let rest = remove_dashes s in if c == b'-' then rest else c ∷ rest

-- GenUUID, from the text of uuid.NewV4; the slice [8:24] panics on a shorter text.
unfoldable pub gen_uuid : Str → Result Str
gen_uuid uuid_str =
    let uuid = remove_dashes uuid_str in
    if ltb (length uuid) 24 then panic else ok (take 16 (drop 8 uuid))

-- GenClientId
unfoldable pub gen_client_id : Cipher → Result Bytes → CommonConf → Global → Result Str
gen_client_id c rand common global =
    let raw = global.local_host ++ (b':' ∷ common.rpc_port) in
    elim (encrypt c rand raw common.crypto_key) [ ok s ↦ ok s | err e ↦ panic | panic ↦ panic ]

abbrev host_port : List Str → Result (Str × Str)
host_port [] = err malformed_address
host_port (host ∷ []) = err malformed_address
host_port (host ∷ port ∷ []) = ok (host, port)
host_port (host ∷ port ∷ more ∷ rest) = err malformed_address

-- ParseRedisAddrValue
unfoldable pub parse_redis_addr_value : Str → Result (Str × Str)
parse_redis_addr_value redis_value =
    if str_eq redis_value [] then err malformed_address else host_port (split b':' redis_value)

unfoldable pub is_addr_local : Str → Str → CommonConf → Global → Bool
is_addr_local host port common global = str_eq host global.local_host && str_eq port common.rpc_port

abbrev pub is_cluster : CommonConf → Bool
is_cluster common = common.cluster

pub record AddrInfo : Type 0 where
  pub addr : Str
  pub host : Str
  pub port : Str
  pub is_local : Bool

-- GetAddrInfoAndIsLocal
unfoldable pub get_addr_info_and_is_local : Cipher → CommonConf → Global → Str → Result AddrInfo
get_addr_info_and_is_local c common global client_id = do
  addr ← decrypt c client_id common.crypto_key
  (host, port) ← parse_redis_addr_value addr
  ok (record {
    addr = addr;
    host = host;
    port = port;
    is_local = is_addr_local host port common global;
  })

unfoldable pub gen_group_key : Str → Str → Str
gen_group_key system_id group_name = system_id ++ (b':' ∷ group_name)
