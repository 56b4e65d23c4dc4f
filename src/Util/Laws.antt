-- ===== src/Util/Laws.antt =====
-- What the addresses and keys of tools/util/util.go determine.
use go_websocket.Prelude.{
  ℕ, ◌+◌, ◌≡◌, zero, suc, length-drop, ◌≤◌, refl, ap, Bool, true, false, [], ◌∷◌, ◌++◌, ◌==◌,
  if◌then◌else◌, length, take, drop, arith, inl, inr, Bool-cases, le→ltb,
}
use go_websocket.Prelude.Text.{Str, str_eq, str_eq_refl, Free, split-Free, split-append}
use go_websocket.Prelude.Result.{ok}
use go_websocket.Crypto.{Bytes, Cipher, IsLawful, new_cipher}
use go_websocket.Crypto.Laws.{decrypt-encrypt_lem}
use go_websocket.Setting.{CommonConf, Global}
use go_websocket.Util.{
  AddrInfo, remove_dashes, gen_uuid, gen_client_id, parse_redis_addr_value, is_addr_local,
  get_addr_info_and_is_local, gen_group_key,
}

nonempty_host : (host port : Str) → str_eq (host ++ b':' ∷ port) [] ≡ false
unfolding str_eq
nonempty_host [] port = refl
nonempty_host (c ∷ host) port = refl

-- A host and a port without colons are read back from `host:port`.
pub parse_redis_addr_value_joined :
    (host port : Str)
    → Free b':' host
    → Free b':' port
    → parse_redis_addr_value (host ++ b':' ∷ port) ≡ ok (host, port)
unfolding parse_redis_addr_value
parse_redis_addr_value_joined host port h p =
    rw (nonempty_host host port, split-append b':' host port h, split-Free b':' port p)

-- What an id says of the address of a client's server.
abbrev pub names : Str → Str → Bool → AddrInfo
names host port is_local = record {
  addr = host ++ b':' ∷ port;
  host = host;
  port = port;
  is_local = is_local;
}

-- The id that a server makes is read as its address by every server with the same key, and as local
-- where that address is the reader's: with colon-free host and port, a key that AES takes and 16
-- random bytes, GenClientId succeeds and GetAddrInfoAndIsLocal gives the address back.
pub get_addr_info-gen_client_id :
    (c : Cipher)
    → IsLawful c
    → (common : CommonConf) (global : Global) (iv : Bytes) → new_cipher common.crypto_key ≡ ok tt
    → length iv ≡ 16
    → Free b':' global.local_host
    → Free b':' common.rpc_port
    → (s : Str) × (gen_client_id c (ok iv) common global ≡ ok s)
      × ((reader : CommonConf) (other : Global)
          → reader.crypto_key ≡ common.crypto_key
          → get_addr_info_and_is_local c reader other s
            ≡ ok (
                names global.local_host common.rpc_port
                  (is_addr_local global.local_host common.rpc_port reader other)))
unfolding gen_client_id get_addr_info_and_is_local
get_addr_info-gen_client_id c law common global iv k e h p =
    let (s, made, read) =
      decrypt-encrypt_lem c law common.crypto_key iv (global.local_host ++ b':' ∷ common.rpc_port) k
        e in
    (
      s,
      rw (made, gen_client_id),
      λ reader other same.
          rw (same, read, parse_redis_addr_value_joined global.local_host common.rpc_port h p),
    )

pub is_addr_local_self :
    (common : CommonConf) (global : Global)
    → is_addr_local global.local_host common.rpc_port common global ≡ true
unfolding is_addr_local
is_addr_local_self common global = rw (str_eq_refl global.local_host, str_eq_refl common.rpc_port)

-- Group keys of system ids without a colon tell the systems and the groups apart.
pub gen_group_key-injective :
    (s t g h : Str)
    → Free b':' s
    → Free b':' t
    → gen_group_key s g ≡ gen_group_key t h
    → (s ≡ t) × (g ≡ h)
unfolding gen_group_key
gen_group_key-injective [] [] g h p q e = (refl, cc)
gen_group_key-injective [] (d ∷ t) g h p q e = absurd (ground (arith, q.0))
gen_group_key-injective (c ∷ s) [] g h p q e = absurd (ground (arith, p.0))
gen_group_key-injective (c ∷ s) (d ∷ t) g h p q e =
    let (a, b) = gen_group_key-injective s t g h p.1 q.1 cc in (cc, b)

-- A system id with a colon shares its keys with another system.
pub gen_group_key_shared :
    (a b g : Str) → gen_group_key (a ++ b':' ∷ b) g ≡ gen_group_key a (b ++ b':' ∷ g)
unfolding gen_group_key
gen_group_key_shared [] b g = refl
gen_group_key_shared (c ∷ a) b g = ap (λ s. c ∷ s) (gen_group_key_shared a b g)

abbrev pub dashes : Str → ℕ
dashes [] = 0
dashes (c ∷ s) = (if c == b'-' then 1 else 0) + dashes s

length-remove_dashes : (s : Str) → length (remove_dashes s) + dashes s ≡ length s
unfolding remove_dashes
length-remove_dashes [] = omega arith
length-remove_dashes (c ∷ s) = ground (arith, length-remove_dashes s)

remove_dashes-Free : (s : Str) → Free b'-' (remove_dashes s)
unfolding remove_dashes
remove_dashes-Free [] = tt
remove_dashes-Free (c ∷ s) = elim (Bool-cases (c == b'-')) [
  | inl e ↦ rw e (remove_dashes-Free s)
  | inr e ↦ rw e (e, remove_dashes-Free s)
]

Free-take : (n : ℕ) (s : Str) → Free b'-' s → Free b'-' (take n s)
Free-take zero s h = tt
Free-take (suc n) [] h = tt
Free-take (suc n) (c ∷ s) h = (h.0, Free-take n s h.1)

Free-drop : (n : ℕ) (s : Str) → Free b'-' s → Free b'-' (drop n s)
Free-drop zero s h = h
Free-drop (suc n) [] h = tt
Free-drop (suc n) (c ∷ s) h = Free-drop n s h.1

length-take : (n : ℕ) (s : Str) → n ≤ length s → length (take n s) ≡ n
length-take zero s h = refl
length-take (suc n) [] h = absurd (omega arith)
length-take (suc n) (c ∷ s) h = ap suc (length-take n s (omega arith))

-- From a text that has at least 24 bytes besides its dashes, as the 36 bytes of a UUID have,
-- GenUUID makes a message id of 16 bytes, none of them a dash.
pub gen_uuid_lem :
    (uuid : Str)
    → 24 + dashes uuid ≤ length uuid
    → (s : Str) × (gen_uuid uuid ≡ ok s) × (length s ≡ 16) × Free b'-' s
unfolding gen_uuid
gen_uuid_lem uuid h =
    let t = remove_dashes uuid in
    let l = length-remove_dashes uuid in
    (
      take 16 (drop 8 t),
      rw (le→ltb (length t) 24 (omega arith)),
      length-take 16 (drop 8 t) (omega (arith, length-drop 8 t)),
      Free-take 16 (drop 8 t) (Free-drop 8 t (remove_dashes-Free uuid)),
    )
