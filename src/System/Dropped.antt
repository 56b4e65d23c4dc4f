-- ===== src/System/Dropped.antt =====
-- In a cluster SendMessage2Client (servers/server.go) reads the address of the server from the client
-- id, but the handshake (servers/connect.go) takes the id from the form and makes none by
-- GenClientId (tools/util/util.go).
use go_websocket.Prelude.{
  ℕ, ◌+◌, ◌≤◌, ◌<◌, ◌≡◌, refl, sym, subst, ap, ◌∙◌, ◌⊎◌, inl, inr, true, false, some, [], ◌∷◌,
  length, lt→ltb,
}
use go_websocket.Prelude.Text.{Str, codes, str_eq}
use go_websocket.Prelude.Result.{Error, ciphertext_too_short, ok, err}
use go_websocket.Setting.{CommonConf, Global}
use go_websocket.Crypto.{Bytes, Cipher, block_size, new_cipher, decrypt, aes_cbc_decrypt}
use go_websocket.Util.{is_cluster, get_addr_info_and_is_local}
use go_websocket.World.{ClientInfo, World, done, ◌>>=◌, connect_cap, conn_suc}
use go_websocket.Server.{send_message2_client}
use go_websocket.Connect.{Handshake, link_text}
use go_websocket.System.{Libraries, connects, sends, perform}
use go_websocket.System.Journey.{perform_all, id_of, linked, run_linked}

-- A text that is not base64, or stands for fewer bytes than an initialisation vector has.
abbrev pub IsNoCiphertext : Cipher → Str → Type 0
IsNoCiphertext c id =
    ((x : Error) × (c.decode_string id ≡ err x))
    ⊎ ((b : Bytes) × (c.decode_string id ≡ ok b) × (length b < block_size))

unreadable :
    (c : Cipher) (common : CommonConf) (global : Global) (id : Str)
    → new_cipher common.crypto_key ≡ ok tt
    → IsNoCiphertext c id
    → (x : Error) × (get_addr_info_and_is_local c common global id ≡ err x)
unfolding get_addr_info_and_is_local decrypt aes_cbc_decrypt
unreadable c common global id k (inl (x, e)) = (x, rw e refl)
unreadable c common global id k (inr (b, e, short)) =
    (ciphertext_too_short, rw (e, k, lt→ltb (length b) block_size short) refl)

send_dropped :
    (c : Cipher) (info : ClientInfo) (w : World) (x : Error)
    → is_cluster w.common ≡ true
    → get_addr_info_and_is_local c w.common w.global info.client_id ≡ err x
    → send_message2_client c info w ≡ done w
unfolding send_message2_client
send_dropped c info w x h e = simp (h, e)

-- In a cluster a client that connects under an id that is no ciphertext is connected, but a message
-- that is sent to its id afterwards is dropped: the send changes nothing. The key is one that AES
-- takes, the socket takes the frame that links the client, and Connect has room.
pub cluster_send_dropped :
    (lib : Libraries) (now socket : ℕ) (h : Handshake) (info : ClientInfo) (w : World)
    → info.client_id ≡ id_of h
    → str_eq (id_of h) [] ≡ false
    → is_cluster w.common ≡ true
    → new_cipher w.common.crypto_key ≡ ok tt
    → IsNoCiphertext lib.cipher (id_of h)
    → length w.manager.connect + 1 ≤ connect_cap
    → lib.write_json socket (conn_suc (codes "Link") link_text) ≡ true
    → perform_all lib (connects now (some socket) h ∷ sends info ∷ []) w
      ≡ done (linked now socket h w)
unfolding perform
cluster_send_dropped lib now socket h info w same n cluster key none_read room fits =
    let (x, e) =
      unreadable lib.cipher w.common w.global info.client_id key
        (subst (IsNoCiphertext lib.cipher) (sym same) none_read) in
    ap (λ p. p >>= λ v. perform_all lib (sends info ∷ []) v)
      (run_linked lib now socket h w n room fits)
    ∙ ap (λ p. p >>= λ v. done v) (send_dropped lib.cipher info (linked now socket h w) x cluster e)
