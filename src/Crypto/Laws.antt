-- ===== src/Crypto/Laws.antt =====
-- Encrypt and Decrypt of tools/crypto/crypto.go.
use go_websocket.Prelude.{
  ℕ, ◌%◌, ◌<◌, ◌≡◌, refl, [], ◌∷◌, ◌++◌, none, some, ◌≢◌, ◌↔◌, arith, le→ltb, length, take, drop,
  take-append, drop-append, append-nil, length-append, length-drop,
}
use go_websocket.Prelude.Text.{Str}
use go_websocket.Prelude.Result.{ok, panic}
use go_websocket.Crypto.{
  Bytes, Cipher, IsLawful, new_cipher, pkcs7_padding, pkcs7_un_padding, last_byte, aes_cbc_encrypt,
  aes_cbc_decrypt, encrypt, decrypt,
}
use go_websocket.Crypto.Padding.{un_padding-padding, length-padding}

module _ (c : Cipher) (law : IsLawful c) where
  whole_blocks : (key iv raw : Bytes) → length (c.encrypt key iv (pkcs7_padding raw 16)) % 16 ≡ 0
  whole_blocks key iv raw =
      rw (law.length-encrypt key iv (pkcs7_padding raw 16))
        ((length-padding raw 16 (omega arith)).0)

  cbc_round_trip :
      (key iv raw : Bytes)
      → new_cipher key ≡ ok tt
      → length iv ≡ 16
      → aes_cbc_decrypt c (iv ++ c.encrypt key iv (pkcs7_padding raw 16)) key ≡ ok raw
  unfolding aes_cbc_decrypt
  cbc_round_trip key iv raw k e =
      let text = c.encrypt key iv (pkcs7_padding raw 16) in
      rw (k, le→ltb (length (iv ++ text)) 16 (omega (arith, length-append iv text)))
        (rw
          (
            drop-append iv text 0 16 (omega arith),
            take-append iv text 0 16 (omega arith),
            append-nil,
            whole_blocks key iv raw,
            law.decrypt-encrypt key iv (pkcs7_padding raw 16)
                ((length-padding raw 16 (omega arith)).0),
          )
          (un_padding-padding raw 16 (omega arith) (omega arith)))

  -- With a key that AES takes and 16 random bytes Encrypt succeeds, and Decrypt gives the text
  -- back.
  pub decrypt-encrypt_lem :
      (key iv raw : Bytes)
      → new_cipher key ≡ ok tt
      → length iv ≡ 16
      → (s : Str) × (encrypt c (ok iv) raw key ≡ ok s) × (decrypt c s key ≡ ok raw)
  unfolding encrypt decrypt aes_cbc_encrypt
  decrypt-encrypt_lem key iv raw k e = (
    c.encode_to_string (iv ++ c.encrypt key iv (pkcs7_padding raw 16)),
    rw k,
    rw (law.decode-encode) (cbc_round_trip key iv raw k e),
  )

last_byte_nonempty : (xs : Bytes) → 0 < length xs → (b : ℕ) × (last_byte xs ≡ some b)
last_byte_nonempty [] h = elim h [ ]
last_byte_nonempty (x ∷ []) h = (x, refl)
last_byte_nonempty (x ∷ y ∷ ys) h = last_byte_nonempty (y ∷ ys) (omega arith)

last_byte_empty : (xs : Bytes) → length xs ≡ 0 → last_byte xs ≡ none
last_byte_empty [] h = refl
last_byte_empty (x ∷ xs) h = absurd (omega arith)

un_padding_empty : (xs : Bytes) → length xs ≡ 0 → pkcs7_un_padding xs ≡ panic
unfolding pkcs7_un_padding
un_padding_empty xs h = rw (last_byte_empty xs h, pkcs7_un_padding)

un_padding_nonempty : (xs : Bytes) → 0 < length xs → pkcs7_un_padding xs ≢ panic
unfolding pkcs7_un_padding
un_padding_nonempty xs h = ground (arith, last_byte_nonempty xs h)

-- Under a key that AES takes, the decryption panics for the input of 16 bytes, the bare
-- initialisation vector, and for no other.
pub aes_cbc_decrypt_panics :
    (c : Cipher)
    → IsLawful c
    → (text key : Bytes) → new_cipher key ≡ ok tt
    → (aes_cbc_decrypt c text key ≡ panic) ↔ (length text ≡ 16)
unfolding aes_cbc_decrypt
aes_cbc_decrypt_panics c law text key k =
    let iv = take 16 text in
    let blocks = drop 16 text in
    let l = law.length-decrypt key iv blocks in
    let d = length-drop 16 text in
    rw k (
      ground (
        arith,
        d,
        l,
        un_padding_empty (c.decrypt key iv blocks),
        un_padding_nonempty (c.decrypt key iv blocks),
      ))
