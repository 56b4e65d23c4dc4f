-- ===== src/Crypto.antt =====
-- tools/crypto/crypto.go: AES in CBC mode behind base64. The block cipher in CBC mode and base64
-- are an interface with the laws that the code relies on; `rand` is what io.ReadFull(rand.Reader)
-- delivers, or its error. A byte is a number below 256.
pub mod Padding
pub mod Laws
use go_websocket.Prelude.{
  ℕ, ◌+◌, ◌-◌, ◌%◌, ◌≡◌, ◌||◌, Option, none, some, List, [], ◌∷◌, ◌++◌, ltb, ◌==◌, if◌then◌else◌,
  not, length, take, drop, replicate,
}
use go_websocket.Prelude.Text.{Str, codes}
use go_websocket.Prelude.Result.{
  Result, ok, err, panic, ◌>>=◌, ◌>>◌, bad_padding, ciphertext_too_short, not_a_multiple,
  from_library,
}

abbrev pub Bytes : Type 0
Bytes = List ℕ

-- `encrypt key iv data` and `decrypt key iv data` are CryptBlocks.
pub record Cipher : Type 0 where
  pub encrypt : Bytes → Bytes → Bytes → Bytes
  pub decrypt : Bytes → Bytes → Bytes → Bytes
  pub encode_to_string : Bytes → Str
  pub decode_string : Str → Result Bytes

abbrev pub block_size : ℕ
block_size = 16

-- On whole blocks the two modes are inverse and keep the length; base64 reads what it wrote.
pub record IsLawful (c : Cipher) : Type 0 where
  pub decrypt-encrypt :
      (key iv text : Bytes)
      → length text % block_size ≡ 0
      → c.decrypt key iv (c.encrypt key iv text) ≡ text
  pub length-encrypt : (key iv text : Bytes) → length (c.encrypt key iv text) ≡ length text
  pub length-decrypt : (key iv text : Bytes) → length (c.decrypt key iv text) ≡ length text
  pub decode-encode : (text : Bytes) → c.decode_string (c.encode_to_string text) ≡ ok text

-- pKCS7Padding; `byte(padding)` wraps.
unfoldable pub pkcs7_padding : Bytes → ℕ → Bytes
pkcs7_padding ciphertext size =
    let padding = size - length ciphertext % size in ciphertext ++ replicate padding (padding % 256)

abbrev pub last_byte : Bytes → Option ℕ
last_byte [] = none
last_byte (x ∷ []) = some x
last_byte (x ∷ y ∷ ys) = last_byte (y ∷ ys)

-- pKCS7UnPadding; the read of the last byte panics on no bytes.
unfoldable pub pkcs7_un_padding : Bytes → Result Bytes
pkcs7_un_padding orig_data = elim (last_byte orig_data) [
  | none ↦ panic
  | some unpadding ↦
      if ltb (length orig_data) unpadding || ltb (length orig_data) (length orig_data - unpadding)
      then err bad_padding
      else ok (take (length orig_data - unpadding) orig_data)
]

-- aes.NewCipher takes keys of 16, 24 or 32 bytes.
unfoldable pub new_cipher : Bytes → Result (Unit {0})
new_cipher key =
    if length key == 16 || (length key == 24 || length key == 32)
    then ok tt
    else err (from_library (codes "crypto/aes: invalid key size"))

unfoldable pub aes_cbc_encrypt : Cipher → Result Bytes → Bytes → Bytes → Result Bytes
aes_cbc_encrypt c rand raw_data key = do
  new_cipher key
  let padded = pkcs7_padding raw_data block_size
  iv ← rand
  ok (iv ++ c.encrypt key iv padded)

unfoldable pub aes_cbc_decrypt : Cipher → Bytes → Bytes → Result Bytes
aes_cbc_decrypt c encrypt_data key = do
  new_cipher key
  if ltb (length encrypt_data) block_size
      then err ciphertext_too_short
      else (let iv = take block_size encrypt_data in
          let blocks = drop block_size encrypt_data in
          if not (length blocks % block_size == 0)
          then err not_a_multiple
          else pkcs7_un_padding (c.decrypt key iv blocks))

-- Encrypt
unfoldable pub encrypt : Cipher → Result Bytes → Bytes → Bytes → Result Str
encrypt c rand raw_data key = do
  text ← aes_cbc_encrypt c rand raw_data key
  ok (c.encode_to_string text)

-- Decrypt
unfoldable pub decrypt : Cipher → Str → Bytes → Result Str
decrypt c raw_data key = do text ← c.decode_string raw_data; aes_cbc_decrypt c text key
