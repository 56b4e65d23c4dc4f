-- ===== src/Tests/Ciphers.antt =====
-- tools/crypto and tools/util at concrete data, with a cipher that changes nothing.
use go_websocket.Prelude.{ℕ, ◌%◌, ◌≤◌, ◌<◌, ◌≡◌, ◌↔◌, refl, true, [], arith, length, replicate}
use go_websocket.Prelude.Text.{Str, codes, Free}
use go_websocket.Prelude.Result.{ok, panic}
use go_websocket.Setting.{CommonConf, Global}
use go_websocket.Crypto.{
  Bytes, Cipher, IsLawful, new_cipher, pkcs7_padding, encrypt, decrypt, aes_cbc_decrypt,
}
use go_websocket.Crypto.Padding.{length-padding}
use go_websocket.Crypto.Laws.{decrypt-encrypt_lem, aes_cbc_decrypt_panics}
use go_websocket.Util.{gen_uuid, remove_dashes}

abbrev pub plain : Cipher
plain = record {
  encrypt = λ key iv text. text;
  decrypt = λ key iv text. text;
  encode_to_string = λ text. text;
  decode_string = ok;
}

pub plain-IsLawful : IsLawful plain
plain-IsLawful = record {
  decrypt-encrypt = λ key iv text h. refl;
  length-encrypt = λ key iv text. refl;
  length-decrypt = λ key iv text. refl;
  decode-encode = λ text. refl;
}

abbrev pub key : Bytes
key = codes "Adba723b7fe06819"

abbrev pub iv : Bytes
iv = replicate 16 7

pub key_fits : new_cipher key ≡ ok tt
unfolding new_cipher
key_fits = refl

decrypt-encrypt_lem_example :
    (s : Str) × (encrypt plain (ok iv) (codes "10.0.0.1:7000") key ≡ ok s)
    × (decrypt plain s key ≡ ok (codes "10.0.0.1:7000"))
decrypt-encrypt_lem_example =
    decrypt-encrypt_lem plain plain-IsLawful key iv (codes "10.0.0.1:7000") key_fits refl

aes_cbc_decrypt_panics_example : (aes_cbc_decrypt plain iv key ≡ panic) ↔ (◌≡◌ {A = ℕ} 16 16)
aes_cbc_decrypt_panics_example = aes_cbc_decrypt_panics plain plain-IsLawful iv key key_fits

length-padding_example :
    (length (pkcs7_padding (codes "password123") 16) % 16 ≡ 0)
    × (11 < length (pkcs7_padding (codes "password123") 16))
    × (length (pkcs7_padding (codes "password123") 16) ≤ 27)
length-padding_example = length-padding (codes "password123") 16 (omega arith)

abbrev pub common : CommonConf
common = record {
  http_port = codes "6000";
  rpc_port = codes "7000";
  cluster = true;
  crypto_key = key;
}

abbrev pub global : Global
global = record { local_host = codes "10.0.0.1"; server_list = [] }

pub Free-host : Free b':' (codes "10.0.0.1")
Free-host = (refl, (refl, (refl, (refl, (refl, (refl, (refl, (refl, tt))))))))

pub Free-port : Free b':' (codes "7000")
Free-port = (refl, (refl, (refl, (refl, tt))))

abbrev pub uuid : Str
uuid = codes "6ba7b810-9dad-11d1-80b4-00c04fd430c8"

pub gen_uuid_run : gen_uuid uuid ≡ ok (codes "9dad11d180b400c0")
unfolding gen_uuid remove_dashes
gen_uuid_run = refl
