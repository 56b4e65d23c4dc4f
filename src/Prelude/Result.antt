-- ===== src/Prelude/Result.antt =====
-- What a Go function returns: a value, an error, or nothing because it panics. The errors are those
-- that the program makes (`errors.New`), and those that it passes on from libraries.
use go_websocket.Prelude.Text.{Str}

pub data Error : Type 0 where
  -- Register
  system_id_empty system_id_taken : Error
  -- GetByClientId
  client_missing : Error
  -- ParseRedisAddrValue
  malformed_address : Error
  -- tools/crypto
  bad_padding ciphertext_too_short not_a_multiple : Error
  -- an error value of a library
  from_library : Str → Error

pub data Result {ℓ} (A : Type ℓ) : Type ℓ where
  ok : A → Result A
  err : Error → Result A
  panic : Result A

infixl 5 ◌>>=◌ ◌>>◌
abbrev pub ◌>>=◌ {ℓ κ} : {A : Type ℓ} {B : Type κ} → Result A → (A → Result B) → Result B
ok a >>= f = f a
err e >>= f = err e
panic >>= f = panic

abbrev pub ◌>>◌ {ℓ} : {B : Type ℓ} → Result (Unit {0}) → Result B → Result B
m >> k = m >>= λ _. k
