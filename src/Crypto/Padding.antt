-- ===== src/Crypto/Padding.antt =====
-- pKCS7Padding and pKCS7UnPadding of tools/crypto/crypto.go.
use native.Mathlib.Nat.{mod-add-mod, mod_self, mod-lt}
use go_websocket.Prelude.{
  ℕ, zero, suc, ◌+◌, ◌-◌, ◌%◌, ◌≤◌, ◌<◌, ◌≡◌, refl, sym, ap, ◌∙◌, [], ◌∷◌, ◌++◌, some, arith,
  le→ltb, length, replicate, take-append, append-nil, length-append, length-replicate,
}
use go_websocket.Prelude.Result.{ok}
use go_websocket.Crypto.{Bytes, pkcs7_padding, pkcs7_un_padding, last_byte}

last_byte-replicate : (xs : Bytes) (n b : ℕ) → last_byte (xs ++ replicate (suc n) b) ≡ some b
last_byte-replicate [] zero b = refl
last_byte-replicate [] (suc n) b = last_byte-replicate [] n b
last_byte-replicate (x ∷ []) n b = last_byte-replicate [] n b
last_byte-replicate (x ∷ y ∷ xs) n b = last_byte-replicate (y ∷ xs) n b

un_padding-replicate :
    (text : Bytes) (n : ℕ) → pkcs7_un_padding (text ++ replicate (suc n) (suc n)) ≡ ok text
unfolding pkcs7_un_padding
un_padding-replicate text n =
    let l : length (text ++ replicate (suc n) (suc n)) ≡ length text + suc n =
      length-append text (replicate (suc n) (suc n))
      ∙ ap (λ k. length text + k) (length-replicate (suc n) (suc n)) in
    rw (last_byte-replicate text n (suc n), pkcs7_un_padding, l)
      (rw
        (
          le→ltb (length text + suc n) (suc n) (omega arith),
          le→ltb (length text + suc n) (length text + suc n - suc n) (omega arith),
        )
        (ap ok (take-append text (replicate (suc n) (suc n)) 0 _ (omega arith) ∙ append-nil text)))

un_padding-pad :
    (text : Bytes) (n b : ℕ) → 0 < n → b ≡ n → pkcs7_un_padding (text ++ replicate n b) ≡ ok text
un_padding-pad text zero b h e = elim h [ ]
un_padding-pad text (suc n) b h e = rw e (un_padding-replicate text n)

-- For a block size from 1 to 255 the padding comes off again.
pub un_padding-padding :
    (text : Bytes) (size : ℕ)
    → 0 < size
    → size < 256
    → pkcs7_un_padding (pkcs7_padding text size) ≡ ok text
unfolding pkcs7_padding
un_padding-padding text size h k =
    un_padding-pad text (size - length text % size) _ (omega arith) (omega arith)

-- The padded text is one to `size` bytes longer, and a whole number of blocks.
pub length-padding :
    (text : Bytes) (size : ℕ)
    → 0 < size
    → (length (pkcs7_padding text size) % size ≡ 0)
      × (length text < length (pkcs7_padding text size))
      × (length (pkcs7_padding text size) ≤ length text + size)
unfolding pkcs7_padding
length-padding text size h =
    let n = size - length text % size in
    let l : length (text ++ replicate n (n % 256)) ≡ length text + n =
      length-append text (replicate n (n % 256))
      ∙ ap (λ k. length text + k) (length-replicate n (n % 256)) in
    rw l (
      sym (mod-add-mod (length text) size n)
          ∙ (ap (λ k. k % size) (omega (arith, mod-lt (length text) {m = size} h)) ∙ mod_self size),
      omega arith,
      omega arith,
    )
