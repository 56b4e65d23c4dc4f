-- ===== src/Prelude/Dict.antt =====
-- Go maps with string keys, as association lists. Go leaves the order of a `range` open: the
-- theorems hold for every list of entries.
use Prim.Native.Nat.{◌+◌}
use mathlib.Core.Path.{◌≡◌, refl}
use mathlib.Core.Option.{Option, none, some, get_or}
use mathlib.Core.List.{List, [], ◌∷◌, ◌++◌}
use native.Mathlib.Omega.{arith}
use go_websocket.Prelude.Tests.{if◌then◌else◌}
use go_websocket.Prelude.Lists.{length}
use go_websocket.Prelude.Text.{Str, str_eq, str_eq_iff}

abbrev pub Dict {ℓ} : Type ℓ → Type ℓ
Dict V = List (Str × V)

module _ {ℓ} {V : Type ℓ} where
  -- `v, ok := d[k]`
  unfoldable pub lookup : Str → Dict V → Option V
  lookup k [] = none
  lookup k ((j, v) ∷ d) = if str_eq j k then some v else lookup k d

  -- `d[k] = v`
  unfoldable pub insert : Str → V → Dict V → Dict V
  insert k v [] = (k, v) ∷ []
  insert k v ((j, w) ∷ d) = if str_eq j k then (k, v) ∷ d else (j, w) ∷ insert k v d

  -- `delete(d, k)`
  unfoldable pub erase : Str → Dict V → Dict V
  erase k [] = []
  erase k ((j, w) ∷ d) = let rest = erase k d in if str_eq j k then rest else (j, w) ∷ rest

  pub lookup-nil : (k : Str) → lookup k [] ≡ none
  unfolding lookup
  lookup-nil k = refl

  pub lookup-insert :
      (k j : Str) (v : V) (d : Dict V)
      → lookup j (insert k v d) ≡ (if str_eq k j then some v else lookup j d)
  unfolding lookup insert
  lookup-insert k j v [] = refl
  lookup-insert k j v ((i, w) ∷ d) =
      ground (arith, str_eq_iff k j, str_eq_iff i k, str_eq_iff i j, lookup-insert k j v d)

  pub lookup-erase :
      (k j : Str) (d : Dict V) → lookup j (erase k d) ≡ (if str_eq k j then none else lookup j d)
  unfolding lookup erase
  lookup-erase k j [] = ground arith
  lookup-erase k j ((i, w) ∷ d) =
      ground (arith, str_eq_iff k j, str_eq_iff i k, str_eq_iff i j, lookup-erase k j d)

  -- Deleting an absent key changes nothing.
  pub erase_absent : (k : Str) (d : Dict V) → lookup k d ≡ none → erase k d ≡ d
  unfolding lookup erase
  erase_absent k [] h = refl
  erase_absent k ((j, w) ∷ d) h = ground (arith, erase_absent k d)

-- A slice read at a key: `nil` where the key is missing.
unfoldable pub values {ℓ} : {A : Type ℓ} → Str → Dict (List A) → List A
unfolding lookup
values k d = get_or (lookup k d) []

pub values-insert {ℓ} :
    {A : Type ℓ} (k j : Str) (v : List A) (d : Dict (List A))
    → values j (insert k v d) ≡ (if str_eq k j then v else values j d)
unfolding values
values-insert k j v d = ground (arith, lookup-insert k j v d)

pub values_absent {ℓ} :
    {A : Type ℓ} (k : Str) (d : Dict (List A)) → lookup k d ≡ none → values k d ≡ []
unfolding values
values_absent k d h = rw h

pub values_present {ℓ} :
    {A : Type ℓ} (k : Str) (v : List A) (d : Dict (List A)) → lookup k d ≡ some v → values k d ≡ v
unfolding values
values_present k v d h = rw h

-- Every key stands once: what a Go map is.
abbrev pub NodupKeys {ℓ} : {V : Type ℓ} → Dict V → Type ℓ
NodupKeys [] = Unit
NodupKeys ((k, v) ∷ d) = (lookup k d ≡ none) × NodupKeys d

module _ {ℓ} {V : Type ℓ} where
  pub insert-NodupKeys : (k : Str) (v : V) (d : Dict V) → NodupKeys d → NodupKeys (insert k v d)
  unfolding insert lookup
  insert-NodupKeys k v [] n = (refl, tt)
  insert-NodupKeys k v ((j, w) ∷ d) (fresh, n) =
      ground
        (arith, insert-NodupKeys k v d n, lookup-insert k j v d, str_eq_iff j k, str_eq_iff k j)

  pub erase-NodupKeys : (k : Str) (d : Dict V) → NodupKeys d → NodupKeys (erase k d)
  unfolding erase
  erase-NodupKeys k [] n = tt
  erase-NodupKeys k ((j, w) ∷ d) (fresh, n) =
      ground (arith, erase-NodupKeys k d n, lookup-erase k j d)

  pub length-insert :
      (k : Str) (v : V) (d : Dict V)
      → length (insert k v d) ≡ (elim (lookup k d) [ none ↦ length d + 1 | some w ↦ length d ])
  unfolding insert lookup
  length-insert k v [] = omega arith
  length-insert k v ((j, w) ∷ d) = ground (arith, length-insert k v d)

  pub length-erase :
      (k : Str) (d : Dict V)
      → NodupKeys d
      → (elim (lookup k d) [ none ↦ length (erase k d) | some w ↦ length (erase k d) + 1 ])
        ≡ length d
  unfolding erase lookup
  length-erase k [] n = refl
  length-erase k ((j, w) ∷ d) (fresh, n) =
      ground (arith, length-erase k d n, lookup-erase k j d, erase_absent k d, str_eq_iff j k)

  -- A new key goes to the end.
  pub insert_fresh :
      (k : Str) (v : V) (d : Dict V) → lookup k d ≡ none → insert k v d ≡ d ++ (k, v) ∷ []
  unfolding insert lookup
  insert_fresh k v [] h = refl
  insert_fresh k v ((j, w) ∷ d) h = ground (arith, insert_fresh k v d)

  pub lookup-append :
      (k : Str) (d e : Dict V)
      → lookup k (d ++ e) ≡ (elim (lookup k d) [ none ↦ lookup k e | some v ↦ some v ])
  unfolding lookup
  lookup-append k [] e = refl
  lookup-append k ((j, w) ∷ d) e = ground (arith, lookup-append k d e)
