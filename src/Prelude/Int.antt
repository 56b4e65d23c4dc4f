-- ===== src/Prelude/Int.antt =====
-- Go's `int`, and its conversion to int32.
use Prim.Native.Nat.{ℕ, ◌-◌, ◌%◌, ◌^◌}
use go_websocket.Prelude.Tests.{ltb, if◌then◌else◌}

-- `negsuc n` is -(n + 1).
pub data ℤ : Type 0 where
  pos : ℕ → ℤ
  negsuc : ℕ → ℤ

-- The 32 low bits in two's complement.
abbrev pub low_word : ℤ → ℕ
low_word (pos n) = n % 2 ^ 32
low_word (negsuc n) = 2 ^ 32 - 1 - n % 2 ^ 32

unfoldable pub int32 : ℤ → ℤ
int32 z = let w = low_word z in if ltb w (2 ^ 31) then pos w else negsuc (2 ^ 32 - 1 - w)
