-- ===== src/Prelude/Words.antt =====
-- Machine words as native numbers: a cast to w bits is the remainder by 2 ^ w.
use Prim.Native.Nat.{ℕ, zero, suc, ◌+◌, ◌-◌, ◌/◌, ◌%◌, ◌^◌, ◌<◌}
use mathlib.Core.Path.{◌≡◌}
use mathlib.Core.Bool.{Bool, true, ◌&&◌}
use native.Mathlib.Omega.{arith}
use rpi_pico_card_reader.Prelude.Tests.{◌==◌, ltb, if◌then◌else◌}

abbrev pub u32 : ℕ → ℕ
u32 n = n % 4294967296

-- uint32_t a - b.
abbrev pub sub32 : ℕ → ℕ → ℕ
sub32 a b = u32 (a + 4294967296 - b)

abbrev pub u8 : ℕ → ℕ
u8 n = n % 256

-- (int32_t)(t - deadline) >= 0, for times below 2 ^ 32.
abbrev pub expired : ℕ → ℕ → Bool
expired t deadline = ltb (sub32 t deadline) 2147483648

abbrev pub u16 : ℕ → ℕ
u16 n = n % 65536

-- (x >> b) & 1, and the test x & (1u << b).
abbrev pub bit_at : ℕ → ℕ → ℕ
bit_at x b = x / 2 ^ b % 2

abbrev pub has_bit : ℕ → ℕ → Bool
has_bit x b = bit_at x b == 1

-- x | (1u << b).
abbrev pub set_bit : ℕ → ℕ → ℕ
set_bit x b = if has_bit x b then x else x + 2 ^ b

-- A test that is run on every number below a limit.
unfoldable pub passes : (ℕ → Bool) → ℕ → Bool
passes test zero = true
passes test (suc limit) = test limit && passes test limit

pub passes_below :
    (test : ℕ → Bool) (limit : ℕ) → passes test limit ≡ true → (k : ℕ) → k < limit → test k ≡ true
unfolding passes
passes_below test zero all k h = absurd (omega arith)
passes_below test (suc limit) all k h =
    let below : passes test limit ≡ true → k < limit → test k ≡ true =
      λ c. passes_below test limit c k in
    ground (arith, below)
