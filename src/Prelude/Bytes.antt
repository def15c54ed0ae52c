-- ===== src/Prelude/Bytes.antt =====
-- Bytes as native numbers: big-endian words, and facts about every byte checked by evaluation.
use Prim.Native.Nat.{ℕ, zero, suc, ◌+◌, ◌*◌, ◌/◌, ◌%◌, ◌^◌, ◌<◌, bit_and}
use mathlib.Core.Path.{◌≡◌, refl}
use mathlib.Core.Bool.{Bool, true, false, ◌&&◌}
use mathlib.Core.List.{List, [], ◌∷◌}
use native.Mathlib.Omega.{arith}
use synology_filestation.Prelude.Tests.{◌==◌, ==_iff, ==_refl}

abbrev pub IsByte : ℕ → Type 0
IsByte b = b < 256

abbrev pub IsU32 : ℕ → Type 0
IsU32 n = n < 2 ^ 32

-- `u32::to_be_bytes` and `u16::to_be_bytes`
abbrev pub be32 : ℕ → List ℕ
be32 n = (n / 16777216 % 256) ∷ (n / 65536 % 256) ∷ (n / 256 % 256) ∷ (n % 256) ∷ []

abbrev pub be16 : ℕ → List ℕ
be16 n = (n / 256 % 256) ∷ (n % 256) ∷ []

-- `from_be_bytes`, for an array of any length.
from_be_acc : ℕ → List ℕ → ℕ
from_be_acc acc [] = acc
from_be_acc acc (b ∷ bs) = from_be_acc (acc * 256 + b) bs

unfoldable pub from_be : List ℕ → ℕ
unfolding from_be_acc
from_be bs = from_be_acc 0 bs

pub from_be-be32 : (n : ℕ) → IsU32 n → from_be (be32 n) ≡ n
unfolding from_be
from_be-be32 n h = omega arith

pub from_be-be16 : (n : ℕ) → n < 2 ^ 16 → from_be (be16 n) ≡ n
unfolding from_be
from_be-be16 n h = omega arith

-- A test that holds at every number below a bound, run by evaluation.
unfoldable pub every_below : ℕ → (ℕ → Bool) → Bool
every_below zero test = true
every_below (suc n) test = every_below n test && test n

pub every_below_sound :
    (n : ℕ) (test : ℕ → Bool) (x : ℕ) → every_below n test ≡ true → x < n → test x ≡ true
unfolding every_below
every_below_sound zero test x all lt = absurd (omega arith)
every_below_sound (suc n) test x all lt = ground (arith, every_below_sound n test x)

low_three_table : every_below 256 (λ b. bit_and b 7 == b % 8) ≡ true
unfolding every_below
low_three_table = refl

-- The low three bits of a byte.
pub low_three : (b : ℕ) → IsByte b → bit_and b 7 ≡ b % 8
low_three b h =
    (==_iff _ _).0 (every_below_sound 256 (λ b. bit_and b 7 == b % 8) b low_three_table h)

-- Equality of byte strings.
unfoldable pub same : List ℕ → List ℕ → Bool
same [] [] = true
same [] (y ∷ ys) = false
same (x ∷ xs) [] = false
same (x ∷ xs) (y ∷ ys) = x == y && same xs ys

pub same_sound : (xs ys : List ℕ) → same xs ys ≡ true → xs ≡ ys
unfolding same
same_sound [] [] e = refl
same_sound [] (y ∷ ys) e = cc
same_sound (x ∷ xs) [] e = cc
same_sound (x ∷ xs) (y ∷ ys) e = ground (arith, same_sound xs ys)

pub same_refl : (xs : List ℕ) → same xs xs ≡ true
unfolding same
same_refl [] = refl
same_refl (x ∷ xs) = rw (==_refl x, same_refl xs)
