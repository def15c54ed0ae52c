-- ===== src/Prelude/Bits.antt =====
-- The binary digits of a native number, and what `&`, `|`, `<<` and truncation to a width do to
-- them.
use Prim.Native.Nat.{ℕ, zero, suc, ◌+◌, ◌-◌, ◌*◌, ◌/◌, ◌%◌, ◌^◌, ◌≤◌, ◌<◌, min, max}
use Prim.Native.Nat.{bit_and, bit_or, digits, bit_and-bitwise, bit_or-bitwise}
use mathlib.Core.Path.{◌≡◌, refl, ap, ◌∙◌}
use mathlib.Core.Logic.{◌↔◌}
use native.Mathlib.Nat.{pow-suc, one-le-pow}
use native.Mathlib.Omega.{arith}
use synology_filestation.Prelude.Tests.{ltb, ◌==◌, if◌then◌else◌}

-- Bit `k` of `x`, as 0 or 1.
unfoldable pub bit : ℕ → ℕ → ℕ
bit zero x = x % 2
bit (suc k) x = bit k (x / 2)

pub bit-le-one : (k x : ℕ) → bit k x ≤ 1
unfolding bit
bit-le-one zero x = omega arith
bit-le-one (suc k) x = bit-le-one k (x / 2)

pub bit-zero : (k : ℕ) → bit k 0 ≡ 0
unfolding bit
bit-zero zero = refl
bit-zero (suc k) = bit-zero k

-- A number with no digit set is 0.
eq-zero_of_bits : (n x : ℕ) → x ≤ n → ((k : ℕ) → bit k x ≡ 0) → x ≡ 0
unfolding bit
eq-zero_of_bits zero x le h = omega arith
eq-zero_of_bits (suc n) zero le h = refl
eq-zero_of_bits (suc n) (suc x) le h =
    omega (arith, h 0, eq-zero_of_bits n (suc x / 2) (omega arith) (λ k. h (suc k)))

-- What the native operations stand for works digit by digit.
bit-digits :
    (z : ℕ → ℕ) (f : ℕ → ℕ → ℕ)
    → ((a b : ℕ) → a ≤ 1 → b ≤ 1 → f a b ≤ 1)
    → ((k b : ℕ) → bit k (z b) ≡ f 0 (bit k b))
    → (n k a b : ℕ) → a ≤ n
    → bit k (digits z f n a b) ≡ f (bit k a) (bit k b)
unfolding bit
bit-digits z f small base zero k zero b le = rw bit-zero (base k b)
bit-digits z f small base zero k (suc a) b le = absurd (omega arith)
bit-digits z f small base (suc n) k zero b le = rw bit-zero (base k b)
bit-digits z f small base (suc n) zero (suc a) b le =
    omega (arith, small (suc a % 2) (b % 2) (omega arith) (omega arith))
bit-digits z f small base (suc n) (suc k) (suc a) b le =
    let s = small (suc a % 2) (b % 2) (omega arith) (omega arith) in
    ap (bit k) (omega (arith, s)) ∙ bit-digits z f small base n k (suc a / 2) (b / 2) (omega arith)

pub bit-bit_and : (k a b : ℕ) → bit k (bit_and a b) ≡ min (bit k a) (bit k b)
bit-bit_and k a b = rw bit_and-bitwise (
    bit-digits (λ _. 0) min (λ a b p q. omega arith) (λ k b. omega (arith, bit-zero k)) a k a b
      (omega arith))

pub bit-bit_or : (k a b : ℕ) → bit k (bit_or a b) ≡ max (bit k a) (bit k b)
bit-bit_or k a b =
    rw bit_or-bitwise
      (bit-digits (λ y. y) max (λ a b p q. omega arith) (λ k b. omega arith) a k a b (omega arith))

-- `x << a`
pub bit-mul-pow : (k x a : ℕ) → bit k (x * 2 ^ a) ≡ (if ltb k a then 0 else bit (k - a) x)
unfolding bit
bit-mul-pow k x zero = ground arith
bit-mul-pow zero x (suc a) = ground (arith, pow-suc 2 a, ap (λ (p : ℕ). x * p) (pow-suc 2 a))
bit-mul-pow (suc k) x (suc a) =
    ap (bit k) (omega (arith, ap (λ (p : ℕ). x * p) (pow-suc 2 a)))
    ∙ (bit-mul-pow k x a ∙ ground arith)

pub bit-one : (k : ℕ) → bit k 1 ≡ (if k == 0 then 1 else 0)
unfolding bit
bit-one zero = refl
bit-one (suc k) = bit-zero k ∙ ground arith

pub bit-pow : (k a : ℕ) → bit k (2 ^ a) ≡ (if k == a then 1 else 0)
bit-pow k a = ap (bit k) (omega arith) ∙ (bit-mul-pow k 1 a ∙ ground (arith, bit-one (k - a)))

-- Truncation to `w` bits.
mod_split : (x p : ℕ) → 0 < p → x % (2 * p) ≡ 2 * (x / 2 % p) + x % 2
mod_split x p h = grind arith

pub bit-mod : (k x w : ℕ) → bit k (x % 2 ^ w) ≡ (if ltb k w then bit k x else 0)
unfolding bit
bit-mod k x zero = ground (arith, bit-zero k)
bit-mod zero x (suc w) = ground (arith, pow-suc 2 w, mod_split x (2 ^ w), one-le-pow w 2)
bit-mod (suc k) x (suc w) =
    ap (bit k)
      (omega (arith, pow-suc 2 w, mod_split x (2 ^ w) (one-le-pow w 2 (omega arith)), halves))
    ∙ (bit-mod k (x / 2) w ∙ ground arith)
  where
    halves : x % 2 ^ suc w ≡ x % (2 * 2 ^ w)
    halves = ap (λ (p : ℕ). x % p) (omega (arith, pow-suc 2 w))

-- `x & (1 << k) == 0` reads bit `k`.
pub bit_and-pow_eq_zero_iff : (x k : ℕ) → (bit_and x (2 ^ k) ≡ 0) ↔ (bit k x ≡ 0)
bit_and-pow_eq_zero_iff x k = (
  λ e. omega (arith, bit-bit_and k x (2 ^ k), ap (bit k) e, bit-zero k, at_k, bit-le-one k x),
  λ e.
      eq-zero_of_bits (bit_and x (2 ^ k)) (bit_and x (2 ^ k)) (omega arith)
        (λ j. ground (arith, bit-bit_and j x (2 ^ k), bit-pow j k, e)),
)
  where
    at_k : bit k (2 ^ k) ≡ 1
    at_k = ground (arith, bit-pow k k)

-- The digits of a shifted number and of one below the shift do not meet.
or_digits : (n k a b x : ℕ) → x ≡ a * 2 ^ k → x ≤ n → b < 2 ^ k → digits (λ y. y) max n x b ≡ x + b
or_digits zero k a b zero e le lt = omega arith
or_digits zero k a b (suc x) e le lt = absurd (omega arith)
or_digits (suc n) k a b zero e le lt = omega arith
or_digits (suc n) zero a b (suc x) e le lt =
    let nothing : b < 1 = lt in
    omega (
      arith,
      or_digits n zero (suc x / 2) (b / 2) (suc x / 2) (omega arith) (omega arith) (omega arith),
    )
or_digits (suc n) (suc k) a b (suc x) e le lt =
    let double : 2 ^ suc k ≡ 2 * 2 ^ k = omega (arith, pow-suc 2 k) in
    let twice : suc x ≡ 2 * (a * 2 ^ k) = omega (arith, e, ap (λ (p : ℕ). a * p) (pow-suc 2 k)) in
    omega (arith, or_digits n k a (b / 2) (suc x / 2) (omega arith) (omega arith) (omega arith))

-- `x << k | b`
pub bit_or-shift : (k a b : ℕ) → b < 2 ^ k → bit_or (a * 2 ^ k) b ≡ a * 2 ^ k + b
bit_or-shift k a b lt =
    rw bit_or-bitwise (or_digits (a * 2 ^ k) k a b (a * 2 ^ k) refl (omega arith) lt)
