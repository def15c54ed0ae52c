-- ===== src/Prelude/Pigeonhole.antt =====
-- Different elements of a list are no more than the list has.
use Prim.Native.Nat.{ℕ, suc, ◌≤◌}
use mathlib.Core.Path.{◌≡◌}
use mathlib.Core.Bool.{true, false}
use mathlib.Core.List.{List, [], ◌∷◌}
use native.Mathlib.Omega.{arith}
use synology_filestation.Prelude.Tests.{◌==◌, if◌then◌else◌}
use synology_filestation.Prelude.Lists.{length, contains, Distinct, All}

-- The list without the first occurrence.
unfoldable erase : ℕ → List ℕ → List ℕ
erase a [] = []
erase a (x ∷ xs) = let rest = erase a xs in if x == a then xs else x ∷ rest

length-erase : (a : ℕ) (xs : List ℕ) → contains xs a ≡ true → suc (length (erase a xs)) ≡ length xs
unfolding contains erase
length-erase a [] h = absurd (ground arith)
length-erase a (x ∷ xs) h = ground (arith, length-erase a xs)

contains-erase :
    (a b : ℕ) (xs : List ℕ)
    → contains xs b ≡ true
    → (b == a) ≡ false
    → contains (erase a xs) b ≡ true
unfolding contains erase
contains-erase a b [] h ne = absurd (ground arith)
contains-erase a b (x ∷ xs) h ne = ground (arith, contains-erase a b xs)

All-erase :
    (a : ℕ) (xs ys : List ℕ)
    → contains xs a ≡ false
    → All (λ b. contains ys b ≡ true) xs
    → All (λ b. contains (erase a ys) b ≡ true) xs
unfolding contains
All-erase a [] ys absent h = tt
All-erase a (x ∷ xs) ys absent h =
    (contains-erase a x ys h.0 (ground arith), All-erase a xs ys (ground arith) h.1)

pub Distinct-length :
    (xs ys : List ℕ) → Distinct xs → All (λ b. contains ys b ≡ true) xs → length xs ≤ length ys
Distinct-length [] ys d h = omega arith
Distinct-length (x ∷ xs) ys d h =
    omega (
      arith,
      length-erase x ys h.0,
      Distinct-length xs (erase x ys) d.1 (All-erase x xs ys d.0 h.1),
    )
