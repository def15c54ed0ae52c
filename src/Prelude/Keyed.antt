-- ===== src/Prelude/Keyed.antt =====
-- `HashMap<String, V>`: an association list over byte strings whose keys differ. The source's map
-- promises no order; the list keeps one.
pub mod Laws
pub mod Sweep
use Prim.Native.Nat.{ℕ, zero, suc, ◌+◌, ◌≤◌}
use mathlib.Core.Path.{◌≡◌, refl, sym, ap, ◌∙◌}
use mathlib.Core.Bool.{Bool, true, false, not, ◌&&◌}
use mathlib.Core.List.{List, [], ◌∷◌, ◌++◌, map}
use mathlib.Core.Logic.{inl, inr}
use mathlib.Core.Option.{Option, none, some}
use native.Mathlib.Omega.{arith}
use synology_filestation.Prelude.Tests.{◌==◌, if◌then◌else◌, Bool-cases}
use synology_filestation.Prelude.Lists.{length}
use synology_filestation.Prelude.Bytes.{same, same_sound, same_refl}

abbrev pub Key : Type 0
Key = List ℕ

abbrev pub Keyed {ℓ} : Type ℓ → Type ℓ
Keyed V = List (Key × V)

-- `Vec::retain`
unfoldable pub retain : (Key → Bool) → List Key → List Key
retain keep [] = []
retain keep (k ∷ ks) = let later = retain keep ks in if keep k then k ∷ later else later

-- `str::starts_with`
unfoldable pub starts_with : Key → Key → Bool
starts_with path [] = true
starts_with [] (p ∷ prefix) = false
starts_with (c ∷ path) (p ∷ prefix) = c == p && starts_with path prefix

module _ {ℓ} {V : Type ℓ} where
  unfoldable pub find : Key → Keyed V → Option V
  find key [] = none
  find key ((at, value) ∷ entries) = if same at key then some value else find key entries

  unfoldable pub without : Key → Keyed V → Keyed V
  without key [] = []
  without key ((at, value) ∷ entries) =
      let later = without key entries in if same at key then entries else (at, value) ∷ later

  -- `HashMap::insert`
  unfoldable pub put : Key → V → Keyed V → Keyed V
  unfolding without
  put key value entries = (key, value) ∷ without key entries

  abbrev pub keys : Keyed V → List Key
  keys [] = []
  keys ((at, value) ∷ entries) = at ∷ keys entries

  abbrev pub values : Keyed V → List V
  values [] = []
  values ((at, value) ∷ entries) = value ∷ values entries

  abbrev pub AreDistinct : Keyed V → Type ℓ
  AreDistinct [] = Unit
  AreDistinct ((at, value) ∷ entries) = (find at entries ≡ none) × AreDistinct entries

pub same_sym : (a b : Key) → same a b ≡ same b a
unfolding same
same_sym [] [] = refl
same_sym [] (y ∷ b) = refl
same_sym (x ∷ a) [] = refl
same_sym (x ∷ a) (y ∷ b) = ground (arith, same_sym a b)

module _ {ℓ} {V : Type ℓ} where
  pub find-append :
      (key : Key) (xs ys : Keyed V)
      → find key (xs ++ ys) ≡ elim (find key xs) [ none ↦ find key ys | some v ↦ some v ]
  unfolding find
  find-append key [] ys = refl
  find-append key ((at, value) ∷ xs) ys = elim (Bool-cases (same at key)) [
    | inl here ↦ rw here refl
    | inr other ↦ rw other (find-append key xs ys)
  ]

  pub find-same : (a b : Key) (xs : Keyed V) → same a b ≡ true → find a xs ≡ find b xs
  find-same a b xs e = ap (λ (k : Key). find k xs) (same_sound a b e)

  pub find_here :
      (key at : Key) (value : V) (xs : Keyed V)
      → same at key ≡ true
      → find key ((at, value) ∷ xs) ≡ some value
  unfolding find
  find_here key at value xs e = rw e refl

  pub find_other :
      (key at : Key) (value : V) (xs : Keyed V)
      → same at key ≡ false
      → find key ((at, value) ∷ xs) ≡ find key xs
  unfolding find
  find_other key at value xs e = rw e refl

  without_here :
      (key at : Key) (value : V) (xs : Keyed V)
      → same at key ≡ true
      → without key ((at, value) ∷ xs) ≡ xs
  unfolding without
  without_here key at value xs e = rw e refl

  without_other :
      (key at : Key) (value : V) (xs : Keyed V)
      → same at key ≡ false
      → without key ((at, value) ∷ xs) ≡ (at, value) ∷ without key xs
  unfolding without
  without_other key at value xs e = rw e refl

module _ {ℓ} {V : Type ℓ} where
  -- A missing key leaves the entries as they are.
  pub without_absent : (key : Key) (xs : Keyed V) → find key xs ≡ none → without key xs ≡ xs
  unfolding without
  without_absent key [] e = refl
  without_absent key ((at, value) ∷ xs) e = elim (Bool-cases (same at key)) [
    | inl here ↦ let found = sym (find_here key at value xs here) ∙ e in cc
    | inr other ↦
        without_other key at value xs other
        ∙ ap (◌∷◌ (at, value)) (without_absent key xs (sym (find_other key at value xs other) ∙ e))
  ]

  pub find-without_same :
      (key : Key) (xs : Keyed V) → AreDistinct xs → find key (without key xs) ≡ none
  unfolding find without
  find-without_same key [] d = refl
  find-without_same key ((at, value) ∷ xs) d = elim (Bool-cases (same at key)) [
    | inl here ↦ rw here (sym (find-same at key xs here) ∙ d.0)
    | inr other ↦ rw other (find_other key at value _ other ∙ find-without_same key xs d.1)
  ]

  pub find-without_other :
      (key k : Key) (xs : Keyed V) → same key k ≡ false → find k (without key xs) ≡ find k xs
  unfolding find without
  find-without_other key k [] e = refl
  find-without_other key k ((at, value) ∷ xs) e = elim (Bool-cases (same at key)) [
    | inl here ↦
        let apart : same at k ≡ false = ap (λ (a : Key). same a k) (same_sound at key here) ∙ e in
        rw (here, apart) refl
    | inr other ↦ elim (Bool-cases (same at k)) [
      | inl at_k ↦ rw (other, at_k) refl
      | inr away ↦ rw (other, away) (find-without_other key k xs e)
    ]
  ]

  pub length-without :
      (key : Key) (value : V) (xs : Keyed V)
      → find key xs ≡ some value
      → suc (length (without key xs)) ≡ length xs
  unfolding find without
  length-without key value [] e = cc
  length-without key value ((at, v) ∷ xs) e = elim (Bool-cases (same at key)) [
    | inl here ↦ rw (without_here key at v xs here) refl
    | inr other ↦
        rw (without_other key at v xs other)
          (ap suc (length-without key value xs (sym (find_other key at v xs other) ∙ e)))
  ]

  pub without-AreDistinct :
      (key : Key) (xs : Keyed V) → AreDistinct xs → AreDistinct (without key xs)
  unfolding without
  without-AreDistinct key [] d = tt
  without-AreDistinct key ((at, v) ∷ xs) d = elim (Bool-cases (same at key)) [
    | inl here ↦ rw (without_here key at v xs here) (d.1)
    | inr other ↦ rw (without_other key at v xs other) (
      find-without_other key at xs (same_sym key at ∙ other) ∙ d.0,
      without-AreDistinct key xs d.1,
    )
  ]

  -- The keys without one of them.
  pub keys-without :
      (key : Key) (xs : Keyed V)
      → AreDistinct xs
      → keys (without key xs) ≡ retain (λ k. not (same k key)) (keys xs)
  unfolding retain without
  keys-without key [] d = refl
  keys-without key ((at, v) ∷ xs) d = elim (Bool-cases (same at key)) [
    | inl here ↦
        rw (without_here key at v xs here, here)
          (ap keys (sym (without_absent key xs (sym (find-same at key xs here) ∙ d.0)))
            ∙ keys-without key xs d.1)
    | inr other ↦
        rw (without_other key at v xs other, other) (ap (◌∷◌ at) (keys-without key xs d.1))
  ]
