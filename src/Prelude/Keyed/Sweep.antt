-- ===== src/Prelude/Keyed/Sweep.antt =====
-- Removing every key that passes a test, one after the other.
use synology_filestation.Prelude.{
  ◌≡◌, refl, sym, ap, ◌∙◌, Bool, true, false, ◌&&◌, ◌||◌, inl, inr, Option, none, List, [], ◌∷◌,
  if◌then◌else◌, Bool-cases, arith,
}
use synology_filestation.Prelude.Bytes.{same, same_sound}
use synology_filestation.Prelude.Keyed.{
  Key, Keyed, AreDistinct, find, without, keys, retain, find-same, find-without_same,
  find-without_other, without-AreDistinct,
}

-- Whether a key stands in a list.
unfoldable has : Key → List Key → Bool
has key [] = false
has key (k ∷ ks) = same k key || has key ks

has-retain :
    (test : Key → Bool) (key : Key) (ks : List Key)
    → has key (retain test ks) ≡ test key && has key ks
unfolding has retain
has-retain test key [] = elim (Bool-cases (test key)) [ inl e ↦ rw e refl | inr e ↦ rw e refl ]
has-retain test key (k ∷ ks) = elim (Bool-cases (same k key)) [
  | inl here ↦
      let e : test k ≡ test key = ap test (same_sound k key here) in
      elim (Bool-cases (test key)) [
        | inl passes ↦ rw (e, passes, here) refl
        | inr fails ↦ rw (e, fails) (has-retain test key ks ∙ rw fails refl)
      ]
  | inr other ↦ elim (Bool-cases (test k)) [
    | inl passes ↦ rw (passes, other) (has-retain test key ks)
    | inr fails ↦ rw (fails, other) (has-retain test key ks)
  ]
]

module _ {V : Type 0} where
  unfoldable pub without_all : List Key → Keyed V → Keyed V
  unfolding without
  without_all [] xs = xs
  without_all (k ∷ ks) xs = without_all ks (without k xs)

  find_missing : (key : Key) (xs : Keyed V) → has key (keys xs) ≡ false → find key xs ≡ none
  unfolding has find
  find_missing key [] e = refl
  find_missing key ((at, v) ∷ xs) e = elim (Bool-cases (same at key)) [
    | inl here ↦ absurd (ground arith)
    | inr other ↦ rw other (find_missing key xs (ground arith))
  ]

  pub without_all-AreDistinct :
      (ks : List Key) (xs : Keyed V) → AreDistinct xs → AreDistinct (without_all ks xs)
  unfolding without_all
  without_all-AreDistinct [] xs d = d
  without_all-AreDistinct (k ∷ ks) xs d =
      without_all-AreDistinct ks (without k xs) (without-AreDistinct k xs d)

  find-without_all :
      (key : Key) (ks : List Key) (xs : Keyed V)
      → AreDistinct xs
      → find key (without_all ks xs) ≡ (if has key ks then none else find key xs)
  unfolding without_all has
  find-without_all key [] xs d = refl
  find-without_all key (k ∷ ks) xs d = elim (Bool-cases (same k key)) [
    | inl here ↦ rw here (
        find-without_all key ks (without k xs) (without-AreDistinct k xs d)
        ∙ rw (sym (find-same k key (without k xs) here), find-without_same k xs d)
            (either_none (has key ks) none))
    | inr other ↦ rw other (
        find-without_all key ks (without k xs) (without-AreDistinct k xs d)
        ∙ rw (find-without_other k key xs other) refl)
  ]
    where
      either_none : (b : Bool) (o : Option V) → (if b then o else o) ≡ o
      either_none true o = refl
      either_none false o = refl

  -- What is found after every key that passes a test was removed.
  pub find-retained :
      (test : Key → Bool) (key : Key) (xs : Keyed V)
      → AreDistinct xs
      → find key (without_all (retain test (keys xs)) xs) ≡ (if test key then none else find key xs)
  find-retained test key xs d =
      find-without_all key (retain test (keys xs)) xs d ∙ elim (Bool-cases (has key (keys xs))) [
        | inl there ↦ rw (has-retain test key (keys xs), there) (with_true (test key) (find key xs))
        | inr missing ↦
            rw (has-retain test key (keys xs), missing, find_missing key xs missing)
              (with_false (test key) none)
      ]
    where
      with_true :
          (b : Bool) (o : Option V) → (if b && true then none else o) ≡ (if b then none else o)
      with_true true o = refl
      with_true false o = refl

      with_false : (b : Bool) (o : Option V) → (if b && false then o else o) ≡ (if b then o else o)
      with_false true o = refl
      with_false false o = refl
