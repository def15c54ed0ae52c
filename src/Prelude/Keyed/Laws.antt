-- ===== src/Prelude/Keyed/Laws.antt =====
-- Entries that are filtered, appended or compared by what is found in them.
use synology_filestation.Prelude.{
  ◌≤◌, ◌≡◌, refl, sym, ap, ◌∙◌, Bool, inl, inr, none, some, [], ◌∷◌, ◌++◌, length, if◌then◌else◌,
  Bool-cases, Option-cases, arith,
}
use synology_filestation.Prelude.Bytes.{same, same_sound, same_refl}
use synology_filestation.Prelude.Keyed.{
  Key, Keyed, AreDistinct, find, without, keys, retain, same_sym, find-same, find_here, find_other,
  find-append, find-without_other, length-without,
}

module _ {V : Type 0} where
  -- The entries whose key passes a test.
  unfoldable pub keep : (Key → Bool) → Keyed V → Keyed V
  keep test [] = []
  keep test ((at, value) ∷ xs) =
      let later = keep test xs in if test at then (at, value) ∷ later else later

  pub find-keep :
      (test : Key → Bool) (key : Key) (xs : Keyed V)
      → find key (keep test xs) ≡ (if test key then find key xs else none)
  unfolding keep find
  find-keep test key [] = elim (Bool-cases (test key)) [ inl e ↦ rw e refl | inr e ↦ rw e refl ]
  find-keep test key ((at, value) ∷ xs) = elim (Bool-cases (same at key)) [
    | inl here ↦
        let e : test at ≡ test key = ap test (same_sound at key here) in
        elim (Bool-cases (test key)) [
          | inl passes ↦ rw (e, passes, here) refl
          | inr fails ↦ rw (e, fails) (find-keep test key xs ∙ rw fails refl)
        ]
    | inr other ↦ elim (Bool-cases (test at)) [
      | inl passes ↦ rw (passes, other) (find-keep test key xs)
      | inr fails ↦ rw (fails, other) (find-keep test key xs)
    ]
  ]

  pub keep-AreDistinct :
      (test : Key → Bool) (xs : Keyed V) → AreDistinct xs → AreDistinct (keep test xs)
  unfolding keep
  keep-AreDistinct test [] d = tt
  keep-AreDistinct test ((at, value) ∷ xs) d = elim (Bool-cases (test at)) [
    | inl passes ↦ rw passes (find-keep test at xs ∙ rw passes (d.0), keep-AreDistinct test xs d.1)
    | inr fails ↦ rw fails (keep-AreDistinct test xs d.1)
  ]

  pub keys-keep : (test : Key → Bool) (xs : Keyed V) → keys (keep test xs) ≡ retain test (keys xs)
  unfolding keep retain
  keys-keep test [] = refl
  keys-keep test ((at, value) ∷ xs) = elim (Bool-cases (test at)) [
    | inl passes ↦ rw passes (ap (◌∷◌ at) (keys-keep test xs))
    | inr fails ↦ rw fails (keys-keep test xs)
  ]

  pub keys-append : (xs ys : Keyed V) → keys (xs ++ ys) ≡ keys xs ++ keys ys
  keys-append [] ys = refl
  keys-append ((at, value) ∷ xs) ys = ap (◌∷◌ at) (keys-append xs ys)

  -- One more entry at the end.
  pub find-push :
      (key at : Key) (value : V) (xs : Keyed V)
      → find key xs ≡ none
      → find at (xs ++ ((key, value) ∷ [])) ≡ (if same key at then some value else find at xs)
  unfolding find
  find-push key at value xs absent = elim (Bool-cases (same key at)) [
    | inl here ↦
        rw (find-append at xs ((key, value) ∷ []), sym (find-same key at xs here), absent, here)
          refl
    | inr other ↦ elim (Option-cases (find at xs)) [
      | inl missing ↦ rw (find-append at xs ((key, value) ∷ []), missing, other) refl
      | inr (v, found) ↦ rw (find-append at xs ((key, value) ∷ []), found, other) refl
    ]
  ]

  pub push-AreDistinct :
      (key : Key) (value : V) (xs : Keyed V)
      → AreDistinct xs
      → find key xs ≡ none
      → AreDistinct (xs ++ ((key, value) ∷ []))
  unfolding find
  push-AreDistinct key value [] d absent = (refl, tt)
  push-AreDistinct key value ((at, v) ∷ xs) d absent = elim (Bool-cases (same at key)) [
    | inl here ↦ absurd (let found = sym (find_here key at v xs here) ∙ absent in cc)
    | inr other ↦
        let missing : find key xs ≡ none = sym (find_other key at v xs other) ∙ absent in
        (
          find-push key at value xs missing ∙ rw (same_sym key at, other) (d.0),
          push-AreDistinct key value xs d.1 missing,
        )
  ]

  -- Entries whose every value stands in others are no more than those.
  pub length-le :
      (xs ys : Keyed V)
      → AreDistinct xs
      → ((k : Key) (v : V) → find k xs ≡ some v → find k ys ≡ some v)
      → length xs ≤ length ys
  length-le [] ys d inside = omega arith
  length-le ((at, v) ∷ xs) ys d inside =
      let there : find at ys ≡ some v = inside at v (find_here at at v xs (same_refl at)) in
      let rest : length xs ≤ length (without at ys) = length-le xs (without at ys) d.1 still in
      omega (arith, rest, length-without at v ys there)
    where
      still : (k : Key) (w : V) → find k xs ≡ some w → find k (without at ys) ≡ some w
      still k w e = elim (Bool-cases (same at k)) [
        | inl here ↦ absurd (let nothing = sym e ∙ sym (find-same at k xs here) ∙ d.0 in cc)
        | inr other ↦ find-without_other at k ys other ∙ inside k w (find_other k at v xs other ∙ e)
      ]

  pub length-without_le : (key : Key) (xs : Keyed V) → length (without key xs) ≤ length xs
  unfolding without
  length-without_le key [] = omega arith
  length-without_le key ((at, v) ∷ xs) = ground (arith, length-without_le key xs)

  pub length-keep_le : (test : Key → Bool) (xs : Keyed V) → length (keep test xs) ≤ length xs
  unfolding keep
  length-keep_le test [] = omega arith
  length-keep_le test ((at, v) ∷ xs) = ground (arith, length-keep_le test xs)
