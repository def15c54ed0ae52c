-- ===== src/Smb/Path/Cases.antt =====
-- Every text is a place, or has no share.
use synology_filestation.Prelude.{
  ℕ, ◌≡◌, refl, sym, ap, ◌∙◌, Bool, false, ◌&&◌, ◌⊎◌, inl, inr, Bool-cases, some, none, List, [],
  ◌∷◌, ◌++◌, contains, ◌==◌, arith,
}
use mathlib.Core.Path.{subst}
use synology_filestation.Smb.Path.{
  SmbPath, ok, invalid_arg, slash, is_empty, trim_start, trim_end, trim_matches, split_once,
  from_logical,
}
use synology_filestation.Smb.Path.RoundTrip.{IsSmbPath, join}

trim_end_again : (s : List ℕ) → trim_end (trim_end s) ≡ trim_end s
unfolding trim_end
trim_end_again [] = refl
trim_end_again (c ∷ s) = elim (Bool-cases (c == slash && is_empty (trim_end s))) [
  | inl e ↦ rw e refl
  | inr e ↦ rw (e, trim_end_again s, e) refl
]

-- The rest of a text that does not end in a slash.
trim_end-tail : (c : ℕ) (s : List ℕ) → trim_end (c ∷ s) ≡ c ∷ s → trim_end s ≡ s
unfolding trim_end
trim_end-tail c s e = ground arith

trim_end-suffix : (s t : List ℕ) → trim_end (s ++ t) ≡ s ++ t → trim_end t ≡ t
trim_end-suffix [] t e = e
trim_end-suffix (c ∷ s) t e = trim_end-suffix s t (trim_end-tail c (s ++ t) e)

after_slash : (s : List ℕ) → trim_end (slash ∷ s) ≡ slash ∷ s → is_empty s ≡ false
unfolding trim_end
after_slash [] e = absurd (ground arith)
after_slash (c ∷ s) e = refl

-- Whether a text starts with a slash.
abbrev starts : List ℕ → Bool
starts [] = false
starts (c ∷ s) = c == slash

trim_start-starts : (s : List ℕ) → starts (trim_start s) ≡ false
unfolding trim_start
trim_start-starts [] = refl
trim_start-starts (c ∷ s) = ground (arith, trim_start-starts s)

trim_end-starts : (s : List ℕ) → starts s ≡ false → starts (trim_end s) ≡ false
unfolding trim_end
trim_end-starts [] h = refl
trim_end-starts (c ∷ s) h = ground arith

split_once_cases :
    (s : List ℕ)
    → ((split_once s ≡ none) × (contains s slash ≡ false))
      ⊎ ((a : List ℕ) × (b : List ℕ) × (split_once s ≡ some (a, b))
          × (contains a slash ≡ false)
          × (s ≡ a ++ (slash ∷ b)))
unfolding split_once contains
split_once_cases [] = inl (refl, refl)
split_once_cases (c ∷ s) = elim (Bool-cases (c == slash)) [
  | inl e ↦ inr ([], s, rw e refl, refl, ap (◌∷ s) (ground arith))
  | inr e ↦ elim (split_once_cases s) [
    | inl (none_left, clean) ↦ inl (rw (e, none_left) refl, rw (e, clean) refl)
    | inr (a, b, eq, clean, parts) ↦
        inr (c ∷ a, b, rw (e, eq) refl, rw (e, clean) refl, ap (c ∷◌) parts)
  ]
]

-- A place that a text names, but for slashes before and after it.
abbrev pub Names : List ℕ → SmbPath → Type 0
Names logical p = (from_logical logical ≡ ok p) × IsSmbPath p × (join p ≡ trim_matches logical)

by_trimmed :
    (logical t : List ℕ)
    → trim_matches logical ≡ t
    → starts t ≡ false
    → trim_end t ≡ t
    → ((t ≡ []) × (from_logical logical ≡ invalid_arg)) ⊎ ((p : SmbPath) × Names logical p)
unfolding from_logical join
by_trimmed logical [] e h trimmed = inl (refl, rw e refl)
by_trimmed logical (c ∷ s) e h trimmed = elim (split_once_cases (c ∷ s)) [
  | inl (none_left, clean) ↦ inr (
    record { share = c ∷ s; path = [] },
    (
      rw (e, none_left) refl,
      record { named = refl; no_slash = clean; no_end = unfold trim_end in refl },
      sym e,
    ),
  )
  | inr ([], b, eq, clean, parts) ↦ absurd (ground arith)
  | inr (d ∷ a, b, eq, clean, parts) ↦
      let whole : trim_end ((d ∷ a) ++ (slash ∷ b)) ≡ (d ∷ a) ++ (slash ∷ b) =
        subst (λ x. trim_end x ≡ x) parts trimmed in
      let ending : trim_end (slash ∷ b) ≡ slash ∷ b = trim_end-suffix (d ∷ a) (slash ∷ b) whole in
      inr (
        record { share = d ∷ a; path = b },
        (
          rw (e, eq) refl,
          record { named = refl; no_slash = clean; no_end = trim_end-tail slash b ending },
          rw (after_slash b ending) (sym parts ∙ sym e),
        ),
      )
]

-- Every text is decomposed or refused: refused with `InvalidArg` if nothing is left between its
-- slashes, and else decomposed to a share with a name without a slash and a path that does not end in
-- one, which together are the text without the slashes before and after it.
pub from_logical_cases :
    (logical : List ℕ)
    → ((trim_matches logical ≡ []) × (from_logical logical ≡ invalid_arg))
      ⊎ ((p : SmbPath) × Names logical p)
unfolding trim_matches
from_logical_cases logical =
    by_trimmed logical (trim_matches logical) refl
      (trim_end-starts (trim_start logical) (trim_start-starts logical))
      (trim_end_again (trim_start logical))
