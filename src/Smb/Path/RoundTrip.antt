-- ===== src/Smb/Path/RoundTrip.antt =====
-- What a decomposed path looks like, and that it names the place it was made from.
use synology_filestation.Prelude.{
  ℕ, zero, suc, ◌≡◌, refl, ap, ◌∙◌, false, some, none, List, [], ◌∷◌, ◌++◌, replicate, contains,
  ◌==◌, if◌then◌else◌, arith,
}
use synology_filestation.Smb.Path.{
  SmbPath, ok, slash, is_empty, trim_start, trim_end, trim_matches, split_once, from_logical,
}

-- A share has a name without a slash; a path does not end in one.
pub record IsSmbPath (p : SmbPath) : Type 0 where
  pub named : is_empty p.share ≡ false
  pub no_slash : contains p.share slash ≡ false
  pub no_end : trim_end p.path ≡ p.path

-- The logical path of a place: the share, and the path behind a slash if there is one.
unfoldable pub join : SmbPath → List ℕ
join p = if is_empty p.path then p.share else p.share ++ (slash ∷ p.path)

abbrev pub slashes : ℕ → List ℕ
slashes n = replicate n slash

trim_start-slashes :
    (n : ℕ) (c : ℕ) (s : List ℕ) → (c == slash) ≡ false → trim_start (slashes n ++ (c ∷ s)) ≡ c ∷ s
unfolding trim_start
trim_start-slashes zero c s h = rw h refl
trim_start-slashes (suc n) c s h = trim_start-slashes n c s h

trim_end-slashes : (n : ℕ) → trim_end (slashes n) ≡ []
unfolding trim_end
trim_end-slashes zero = refl
trim_end-slashes (suc n) = rw (trim_end-slashes n) refl

trim_end-append-slashes : (s : List ℕ) (n : ℕ) → trim_end (s ++ slashes n) ≡ trim_end s
unfolding trim_end
trim_end-append-slashes [] n = trim_end-slashes n
trim_end-append-slashes (c ∷ s) n = rw (trim_end-append-slashes s n) refl

trim_end-no_slash : (s : List ℕ) → contains s slash ≡ false → trim_end s ≡ s
unfolding trim_end contains
trim_end-no_slash [] h = refl
trim_end-no_slash (c ∷ s) h = ground (arith, trim_end-no_slash s)

is_empty-append : (s t : List ℕ) → is_empty t ≡ false → is_empty (s ++ t) ≡ false
is_empty-append [] t h = h
is_empty-append (c ∷ s) t h = refl

-- The end that is not empty stays the end.
trim_end-append : (s t : List ℕ) → trim_end t ≡ t → is_empty t ≡ false → trim_end (s ++ t) ≡ s ++ t
unfolding trim_end
trim_end-append [] t e some_t = e
trim_end-append (c ∷ s) t e some_t =
    rw (trim_end-append s t e some_t, is_empty-append s t some_t) (ground arith)

split_once-append :
    (s t : List ℕ) → contains s slash ≡ false → split_once (s ++ (slash ∷ t)) ≡ some (s, t)
unfolding split_once contains
split_once-append [] t h = refl
split_once-append (c ∷ s) t h =
    let unlike : (c == slash) ≡ false = ground arith in
    rw (unlike, split_once-append s t (ground arith)) refl

split_once-none : (s : List ℕ) → contains s slash ≡ false → split_once s ≡ none
unfolding split_once contains
split_once-none [] h = refl
split_once-none (c ∷ s) h =
    let unlike : (c == slash) ≡ false = ground arith in
    rw (unlike, split_once-none s (ground arith)) refl

-- The text of a place, between slashes that are trimmed away.
trim_matches-join :
    (before after : ℕ) (c : ℕ) (s : List ℕ)
    → (c == slash) ≡ false
    → trim_end (c ∷ s) ≡ c ∷ s
    → trim_matches (slashes before ++ ((c ∷ s) ++ slashes after)) ≡ c ∷ s
unfolding trim_matches
trim_matches-join before after c s h e =
    ap trim_end (trim_start-slashes before c (s ++ slashes after) h)
    ∙ (trim_end-append-slashes (c ∷ s) after ∙ e)

-- The logical path of a place, a share with a name without a slash and a path that does not end in
-- one, with any number of slashes before and after it, is decomposed to the place.
pub from_logical-join :
    (p : SmbPath) (before after : ℕ)
    → IsSmbPath p
    → from_logical (slashes before ++ (join p ++ slashes after)) ≡ ok p
unfolding from_logical join
from_logical-join p before after h = by_parts p.share p.path h.named h.no_slash h.no_end
  where
    by_parts :
        (share path : List ℕ)
        → is_empty share ≡ false
        → contains share slash ≡ false
        → trim_end path ≡ path
        → from_logical (
            slashes before
            ++ ((if is_empty path then share else share ++ (slash ∷ path)) ++ slashes after))
          ≡ ok (record { share = share; path = path })
    by_parts [] path named no_slash no_end = absurd (ground arith)
    by_parts (c ∷ s) [] named no_slash no_end =
        rw
          (
            trim_matches-join before after c s (unfold contains in ground arith)
                (trim_end-no_slash (c ∷ s) no_slash),
            split_once-none (c ∷ s) no_slash,
          )
          refl
    by_parts (c ∷ s) (d ∷ path) named no_slash no_end =
        rw
          (
            trim_matches-join before after c (s ++ (slash ∷ (d ∷ path)))
                (unfold contains in ground arith)
                (trim_end-append (c ∷ s) (slash ∷ (d ∷ path))
                  (trim_end-append (slash ∷ []) (d ∷ path) no_end refl) refl),
            split_once-append (c ∷ s) (d ∷ path) no_slash,
          )
          refl
