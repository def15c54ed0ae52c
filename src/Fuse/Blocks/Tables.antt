-- ===== src/Fuse/Blocks/Tables.antt =====
-- What removing blocks does to the tables of the read cache.
use synology_filestation.Prelude.{
  ℕ, ◌≡◌, refl, sym, ap, ◌∙◌, Bool, true, false, ◌&&◌, ◌||◌, not, inl, inr, some, none, [], ◌∷◌,
  contains, ◌==◌, if_cases, Bool-cases, Option-cases, arith,
}
use synology_filestation.Fuse.Blocks.{
  Bytes, Table, ReadCache, at_block, without_block, indices_of, expire, resolve,
}

-- A condition on every entry of a table.
abbrev pub Whole : {V : Type 0} → (ℕ → ℕ → Type 0) → Table V → Type 0
Whole P [] = Unit
Whole P ((i, j, v) ∷ table) = P i j × Whole P table

module _ {V : Type 0} where
  pub Whole-mono :
      (P Q : ℕ → ℕ → Type 0) (t : Table V) → ((i j : ℕ) → P i j → Q i j) → Whole P t → Whole Q t
  Whole-mono P Q [] f h = tt
  Whole-mono P Q ((i, j, v) ∷ t) f h = (f i j h.0, Whole-mono P Q t f h.1)

  pub Whole-zip :
      (P Q : ℕ → ℕ → Type 0) (t : Table V) → Whole P t → Whole Q t → Whole (λ i j. P i j × Q i j) t
  Whole-zip P Q [] p q = tt
  Whole-zip P Q ((i, j, v) ∷ t) p q = ((p.0, q.0), Whole-zip P Q t p.1 q.1)

  pub Whole-without_block :
      (P : ℕ → ℕ → Type 0) (ino idx : ℕ) (t : Table V)
      → Whole P t
      → Whole P (without_block ino idx t)
  unfolding without_block
  Whole-without_block P ino idx [] h = tt
  Whole-without_block P ino idx ((i, j, v) ∷ t) h =
      let later = Whole-without_block P ino idx t h.1 in
      if_cases (Whole P) (i == ino && j == idx) _ _ (λ _. later) (λ _. (h.0, later))

  -- The block is gone.
  pub without_block-gone :
      (ino idx : ℕ) (t : Table V)
      → Whole (λ i j. i == ino && j == idx ≡ false) (without_block ino idx t)
  unfolding without_block
  without_block-gone ino idx [] = tt
  without_block-gone ino idx ((i, j, v) ∷ t) =
      let later = without_block-gone ino idx t in
      if_cases (Whole (λ i j. i == ino && j == idx ≡ false)) (i == ino && j == idx) _ _ (λ _. later)
        (λ other. (other, later))

  pub at_block-here :
      (ino idx i j : ℕ) (v : V) (t : Table V)
      → i == ino && j == idx ≡ true
      → at_block ino idx ((i, j, v) ∷ t) ≡ some v
  unfolding at_block
  at_block-here ino idx i j v t e = rw e refl

  pub at_block-other :
      (ino idx i j : ℕ) (v : V) (t : Table V)
      → i == ino && j == idx ≡ false
      → at_block ino idx ((i, j, v) ∷ t) ≡ at_block ino idx t
  unfolding at_block
  at_block-other ino idx i j v t e = rw e refl

  without_block-other :
      (ino idx i j : ℕ) (v : V) (t : Table V)
      → i == ino && j == idx ≡ false
      → without_block ino idx ((i, j, v) ∷ t) ≡ (i, j, v) ∷ without_block ino idx t
  unfolding without_block
  without_block-other ino idx i j v t e = rw e refl

  pub without_block_absent :
      (ino idx : ℕ) (t : Table V) → at_block ino idx t ≡ none → without_block ino idx t ≡ t
  unfolding at_block without_block
  without_block_absent ino idx [] e = refl
  without_block_absent ino idx ((i, j, v) ∷ t) e = elim (Bool-cases (i == ino && j == idx)) [
    | inl here ↦ absurd (let found = sym (at_block-here ino idx i j v t here) ∙ e in cc)
    | inr other ↦
        without_block-other ino idx i j v t other
        ∙ ap (◌∷◌ (i, j, v))
            (without_block_absent ino idx t (sym (at_block-other ino idx i j v t other) ∙ e))
  ]

  -- Nothing is found where every entry is another.
  pub at_block-Whole :
      (ino idx : ℕ) (t : Table V) → Whole (λ i j. i == ino ≡ false) t → at_block ino idx t ≡ none
  unfolding at_block
  at_block-Whole ino idx [] h = refl
  at_block-Whole ino idx ((i, j, v) ∷ t) h = rw (h.0) (at_block-Whole ino idx t h.1)

  pub indices_of_complete :
      (ino : ℕ) (t : Table V)
      → Whole (λ i j. not (i == ino) || contains (indices_of ino t) j ≡ true) t
  unfolding indices_of contains
  indices_of_complete ino [] = tt
  indices_of_complete ino ((i, j, v) ∷ t) =
      (ground arith, Whole-mono _ _ t (λ a b h. ground arith) (indices_of_complete ino t))

pub Whole-expire :
    (P : ℕ → ℕ → Type 0) (old : ℕ → ℕ → Bool) (t : Table Bytes) → Whole P t → Whole P (expire old t)
unfolding expire
Whole-expire P old [] h = tt
Whole-expire P old ((i, j, d) ∷ t) h =
    let later = Whole-expire P old t h.1 in
    if_cases (Whole P) (old i j) _ _ (λ _. later) (λ _. (h.0, later))

-- `resolve` changes only the claims.
pub resolve-blocks : (ino idx : ℕ) (c : ReadCache) → (resolve ino idx c).blocks ≡ c.blocks
unfolding resolve
resolve-blocks ino idx c = elim (Option-cases (at_block ino idx c.in_flight)) [
  | inl e ↦ rw (e, resolve) refl
  | inr (s, e) ↦ rw (e, resolve) refl
]

pub resolve-ino_blocks :
    (ino idx : ℕ) (c : ReadCache) → (resolve ino idx c).ino_blocks ≡ c.ino_blocks
unfolding resolve
resolve-ino_blocks ino idx c = elim (Option-cases (at_block ino idx c.in_flight)) [
  | inl e ↦ rw (e, resolve) refl
  | inr (s, e) ↦ rw (e, resolve) refl
]

pub resolve-in_flight :
    (ino idx : ℕ) (c : ReadCache)
    → (resolve ino idx c).in_flight ≡ without_block ino idx c.in_flight
unfolding resolve
resolve-in_flight ino idx c = elim (Option-cases (at_block ino idx c.in_flight)) [
  | inl e ↦ rw (e, resolve) (sym (without_block_absent ino idx c.in_flight e))
  | inr (s, e) ↦ rw (e, resolve) refl
]
