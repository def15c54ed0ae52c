-- ===== src/Fuse/Blocks/Cleared.antt =====
-- What `invalidate_ino` leaves of an inode.
use synology_filestation.Prelude.{
  ℕ, ◌≡◌, refl, ◌∙◌, true, false, ◌&&◌, ◌||◌, not, inl, inr, List, [], ◌∷◌, contains, ◌==◌, ==_iff,
  Bool-cases, arith,
}
use mathlib.Core.Path.{subst}
use synology_filestation.Prelude.Tree.{Tree, lookup, remove}
use synology_filestation.Fuse.Blocks.{
  Bytes, Table, ReadCache, without_block, indices_of, resolve, drop_blocks, resolve_all, listed,
  invalidate_ino,
}
use synology_filestation.Fuse.Blocks.Tables.{
  Whole, Whole-mono, Whole-zip, Whole-without_block, without_block-gone, indices_of_complete,
  resolve-blocks, resolve-in_flight,
}

pub drop_blocks-Whole :
    (P : ℕ → ℕ → Type 0) (ino : ℕ) (set : List ℕ) (c : ReadCache)
    → Whole P c.blocks
    → Whole P (drop_blocks ino set c).blocks
unfolding drop_blocks
drop_blocks-Whole P ino [] c h = h
drop_blocks-Whole P ino (idx ∷ set) c h =
    let dropped : ReadCache = record c { blocks = without_block ino idx c.blocks } in
    drop_blocks-Whole P ino set (resolve ino idx dropped)
      (rw (resolve-blocks ino idx dropped) (Whole-without_block P ino idx c.blocks h))

drop_blocks-gone :
    (ino : ℕ) (set : List ℕ) (c : ReadCache)
    → Whole (λ i j. i == ino && contains set j ≡ false) (drop_blocks ino set c).blocks
unfolding drop_blocks contains
drop_blocks-gone ino [] c =
    Whole-mono (λ i j. Unit) _ c.blocks (λ i j h. ground arith) (anything c.blocks)
  where
    anything : (t : Table Bytes) → Whole (λ i j. Unit) t
    anything [] = tt
    anything ((i, j, d) ∷ t) = (tt, anything t)
drop_blocks-gone ino (idx ∷ set) c =
    let dropped : ReadCache = record c { blocks = without_block ino idx c.blocks } in
    let one =
      drop_blocks-Whole (λ i j. i == ino && j == idx ≡ false) ino set (resolve ino idx dropped)
        (rw (resolve-blocks ino idx dropped) (without_block-gone ino idx c.blocks)) in
    Whole-mono _ _ _ (λ i j h. ground (arith, h))
      (Whole-zip _ _ (drop_blocks ino set (resolve ino idx dropped)).blocks one
        (drop_blocks-gone ino set (resolve ino idx dropped)))

pub resolve_all-blocks :
    (ino : ℕ) (idxs : List ℕ) (c : ReadCache) → (resolve_all ino idxs c).blocks ≡ c.blocks
unfolding resolve_all
resolve_all-blocks ino [] c = refl
resolve_all-blocks ino (idx ∷ idxs) c =
    resolve_all-blocks ino idxs (resolve ino idx c) ∙ resolve-blocks ino idx c

resolve_all-Whole :
    (P : ℕ → ℕ → Type 0) (ino : ℕ) (idxs : List ℕ) (c : ReadCache)
    → Whole P c.in_flight
    → Whole P (resolve_all ino idxs c).in_flight
unfolding resolve_all
resolve_all-Whole P ino [] c h = h
resolve_all-Whole P ino (idx ∷ idxs) c h =
    resolve_all-Whole P ino idxs (resolve ino idx c)
      (rw (resolve-in_flight ino idx c) (Whole-without_block P ino idx c.in_flight h))

resolve_all-gone :
    (ino : ℕ) (idxs : List ℕ) (c : ReadCache)
    → Whole (λ i j. i == ino && contains idxs j ≡ false) (resolve_all ino idxs c).in_flight
unfolding resolve_all contains
resolve_all-gone ino [] c =
    Whole-mono (λ i j. Unit) _ c.in_flight (λ i j h. ground arith) (anything c.in_flight)
  where
    anything : (t : Table ℕ) → Whole (λ i j. Unit) t
    anything [] = tt
    anything ((i, j, d) ∷ t) = (tt, anything t)
resolve_all-gone ino (idx ∷ idxs) c =
    let one =
      resolve_all-Whole (λ i j. i == ino && j == idx ≡ false) ino idxs (resolve ino idx c)
        (rw (resolve-in_flight ino idx c) (without_block-gone ino idx c.in_flight)) in
    Whole-mono _ _ _ (λ i j h. ground (arith, h))
      (Whole-zip _ _ (resolve_all ino idxs (resolve ino idx c)).in_flight one
        (resolve_all-gone ino idxs (resolve ino idx c)))

-- Every cached block is listed among those of its inode.
abbrev pub IsListed : Tree (List ℕ) → ℕ → ℕ → Type 0
IsListed ino_blocks i j = contains (listed (lookup i ino_blocks)) j ≡ true

module _ (ino : ℕ) (c : ReadCache) where
  abbrev set : List ℕ
  set = listed (lookup ino c.ino_blocks)

  abbrev dropped : ReadCache
  dropped = drop_blocks ino set (record c { ino_blocks = remove ino c.ino_blocks })

  pub invalidate_ino-blocks :
      Whole (IsListed c.ino_blocks) c.blocks
      → Whole (λ i j. i == ino ≡ false) (invalidate_ino ino c).blocks
  unfolding invalidate_ino
  invalidate_ino-blocks tracked =
      rw (resolve_all-blocks ino (indices_of ino dropped.in_flight) dropped) (
        Whole-mono (λ i j. IsListed c.ino_blocks i j × (i == ino && contains set j ≡ false)) _
          dropped.blocks other
          (Whole-zip _ _ dropped.blocks
            (drop_blocks-Whole (IsListed c.ino_blocks) ino set
              (record c { ino_blocks = remove ino c.ino_blocks }) tracked)
            (drop_blocks-gone ino set (record c { ino_blocks = remove ino c.ino_blocks }))))
    where
      other :
          (i j : ℕ)
          → IsListed c.ino_blocks i j × (i == ino && contains set j ≡ false)
          → i == ino ≡ false
      other i j h = elim (Bool-cases (i == ino)) [
        | inl e ↦
            let here : contains set j ≡ true =
              subst (λ (k : ℕ). IsListed c.ino_blocks k j) ((==_iff i ino).0 e) h.0 in
            ground (arith, h.1, here)
        | inr e ↦ e
      ]

  pub invalidate_ino-in_flight : Whole (λ i j. i == ino ≡ false) (invalidate_ino ino c).in_flight
  unfolding invalidate_ino
  invalidate_ino-in_flight =
      let claimed = indices_of ino dropped.in_flight in
      Whole-mono
        (λ i j.
          (not (i == ino) || contains claimed j ≡ true) × (i == ino && contains claimed j ≡ false))
        _ _ (λ i j h. ground (arith, h))
        (Whole-zip _ _ (resolve_all ino claimed dropped).in_flight
          (resolve_all-Whole _ ino claimed dropped (indices_of_complete ino dropped.in_flight))
          (resolve_all-gone ino claimed dropped))
