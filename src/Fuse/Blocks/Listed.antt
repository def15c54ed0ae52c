-- ===== src/Fuse/Blocks/Listed.antt =====
-- Which blocks are listed under their inode after an operation.
use synology_filestation.Prelude.{
  ℕ, ◌≡◌, ◌⊎◌, refl, sym, ◌∙◌, true, false, ◌&&◌, inl, inr, Option, some, none, List, [], ◌∷◌,
  contains, ◌==◌, ==_iff, Bool-cases, Option-cases, arith,
}
use mathlib.Core.Path.{subst}
use synology_filestation.Prelude.Tree.{
  Tree, lookup, insert, remove, IsSorted, lookup-insert, lookup-remove,
}
use synology_filestation.Fuse.Blocks.{
  ReadCache, without_block, without_index, indices_of, resolve, drop_blocks, resolve_all, listed,
  with_index, unlisted, invalidate_ino,
}
use synology_filestation.Fuse.Blocks.Tables.{Whole, resolve-ino_blocks}
use synology_filestation.Fuse.Blocks.Cleared.{IsListed, drop_blocks-Whole, resolve_all-blocks}

with_index_lem :
    (idx j : ℕ) (o : Option (List ℕ))
    → (j == idx ≡ true) ⊎ (contains (listed o) j ≡ true)
    → contains (with_index idx o) j ≡ true
unfolding contains
with_index_lem idx j none (inl e) = ground arith
with_index_lem idx j none (inr e) = cc
with_index_lem idx j (some set) (inl e) = ground arith
with_index_lem idx j (some set) (inr e) = ground arith

-- The set of an inode under another name of it.
renamed :
    (ino i j : ℕ) (t : Tree (List ℕ))
    → ino == i ≡ true
    → IsListed t i j
    → contains (listed (lookup ino t)) j ≡ true
renamed ino i j t e h =
    subst (λ (k : ℕ). contains (listed (lookup k t)) j ≡ true) (sym ((==_iff ino i).0 e)) h

pub insert-IsListed :
    (ino idx i j : ℕ) (t : Tree (List ℕ))
    → (i == ino && j == idx ≡ true) ⊎ IsListed t i j
    → IsListed (insert ino (with_index idx (lookup ino t)) t) i j
insert-IsListed ino idx i j t h =
    rw (lookup-insert ino i (with_index idx (lookup ino t)) t) (elim (Bool-cases (ino == i)) [
      | inl same ↦ rw same (with_index_lem idx j (lookup ino t) (either same h))
      | inr other ↦ rw other (elsewhere other h)
    ])
  where
    either :
        ino == i ≡ true
        → (i == ino && j == idx ≡ true) ⊎ IsListed t i j
        → (j == idx ≡ true) ⊎ (contains (listed (lookup ino t)) j ≡ true)
    either same (inl e) = inl (ground arith)
    either same (inr l) = inr (renamed ino i j t same l)

    elsewhere : ino == i ≡ false → (i == ino && j == idx ≡ true) ⊎ IsListed t i j → IsListed t i j
    elsewhere other (inl e) = absurd (ground arith)
    elsewhere other (inr l) = l

contains-without_index :
    (idx j : ℕ) (set : List ℕ)
    → contains set j ≡ true
    → j == idx ≡ false
    → contains (without_index idx set) j ≡ true
unfolding contains without_index
contains-without_index idx j [] h ne = cc
contains-without_index idx j (k ∷ ks) h ne = ground (arith, contains-without_index idx j ks)

pub unlisted-IsListed :
    (ino idx i j : ℕ) (t : Tree (List ℕ))
    → IsListed t i j
    → i == ino && j == idx ≡ false
    → IsListed (unlisted ino idx t (lookup ino t)) i j
unlisted-IsListed ino idx i j t h ne = elim (Option-cases (lookup ino t)) [
  | inl missing ↦ rw missing h
  | inr (set, found) ↦
      rw (found, lookup-insert ino i (without_index idx set) t)
        (elim (Bool-cases (ino == i)) [
          | inl same ↦ rw same (
              contains-without_index idx j set
                (subst (λ (o : Option (List ℕ)). contains (listed o) j ≡ true) found
                  (renamed ino i j t same h))
                (ground arith))
          | inr other ↦ rw other h
        ])
]

pub remove-IsListed :
    (ino i j : ℕ) (t : Tree (List ℕ))
    → IsSorted t
    → IsListed t i j
    → i == ino ≡ false
    → IsListed (remove ino t) i j
remove-IsListed ino i j t s h ne =
    rw (lookup-remove ino i t s)
      (elim (Bool-cases (ino == i)) [ inl same ↦ absurd (ground arith) | inr other ↦ rw other h ])

-- The blocks after `invalidate_ino` are those of other inodes, which keep their sets.
pub invalidate_ino-ino_blocks :
    (ino : ℕ) (c : ReadCache) → (invalidate_ino ino c).ino_blocks ≡ remove ino c.ino_blocks
unfolding invalidate_ino resolve_all drop_blocks
invalidate_ino-ino_blocks ino c =
    let emptied : ReadCache = record c { ino_blocks = remove ino c.ino_blocks } in
    let dropped : ReadCache = drop_blocks ino (listed (lookup ino c.ino_blocks)) emptied in
    resolve_all-ino_blocks ino (indices_of ino dropped.in_flight) dropped
    ∙ drop_blocks-ino_blocks ino (listed (lookup ino c.ino_blocks)) emptied
  where
    resolve_all-ino_blocks :
        (i : ℕ) (idxs : List ℕ) (d : ReadCache) → (resolve_all i idxs d).ino_blocks ≡ d.ino_blocks
    resolve_all-ino_blocks i [] d = refl
    resolve_all-ino_blocks i (idx ∷ idxs) d =
        resolve_all-ino_blocks i idxs (resolve i idx d) ∙ resolve-ino_blocks i idx d

    drop_blocks-ino_blocks :
        (i : ℕ) (set : List ℕ) (d : ReadCache) → (drop_blocks i set d).ino_blocks ≡ d.ino_blocks
    drop_blocks-ino_blocks i [] d = refl
    drop_blocks-ino_blocks i (idx ∷ set) d =
        drop_blocks-ino_blocks i set
          (resolve i idx (record d { blocks = without_block i idx d.blocks }))
        ∙ resolve-ino_blocks i idx (record d { blocks = without_block i idx d.blocks })

pub invalidate_ino-kept :
    (P : ℕ → ℕ → Type 0) (ino : ℕ) (c : ReadCache)
    → Whole P c.blocks
    → Whole P (invalidate_ino ino c).blocks
unfolding invalidate_ino
invalidate_ino-kept P ino c h =
    let emptied : ReadCache = record c { ino_blocks = remove ino c.ino_blocks } in
    let dropped : ReadCache = drop_blocks ino (listed (lookup ino c.ino_blocks)) emptied in
    rw (resolve_all-blocks ino (indices_of ino dropped.in_flight) dropped)
      (drop_blocks-Whole P ino (listed (lookup ino c.ino_blocks)) emptied h)
