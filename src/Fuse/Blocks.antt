-- ===== src/Fuse/Blocks.antt =====
-- rust/synology-filestation-fuse/src/cache.rs, `ReadCache`: the cache of file blocks and the claims
-- on those that are being downloaded. The moka cache of the blocks is a list from which `expire` may
-- drop any blocks at any time. A `BlockSlot` is a number, and `resolved` lists those that were
-- resolved. Each method is one step; a poisoned lock is not modelled.
pub mod Tables
pub mod Cleared
pub mod Awake
pub mod Listed
pub mod Run
mod Runs
use synology_filestation.Prelude.{
  ℕ, zero, suc, ◌+◌, Bool, true, false, ◌&&◌, not, Option, some, none, List, [], ◌∷◌, contains,
  ◌==◌, if◌then◌else◌,
}
use synology_filestation.Prelude.Tree.{Tree, lookup, insert, remove}

abbrev pub Bytes : Type 0
Bytes = List ℕ

-- A table keyed by an inode and the index of a block.
abbrev pub Table : Type 0 → Type 0
Table V = List (ℕ × ℕ × V)

pub record ReadCache : Type 0 where
  pub blocks : Table Bytes
  pub ino_blocks : Tree (List ℕ)
  pub in_flight : Table ℕ
  pub next_slot : ℕ
  pub resolved : List ℕ
  pub block_size : ℕ
  pub max_blocks : ℕ

unfoldable pub new : ℕ → ℕ → ReadCache
new block_size max_blocks = record {
  blocks = [];
  ino_blocks = [];
  in_flight = [];
  next_slot = 0;
  resolved = [];
  block_size = block_size;
  max_blocks = max_blocks;
}

module _ {V : Type 0} where
  unfoldable pub at_block : ℕ → ℕ → Table V → Option V
  at_block ino idx [] = none
  at_block ino idx ((i, j, v) ∷ table) =
      if i == ino && j == idx then some v else at_block ino idx table

  unfoldable pub without_block : ℕ → ℕ → Table V → Table V
  without_block ino idx [] = []
  without_block ino idx ((i, j, v) ∷ table) =
      let later = without_block ino idx table in
      if i == ino && j == idx then later else (i, j, v) ∷ later

  -- The indices of the blocks of an inode.
  unfoldable pub indices_of : ℕ → Table V → List ℕ
  indices_of ino [] = []
  indices_of ino ((i, j, v) ∷ table) =
      let later = indices_of ino table in if i == ino then j ∷ later else later

-- Blocks that were idle for too long, or are too many, go.
unfoldable pub expire : (ℕ → ℕ → Bool) → Table Bytes → Table Bytes
expire old [] = []
expire old ((i, j, d) ∷ blocks) =
    let later = expire old blocks in if old i j then later else (i, j, d) ∷ later

unfoldable pub get : ℕ → ℕ → ReadCache → Option Bytes
unfolding at_block
get ino idx c = at_block ino idx c.blocks

-- `contains_key`
unfoldable pub contains_block : ℕ → ℕ → ReadCache → Bool
unfolding at_block
contains_block ino idx c = elim (at_block ino idx c.blocks) [ none ↦ false | some bytes ↦ true ]

abbrev pub capacity_blocks : ReadCache → ℕ
capacity_blocks c = c.max_blocks

-- `c` is the cache when the wait begins; `c'` when the slot is resolved, or the deadline is reached.
unfoldable pub wait_for_block : ℕ → ℕ → ReadCache → ReadCache → Option Bytes
unfolding get at_block
wait_for_block ino idx c c' = elim (at_block ino idx c.in_flight) [
  | none ↦ get ino idx c
  | some slot ↦ get ino idx c'
]

-- The claim is taken out, and its slot resolved.
unfoldable pub resolve : ℕ → ℕ → ReadCache → ReadCache
unfolding at_block without_block
resolve ino idx c = elim (at_block ino idx c.in_flight) [
  | none ↦ c
  | some slot ↦ record c {
    in_flight = without_block ino idx c.in_flight;
    resolved = slot ∷ c.resolved;
  }
]

-- `entry(ino).or_default().insert(idx)`
abbrev pub with_index : ℕ → Option (List ℕ) → List ℕ
with_index idx none = idx ∷ []
with_index idx (some set) = if contains set idx then set else idx ∷ set

unfoldable pub insert_block : ℕ → ℕ → Bytes → ReadCache → ReadCache
unfolding resolve without_block
insert_block ino idx bytes c = resolve ino idx (record c {
  blocks = (ino, idx, bytes) ∷ without_block ino idx c.blocks;
  ino_blocks = insert ino (with_index idx (lookup ino c.ino_blocks)) c.ino_blocks;
})

unfoldable pub claim_inflight : ℕ → ℕ → ReadCache → Bool × ReadCache
unfolding at_block
claim_inflight ino idx c = elim (at_block ino idx c.in_flight) [
  | some slot ↦ (false, c)
  | none ↦ (
    true,
    record c { in_flight = (ino, idx, c.next_slot) ∷ c.in_flight; next_slot = c.next_slot + 1 },
  )
]

unfoldable pub cancel_inflight : ℕ → ℕ → ReadCache → ReadCache
unfolding resolve
cancel_inflight ino idx c = resolve ino idx c

-- `HashSet::remove`
unfoldable pub without_index : ℕ → List ℕ → List ℕ
without_index idx [] = []
without_index idx (j ∷ js) =
    let later = without_index idx js in if j == idx then later else j ∷ later

abbrev pub unlisted : ℕ → ℕ → Tree (List ℕ) → Option (List ℕ) → Tree (List ℕ)
unlisted ino idx ino_blocks none = ino_blocks
unlisted ino idx ino_blocks (some set) = insert ino (without_index idx set) ino_blocks

unfoldable pub invalidate_block : ℕ → ℕ → ReadCache → ReadCache
unfolding without_block without_index
invalidate_block ino idx c = record c {
  blocks = without_block ino idx c.blocks;
  ino_blocks = unlisted ino idx c.ino_blocks (lookup ino c.ino_blocks);
}

-- The two loops of `invalidate_ino`.
unfoldable pub drop_blocks : ℕ → List ℕ → ReadCache → ReadCache
unfolding resolve without_block
drop_blocks ino [] c = c
drop_blocks ino (idx ∷ set) c =
    drop_blocks ino set (resolve ino idx (record c { blocks = without_block ino idx c.blocks }))

unfoldable pub resolve_all : ℕ → List ℕ → ReadCache → ReadCache
unfolding resolve
resolve_all ino [] c = c
resolve_all ino (idx ∷ claimed) c = resolve_all ino claimed (resolve ino idx c)

abbrev pub listed : Option (List ℕ) → List ℕ
listed none = []
listed (some set) = set

unfoldable pub invalidate_ino : ℕ → ReadCache → ReadCache
unfolding drop_blocks resolve_all indices_of
invalidate_ino ino c =
    let dropped =
      drop_blocks ino (listed (lookup ino c.ino_blocks))
        (record c { ino_blocks = remove ino c.ino_blocks }) in
    resolve_all ino (indices_of ino dropped.in_flight) dropped
