-- ===== src/Fuse/Blocks/Run.antt =====
-- Every use of the read cache, and what is true after it.
use synology_filestation.Prelude.{ℕ, Bool, List, [], ◌∷◌}
use synology_filestation.Prelude.Tree.{Tree, IsSorted}
use synology_filestation.Fuse.Blocks.{
  Bytes, ReadCache, expire, insert_block, claim_inflight, cancel_inflight, invalidate_block,
  invalidate_ino,
}
use synology_filestation.Fuse.Blocks.Tables.{Whole}
use synology_filestation.Fuse.Blocks.Cleared.{IsListed}
use synology_filestation.Fuse.Blocks.Awake.{IsAwake}

-- The operations that change the cache, and the time that passes.
pub data BlockOp : Type 0 where
  inserts : ℕ → ℕ → Bytes → BlockOp
  claims cancels forgets_block : ℕ → ℕ → BlockOp
  forgets_ino : ℕ → BlockOp
  ages : (ℕ → ℕ → Bool) → BlockOp

unfoldable pub step : BlockOp → ReadCache → ReadCache
unfolding insert_block claim_inflight cancel_inflight invalidate_block invalidate_ino expire
step (inserts ino idx bytes) c = insert_block ino idx bytes c
step (claims ino idx) c = (claim_inflight ino idx c).1
step (cancels ino idx) c = cancel_inflight ino idx c
step (forgets_block ino idx) c = invalidate_block ino idx c
step (forgets_ino ino) c = invalidate_ino ino c
step (ages old) c = record c { blocks = expire old c.blocks }

unfoldable pub run : ReadCache → List BlockOp → ReadCache
unfolding step
run c [] = c
run c (op ∷ ops) = run (step op c) ops

-- Every cached block is listed under its inode, and no waiter sleeps on a claim that is over.
pub record IsWell (c : ReadCache) : Type 0 where
  pub sorted : IsSorted c.ino_blocks
  pub tracked : Whole (IsListed c.ino_blocks) c.blocks
  pub awake : IsAwake c
