-- ===== src/Fuse/Blocks/Runs.antt =====
-- Runs of the read cache: a claim, a download that arrives, a file that is forgotten meanwhile.
use synology_filestation.Prelude.{◌≡◌, refl, false, none, some, List, [], ◌∷◌, contains}
use synology_filestation.Prelude.Tree.{lookup, insert, remove}
use synology_filestation.Fuse.Blocks.{
  new, get, at_block, claim_inflight, insert_block, invalidate_ino, resolve, wait_for_block,
}
use synology_filestation.Fuse.Blocks.Run.{BlockOp, inserts, claims, run, step}

-- Two blocks of the inode 5 are claimed, and the first one arrives.
abbrev half_way : List BlockOp
half_way = claims 5 0 ∷ claims 5 1 ∷ inserts 5 0 (7 ∷ []) ∷ []

second_claim_run : (claim_inflight 5 1 (run (new 4 8) half_way)).0 ≡ false
unfolding run step new claim_inflight insert_block resolve at_block
second_claim_run = refl

arrived_run : get 5 0 (run (new 4 8) half_way) ≡ some (7 ∷ [])
unfolding run step new get claim_inflight insert_block resolve at_block
arrived_run = refl

-- The waiter for the second block finds nothing once the file is forgotten.
waiter_run :
    wait_for_block 5 1 (run (new 4 8) half_way) (invalidate_ino 5 (run (new 4 8) half_way)) ≡ none
unfolding run step new wait_for_block claim_inflight insert_block invalidate_ino resolve at_block
    lookup insert remove contains
waiter_run = refl
