-- ===== src/Fuse/Inodes/Steps.antt =====
-- Everything that can happen to the inode cache, in any order, with the list of the numbers given out.
use synology_filestation.Prelude.{ℕ, suc, ◌≡◌, ◌⊎◌, Bool, List, [], ◌∷◌}
use synology_filestation.Prelude.Keyed.{Key, Keyed}
use synology_filestation.Fuse.Inodes.{
  InodeCache, SynoFileInfo, new, expire, get_or_alloc_ino, insert_info, seed_root,
  invalidate_prefix, invalidate_path,
}

-- The numbers given out, each with the lower-case path that it was given to.
abbrev pub Log : Type 0
Log = List (Key × ℕ)

abbrev pub Given : Key → ℕ → Log → Type 0
Given k i [] = ⊥
Given k i ((key, ino) ∷ log) = ((k ≡ key) × (i ≡ ino)) ⊎ Given k i log

-- A condition on every path of the table.
abbrev pub Each : (Key → ℕ → Type 0) → Keyed ℕ → Type 0
Each P [] = Unit
Each P ((key, ino) ∷ entries) = P key ino × Each P entries

-- `allocs` has the cache as it was when the path was first looked up, which may be some time ago.
pub data InodeOp : Type 0 where
  allocs : Key → InodeCache → InodeOp
  inserts : ℕ → SynoFileInfo → InodeOp
  seeds : SynoFileInfo → InodeOp
  forgets_under forgets : Key → InodeOp
  ages : (ℕ → Bool) → InodeOp

module _ (lower : Key → Key) (root : Key) where
  unfoldable pub step : InodeOp → InodeCache → InodeCache
  unfolding get_or_alloc_ino insert_info seed_root invalidate_prefix invalidate_path expire
  step (allocs path seen) c = (get_or_alloc_ino lower path seen c).1
  step (inserts ino info) c = insert_info lower ino info c
  step (seeds info) c = seed_root lower info c
  step (forgets_under prefix) c = invalidate_prefix lower prefix c
  step (forgets path) c = invalidate_path lower path c
  step (ages old) c = record c { by_ino = expire old c.by_ino }

  abbrev pub log_after : InodeOp → InodeCache → Log → Log
  log_after (allocs path seen) c log = (lower path, (get_or_alloc_ino lower path seen c).0) ∷ log
  log_after (inserts ino info) c log = log
  log_after (seeds info) c log = log
  log_after (forgets_under prefix) c log = log
  log_after (forgets path) c log = log
  log_after (ages old) c log = log

  -- Details are inserted under a number that was given to their path, the root's under the number 1,
  -- and the cache that was looked at earlier has numbers that were given out.
  abbrev pub IsAllowed : InodeOp → Log → Type 0
  IsAllowed (allocs path seen) log = Each (λ k i. Given k i log) seen.path_to_ino
  IsAllowed (inserts ino info) log = Given (lower info.path) ino log
  IsAllowed (seeds info) log = lower info.path ≡ root
  IsAllowed (forgets_under prefix) log = Unit
  IsAllowed (forgets path) log = Unit
  IsAllowed (ages old) log = Unit

  -- The caches that some number of operations leads to.
  pub data Reached : ℕ → InodeCache → Log → Type 0 where
    start : Reached 0 new ((root, 1) ∷ [])
    next :
        {n : ℕ} {c : InodeCache} {log : Log} (op : InodeOp)
        → Reached n c log
        → IsAllowed op log
        → Reached (suc n) (step op c) (log_after op c log)
