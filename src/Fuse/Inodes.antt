-- ===== src/Fuse/Inodes.antt =====
-- rust/synology-filestation-fuse/src/cache.rs, `InodeCache`: the numbers that the kernel knows files
-- by. `str::to_lowercase` is the standard library's, taken as a function `lower`. The moka cache of
-- the details is an association list from which `expire` may drop any entries at any time. Each
-- method is one step; a poisoned lock is not modelled.
pub mod Steps
pub mod Kept
pub mod Resolve
pub mod Sweep
mod Runs
use synology_filestation.Prelude.{
  ℕ, zero, suc, ◌+◌, ◌%◌, ◌^◌, Bool, Option, some, none, List, [], ◌∷◌, if◌then◌else◌,
}
use synology_filestation.Prelude.Tree.{Tree, lookup, insert, remove}
use synology_filestation.Prelude.Keyed.{Key, Keyed, retain, find, without, put, keys, starts_with}

-- Of the additional details, the field that the cache reads.
pub record SynoAdditional : Type 0 where
  pub size : Option ℕ

pub record SynoFileInfo : Type 0 where
  pub name : Key
  pub path : Key
  pub isdir : Bool
  pub additional : Option SynoAdditional
  pub code : Option ℕ

pub record InodeEntry : Type 0 where
  pub ino : ℕ
  pub path : Key
  pub info : SynoFileInfo

pub record InodeCache : Type 0 where
  pub next_ino : ℕ
  pub by_ino : Tree InodeEntry
  pub path_to_ino : Keyed ℕ
  pub ino_to_path : Tree Key

unfoldable pub new : InodeCache
new = record { next_ino = 2; by_ino = []; path_to_ino = []; ino_to_path = [] }

-- Details that are too old, or too many, go.
unfoldable pub expire : (ℕ → Bool) → Tree InodeEntry → Tree InodeEntry
expire old [] = []
expire old ((ino, entry) ∷ entries) =
    let later = expire old entries in if old ino then later else (ino, entry) ∷ later

-- `by_ino.invalidate`, `ino_to_path.remove` and `path_to_ino.remove` of a path that is there.
unfoldable pub forget : Key → InodeCache → InodeCache
forget key c = elim (find key c.path_to_ino) [
  | none ↦ c
  | some ino ↦ record c {
    by_ino = remove ino c.by_ino;
    ino_to_path = remove ino c.ino_to_path;
    path_to_ino = without key c.path_to_ino;
  }
]

unfoldable pub forget_all : List Key → InodeCache → InodeCache
unfolding forget
forget_all [] c = c
forget_all (key ∷ paths) c = forget_all paths (forget key c)

-- `insert` and `seed_root` once the inode is known.
abbrev entry_of : ℕ → SynoFileInfo → InodeEntry
entry_of ino info = record { ino = ino; path = info.path; info = info }

module _ (lower : Key → Key) where
  unfoldable pub get_ino_for_path : Key → InodeCache → Option ℕ
  get_ino_for_path path c = find (lower path) c.path_to_ino

  -- What `get_or_alloc_ino` does under the write locks, where it looks a second time.
  unfoldable pub alloc_locked : Key → InodeCache → ℕ × InodeCache
  alloc_locked path c = elim (find (lower path) c.path_to_ino) [
    | some ino ↦ (ino, c)
    | none ↦ (
      c.next_ino,
      record c {
        next_ino = (c.next_ino + 1) % 2 ^ 64;
        path_to_ino = put (lower path) c.next_ino c.path_to_ino;
      },
    )
  ]

  -- `c` is the cache when the path is looked up, `c'` when the write locks are taken.
  unfoldable pub get_or_alloc_ino : Key → InodeCache → InodeCache → ℕ × InodeCache
  unfolding alloc_locked
  get_or_alloc_ino path c c' = elim (find (lower path) c.path_to_ino) [
    | some ino ↦ (ino, c')
    | none ↦ alloc_locked path c'
  ]

  unfoldable pub insert_info : ℕ → SynoFileInfo → InodeCache → InodeCache
  insert_info ino info c = record c {
    by_ino = insert ino (entry_of ino info) c.by_ino;
    path_to_ino = put (lower info.path) ino c.path_to_ino;
    ino_to_path = insert ino info.path c.ino_to_path;
  }

  unfoldable pub seed_root : SynoFileInfo → InodeCache → InodeCache
  seed_root info c = record c {
    by_ino = insert 1 (entry_of 1 info) c.by_ino;
    path_to_ino = put (lower info.path) 1 c.path_to_ino;
    ino_to_path = insert 1 info.path c.ino_to_path;
  }

  unfoldable pub invalidate_prefix : Key → InodeCache → InodeCache
  unfolding forget_all retain
  invalidate_prefix prefix c =
      forget_all (retain (λ k. starts_with k (lower prefix)) (keys c.path_to_ino)) c

  unfoldable pub invalidate_path : Key → InodeCache → InodeCache
  unfolding forget
  invalidate_path path c = forget (lower path) c

unfoldable pub get_by_ino : ℕ → InodeCache → Option InodeEntry
get_by_ino ino c = lookup ino c.by_ino

unfoldable pub get_path_for_ino : ℕ → InodeCache → Option Key
get_path_for_ino ino c = elim (lookup ino c.by_ino) [
  | some entry ↦ some entry.path
  | none ↦ lookup ino c.ino_to_path
]

unfoldable pub get_size_for_ino : ℕ → InodeCache → Option ℕ
get_size_for_ino ino c = elim (lookup ino c.by_ino) [
  | none ↦ none
  | some entry ↦ elim entry.info.additional [ none ↦ none | some additional ↦ additional.size ]
]
