-- ===== src/Fuse/Inodes/Runs.antt =====
-- Runs of the inode cache: numbers given out, a file that is forgotten and comes back, a sweep.
use synology_filestation.Prelude.{
  ◌≡◌, refl, inl, inr, true, none, some, [], ◌∷◌, ◌++◌, if◌then◌else◌, arith,
}
use synology_filestation.Prelude.Bytes.{same}
use synology_filestation.Prelude.Tree.{lookup, insert, remove}
use synology_filestation.Prelude.Keyed.{Key, AreDistinct, find, without, put, retain, starts_with}
use synology_filestation.Fuse.Inodes.{
  InodeCache, SynoFileInfo, new, invalidate_prefix, get_path_for_ino, get_ino_for_path,
  get_size_for_ino,
}
use synology_filestation.Fuse.Inodes.Steps.{
  Log, Given, allocs, inserts, forgets, step, Reached, start, next,
}
use synology_filestation.Fuse.Inodes.Resolve.{Reached-resolves}
use synology_filestation.Fuse.Inodes.Sweep.{get_ino_for_path-invalidate_prefix}

-- Paths are in lower case here.
abbrev lower : Key → Key
lower path = path

-- `/p` and `/p2`, and the root.
abbrev photos : Key
photos = 47 ∷ 112 ∷ []

abbrev photos2 : Key
photos2 = 47 ∷ 112 ∷ 50 ∷ []

abbrev root : Key
root = 47 ∷ []

abbrev details : SynoFileInfo
details = record {
  name = 112 ∷ [];
  path = photos;
  isdir = true;
  additional = some (record { size = some 7 });
  code = none;
}

-- A path is given a number, its details are inserted, it is forgotten, and asked for again.
abbrev given : InodeCache
given = step lower root (allocs photos new) new

abbrev known : InodeCache
known = step lower root (inserts 2 details) given

abbrev again : InodeCache
again = step lower root (allocs photos new) (step lower root (forgets photos) known)

abbrev again_log : Log
again_log = (photos, 3) ∷ (photos, 2) ∷ (root, 1) ∷ []

known_run : get_path_for_ino 2 known ≡ some photos
unfolding step new find insert without get_path_for_ino lookup
known_run = refl

size_run : get_size_for_ino 2 known ≡ some 7
unfolding step new find insert without get_size_for_ino lookup
size_run = refl

again-Reached : Reached lower root 4 again again_log
unfolding step new find insert without same remove lookup put
again-Reached =
    next (allocs photos new)
      (next (forgets photos)
        (next (inserts 2 details) (next (allocs photos new) start tt) (inl (refl, refl))) tt)
      tt

Reached-resolves_example :
    ((k' : Key) → Given k' 2 again_log → k' ≡ photos)
    × ((path : Key) → get_path_for_ino 2 again ≡ some path → lower path ≡ photos)
Reached-resolves_example =
    Reached-resolves lower root 4 again again_log photos 2 again-Reached (omega arith)
      (inr (inl (refl, refl)))

-- Two paths, of which one is the start of the other.
abbrev two_paths : InodeCache
two_paths = record {
  next_ino = 4;
  by_ino = [];
  path_to_ino = (photos, 2) ∷ (photos2, 3) ∷ [];
  ino_to_path = [];
}

two_paths-AreDistinct : AreDistinct two_paths.path_to_ino
unfolding find same
two_paths-AreDistinct = (refl, (refl, tt))

-- `rmdir` of the one sweeps the other.
sweep_run : get_ino_for_path lower photos2 (invalidate_prefix lower photos two_paths) ≡ none
unfolding get_ino_for_path invalidate_prefix find without retain starts_with same
sweep_run = refl

get_ino_for_path-invalidate_prefix_example :
    get_ino_for_path lower photos2 (invalidate_prefix lower (photos ++ (47 ∷ [])) two_paths) ≡ (
      if starts_with photos2 (photos ++ (47 ∷ []))
      then none
      else get_ino_for_path lower photos2 two_paths)
get_ino_for_path-invalidate_prefix_example =
    get_ino_for_path-invalidate_prefix lower two_paths (photos ++ (47 ∷ [])) photos2
      two_paths-AreDistinct
