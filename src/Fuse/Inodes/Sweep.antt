-- ===== src/Fuse/Inodes/Sweep.antt =====
-- What a sweep by a prefix forgets.
use synology_filestation.Prelude.{
  ◌≡◌, refl, sym, ap, ◌∙◌, Bool, inl, inr, none, List, [], ◌∷◌, Option-cases, if◌then◌else◌,
}
use synology_filestation.Prelude.Keyed.{
  Key, AreDistinct, find, without, keys, retain, starts_with, without_absent,
}
use synology_filestation.Prelude.Keyed.Sweep.{without_all, find-retained}
use synology_filestation.Fuse.Inodes.{
  InodeCache, forget, forget_all, invalidate_prefix, get_ino_for_path,
}

forget-path_to_ino :
    (key : Key) (c : InodeCache) → (forget key c).path_to_ino ≡ without key c.path_to_ino
unfolding forget
forget-path_to_ino key c = elim (Option-cases (find key c.path_to_ino)) [
  | inl missing ↦ rw (missing, forget) (sym (without_absent key c.path_to_ino missing))
  | inr (ino, found) ↦ rw (found, forget) refl
]

forget_all-path_to_ino :
    (ks : List Key) (c : InodeCache) → (forget_all ks c).path_to_ino ≡ without_all ks c.path_to_ino
unfolding forget_all without_all
forget_all-path_to_ino [] c = refl
forget_all-path_to_ino (k ∷ ks) c =
    forget_all-path_to_ino ks (forget k c) ∙ ap (without_all ks) (forget-path_to_ino k c)

-- In a cache whose table has no path twice, `invalidate_prefix` forgets exactly the paths that, in
-- lower case, start with the prefix in lower case: all others keep their number. No separator is
-- looked for behind the prefix.
pub get_ino_for_path-invalidate_prefix :
    (lower : Key → Key) (c : InodeCache) (prefix path : Key)
    → AreDistinct c.path_to_ino
    → get_ino_for_path lower path (invalidate_prefix lower prefix c)
      ≡ (if starts_with (lower path) (lower prefix) then none else get_ino_for_path lower path c)
unfolding get_ino_for_path invalidate_prefix
get_ino_for_path-invalidate_prefix lower c prefix path distinct =
    let test : Key → Bool = λ k. starts_with k (lower prefix) in
    ap (find (lower path)) (forget_all-path_to_ino (retain test (keys c.path_to_ino)) c)
    ∙ find-retained test (lower path) c.path_to_ino distinct
