-- ===== src/Fuse/Inodes/Resolve.antt =====
-- What the kernel may rely on: the numbers that it holds.
use synology_filestation.Prelude.{
  ℕ, suc, ◌+◌, ◌^◌, ◌<◌, ◌≡◌, refl, sym, ◌∙◌, inl, inr, none, some, List, [], ◌∷◌, Option-cases,
  arith,
}
use mathlib.Core.Path.{subst}
use synology_filestation.Prelude.Tree.{lookup, Every-lookup}
use synology_filestation.Prelude.Keyed.{Key, find, keys, retain, starts_with}
use synology_filestation.Fuse.Inodes.{
  InodeCache, InodeEntry, new, insert_info, seed_root, invalidate_prefix, invalidate_path,
  get_path_for_ino, forget, forget_all,
}
use synology_filestation.Fuse.Inodes.Steps.{
  Log, Given, InodeOp, allocs, inserts, seeds, forgets_under, forgets, ages, step, log_after,
  IsAllowed, Reached, start, next,
}
use synology_filestation.Fuse.Inodes.Kept.{
  Holds, IsFaithful, Every-expire, forget-Holds, forget_all-Holds, insert-Holds, alloc-IsFaithful,
}

module _ (lower : Key → Key) (root : Key) where
  -- An operation that gives out no number and changes only what the tables hold.
  tables-IsFaithful :
      (n : ℕ) (c c' : InodeCache) (log : Log)
      → IsFaithful lower n c log
      → Holds lower c' log
      → c'.next_ino ≡ c.next_ino
      → IsFaithful lower (suc n) c' log
  tables-IsFaithful n c c' log h holds same_next = record {
    holds = holds;
    counted = omega (arith, h.counted, same_next);
    below = λ k i g. omega (arith, h.below k i g, same_next);
    given_once = h.given_once;
  }

  forget-next_ino : (key : Key) (c : InodeCache) → (forget key c).next_ino ≡ c.next_ino
  unfolding forget
  forget-next_ino key c = elim (Option-cases (find key c.path_to_ino)) [
    | inl missing ↦ rw (missing, forget) refl
    | inr (ino, found) ↦ rw (found, forget) refl
  ]

  forget_all-next_ino : (ks : List Key) (c : InodeCache) → (forget_all ks c).next_ino ≡ c.next_ino
  unfolding forget_all
  forget_all-next_ino [] c = refl
  forget_all-next_ino (k ∷ ks) c = forget_all-next_ino ks (forget k c) ∙ forget-next_ino k c

  step-IsFaithful :
      (n : ℕ) (c : InodeCache) (log : Log) (op : InodeOp)
      → IsFaithful lower n c log
      → Given root 1 log
      → IsAllowed lower root op log
      → n + 3 < 2 ^ 64
      → IsFaithful lower (suc n) (step lower root op c) (log_after lower root op c log)
  unfolding step insert_info seed_root invalidate_prefix invalidate_path
  step-IsFaithful n c log (allocs path seen) h rooted allowed small =
      alloc-IsFaithful lower n c log path seen h allowed small
  step-IsFaithful n c log (inserts ino info) h rooted allowed small =
      tables-IsFaithful n c (insert_info lower ino info c) log h
        (insert-Holds lower ino info c log allowed h.holds) refl
  step-IsFaithful n c log (seeds info) h rooted allowed small =
      tables-IsFaithful n c (seed_root lower info c) log h
        (insert-Holds lower 1 info c log (subst (λ (k : Key). Given k 1 log) (sym allowed) rooted)
          h.holds)
        refl
  step-IsFaithful n c log (forgets_under prefix) h rooted allowed small =
      let doomed = retain (λ k. starts_with k (lower prefix)) (keys c.path_to_ino) in
      tables-IsFaithful n c (forget_all doomed c) log h
        (forget_all-Holds lower doomed c log h.holds) (forget_all-next_ino doomed c)
  step-IsFaithful n c log (forgets path) h rooted allowed small =
      tables-IsFaithful n c (forget (lower path) c) log h
        (forget-Holds lower (lower path) c log h.holds) (forget-next_ino (lower path) c)
  step-IsFaithful n c log (ages old) h rooted allowed small =
      tables-IsFaithful n c _ log h
        (record {
          paths = h.holds.paths;
          distinct = h.holds.distinct;
          names = h.holds.names;
          entries = Every-expire _ old c.by_ino h.holds.entries;
        })
        refl

  -- The root keeps its number.
  log_after-root :
      (op : InodeOp) (c : InodeCache) (log : Log)
      → Given root 1 log
      → Given root 1 (log_after lower root op c log)
  log_after-root (allocs path seen) c log g = inr g
  log_after-root (inserts ino info) c log g = g
  log_after-root (seeds info) c log g = g
  log_after-root (forgets_under prefix) c log g = g
  log_after-root (forgets path) c log g = g
  log_after-root (ages old) c log g = g

  new-IsFaithful : IsFaithful lower 0 new ((root, 1) ∷ [])
  unfolding new
  new-IsFaithful = record {
    holds = record { paths = tt; distinct = tt; names = tt; entries = tt };
    counted = omega arith;
    below = λ k i g. only_root k i g;
    given_once = λ k k' i g g'. both_root k k' i g g';
  }
    where
      only_root : (k : Key) (i : ℕ) → Given k i ((root, 1) ∷ []) → i < 2
      only_root k i (inl (e, f)) = omega (arith, f)
      only_root k i (inr g) = absurd g

      both_root :
          (k k' : Key) (i : ℕ) → Given k i ((root, 1) ∷ []) → Given k' i ((root, 1) ∷ []) → k ≡ k'
      both_root k k' i (inl (e, f)) (inl (e', f')) = e ∙ sym e'
      both_root k k' i (inl (e, f)) (inr g') = absurd g'
      both_root k k' i (inr g) g' = absurd g

  Reached-IsFaithful :
      {n : ℕ} {c : InodeCache} {log : Log}
      → Reached lower root n c log
      → n + 2 < 2 ^ 64
      → IsFaithful lower n c log × Given root 1 log
  Reached-IsFaithful start small = (new-IsFaithful, inl (refl, refl))
  Reached-IsFaithful (next {n} {c} {log} op before allowed) small =
      let (h, rooted) = Reached-IsFaithful before (omega arith) in
      (step-IsFaithful n c log op h rooted allowed (omega arith), log_after-root op c log rooted)

get_path_for_ino-aged :
    (i : ℕ) (c : InodeCache)
    → lookup i c.by_ino ≡ none
    → get_path_for_ino i c ≡ lookup i c.ino_to_path
unfolding get_path_for_ino
get_path_for_ino-aged i c missing = rw (missing, get_path_for_ino) refl

get_path_for_ino-live :
    (i : ℕ) (c : InodeCache) (entry : InodeEntry)
    → lookup i c.by_ino ≡ some entry
    → get_path_for_ino i c ≡ some entry.path
unfolding get_path_for_ino
get_path_for_ino-live i c entry found = rw (found, get_path_for_ino) refl

get_path_for_ino-Given :
    (lower : Key → Key) (c : InodeCache) (log : Log) (i : ℕ) (path : Key)
    → Holds lower c log
    → get_path_for_ino i c ≡ some path
    → Given (lower path) i log
unfolding get_path_for_ino
get_path_for_ino-Given lower c log i path h e = elim (Option-cases (lookup i c.by_ino)) [
  | inl missing ↦
      Every-lookup _ c.ino_to_path i path h.names (sym (get_path_for_ino-aged i c missing) ∙ e)
  | inr (entry, found) ↦
      let both : some entry.path ≡ some path = sym (get_path_for_ino-live i c entry found) ∙ e in
      let same_path : entry.path ≡ path = cc in
      subst (λ (p : Key). Given (lower p) i log) same_path
        (Every-lookup _ c.by_ino i entry h.entries found)
]

-- After fewer than 2 ^ 64 - 2 operations in any order, in which details are inserted only under a
-- number that was given to their path or, for the root, under 1, and a path may have been looked up
-- in an earlier state than the one that the number is taken in: a number that was given out was
-- given to no other path, and if `get_path_for_ino` still finds a path for it, that is the path it
-- was given to. Paths are told apart without regard to case.
pub Reached-resolves :
    (lower : Key → Key) (root : Key) (n : ℕ) (c : InodeCache) (log : Log) (k : Key) (i : ℕ)
    → Reached lower root n c log
    → n + 2 < 2 ^ 64
    → Given k i log
    → ((k' : Key) → Given k' i log → k' ≡ k)
      × ((path : Key) → get_path_for_ino i c ≡ some path → lower path ≡ k)
Reached-resolves lower root n c log k i reached small given =
    let h = (Reached-IsFaithful lower root reached small).0 in
    (
      λ k' given'. h.given_once k' k i given' given,
      λ path e.
          h.given_once (lower path) k i (get_path_for_ino-Given lower c log i path h.holds e) given,
    )
