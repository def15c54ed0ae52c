-- ===== src/Fuse/Inodes/Kept.antt =====
-- What every operation on the inode cache keeps.
use synology_filestation.Prelude.{
  ℕ, suc, ◌+◌, ◌%◌, ◌^◌, ◌≤◌, ◌<◌, ◌≡◌, refl, sym, ◌∙◌, inl, inr, Bool, some, List, [], ◌∷◌,
  Bool-cases, Option-cases, if_cases, arith,
}
use mathlib.Core.Path.{subst}
use synology_filestation.Prelude.Bytes.{same, same_sound}
use synology_filestation.Prelude.Tree.{Tree, Every, Every-insert, Every-remove, Every-mono}
use synology_filestation.Prelude.Keyed.{
  Key, Keyed, AreDistinct, find, without, put, find_here, find_other, find-without_same,
  without-AreDistinct,
}
use synology_filestation.Fuse.Inodes.{
  InodeCache, InodeEntry, SynoFileInfo, expire, forget, forget_all, alloc_locked, get_or_alloc_ino,
  insert_info,
}
use synology_filestation.Fuse.Inodes.Steps.{Log, Given, Each}

module _ (P : Key → ℕ → Type 0) where
  Each-find : (key : Key) (ino : ℕ) (xs : Keyed ℕ) → Each P xs → find key xs ≡ some ino → P key ino
  unfolding find
  Each-find key ino [] h e = cc
  Each-find key ino ((at, i) ∷ xs) h e = elim (Bool-cases (same at key)) [
    | inl here ↦
        let got : some i ≡ some ino = sym (find_here key at i xs here) ∙ e in
        let same_ino : i ≡ ino = cc in
        subst (λ (k : Key). P k ino) (same_sound at key here) (subst (P at) same_ino h.0)
    | inr other ↦ Each-find key ino xs h.1 (sym (find_other key at i xs other) ∙ e)
  ]

  Each-without : (key : Key) (xs : Keyed ℕ) → Each P xs → Each P (without key xs)
  unfolding without
  Each-without key [] h = tt
  Each-without key ((at, i) ∷ xs) h =
      let later = Each-without key xs h.1 in
      if_cases (Each P) (same at key) _ _ (λ _. h.1) (λ _. (h.0, later))

Each-mono :
    (P Q : Key → ℕ → Type 0) (xs : Keyed ℕ)
    → ((k : Key) (i : ℕ) → P k i → Q k i)
    → Each P xs
    → Each Q xs
Each-mono P Q [] f h = tt
Each-mono P Q ((k, i) ∷ xs) f h = (f k i h.0, Each-mono P Q xs f h.1)

pub Every-expire :
    (P : ℕ → InodeEntry → Type 0) (old : ℕ → Bool) (m : Tree InodeEntry)
    → Every P m
    → Every P (expire old m)
unfolding expire
Every-expire P old [] h = tt
Every-expire P old ((i, e) ∷ m) h =
    let later = Every-expire P old m h.1 in
    if_cases (Every P) (old i) _ _ (λ _. later) (λ _. (h.0, later))

module _ (lower : Key → Key) where
  -- Every table holds only numbers that were given out, each beside the path that it was given to, and
  -- no number was given to two paths.
  pub record Holds (c : InodeCache) (log : Log) : Type 0 where
    pub paths : Each (λ k i. Given k i log) c.path_to_ino
    pub distinct : AreDistinct c.path_to_ino
    pub names : Every (λ i p. Given (lower p) i log) c.ino_to_path
    pub entries : Every (λ i e. Given (lower e.path) i log) c.by_ino

  pub record IsFaithful (n : ℕ) (c : InodeCache) (log : Log) : Type 0 where
    pub holds : Holds c log
    pub counted : c.next_ino ≤ n + 2
    pub below : (k : Key) (i : ℕ) → Given k i log → i < c.next_ino
    pub given_once : (k k' : Key) (i : ℕ) → Given k i log → Given k' i log → k ≡ k'

  -- One more number given out changes nothing of the tables.
  Holds-more : (c : InodeCache) (log : Log) (entry : Key × ℕ) → Holds c log → Holds c (entry ∷ log)
  Holds-more c log entry h = record {
    paths = Each-mono _ _ c.path_to_ino (λ k i g. inr g) h.paths;
    distinct = h.distinct;
    names = Every-mono _ _ c.ino_to_path (λ i p g. inr g) h.names;
    entries = Every-mono _ _ c.by_ino (λ i e g. inr g) h.entries;
  }

  pub forget-Holds :
      (key : Key) (c : InodeCache) (log : Log) → Holds c log → Holds (forget key c) log
  unfolding forget
  forget-Holds key c log h = elim (Option-cases (find key c.path_to_ino)) [
    | inl missing ↦ rw (missing, forget) h
    | inr (ino, found) ↦
        rw (found, forget)
          (record {
            paths = Each-without _ key c.path_to_ino h.paths;
            distinct = without-AreDistinct key c.path_to_ino h.distinct;
            names = Every-remove _ ino c.ino_to_path h.names;
            entries = Every-remove _ ino c.by_ino h.entries;
          })
  ]

  pub forget_all-Holds :
      (ks : List Key) (c : InodeCache) (log : Log) → Holds c log → Holds (forget_all ks c) log
  unfolding forget_all
  forget_all-Holds [] c log h = h
  forget_all-Holds (k ∷ ks) c log h = forget_all-Holds ks (forget k c) log (forget-Holds k c log h)

  pub insert-Holds :
      (ino : ℕ) (info : SynoFileInfo) (c : InodeCache) (log : Log)
      → Given (lower info.path) ino log
      → Holds c log
      → Holds (insert_info lower ino info c) log
  unfolding insert_info put
  insert-Holds ino info c log given h = record {
    paths = (given, Each-without _ (lower info.path) c.path_to_ino h.paths);
    distinct = (
      find-without_same (lower info.path) c.path_to_ino h.distinct,
      without-AreDistinct (lower info.path) c.path_to_ino h.distinct,
    );
    names = Every-insert _ ino info.path c.ino_to_path given h.names;
    entries = Every-insert _ ino _ c.by_ino given h.entries;
  }

  -- A number that is given again to the path that has it.
  again-IsFaithful :
      (n : ℕ) (c : InodeCache) (log : Log) (key : Key) (ino : ℕ)
      → IsFaithful n c log
      → Given key ino log
      → IsFaithful (suc n) c ((key, ino) ∷ log)
  again-IsFaithful n c log key ino h given = record {
    holds = Holds-more c log (key, ino) h.holds;
    counted = omega (arith, h.counted);
    below = λ k i g. h.below k i (known k i g);
    given_once = λ k k' i g g'. h.given_once k k' i (known k i g) (known k' i g');
  }
    where
      known : (k : Key) (i : ℕ) → Given k i ((key, ino) ∷ log) → Given k i log
      known k i (inl (e, f)) =
          subst (λ (j : ℕ). Given k j log) (sym f)
            (subst (λ (k' : Key). Given k' ino log) (sym e) given)
      known k i (inr g) = g

  -- A number that was never given.
  fresh-IsFaithful :
      (n : ℕ) (c : InodeCache) (log : Log) (key : Key)
      → IsFaithful n c log
      → n + 3 < 2 ^ 64
      → IsFaithful
          (suc n)
          (record c {
            next_ino = (c.next_ino + 1) % 2 ^ 64;
            path_to_ino = put key c.next_ino c.path_to_ino;
          })
          ((key, c.next_ino) ∷ log)
  unfolding put
  fresh-IsFaithful n c log key h small = record {
    holds = record {
      paths = (
        inl (refl, refl),
        Each-without _ key c.path_to_ino
            (Each-mono _ _ c.path_to_ino (λ k i g. inr g) h.holds.paths),
      );
      distinct = (
        find-without_same key c.path_to_ino h.holds.distinct,
        without-AreDistinct key c.path_to_ino h.holds.distinct,
      );
      names = Every-mono _ _ c.ino_to_path (λ i p g. inr g) h.holds.names;
      entries = Every-mono _ _ c.by_ino (λ i e g. inr g) h.holds.entries;
    };
    counted = omega (arith, moved, h.counted);
    below = λ k i g. under_next k i g;
    given_once = λ k k' i g g'. one_path k k' i g g';
  }
    where
      moved : (c.next_ino + 1) % 2 ^ 64 ≡ c.next_ino + 1
      moved = omega (arith, h.counted)

      under_next :
          (k : Key) (i : ℕ) → Given k i ((key, c.next_ino) ∷ log) → i < (c.next_ino + 1) % 2 ^ 64
      under_next k i (inl (e, f)) = omega (arith, moved, f)
      under_next k i (inr g) = omega (arith, moved, h.below k i g)

      one_path :
          (k k' : Key) (i : ℕ)
          → Given k i ((key, c.next_ino) ∷ log)
          → Given k' i ((key, c.next_ino) ∷ log)
          → k ≡ k'
      one_path k k' i (inl (e, f)) (inl (e', f')) = e ∙ sym e'
      one_path k k' i (inl (e, f)) (inr g') = absurd (omega (arith, f, h.below k' i g'))
      one_path k k' i (inr g) (inl (e', f')) = absurd (omega (arith, f', h.below k i g))
      one_path k k' i (inr g) (inr g') = h.given_once k k' i g g'

  pub alloc-IsFaithful :
      (n : ℕ) (c : InodeCache) (log : Log) (path : Key) (seen : InodeCache)
      → IsFaithful n c log
      → Each (λ k i. Given k i log) seen.path_to_ino
      → n + 3 < 2 ^ 64
      → IsFaithful
          (suc n)
          (get_or_alloc_ino lower path seen c).1
          ((lower path, (get_or_alloc_ino lower path seen c).0) ∷ log)
  unfolding get_or_alloc_ino alloc_locked
  alloc-IsFaithful n c log path seen h earlier small =
      elim (Option-cases (find (lower path) seen.path_to_ino)) [
        | inr (ino, found) ↦
            rw (found, get_or_alloc_ino)
              (again-IsFaithful n c log (lower path) ino h
                (Each-find _ (lower path) ino seen.path_to_ino earlier found))
        | inl missing ↦ elim (Option-cases (find (lower path) c.path_to_ino)) [
          | inr (ino, found) ↦
              rw (missing, found, get_or_alloc_ino, alloc_locked)
                (again-IsFaithful n c log (lower path) ino h
                  (Each-find _ (lower path) ino c.path_to_ino h.holds.paths found))
          | inl absent ↦
              rw (missing, absent, get_or_alloc_ino, alloc_locked)
                (fresh-IsFaithful n c log (lower path) h small)
        ]
      ]
