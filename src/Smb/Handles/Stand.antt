-- ===== src/Smb/Handles/Stand.antt =====
-- How the parts of an operation change the entries that the order and the map stand for.
use synology_filestation.Prelude.{
  ℕ, suc, ◌-◌, ◌≡◌, refl, sym, ap, ◌∙◌, Bool, true, false, not, inl, inr, Option, none, some, List,
  [], ◌∷◌, ◌++◌, length, drop-nil, ltb, if◌then◌else◌, Bool-cases, arith,
}
use synology_filestation.Prelude.Bytes.{same}
use synology_filestation.Prelude.Keyed.{
  Key, Keyed, find, without, put, keys, retain, find-same, find_other, find-without_same,
  find-without_other, without-AreDistinct, keys-without, without_absent,
}
use synology_filestation.Prelude.Keyed.Laws.{
  keep, find-keep, keep-AreDistinct, keys-keep, keys-append, find-push, push-AreDistinct, length-le,
}
use synology_filestation.Prelude.Keyed.Sweep.{without_all, without_all-AreDistinct, find-retained}
use synology_filestation.Smb.Handles.{Handle, evict, remove_all, with_option}
use synology_filestation.Smb.Handles.Spec.{Entries, Stand, used_last, newest}

module _ {order : List Key} {handles : Keyed Handle} {es : Entries}
    (st : Stand order handles es) where
  -- Both list the same keys.
  pub length-Stand : length handles ≡ length es
  length-Stand = omega (
    arith,
    length-le handles es st.keyed (λ k v e. sym (st.found k) ∙ e),
    length-le es handles st.distinct (λ k v e. st.found k ∙ e),
  )

  pub without-Stand :
      (path : Key)
      → Stand (retain (λ k. not (same k path)) order) (without path handles) (without path es)
  without-Stand path = record {
    in_order =
        ap (retain (λ k. not (same k path))) st.in_order ∙ sym (keys-without path es st.distinct);
    distinct = without-AreDistinct path es st.distinct;
    keyed = without-AreDistinct path handles st.keyed;
    found = λ k. elim (Bool-cases (same path k)) [
      | inl here ↦
          sym (find-same path k (without path handles) here)
          ∙ (find-without_same path handles st.keyed
              ∙ (sym (find-without_same path es st.distinct)
                  ∙ find-same path k (without path es) here))
      | inr other ↦
          find-without_other path k handles other
          ∙ (st.found k ∙ sym (find-without_other path k es other))
    ];
  }

  -- A use of a path that is there.
  pub touch-Stand :
      (path : Key) (handle : Handle)
      → find path es ≡ some handle
      → Stand
          (retain (λ k. not (same k path)) order ++ (path ∷ []))
          handles
          (used_last path handle es)
  unfolding used_last
  touch-Stand path handle e = record {
    in_order =
        ap (λ (ks : List Key). ks ++ (path ∷ [])) ((without-Stand path).in_order)
        ∙ sym (keys-append (without path es) ((path, handle) ∷ []));
    distinct =
        push-AreDistinct path handle (without path es) (without-AreDistinct path es st.distinct)
          (find-without_same path es st.distinct);
    keyed = st.keyed;
    found = λ k. elim (Bool-cases (same path k)) [
      | inl here ↦
          rw
            (
              find-push path k handle (without path es) (find-without_same path es st.distinct),
              here,
            )
            (st.found k ∙ (sym (find-same path k es here) ∙ e))
      | inr other ↦
          rw
            (
              find-push path k handle (without path es) (find-without_same path es st.distinct),
              other,
            )
            (st.found k ∙ sym (find-without_other path k es other))
    ];
  }

  -- A path that is not there yet.
  pub put-Stand :
      (path : Key) (handle : Handle)
      → find path es ≡ none
      → Stand
          (retain (λ k. not (same k path)) order ++ (path ∷ []))
          (put path handle handles)
          (es ++ ((path, handle) ∷ []))
  unfolding put find
  put-Stand path handle e = record {
    in_order =
        ap (λ (ks : List Key). ks ++ (path ∷ []))
          ((without-Stand path).in_order ∙ ap keys (without_absent path es e))
        ∙ sym (keys-append es ((path, handle) ∷ []));
    distinct = push-AreDistinct path handle es st.distinct e;
    keyed = (find-without_same path handles st.keyed, without-AreDistinct path handles st.keyed);
    found = λ k. elim (Bool-cases (same path k)) [
      | inl here ↦ rw (find-push path k handle es e, here) refl
      | inr other ↦
          rw (find-push path k handle es e, other)
            (find-without_other path k handles other ∙ st.found k)
    ];
  }

remove_all-without_all :
    (doomed : List Key) (xs : Keyed Handle) → (remove_all doomed xs).1 ≡ without_all doomed xs
unfolding remove_all without_all
remove_all-without_all [] xs = refl
remove_all-without_all (k ∷ ks) xs = remove_all-without_all ks (without k xs)

-- The loop evicts from the front until the rest fits, and never finds the order empty.
module _ (capacity : ℕ) where
  abbrev pub Evicted : Keyed Handle → Entries → Type 0
  Evicted handles es =
      (order' : List Key) × (handles' : Keyed Handle) × (gone : List Handle) × ((evict capacity
            (keys es) handles
          ≡ some (order', handles', gone))
        × Stand order' handles' (newest capacity es))

  -- What is behind the first entry.
  behind :
      (at : Key) (v : Handle) (handles : Keyed Handle) (es : Entries)
      → Stand (keys ((at, v) ∷ es)) handles ((at, v) ∷ es)
      → Stand (keys es) (without at handles) es
  behind at v handles es st = record {
    in_order = refl;
    distinct = st.distinct.1;
    keyed = without-AreDistinct at handles st.keyed;
    found = λ k. elim (Bool-cases (same at k)) [
      | inl here ↦
          sym (find-same at k (without at handles) here)
          ∙ (find-without_same at handles st.keyed ∙ (sym (st.distinct.0) ∙ find-same at k es here))
      | inr other ↦
          find-without_other at k handles other ∙ (st.found k ∙ find_other k at v es other)
    ];
  }

  pub evict-Stand :
      (handles : Keyed Handle) (es : Entries) → Stand (keys es) handles es → Evicted handles es
  unfolding evict newest
  evict-Stand handles [] st =
      let fits : ltb capacity (length handles) ≡ false = ground (arith, length-Stand st) in
      rw (fits, drop-nil {A = Key × Handle} (0 - capacity)) ([], handles, [], (refl, st))
  evict-Stand handles ((at, v) ∷ es) st = elim (Bool-cases (ltb capacity (length handles))) [
    | inl over ↦
        let (order', handles', gone, (e, st')) =
          evict-Stand (without at handles) es (behind at v handles es st) in
        let shift : suc (length es) - capacity ≡ suc (length es - capacity) =
          ground (arith, length-Stand st) in
        rw (over, e, shift) (order', handles', with_option (find at handles) gone, (refl, st'))
    | inr fits ↦
        let all : suc (length es) - capacity ≡ 0 = ground (arith, length-Stand st) in
        rw (fits, all) (at ∷ keys es, handles, [], (refl, st))
  ]

-- Removing every key that passes a test.
pub remove_all-Stand :
    (test : Key → Bool) (order : List Key) (handles : Keyed Handle) (es : Entries)
    → Stand order handles es
    → Stand
        (retain (λ k. not (test k)) order)
        ((remove_all (retain test (keys handles)) handles).1)
        (keep (λ k. not (test k)) es)
remove_all-Stand test order handles es st =
    rw (remove_all-without_all (retain test (keys handles)) handles) (record {
      in_order =
          ap (retain (λ k. not (test k))) st.in_order ∙ sym (keys-keep (λ k. not (test k)) es);
      distinct = keep-AreDistinct (λ k. not (test k)) es st.distinct;
      keyed = without_all-AreDistinct (retain test (keys handles)) handles st.keyed;
      found = λ k.
          find-retained test k handles st.keyed
          ∙ (turned (test k) (find k handles) (find k es) (st.found k)
              ∙ sym (find-keep (λ k. not (test k)) k es));
    })
  where
    turned :
        (b : Bool) (o o' : Option Handle)
        → o ≡ o'
        → (if b then none else o) ≡ (if not b then o' else none)
    turned true o o' e = refl
    turned false o o' e = e
