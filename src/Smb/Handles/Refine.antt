-- ===== src/Smb/Handles/Refine.antt =====
-- The operations of the code beside those of the specification.
use synology_filestation.Prelude.{
  ℕ, ◌-◌, ◌≤◌, ◌≡◌, refl, sym, ap, ◌∙◌, not, inl, inr, none, some, List, [], ◌∷◌, ◌++◌, length,
  length-append, length-drop, ◌==◌, Bool-cases, Option-cases, arith,
}
use synology_filestation.Prelude.Keyed.{Key, find, without, put, length-without}
use synology_filestation.Prelude.Keyed.Laws.{length-without_le, length-keep_le}
use synology_filestation.Smb.Handles.{
  Handle, HandleCache, new, get, insert_or_existing, invalidate, invalidate_prefix, clear, defer,
  take_free, touch, under, evict,
}
use synology_filestation.Smb.Handles.Spec.{
  CacheOp, reads, opens, forgets, forgets_under, clears, parks, frees, Outcome, step, Entries,
  used_last, newest, entries_after, handle_used, Represents,
}
use synology_filestation.Smb.Handles.Stand.{
  without-Stand, touch-Stand, put-Stand, evict-Stand, remove_all-Stand,
}

-- What a step of the code gives, against the specification.
pub record Agrees (op : CacheOp) (c : HandleCache) (es : Entries) (o : Outcome) : Type 0 where
  pub runs : step op c ≡ some o
  pub used : o.used ≡ handle_used c.capacity op es
  pub same_capacity : o.cache.capacity ≡ c.capacity
  pub after : Represents o.cache (entries_after c.capacity op es)

length-used_last :
    (path : Key) (handle : Handle) (es : Entries)
    → find path es ≡ some handle
    → length (used_last path handle es) ≡ length es
unfolding used_last
length-used_last path handle es e =
    omega (
      arith,
      length-append (without path es) ((path, handle) ∷ []),
      length-without path handle es e,
    )

length-newest : (capacity : ℕ) (es : Entries) → length (newest capacity es) ≤ capacity
unfolding newest
length-newest capacity es = omega (arith, length-drop (length es - capacity) es)

used-Represents :
    (path : Key) (handle : Handle) (c : HandleCache) (es : Entries)
    → Represents c es
    → find path es ≡ some handle
    → Represents (record c { state = touch path c.state }) (used_last path handle es)
unfolding touch
used-Represents path handle c es r found = record {
  stand = touch-Stand r.stand path handle found;
  bounded = omega (arith, length-used_last path handle es found, r.bounded);
}

get-Agrees :
    (path : Key) (c : HandleCache) (es : Entries)
    → Represents c es
    → (o : Outcome) × Agrees (reads path) c es o
unfolding step get touch entries_after handle_used
get-Agrees path c es r = elim (Option-cases (find path es)) [
  | inl missing ↦
      let absent : find path c.state.handles ≡ none = r.stand.found path ∙ missing in
      (
        record { used = none; closing = []; cache = c },
        record {
          runs = rw (absent, step, get) refl;
          used = sym missing;
          same_capacity = refl;
          after = rw (missing, entries_after) r;
        },
      )
  | inr (h, found) ↦
      let there : find path c.state.handles ≡ some h = r.stand.found path ∙ found in
      (
        record { used = some h; closing = []; cache = record c { state = touch path c.state } },
        record {
          runs = rw (there, step, get) refl;
          used = sym found;
          same_capacity = refl;
          after = rw (found, entries_after) (used-Represents path h c es r found);
        },
      )
]

insert-Agrees :
    (path : Key) (handle : Handle) (c : HandleCache) (es : Entries)
    → Represents c es
    → (o : Outcome) × Agrees (opens path handle) c es o
unfolding step insert_or_existing touch entries_after handle_used
insert-Agrees path handle c es r = elim (Bool-cases (c.capacity == 0)) [
  | inl off ↦ (
    record { used = some handle; closing = handle ∷ []; cache = c },
    record {
      runs = rw (off, step, insert_or_existing) refl;
      used = rw (off, handle_used) refl;
      same_capacity = refl;
      after = rw (off, entries_after) r;
    },
  )
  | inr on ↦ elim (Option-cases (find path es)) [
    | inr (h, found) ↦
        let there : find path c.state.handles ≡ some h = r.stand.found path ∙ found in
        (
          record {
            used = some h;
            closing = handle ∷ [];
            cache = record c { state = touch path c.state };
          },
          record {
            runs = rw (on, there, step, insert_or_existing) refl;
            used = rw (on, found, handle_used) refl;
            same_capacity = refl;
            after = rw (on, found, entries_after) (used-Represents path h c es r found);
          },
        )
    | inl missing ↦
        let absent : find path c.state.handles ≡ none = r.stand.found path ∙ missing in
        let st = put-Stand r.stand path handle missing in
        let es' : Entries = es ++ ((path, handle) ∷ []) in
        let (order, handles, gone, (e, st')) =
          evict-Stand c.capacity (put path handle c.state.handles) es' (record {
            in_order = refl;
            distinct = st.distinct;
            keyed = st.keyed;
            found = st.found;
          }) in
        let evicts =
          ap (λ (ks : List Key). evict c.capacity ks (put path handle c.state.handles)) st.in_order
          ∙ e in
        (
          record {
            used = some handle;
            closing = gone;
            cache = record c {
              state = record { order = order; handles = handles; deferred = c.state.deferred };
            };
          },
          record {
            runs = rw (on, absent, evicts, step, insert_or_existing) refl;
            used = rw (on, missing, handle_used) refl;
            same_capacity = refl;
            after =
                rw (on, missing, entries_after)
                  (record { stand = st'; bounded = length-newest c.capacity es' });
          },
        )
  ]
]

invalidate-Agrees :
    (path : Key) (c : HandleCache) (es : Entries)
    → Represents c es
    → (o : Outcome) × Agrees (forgets path) c es o
unfolding step invalidate entries_after handle_used
invalidate-Agrees path c es r = (
  _,
  record {
    runs = refl;
    used = refl;
    same_capacity = refl;
    after = record {
      stand = without-Stand r.stand path;
      bounded = omega (arith, length-without_le path es, r.bounded);
    };
  },
)

invalidate_prefix-Agrees :
    (prefix : Key) (c : HandleCache) (es : Entries)
    → Represents c es
    → (o : Outcome) × Agrees (forgets_under prefix) c es o
unfolding step invalidate_prefix entries_after handle_used
invalidate_prefix-Agrees prefix c es r = (
  _,
  record {
    runs = refl;
    used = refl;
    same_capacity = refl;
    after = record {
      stand = remove_all-Stand (λ k. under k prefix) c.state.order c.state.handles es r.stand;
      bounded = omega (arith, length-keep_le (λ k. not (under k prefix)) es, r.bounded);
    };
  },
)

clear-Agrees : (c : HandleCache) (es : Entries) → (o : Outcome) × Agrees clears c es o
unfolding step clear entries_after handle_used
clear-Agrees c es = (
  _,
  record {
    runs = refl;
    used = refl;
    same_capacity = refl;
    after = record {
      stand = record { in_order = refl; distinct = tt; keyed = tt; found = λ k. refl };
      bounded = omega arith;
    };
  },
)

-- If the cache holds exactly the entries and no more than its capacity, every operation runs without
-- a panic, gives the handle that the specification gives, and leaves a cache of the same capacity
-- that holds exactly the specification's next entries: a use moves an entry behind the others, going
-- over capacity drops the least recently used, and forgetting drops those it names.
pub step-Agrees :
    (op : CacheOp) (c : HandleCache) (es : Entries)
    → Represents c es
    → (o : Outcome) × Agrees op c es o
unfolding step defer take_free entries_after handle_used
step-Agrees (reads path) c es r = get-Agrees path c es r
step-Agrees (opens path handle) c es r = insert-Agrees path handle c es r
step-Agrees (forgets path) c es r = invalidate-Agrees path c es r
step-Agrees (forgets_under prefix) c es r = invalidate_prefix-Agrees prefix c es r
step-Agrees clears c es r = clear-Agrees c es
step-Agrees (parks handle) c es r = (
  _,
  record {
    runs = refl;
    used = refl;
    same_capacity = refl;
    after = record { stand = r.stand; bounded = r.bounded };
  },
)
step-Agrees (frees alone) c es r = (
  _,
  record {
    runs = refl;
    used = refl;
    same_capacity = refl;
    after = record { stand = r.stand; bounded = r.bounded };
  },
)

pub new-Represents : (capacity : ℕ) → Represents (new capacity) []
unfolding new
new-Represents capacity = record {
  stand = record { in_order = refl; distinct = tt; keyed = tt; found = λ k. refl };
  bounded = omega arith;
}
