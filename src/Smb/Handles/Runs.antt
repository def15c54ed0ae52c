-- ===== src/Smb/Handles/Runs.antt =====
-- Runs of the handle cache: a read, an eviction, a directory that goes away, a parked handle.
use synology_filestation.Prelude.{
  ◌+◌, ◌≡◌, refl, true, false, Option, none, some, List, [], ◌∷◌, ◌==◌, arith,
}
use synology_filestation.Prelude.Bytes.{same}
use synology_filestation.Prelude.Keyed.{Key, values, find, without, retain}
use synology_filestation.Smb.Handles.{
  Handle, HandleCache, under, insert_or_existing, get, touch, evict, take_free,
}
use synology_filestation.Smb.Handles.Spec.{opens, forgets_under, Outcome, step, Entries, Represents}
use synology_filestation.Smb.Handles.Refine.{Agrees, step-Agrees}
use synology_filestation.Smb.Handles.Conserved.{count, held, given, step-conserves}

-- The paths `/d/a`, `/d/b`, `/e` and `/d2`.
abbrev path_a : Key
path_a = 47 ∷ 100 ∷ 47 ∷ 97 ∷ []

abbrev path_b : Key
path_b = 47 ∷ 100 ∷ 47 ∷ 98 ∷ []

abbrev path_e : Key
path_e = 47 ∷ 101 ∷ []

abbrev path_d2 : Key
path_d2 = 47 ∷ 100 ∷ 50 ∷ []

abbrev two_entries : Entries
two_entries = (path_a, 1) ∷ (path_b, 2) ∷ []

-- Two handles, of which the one for `/d/a` was used longer ago, and one that is parked.
abbrev full_cache : HandleCache
full_cache = record {
  capacity = 2;
  state = record { order = path_a ∷ path_b ∷ []; handles = two_entries; deferred = 9 ∷ [] };
}

full_cache-Represents : Represents full_cache two_entries
unfolding find same
full_cache-Represents = record {
  stand = record {
    in_order = refl;
    distinct = (refl, (refl, tt));
    keyed = (refl, (refl, tt));
    found = λ k. refl;
  };
  bounded = omega arith;
}

under_run : under path_a (47 ∷ 100 ∷ 47 ∷ []) ≡ true
unfolding under same
under_run = refl

beside_run : under path_d2 (47 ∷ 100 ∷ []) ≡ false
unfolding under same
beside_run = refl

-- The values that an insertion leaves and those that it hands back.
abbrev inserted : Option (Handle × List Handle × HandleCache) → List Handle × List Handle
inserted none = ([], [])
inserted (some (used, closing, c)) = (values c.state.handles, closing)

evict_run : inserted (insert_or_existing path_e 3 full_cache) ≡ (3 ∷ 2 ∷ [], 1 ∷ [])
unfolding insert_or_existing evict find without retain same
evict_run = refl

-- A read makes the other entry the oldest.
read_run : inserted (insert_or_existing path_e 3 ((get path_a full_cache).1)) ≡ (3 ∷ 1 ∷ [], 2 ∷ [])
unfolding insert_or_existing get touch evict find without retain same
read_run = refl

free_run : (take_free (λ h. h == 9) full_cache).0 ≡ 9 ∷ []
unfolding take_free
free_run = refl

step-Agrees_example : (o : Outcome) × Agrees (opens path_e 3) full_cache two_entries o
step-Agrees_example = step-Agrees (opens path_e 3) full_cache two_entries full_cache-Represents

step-conserves_example :
    (o : Outcome) × ((step (forgets_under (47 ∷ 100 ∷ [])) full_cache ≡ some o)
      × ((h : Handle)
          → count h (held o.cache) + count h o.closing
            ≡ count h (held full_cache) + count h (given (forgets_under (47 ∷ 100 ∷ [])))))
step-conserves_example =
    step-conserves (forgets_under (47 ∷ 100 ∷ [])) full_cache two_entries full_cache-Represents
