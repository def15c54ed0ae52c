-- ===== src/Smb/Handles/Spec.antt =====
-- What the cache promises: the entries in the order of their use, the least recently used first, and
-- never more than the capacity. A step of the code is one operation.
use synology_filestation.Prelude.{
  ℕ, ◌-◌, ◌≤◌, ◌≡◌, Bool, not, Option, some, none, List, [], ◌∷◌, ◌++◌, length, drop, ◌==◌,
  if◌then◌else◌,
}
use synology_filestation.Prelude.Keyed.{Key, Keyed, AreDistinct, find, without, keys}
use synology_filestation.Prelude.Keyed.Laws.{keep}
use synology_filestation.Smb.Handles.{
  Handle, HandleCache, under, get, insert_or_existing, invalidate, invalidate_prefix, clear, defer,
  take_free,
}

-- The operations that change the cache.
pub data CacheOp : Type 0 where
  reads : Key → CacheOp
  opens : Key → Handle → CacheOp
  forgets forgets_under : Key → CacheOp
  clears : CacheOp
  parks : Handle → CacheOp
  frees : (Handle → Bool) → CacheOp

-- What an operation gives: the handle to read through, those to close, and the cache.
pub record Outcome : Type 0 where
  pub used : Option Handle
  pub closing : List Handle
  pub cache : HandleCache

abbrev outcome : Option Handle → List Handle → HandleCache → Outcome
outcome used closing cache = record { used = used; closing = closing; cache = cache }

-- One call of the code; `none` where it panics.
unfoldable pub step : CacheOp → HandleCache → Option Outcome
unfolding get insert_or_existing invalidate invalidate_prefix clear defer take_free
step (reads path) c = some (outcome ((get path c).0) [] ((get path c).1))
step (opens path handle) c = elim (insert_or_existing path handle c) [
  | none ↦ none
  | some (used, closing, c') ↦ some (outcome (some used) closing c')
]
step (forgets path) c = some (outcome none ((invalidate path c).0) ((invalidate path c).1))
step (forgets_under prefix) c =
    some (outcome none ((invalidate_prefix prefix c).0) ((invalidate_prefix prefix c).1))
step clears c = some (outcome none ((clear c).0) ((clear c).1))
step (parks handle) c = some (outcome none [] (defer handle c))
step (frees alone) c = some (outcome none ((take_free alone c).0) ((take_free alone c).1))

-- The specification's entries, and the handle it uses.
abbrev pub Entries : Type 0
Entries = Keyed Handle

-- An entry that is used goes to the end.
unfoldable pub used_last : Key → Handle → Entries → Entries
used_last path handle es = without path es ++ ((path, handle) ∷ [])

-- As many of the last entries as fit.
unfoldable pub newest : ℕ → Entries → Entries
newest capacity es = drop (length es - capacity) es

unfoldable pub entries_after : ℕ → CacheOp → Entries → Entries
unfolding used_last newest
entries_after capacity (reads path) es = elim (find path es) [
  | none ↦ es
  | some handle ↦ used_last path handle es
]
entries_after capacity (opens path handle) es = if capacity == 0 then es else elim (find path es) [
  | some existing ↦ used_last path existing es
  | none ↦ newest capacity (es ++ ((path, handle) ∷ []))
]
entries_after capacity (forgets path) es = without path es
entries_after capacity (forgets_under prefix) es = keep (λ k. not (under k prefix)) es
entries_after capacity clears es = []
entries_after capacity (parks handle) es = es
entries_after capacity (frees alone) es = es

unfoldable pub handle_used : ℕ → CacheOp → Entries → Option Handle
handle_used capacity (reads path) es = find path es
handle_used capacity (opens path handle) es =
    if capacity == 0
    then some handle
    else elim (find path es) [ some existing ↦ some existing | none ↦ some handle ]
handle_used capacity (forgets path) es = none
handle_used capacity (forgets_under prefix) es = none
handle_used capacity clears es = none
handle_used capacity (parks handle) es = none
handle_used capacity (frees alone) es = none

-- The order and the map stand for the entries.
pub record Stand (order : List Key) (handles : Keyed Handle) (es : Entries) : Type 0 where
  pub in_order : order ≡ keys es
  pub distinct : AreDistinct es
  pub keyed : AreDistinct handles
  pub found : (k : Key) → find k handles ≡ find k es

-- The cache holds exactly the entries, and no more than its capacity.
pub record Represents (c : HandleCache) (es : Entries) : Type 0 where
  pub stand : Stand c.state.order c.state.handles es
  pub bounded : length es ≤ c.capacity
