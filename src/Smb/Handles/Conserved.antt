-- ===== src/Smb/Handles/Conserved.antt =====
-- The handles that the cache is responsible for, and those that it hands back.
use synology_filestation.Prelude.{
  ℕ, ◌+◌, ◌≡◌, ap, Bool, not, inl, inr, Option, none, some, List, [], ◌∷◌, ◌++◌, length, ltb, ◌==◌,
  if◌then◌else◌, Bool-cases, Option-cases, if_cases, arith,
}
use mathlib.Core.Path.{subst}
use synology_filestation.Prelude.Bytes.{same}
use synology_filestation.Prelude.Keyed.{
  Key, Keyed, find, without, put, keys, values, retain, without_absent,
}
use synology_filestation.Smb.Handles.{
  Handle, HandleCache, get, insert_or_existing, invalidate, invalidate_prefix, clear, defer,
  take_free, touch, under, evict, remove_all, with_option, part_free,
}
use synology_filestation.Smb.Handles.Spec.{
  CacheOp, reads, opens, forgets, forgets_under, clears, parks, frees, Outcome, step, Entries,
  Represents,
}
use synology_filestation.Smb.Handles.Refine.{step-Agrees}

-- How often a handle stands in a list.
unfoldable pub count : Handle → List Handle → ℕ
count h [] = 0
count h (x ∷ xs) = (if x == h then 1 else 0) + count h xs

pub count-append : (h : Handle) (xs ys : List Handle) → count h (xs ++ ys) ≡ count h xs + count h ys
unfolding count
count-append h [] ys = omega arith
count-append h (x ∷ xs) ys = omega (arith, count-append h xs ys)

count-with_option :
    (h : Handle) (o : Option Handle) (xs : List Handle)
    → count h (with_option o xs) ≡ count h (with_option o []) + count h xs
unfolding count
count-with_option h none xs = omega arith
count-with_option h (some x) xs = omega arith

-- Everything the cache is responsible for, and what an operation hands to it.
abbrev pub held : HandleCache → List Handle
held c = values c.state.handles ++ c.state.deferred

abbrev pub given : CacheOp → List Handle
given (reads path) = []
given (opens path handle) = handle ∷ []
given (forgets path) = []
given (forgets_under prefix) = []
given clears = []
given (parks handle) = handle ∷ []
given (frees alone) = []

-- An entry that is removed is handed back.
count-without :
    (h : Handle) (key : Key) (xs : Keyed Handle)
    → count h (with_option (find key xs) []) + count h (values (without key xs))
      ≡ count h (values xs)
unfolding count find without
count-without h key [] = omega arith
count-without h key ((at, v) ∷ xs) = elim (Bool-cases (same at key)) [
  | inl here ↦ rw here (omega arith)
  | inr other ↦ rw other (omega (arith, count-without h key xs))
]

count-remove_all :
    (h : Handle) (doomed : List Key) (xs : Keyed Handle)
    → count h ((remove_all doomed xs).0) + count h (values ((remove_all doomed xs).1))
      ≡ count h (values xs)
unfolding count remove_all
count-remove_all h [] xs = omega arith
count-remove_all h (k ∷ ks) xs = omega (
  arith,
  count-with_option h (find k xs) ((remove_all ks (without k xs)).0),
  count-remove_all h ks (without k xs),
  count-without h k xs,
)

count-part_free :
    (h : Handle) (alone : Handle → Bool) (xs : List Handle)
    → count h ((part_free alone xs).0) + count h ((part_free alone xs).1) ≡ count h xs
unfolding count part_free
count-part_free h alone [] = omega arith
count-part_free h alone (x ∷ xs) = elim (Bool-cases (alone x)) [
  | inl free ↦ rw free (omega (arith, count-part_free h alone xs))
  | inr busy ↦ rw busy (omega (arith, count-part_free h alone xs))
]

abbrev EvictBalances :
    Handle → Keyed Handle → Option (List Key × Keyed Handle × List Handle) → Type 0
EvictBalances h handles none = Unit
EvictBalances h handles (some (order', handles', gone)) =
    count h gone + count h (values handles') ≡ count h (values handles)

evict-EvictBalances :
    (h : Handle) (capacity : ℕ) (order : List Key) (handles : Keyed Handle)
    → EvictBalances h handles (evict capacity order handles)
unfolding count evict
evict-EvictBalances h capacity [] handles =
    if_cases (EvictBalances h handles) (ltb capacity (length handles)) none (some ([], handles, []))
      (λ over. tt) (λ fits. omega arith)
evict-EvictBalances h capacity (k ∷ ks) handles =
    let later = evict-EvictBalances h capacity ks (without k handles) in
    if_cases (EvictBalances h handles) (ltb capacity (length handles)) _ _
      (λ over. more (evict capacity ks (without k handles)) later) (λ fits. omega arith)
  where
    more :
        (r : Option (List Key × Keyed Handle × List Handle))
        → EvictBalances h (without k handles) r
        → EvictBalances h handles (elim r [
          | none ↦ none
          | some (order', handles', gone) ↦
              some (order', handles', with_option (find k handles) gone)
        ])
    more none b = tt
    more (some (order', handles', gone)) b =
        omega (arith, count-with_option h (find k handles) gone, count-without h k handles, b)

abbrev Balances : Handle → CacheOp → HandleCache → Option Outcome → Type 0
Balances h op c none = Unit
Balances h op c (some o) =
    count h (held o.cache) + count h o.closing ≡ count h (held c) + count h (given op)

get-Balances :
    (h : Handle) (path : Key) (c : HandleCache) → Balances h (reads path) c (step (reads path) c)
unfolding count step get touch
get-Balances h path c = elim (Option-cases (find path c.state.handles)) [
  | inl missing ↦
      rw (missing, step, get)
        (omega (arith, count-append h (values c.state.handles) c.state.deferred))
  | inr (v, found) ↦ rw (found, step, get) (omega arith)
]

insert-Balances :
    (h : Handle) (path : Key) (handle : Handle) (c : HandleCache)
    → Balances h (opens path handle) c (step (opens path handle) c)
unfolding count step insert_or_existing touch put
insert-Balances h path handle c = elim (Bool-cases (c.capacity == 0)) [
  | inl off ↦ rw (off, step, insert_or_existing) (omega arith)
  | inr on ↦ elim (Option-cases (find path c.state.handles)) [
    | inr (v, found) ↦ rw (on, found, step, insert_or_existing) (omega arith)
    | inl missing ↦ elim (Option-cases (evict c.capacity order handles)) [
      | inl panics ↦ rw (on, missing, panics, step, insert_or_existing) tt
      | inr ((order', handles', gone), e) ↦
          let balance =
            subst (EvictBalances h handles) e (evict-EvictBalances h c.capacity order handles) in
          rw (on, missing, e, step, insert_or_existing)
            (omega (
              arith,
              balance,
              ap (λ (xs : Keyed Handle). count h (values xs))
                  (without_absent path c.state.handles missing),
              count-append h (values handles') c.state.deferred,
              count-append h (values c.state.handles) c.state.deferred,
            ))
    ]
  ]
]
  where
    order : List Key
    order = retain (λ k. not (same k path)) c.state.order ++ (path ∷ [])

    handles : Keyed Handle
    handles = (path, handle) ∷ without path c.state.handles

step-Balances : (h : Handle) (op : CacheOp) (c : HandleCache) → Balances h op c (step op c)
unfolding count step invalidate invalidate_prefix clear defer take_free
step-Balances h (reads path) c = get-Balances h path c
step-Balances h (opens path handle) c = insert-Balances h path handle c
step-Balances h (forgets path) c = omega (
  arith,
  count-without h path c.state.handles,
  count-append h (values (without path c.state.handles)) c.state.deferred,
  count-append h (values c.state.handles) c.state.deferred,
)
step-Balances h (forgets_under prefix) c =
    let doomed = retain (λ k. under k prefix) (keys c.state.handles) in
    omega (
      arith,
      count-remove_all h doomed c.state.handles,
      count-append h (values ((remove_all doomed c.state.handles).1)) c.state.deferred,
      count-append h (values c.state.handles) c.state.deferred,
    )
step-Balances h clears c = omega arith
step-Balances h (parks handle) c = omega (
  arith,
  count-append h (values c.state.handles) (c.state.deferred ++ (handle ∷ [])),
  count-append h c.state.deferred (handle ∷ []),
  count-append h (values c.state.handles) c.state.deferred,
)
step-Balances h (frees alone) c = omega (
  arith,
  count-part_free h alone c.state.deferred,
  count-append h (values c.state.handles) ((part_free alone c.state.deferred).1),
  count-append h (values c.state.handles) c.state.deferred,
)

-- If the cache holds exactly the entries and no more than its capacity, every operation runs without
-- a panic, and each handle stands in the cache (among those cached and those parked) and among those
-- handed back to be closed, together, as often as it stood in the cache and was given to it before:
-- none is dropped without being closed, and none is handed back twice.
pub step-conserves :
    (op : CacheOp) (c : HandleCache) (es : Entries)
    → Represents c es
    → (o : Outcome) × ((step op c ≡ some o)
        × ((h : Handle)
            → count h (held o.cache) + count h o.closing ≡ count h (held c) + count h (given op)))
step-conserves op c es r =
    let (o, agrees) = step-Agrees op c es r in
    (o, (agrees.runs, λ h. subst (Balances h op c) agrees.runs (step-Balances h op c)))
