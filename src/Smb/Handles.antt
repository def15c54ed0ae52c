-- ===== src/Smb/Handles.antt =====
-- rust/synology-filestation-smb/src/handles.rs: the bounded cache of open read handles. An `Arc` is
-- a number that names its allocation, and who else holds a clone of it is an argument of
-- `take_free`. The mutex makes each operation one step; a poisoned lock is not modelled.
pub mod Spec
mod Stand
pub mod Refine
pub mod Conserved
mod Runs
use synology_filestation.Prelude.{
  ℕ, zero, suc, Bool, true, false, ◌&&◌, ◌||◌, not, Option, some, none, List, [], ◌∷◌, ◌++◌, length,
  drop, get_elem?, ltb, ◌==◌, if◌then◌else◌,
}
use synology_filestation.Prelude.Bytes.{same}
use synology_filestation.Prelude.Keyed.{
  Key, Keyed, retain, find, without, put, keys, values, starts_with,
}
use synology_filestation.Smb.Path.{slash, trim_end}

abbrev pub Handle : Type 0
Handle = ℕ

abbrev pub max_cached_handles : ℕ
max_cached_handles = 64

pub record State : Type 0 where
  pub order : List Key
  pub handles : Keyed Handle
  pub deferred : List Handle

pub record HandleCache : Type 0 where
  pub capacity : ℕ
  pub state : State

unfoldable pub new : ℕ → HandleCache
new capacity = record {
  capacity = capacity;
  state = record { order = []; handles = []; deferred = [] };
}

-- `State::touch`
unfoldable pub touch : Key → State → State
unfolding retain
touch path s = record s { order = retain (λ k. not (same k path)) s.order ++ (path ∷ []) }

abbrev is_slash : Option ℕ → Bool
is_slash none = false
is_slash (some byte) = byte == slash

unfoldable pub under : Key → Key → Bool
unfolding trim_end starts_with
under path prefix =
    let prefix' = trim_end prefix in
    same path prefix' || (starts_with path prefix' && is_slash (get_elem? path (length prefix')))

unfoldable pub get : Key → HandleCache → Option Handle × HandleCache
unfolding touch find
get path c = elim (find path c.state.handles) [
  | none ↦ (none, c)
  | some handle ↦ (some handle, record c { state = touch path c.state })
]

-- `Option::into_iter` and `Vec::push`, at the front of what is evicted later.
abbrev pub with_option : Option Handle → List Handle → List Handle
with_option none handles = handles
with_option (some handle) handles = handle ∷ handles

-- The `while` loop of `insert_or_existing`: the order left, the handles left and the evicted, or
-- `none` where `remove(0)` finds the order empty.
unfoldable pub evict : ℕ → List Key → Keyed Handle → Option (List Key × Keyed Handle × List Handle)
unfolding find without
evict capacity [] handles = if ltb capacity (length handles) then none else some ([], handles, [])
evict capacity (oldest ∷ order) handles =
    let later = evict capacity order (without oldest handles) in
    if ltb capacity (length handles)
    then elim later [
      | none ↦ none
      | some (order', handles', evicted) ↦
          some (order', handles', with_option (find oldest handles) evicted)
    ]
    else some (oldest ∷ order, handles, [])

-- The handle to use, those to close, and the cache; `none` where the source panics.
unfoldable pub insert_or_existing :
    Key → Handle → HandleCache → Option (Handle × List Handle × HandleCache)
unfolding find put touch evict
insert_or_existing path handle c =
    if c.capacity == 0 then some (handle, handle ∷ [], c) else elim (find path c.state.handles) [
      | some existing ↦ some (existing, handle ∷ [], record c { state = touch path c.state })
      | none ↦
          let inserted =
            touch path (record c.state { handles = put path handle c.state.handles }) in
          elim (evict c.capacity inserted.order inserted.handles) [
            | none ↦ none
            | some (order, handles, evicted) ↦ some (
              handle,
              evicted,
              record c {
                state = record { order = order; handles = handles; deferred = inserted.deferred };
              },
            )
          ]
    ]

unfoldable pub invalidate : Key → HandleCache → List Handle × HandleCache
unfolding retain find without
invalidate path c = (
  with_option (find path c.state.handles) [],
  record c {
    state = record c.state {
      order = retain (λ k. not (same k path)) c.state.order;
      handles = without path c.state.handles;
    };
  },
)

-- `handles.remove` for each doomed key.
unfoldable pub remove_all : List Key → Keyed Handle → List Handle × Keyed Handle
unfolding find without
remove_all [] handles = ([], handles)
remove_all (k ∷ doomed) handles =
    let (gone, left) = remove_all doomed (without k handles) in
    (with_option (find k handles) gone, left)

unfoldable pub invalidate_prefix : Key → HandleCache → List Handle × HandleCache
unfolding under retain remove_all
invalidate_prefix prefix c =
    let doomed = retain (λ k. under k prefix) (keys c.state.handles) in
    let (gone, left) = remove_all doomed c.state.handles in
    (
      gone,
      record c {
        state = record c.state {
          order = retain (λ k. not (under k prefix)) c.state.order;
          handles = left;
        };
      },
    )

unfoldable pub clear : HandleCache → List Handle × HandleCache
clear c = (
  values c.state.handles ++ c.state.deferred,
  record c { state = record { order = []; handles = []; deferred = [] } },
)

unfoldable pub defer : Handle → HandleCache → HandleCache
defer handle c = record c {
  state = record c.state { deferred = c.state.deferred ++ (handle ∷ []) };
}

unfoldable pub is_empty : HandleCache → Bool
is_empty c = length c.state.handles == 0 && length c.state.deferred == 0

-- The parked handles that only the cache holds, and those that stay parked.
unfoldable pub part_free : (Handle → Bool) → List Handle → List Handle × List Handle
part_free alone [] = ([], [])
part_free alone (h ∷ deferred) =
    let (free, parked) = part_free alone deferred in
    if alone h then (h ∷ free, parked) else (free, h ∷ parked)

-- `alone` says which handles have a strong count of 1.
unfoldable pub take_free : (Handle → Bool) → HandleCache → List Handle × HandleCache
unfolding part_free
take_free alone c =
    let (free, parked) = part_free alone c.state.deferred in
    (free, record c { state = record c.state { deferred = parked } })
