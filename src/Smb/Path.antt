-- ===== src/Smb/Path.antt =====
-- rust/synology-filestation-smb/src/path.rs: a logical path as a share and a path in it. A string is
-- the list of its UTF-8 bytes; the slash is one byte, which no longer character contains.
pub mod RoundTrip
pub mod Cases
mod Runs
use synology_filestation.Prelude.{
  ℕ, zero, suc, ◌≡◌, Bool, true, false, ◌&&◌, Option, some, none, List, [], ◌∷◌, ◌==◌,
  if◌then◌else◌,
}

abbrev pub slash : ℕ
slash = 47

-- `str::is_empty`
abbrev pub is_empty : List ℕ → Bool
is_empty [] = true
is_empty (c ∷ s) = false

-- `str::trim_matches('/')`, from the start and from the end.
unfoldable pub trim_start : List ℕ → List ℕ
trim_start [] = []
trim_start (c ∷ s) = let rest = trim_start s in if c == slash then rest else c ∷ s

unfoldable pub trim_end : List ℕ → List ℕ
trim_end [] = []
trim_end (c ∷ s) = let rest = trim_end s in if c == slash && is_empty rest then [] else c ∷ rest

unfoldable pub trim_matches : List ℕ → List ℕ
unfolding trim_start trim_end
trim_matches s = trim_end (trim_start s)

-- `str::split_once('/')`
unfoldable pub split_once : List ℕ → Option (List ℕ × List ℕ)
split_once [] = none
split_once (c ∷ s) =
    let rest = split_once s in
    if c == slash
    then some ([], s)
    else elim rest [ none ↦ none | some (before, after) ↦ some (c ∷ before, after) ]

pub record SmbPath : Type 0 where
  pub share : List ℕ
  pub path : List ℕ

-- `Result<SmbPath, SynoFsError>`, of whose errors one is used.
pub data Located : Type 0 where
  ok : SmbPath → Located
  invalid_arg : Located

abbrev pub share_and_path : List ℕ → Option (List ℕ × List ℕ) → List ℕ × List ℕ
share_and_path trimmed (some parts) = parts
share_and_path trimmed none = (trimmed, [])

unfoldable pub from_logical : List ℕ → Located
unfolding trim_matches split_once
from_logical logical =
    let trimmed = trim_matches logical in
    if is_empty trimmed
    then invalid_arg
    else (let (share, path) = share_and_path trimmed (split_once trimmed) in
        if is_empty share then invalid_arg else ok (record { share = share; path = path }))
