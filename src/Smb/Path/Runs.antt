-- ===== src/Smb/Path/Runs.antt =====
-- Paths at concrete texts.
use synology_filestation.Prelude.{◌≡◌, refl, ◌⊎◌, [], ◌∷◌, ◌++◌, contains}
use synology_filestation.Smb.Path.{
  SmbPath, ok, invalid_arg, from_logical, trim_matches, trim_end, trim_start, split_once,
}
use synology_filestation.Smb.Path.RoundTrip.{IsSmbPath, join, slashes, from_logical-join}
use synology_filestation.Smb.Path.Cases.{Names, from_logical_cases}

abbrev deep : SmbPath
deep = record { share = b'd' ∷ []; path = b'R' ∷ b'/' ∷ b'x' ∷ [] }

deep-IsSmbPath : IsSmbPath deep
unfolding contains trim_end
deep-IsSmbPath = record { named = refl; no_slash = refl; no_end = refl }

from_logical-join_example : from_logical (slashes 1 ++ (join deep ++ slashes 2)) ≡ ok deep
from_logical-join_example = from_logical-join deep 1 2 deep-IsSmbPath

root_run : from_logical (b'/' ∷ b'/' ∷ []) ≡ invalid_arg
unfolding from_logical trim_matches trim_start trim_end
root_run = refl

double_run :
    from_logical (b'/' ∷ b'a' ∷ b'/' ∷ b'/' ∷ b'b' ∷ [])
    ≡ ok (record { share = b'a' ∷ []; path = b'/' ∷ b'b' ∷ [] })
unfolding from_logical trim_matches trim_start trim_end split_once
double_run = refl

from_logical_cases_example :
    ((trim_matches (b'a' ∷ []) ≡ []) × (from_logical (b'a' ∷ []) ≡ invalid_arg))
    ⊎ ((p : SmbPath) × Names (b'a' ∷ []) p)
from_logical_cases_example = from_logical_cases (b'a' ∷ [])
