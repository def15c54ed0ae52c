-- ===== src/Openvpn/KeyMethod/Strings.antt =====
-- The strings that `write_string` wrote, and the reader in front of them.
use Prim.Native.String.{String}
use synology_filestation.Prelude.{
  ℕ, ◌+◌, ◌^◌, ◌<◌, ◌≡◌, refl, sym, ap, ◌∙◌, false, inl, inr, List, [], ◌∷◌, ◌++◌, length,
  length-append, drop, ltb, ◌==◌, Bool-cases, arith,
}
use synology_filestation.Prelude.Bytes.{be16, from_be-be16}
use synology_filestation.Openvpn.Error.{Result, ok, err, panic, ◌>>=◌, truncated}
use synology_filestation.Openvpn.Packet.Reader.{cursor, drop_past, take_bytes_ahead}
use synology_filestation.Openvpn.KeyMethod.{write_string, take_slice, read_array, string, strip_nul}
use synology_filestation.Openvpn.KeyMethod.Reading.{read_array-take_slice}

-- A string on the wire.
abbrev pub field : List ℕ → List ℕ
field [] = be16 0
field (x ∷ xs) = be16 (length (x ∷ xs) + 1) ++ ((x ∷ xs) ++ (0 ∷ []))

pub write_string-field :
    (out text : List ℕ) (context : String) (written : List ℕ)
    → write_string out text context ≡ ok written
    → (written ≡ out ++ field text) × (length text + 1 < 2 ^ 16)
unfolding write_string
write_string-field out [] context written e = (cc, omega arith)
write_string-field out (x ∷ xs) context written e =
    elim (Bool-cases (ltb (length (x ∷ xs) + 1) (2 ^ 16))) [
      | inl fits ↦ (ground arith, ground arith)
      | inr long ↦ absurd (ground arith)
    ]

bind_ok :
    {A B : Type 0} (m : Result A) (f : A → Result B) (b : B)
    → (m >>= f) ≡ ok b
    → (a : A) × ((m ≡ ok a) × (f a ≡ ok b))
bind_ok (ok a) f b e = (a, (refl, e))
bind_ok (err x) f b e = cc
bind_ok panic f b e = cc

-- What follows a `write_string` goes on from the string's field.
pub after_string :
    {B : Type 0} (out text : List ℕ) (context : String) (f : List ℕ → Result B) (b : B)
    → (write_string out text context >>= f) ≡ ok b
    → (f (out ++ field text) ≡ ok b) × (length text + 1 < 2 ^ 16)
after_string out text context f b e =
    let (written, (wrote, later)) = bind_ok (write_string out text context) f b e in
    let same_bytes = write_string-field out text context written wrote in
    (ap f (sym (same_bytes.0)) ∙ later, same_bytes.1)

strip_nul-append : (text : List ℕ) → strip_nul (text ++ (0 ∷ [])) ≡ text
unfolding strip_nul
strip_nul-append [] = refl
strip_nul-append (x ∷ []) = refl
strip_nul-append (x ∷ y ∷ ys) = ap (◌∷◌ x) (strip_nul-append (y ∷ ys))

pub take_slice_ahead :
    (bytes : List ℕ) (at n : ℕ) (xs ys : List ℕ) (context : String)
    → drop at bytes ≡ xs ++ ys
    → length xs ≡ n
    → 0 < n
    → take_slice (cursor bytes at) n context ≡ ok (xs, cursor bytes (at + n))
unfolding take_slice
take_slice_ahead bytes at n xs ys context ahead size pos =
    take_bytes_ahead bytes at xs ys ahead n (truncated context) size pos

pub read_array_ahead :
    (bytes : List ℕ) (at n : ℕ) (xs ys : List ℕ) (context : String)
    → drop at bytes ≡ xs ++ ys
    → length xs ≡ n
    → 0 < n
    → read_array n (cursor bytes at) context ≡ ok (xs, cursor bytes (at + n))
read_array_ahead bytes at n xs ys context ahead size pos =
    read_array-take_slice bytes at n context
    ∙ take_slice_ahead bytes at n xs ys context ahead size pos

pub string_ahead :
    (lossy : List ℕ → List ℕ) (bytes : List ℕ) (at : ℕ) (text ys : List ℕ) (context : String)
    → lossy text ≡ text
    → length text + 1 < 2 ^ 16
    → drop at bytes ≡ field text ++ ys
    → string lossy (cursor bytes at) context ≡ ok (text, cursor bytes (at + length (field text)))
unfolding string
string_ahead lossy bytes at [] ys context valid small ahead =
    rw
      (
        read_array_ahead bytes at 2 (be16 0) ys context ahead refl (omega arith),
        from_be-be16 0 (omega arith),
      )
      refl
string_ahead lossy bytes at (x ∷ xs) ys context valid small ahead =
    let len = length (x ∷ xs) + 1 in
    let some_bytes : (length (x ∷ xs) + 1 == 0) ≡ false = ground arith in
    let behind : drop (at + 2) bytes ≡ ((x ∷ xs) ++ (0 ∷ [])) ++ ys =
      drop_past bytes at (be16 len) (((x ∷ xs) ++ (0 ∷ [])) ++ ys) ahead 2 refl in
    let size : length ((x ∷ xs) ++ (0 ∷ [])) ≡ len = length-append (x ∷ xs) (0 ∷ []) in
    rw
      (
        read_array_ahead bytes at 2 (be16 len) (((x ∷ xs) ++ (0 ∷ [])) ++ ys) context ahead refl
            (omega arith),
        from_be-be16 len small,
        some_bytes,
        take_slice_ahead bytes (at + 2) len ((x ∷ xs) ++ (0 ∷ [])) ys context behind size
            (omega arith),
        strip_nul-append (x ∷ xs),
        valid,
      )
      (ap (λ (k : ℕ). ok (x ∷ xs, cursor bytes k)) (omega (arith, size)))
