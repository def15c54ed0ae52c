-- ===== src/Smb/Framing.antt =====
-- rust/synology-filestation-smb/src/framing.rs: SMB2 messages over a stream of bytes. A stream is
-- what is written to it, or what can still be read from it and how it ends there.
pub mod Cut
mod Runs
use synology_filestation.Prelude.{
  ℕ, zero, suc, ◌+◌, ◌*◌, ◌/◌, ◌%◌, ◌^◌, Bool, true, false, not, Option, some, none, List, [], ◌∷◌,
  ◌++◌, length, take, drop, leb, ltb, ◌==◌, if◌then◌else◌, bit_or,
}

abbrev pub max_frame_size : ℕ
max_frame_size = 0xFF_FFFF

-- The errors of `smb2` that are used here, without their texts.
pub data Error : Type 0 where
  invalid_data disconnected io : Error

pub data Result {ℓ} (A : Type ℓ) : Type ℓ where
  ok : A → Result A
  err : Error → Result A

-- How a stream stops: at its end, or with another error.
pub data End : Type 0 where
  unexpected_eof other_error : End

pub record Reader : Type 0 where
  pub bytes : List ℕ
  pub end : End

abbrev pub ended : End → Error
ended unexpected_eof = disconnected
ended other_error = io

-- `send`, to a writer that takes everything.
unfoldable pub send : List ℕ → List ℕ → List ℕ × Result (Unit {0})
send written data_bytes =
    let len = length data_bytes in
    if ltb max_frame_size len then (written, err invalid_data) else (
      (written ++ (0 ∷ (len / 2 ^ 16 % 256) ∷ (len / 2 ^ 8 % 256) ∷ (len % 256) ∷ []))
          ++ data_bytes,
      ok tt,
    )

-- `read_exact`
unfoldable pub read_exact : Reader → ℕ → Reader × Result (List ℕ)
read_exact reader n =
    if leb n (length reader.bytes)
    then (record reader { bytes = drop n reader.bytes }, ok (take n reader.bytes))
    else (record reader { bytes = [] }, err (ended reader.end))

-- What a header says: the length of the message, if its first byte is zero.
unfoldable pub frame_len : List ℕ → Result ℕ
frame_len (a ∷ b ∷ c ∷ d ∷ _) =
    if not (a == 0) then err invalid_data else ok (bit_or (bit_or (b * 2 ^ 16) (c * 2 ^ 8)) d)
frame_len _ = err invalid_data

abbrev pub after_header : Reader × Result (List ℕ) → Reader × Result (List ℕ)
after_header (reader, err e) = (reader, err e)
after_header (reader, ok header) = elim (frame_len header) [
  | err e ↦ (reader, err e)
  | ok len ↦ read_exact reader len
]

unfoldable pub receive : Reader → Reader × Result (List ℕ)
unfolding read_exact frame_len
receive reader = after_header (read_exact reader 4)
