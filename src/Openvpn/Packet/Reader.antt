-- ===== src/Openvpn/Packet/Reader.antt =====
-- The reader on bytes that lie ahead of it.
use synology_filestation.Prelude.{
  ℕ, ◌+◌, ◌-◌, ◌*◌, ◌≤◌, ◌<◌, ◌≡◌, refl, sym, ap, ◌∙◌, List, [], ◌∷◌, ◌++◌, length, length-append,
  length-drop, drop, drop-drop, take-append, drop-append, range?, All, le→leb, arith,
}
use synology_filestation.Prelude.Bytes.{IsU32, be32, from_be-be32}
use synology_filestation.Openvpn.Error.{Error, ok, truncated}
use synology_filestation.Openvpn.Packet.{
  Cursor, take_bytes, read_u8, read_u32, read_session_id, read_ids, rest, encode_ids, SessionId,
  IsSession,
}

abbrev pub cursor : List ℕ → ℕ → Cursor
cursor bytes at = record { bytes = bytes; at = at }

module _ (bytes : List ℕ) (at : ℕ) (xs ys : List ℕ) (ahead : drop at bytes ≡ xs ++ ys) where
  pub drop_past : (n : ℕ) → length xs ≡ n → drop (at + n) bytes ≡ ys
  drop_past n e = sym (drop-drop at n bytes) ∙ (ap (drop n) ahead ∙ drop-append n xs ys e)

  fits : 0 < length xs → at + length xs ≤ length bytes
  fits pos = omega (arith, length-drop at bytes, ap length ahead, length-append xs ys)

  pub take_bytes_ahead :
      (n : ℕ) (e : Error)
      → length xs ≡ n
      → 0 < n
      → take_bytes (cursor bytes at) n e ≡ ok (xs, cursor bytes (at + n))
  unfolding take_bytes range?
  take_bytes_ahead n e len pos = rw (
    le→leb (at + n) (length bytes) (omega (arith, fits (omega arith))),
    ahead,
    take-append (at + n - at) xs ys (omega arith),
  )

pub read_u8_ahead :
    (bytes : List ℕ) (at b : ℕ) (ys : List ℕ) (e : Error)
    → drop at bytes ≡ b ∷ ys
    → read_u8 (cursor bytes at) e ≡ ok (b, cursor bytes (at + 1))
unfolding read_u8
read_u8_ahead bytes at b ys e ahead =
    rw (take_bytes_ahead bytes at (b ∷ []) ys ahead 1 e refl (omega arith))

pub read_u32_ahead :
    (bytes : List ℕ) (at n : ℕ) (ys : List ℕ) (e : Error)
    → IsU32 n
    → drop at bytes ≡ be32 n ++ ys
    → read_u32 (cursor bytes at) e ≡ ok (n, cursor bytes (at + 4))
unfolding read_u32
read_u32_ahead bytes at n ys e h ahead =
    rw (take_bytes_ahead bytes at (be32 n) ys ahead 4 e refl (omega arith), from_be-be32 n h)

pub read_session_id_ahead :
    (bytes : List ℕ) (at : ℕ) (s : SessionId) (ys : List ℕ)
    → IsSession s
    → drop at bytes ≡ s ++ ys
    → read_session_id (cursor bytes at) ≡ ok (s, cursor bytes (at + 8))
unfolding read_session_id
read_session_id_ahead bytes at s ys h ahead =
    rw (take_bytes_ahead bytes at s ys ahead 8 _ h (omega arith), h)

pub length-encode_ids : (ids : List ℕ) → length (encode_ids ids) ≡ 4 * length ids
unfolding encode_ids
length-encode_ids [] = refl
length-encode_ids (id ∷ ids) = omega (arith, length-encode_ids ids)

pub read_ids_ahead :
    (bytes : List ℕ) (at : ℕ) (ids ys : List ℕ)
    → All IsU32 ids
    → drop at bytes ≡ encode_ids ids ++ ys
    → read_ids (length ids) (cursor bytes at) ≡ ok (ids, cursor bytes (at + 4 * length ids))
unfolding read_ids encode_ids
read_ids_ahead bytes at [] ys h ahead = ap (λ (a : ℕ). ok ([], cursor bytes a)) (omega arith)
read_ids_ahead bytes at (id ∷ ids) ys h ahead =
    let past = drop_past bytes at (be32 id) (encode_ids ids ++ ys) ahead 4 refl in
    rw
      (
        read_u32_ahead bytes at id (encode_ids ids ++ ys) (truncated "an acknowledged packet id")
            h.0 ahead,
        read_ids_ahead bytes (at + 4) ids ys h.1 past,
      )
      (ap (λ (a : ℕ). ok (id ∷ ids, cursor bytes a)) (omega arith))

pub rest_ahead :
    (bytes : List ℕ) (at : ℕ) (ys : List ℕ)
    → at ≤ length bytes
    → drop at bytes ≡ ys
    → rest (cursor bytes at) ≡ ok ys
unfolding rest
rest_ahead bytes at ys le ahead = rw (le→leb at (length bytes) le, ahead)
