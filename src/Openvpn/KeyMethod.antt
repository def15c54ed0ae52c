-- ===== src/Openvpn/KeyMethod.antt =====
-- rust/synology-filestation-openvpn/src/key_method.rs: the key-exchange message of the client, and
-- the reading of what the server answers over TLS. A `str` is its bytes;
-- `String::from_utf8_lossy` is the standard library's, taken as a function `lossy` on bytes.
mod Reading
pub mod Stream
mod Strings
pub mod RoundTrip
pub mod Written
mod Runs
use Prim.Native.String.{String}
use synology_filestation.Prelude.{
  ℕ, zero, suc, ◌+◌, ◌^◌, Bool, true, false, Option, some, none, List, [], ◌∷◌, ◌++◌, length, take,
  range?, get_elem?, ltb, ◌==◌, not, if◌then◌else◌,
}
use synology_filestation.Prelude.Bytes.{be16, be32, from_be, same}
use synology_filestation.Openvpn.Error.{
  Result, ok, err, panic, ◌>>=◌, ok_or, expect, truncated, unsupported_key_method, field_too_long,
}
use synology_filestation.Openvpn.Packet.{Cursor, take_bytes}
use synology_filestation.Openvpn.Packet
use synology_filestation.Openvpn.Prf.{KeySource2}

abbrev pub key_method_2 : ℕ
key_method_2 = 2

-- The u16 length of a value counts a NUL at its end.
unfoldable pub write_string : List ℕ → List ℕ → String → Result (List ℕ)
write_string out [] context = ok (out ++ be16 0)
write_string out (x ∷ xs) context =
    let len = length (x ∷ xs) + 1 in
    if ltb len (2 ^ 16)
    then ok (out ++ (be16 len ++ ((x ∷ xs) ++ (0 ∷ []))))
    else err (field_too_long context)

pub record ClientKeyMethod2 : Type 0 where
  pub source : KeySource2
  pub options : List ℕ
  pub username : List ℕ
  pub password : List ℕ
  pub peer_info : List ℕ

unfoldable pub encode : ClientKeyMethod2 → Result (List ℕ)
unfolding write_string
encode m = do
  let head =
      be32 0
      ++ (key_method_2
          ∷ (m.source.pre_master ++ (m.source.client_random1 ++ m.source.client_random2)))
  out ← write_string head m.options "the options string"
  out' ← write_string out m.username "the username"
  out'' ← write_string out' m.password "the password"
  write_string out'' m.peer_info "the peer info"

-- The bounds-checked reader: `take` and `array` fail with their context.
abbrev pub Reader : Type 0
Reader = Cursor

unfoldable pub take_slice : Reader → ℕ → String → Result (List ℕ × Reader)
unfolding take_bytes
take_slice r n context = take_bytes r n (truncated context)

unfoldable pub read_array : ℕ → Reader → String → Result (List ℕ × Reader)
unfolding take_slice
read_array n r context = do
  (slice, r') ← take_slice r n context
  bytes ← Packet.array n slice
  ok (bytes, r')

-- `strip_suffix(&[0])`, or the bytes as they are.
unfoldable pub strip_nul : List ℕ → List ℕ
strip_nul [] = []
strip_nul (x ∷ []) = if x == 0 then [] else x ∷ []
strip_nul (x ∷ y ∷ ys) = x ∷ strip_nul (y ∷ ys)

-- The index of the first zero byte.
unfoldable pub position_nul : List ℕ → Option ℕ
position_nul [] = none
position_nul (x ∷ xs) =
    let later = position_nul xs in
    if x == 0 then some 0 else elim later [ none ↦ none | some i ↦ some (suc i) ]

pub record ServerKeyMethod2 : Type 0 where
  pub random1 : List ℕ
  pub random2 : List ℕ
  pub options : List ℕ

pub data ServerMessage : Type 0 where
  key_method2 : ServerKeyMethod2 → ServerMessage
  control : List ℕ → ServerMessage

module _ (lossy : List ℕ → List ℕ) where
  unfoldable pub string : Reader → String → Result (List ℕ × Reader)
  unfolding read_array take_slice strip_nul
  string r context = do
    (header, r') ← read_array 2 r context
    let len = from_be header
    if len == 0
        then ok ([], r')
        else (do (bytes, r'') ← take_slice r' len context; ok (lossy (strip_nul bytes), r''))

  -- `ServerKeyMethod2::decode`: the message, and how many bytes it used.
  unfoldable pub decode_key_method : List ℕ → Result (ServerKeyMethod2 × ℕ)
  unfolding take_slice read_array string
  decode_key_method bytes = do
    (zeros, r) ← take_slice (record { bytes = bytes; at = 0 }) 4 "the leading zero"
    (slice, r1) ← take_slice r 1 "a key method"
    method ← expect (get_elem? slice 0)
    if not (method == key_method_2) then err (unsupported_key_method method) else (do
      (random1, r2) ← read_array 32 r1 "the server's first random"
      (random2, r3) ← read_array 32 r2 "the server's second random"
      (options, r4) ← string r3 "the options string"
      (username, r5) ← string r4 "a username"
      (password, r6) ← string r5 "a password"
      (peer_info, r7) ← string r6 "peer info"
      ok (record { random1 = random1; random2 = random2; options = options }, r7.at))

  -- `ServerMessage::decode`
  unfoldable pub decode : List ℕ → Result (ServerMessage × ℕ)
  unfolding decode_key_method position_nul
  decode bytes =
      if ltb (length bytes) 4
      then err (truncated "a message header")
      else if not (same (take 4 bytes) (0 ∷ 0 ∷ 0 ∷ 0 ∷ []))
      then (do
        end ← ok_or (position_nul bytes) (truncated "a control message")
        ok (control (lossy (take end bytes)), end + 1))
      else (do (key_method, used) ← decode_key_method bytes; ok (key_method2 key_method, used))
