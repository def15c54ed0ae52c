-- ===== src/Openvpn/KeyMethod/Stream.antt =====
-- Reading a message of which a part has arrived.
use synology_filestation.Prelude.{
  ℕ, ◌≤◌, ◌<◌, ◌≡◌, false, not, inl, inr, some, List, [], ◌∷◌, ◌++◌, length, length-append, take,
  take-append_short, get_elem?, ltb, ◌==◌, if◌then◌else◌, Bool-cases, Option-cases, arith,
}
use synology_filestation.Prelude.Bytes.{same}
use synology_filestation.Openvpn.Error.{Result, ok, err, ◌>>=◌, expect, unsupported_key_method}
use synology_filestation.Openvpn.Error.Ensures.{Anything, Ensures, returns, fails}
use synology_filestation.Openvpn.Packet.Reader.{cursor}
use synology_filestation.Openvpn.KeyMethod.{
  ServerKeyMethod2, ServerMessage, key_method2, control, read_array, string, position_nul,
  decode_key_method, decode,
}
use synology_filestation.Openvpn.KeyMethod.Reading.{
  Settled, not_yet, refused, read, take_slice_step, read_array_step, string_step,
}

-- A message of the server that was read, from the first `used` of `len` bytes.
abbrev pub IsRead : ℕ → ServerMessage × ℕ → Type 0
IsRead len (key_method2 m, used) =
    (length m.random1 ≡ 32) × (length m.random2 ≡ 32) × (0 < used) × (used ≤ len)
IsRead len (control text, used) = (0 < used) × (used ≤ len)

abbrev IsKeyMethod : ℕ → ServerKeyMethod2 × ℕ → Type 0
IsKeyMethod len (m, used) = IsRead len (key_method2 m, used)

module _ (lossy : List ℕ → List ℕ) where
  -- What `ServerKeyMethod2::decode` does behind the method's byte.
  fields_behind : List ℕ → ℕ → Result (ServerKeyMethod2 × ℕ)
  unfolding read_array string
  fields_behind bytes method =
      if not (method == 2) then err (unsupported_key_method method) else (do
        (random1, r2) ← read_array 32 (cursor bytes 5) "the server's first random"
        (random2, r3) ← read_array 32 r2 "the server's second random"
        (options, r4) ← string lossy r3 "the options string"
        (username, r5) ← string lossy r4 "a username"
        (password, r6) ← string lossy r5 "a password"
        (peer_info, r7) ← string lossy r6 "peer info"
        ok (record { random1 = random1; random2 = random2; options = options }, r7.at))

module _ (lossy : List ℕ → List ℕ) (bytes more : List ℕ) where
  fields_behind-Settled :
      (method : ℕ)
      → Settled
          (IsKeyMethod (length bytes))
          (fields_behind lossy bytes method)
          (fields_behind lossy (bytes ++ more) method)
  unfolding fields_behind
  fields_behind-Settled method = elim (Bool-cases (method == 2)) [
    | inl is_two ↦ rw is_two (
        read_array_step bytes more 5 32 _ _ _ λ random1 long1 in1.
          read_array_step bytes more 37 32 _ _ _ λ random2 long2 in2.
            string_step lossy bytes more 69 _ _ _ λ options at1 le1 in3.
              string_step lossy bytes more at1 _ _ _ λ username at2 le2 in4.
                string_step lossy bytes more at2 _ _ _ λ password at3 le3 in5.
                  string_step lossy bytes more at3 _ _ _
                    λ peer_info at4 le4 in6. read (long1, long2, omega arith, in6))
    | inr other ↦ rw other refused
  ]

  decode_key_method-Settled :
      Settled
        (IsKeyMethod (length bytes))
        (decode_key_method lossy bytes)
        (decode_key_method lossy (bytes ++ more))
  unfolding decode_key_method fields_behind
  decode_key_method-Settled =
      take_slice_step bytes more 0 4 _ _ _ λ zeros four fits.
        take_slice_step bytes more 4 1 _ _ _ (λ slice one reached. first slice one)
    where
      first :
          (slice : List ℕ)
          → length slice ≡ 1
          → Settled
              (IsKeyMethod (length bytes))
              (expect (get_elem? slice 0) >>= fields_behind lossy bytes)
              (expect (get_elem? slice 0) >>= fields_behind lossy (bytes ++ more))
      first [] one = absurd (omega arith)
      first (b ∷ slice) one = fields_behind-Settled b

position_nul-append :
    (bytes more : List ℕ) (i : ℕ)
    → position_nul bytes ≡ some i
    → (position_nul (bytes ++ more) ≡ some i) × (i < length bytes)
unfolding position_nul
position_nul-append [] more i e = cc
position_nul-append (x ∷ xs) more i e = elim (Bool-cases (x == 0)) [
  | inl zero_byte ↦ (ground arith, ground arith)
  | inr other ↦ elim (Option-cases (position_nul xs)) [
    | inl never ↦ absurd (ground arith)
    | inr (j, found) ↦
        let there = position_nul-append xs more j found in
        (ground (arith, there), ground (arith, there))
  ]
]

wrap-Settled :
    {len : ℕ} {r r' : Result (ServerKeyMethod2 × ℕ)}
    → Settled (IsKeyMethod len) r r'
    → Settled
        (IsRead len)
        (r >>= λ (m, used). ok (key_method2 m, used))
        (r' >>= λ (m, used). ok (key_method2 m, used))
wrap-Settled not_yet = not_yet
wrap-Settled refused = refused
wrap-Settled (read h) = read h

-- For any bytes and any that follow them later, reading the server's message from the first alone
-- either stops with `truncated`, or gives the same error or the same message as reading from all of
-- them. A message that is read used at least one byte and none of those that follow, and a key
-- method has two randoms of 32 bytes. The reading of the first bytes does not panic.
pub decode-Settled :
    (lossy : List ℕ → List ℕ) (bytes more : List ℕ)
    → Settled (IsRead (length bytes)) (decode lossy bytes) (decode lossy (bytes ++ more))
unfolding decode
decode-Settled lossy bytes more = elim (Bool-cases (ltb (length bytes) 4)) [
  | inl short ↦ rw short not_yet
  | inr long ↦
      let longer : ltb (length (bytes ++ more)) 4 ≡ false =
        ground (arith, length-append bytes more) in
      rw (long, longer, take-append_short 4 bytes more (ground arith))
        (elim (Bool-cases (same (take 4 bytes) (0 ∷ 0 ∷ 0 ∷ 0 ∷ []))) [
          | inl zeros ↦ rw zeros (wrap-Settled (decode_key_method-Settled lossy bytes more))
          | inr text ↦ rw text (elim (Option-cases (position_nul bytes)) [
            | inl never ↦ rw never not_yet
            | inr (i, found) ↦
                let there = position_nul-append bytes more i found in
                rw (found, there.0, take-append_short i bytes more (omega (arith, there)))
                  (read (omega arith, omega (arith, there)))
          ])
        ])
]

read_Ensures : {A : Type 0} {P : A → Type 0} (r r' : Result A) → Settled P r r' → Ensures Anything r
read_Ensures _ _ not_yet = fails
read_Ensures _ _ refused = fails
read_Ensures _ _ (read h) = returns tt

pub decode-Ensures :
    (lossy : List ℕ → List ℕ) (bytes : List ℕ) → Ensures Anything (decode lossy bytes)
decode-Ensures lossy bytes = read_Ensures _ _ (decode-Settled lossy bytes [])
