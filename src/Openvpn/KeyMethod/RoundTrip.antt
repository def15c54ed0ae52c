-- ===== src/Openvpn/KeyMethod/RoundTrip.antt =====
-- Reading a message that was written with `write_string`.
use synology_filestation.Prelude.{
  ℕ, ◌+◌, ◌^◌, ◌<◌, ◌≡◌, refl, ap, false, List, [], ◌∷◌, ◌++◌, append_assoc, length, length-append,
  drop, ltb, arith,
}
use synology_filestation.Prelude.Bytes.{same}
use synology_filestation.Openvpn.Error.{Result, ok, ◌>>=◌}
use synology_filestation.Openvpn.Packet.Reader.{drop_past}
use synology_filestation.Openvpn.KeyMethod.{key_method2, write_string, decode_key_method, decode}
use synology_filestation.Openvpn.KeyMethod.Strings.{
  field, write_string-field, after_string, take_slice_ahead, read_array_ahead, string_ahead,
}

-- The message that the server answers with: the client's layout, without a pre-master.
unfoldable pub server_message :
    List ℕ → List ℕ → List ℕ → List ℕ → List ℕ → List ℕ → Result (List ℕ)
server_message random1 random2 options username password peer_info = do
  out ← write_string (0 ∷ 0 ∷ 0 ∷ 0 ∷ 2 ∷ (random1 ++ random2)) options "the options string"
  out' ← write_string out username "the username"
  out'' ← write_string out' password "the password"
  write_string out'' peer_info "the peer info"

module _ (random1 random2 options username password peer_info message rest : List ℕ) where
  -- The fields in the order in which the reader meets them.
  abbrev strings_behind : List ℕ
  strings_behind =
      field options ++ (field username ++ (field password ++ (field peer_info ++ rest)))

  abbrev AreShort : Type 0
  AreShort =
      (length options + 1 < 2 ^ 16)
      × (length username + 1 < 2 ^ 16)
      × (length password + 1 < 2 ^ 16)
      × (length peer_info + 1 < 2 ^ 16)

  message_parts :
      server_message random1 random2 options username password peer_info ≡ ok message
      → (message ++ rest ≡ 0 ∷ 0 ∷ 0 ∷ 0 ∷ 2 ∷ (random1 ++ (random2 ++ strings_behind))) × AreShort
  unfolding server_message
  message_parts e =
      let head = 0 ∷ 0 ∷ 0 ∷ 0 ∷ 2 ∷ (random1 ++ random2) in
      let p1 =
        after_string head options "the options string"
          (λ out. do
            out' ← write_string out username "the username"
            out'' ← write_string out' password "the password"
            write_string out'' peer_info "the peer info")
          message e in
      let p2 =
        after_string _ username "the username"
          (λ out'. do
            out'' ← write_string out' password "the password"
            write_string out'' peer_info "the peer info")
          message p1.0 in
      let p3 =
        after_string _ password "the password"
          (λ out''. write_string out'' peer_info "the peer info") message p2.0 in
      let p4 = write_string-field _ peer_info "the peer info" message p3.0 in
      (rw (p4.0) (simp append_assoc refl), (p1.1, p2.1, p3.1, p4.1))

  length-message :
      server_message random1 random2 options username password peer_info ≡ ok message
      → length random1 ≡ 32
      → length random2 ≡ 32
      → 69
          + length (field options)
          + length (field username)
          + length (field password)
          + length (field peer_info)
        ≡ length message
  length-message e long1 long2 = omega (
    arith,
    ap length ((message_parts e).0),
    length-append message rest,
    length-append random1 (random2 ++ strings_behind),
    length-append random2 strings_behind,
    length-append (field options) (field username ++ (field password ++ (field peer_info ++ rest))),
    length-append (field username) (field password ++ (field peer_info ++ rest)),
    length-append (field password) (field peer_info ++ rest),
    length-append (field peer_info) rest,
    long1,
    long2,
  )

  abbrev whole : List ℕ
  whole = 0 ∷ 0 ∷ 0 ∷ 0 ∷ 2 ∷ (random1 ++ (random2 ++ strings_behind))

  decode_key_method-whole :
      (lossy : List ℕ → List ℕ)
      → length random1 ≡ 32
      → length random2 ≡ 32
      → lossy options ≡ options
      → lossy username ≡ username
      → lossy password ≡ password
      → lossy peer_info ≡ peer_info
      → AreShort
      → decode_key_method lossy whole
        ≡ ok (
          record { random1 = random1; random2 = random2; options = options },
          69
              + length (field options)
              + length (field username)
              + length (field password)
              + length (field peer_info),
        )
  unfolding decode_key_method
  decode_key_method-whole lossy long1 long2 valid1 valid2 valid3 valid4 (s1, s2, s3, s4) =
      let at1 : ℕ = 69 + length (field options) in
      let at2 : ℕ = at1 + length (field username) in
      let at3 : ℕ = at2 + length (field password) in
      let d1 : drop 37 whole ≡ random2 ++ strings_behind =
        drop_past whole 5 random1 (random2 ++ strings_behind) refl 32 long1 in
      let d2 : drop 69 whole ≡ strings_behind =
        drop_past whole 37 random2 strings_behind d1 32 long2 in
      let d3 : drop at1 whole ≡ field username ++ (field password ++ (field peer_info ++ rest)) =
        drop_past whole 69 (field options) _ d2 (length (field options)) refl in
      let d4 : drop at2 whole ≡ field password ++ (field peer_info ++ rest) =
        drop_past whole at1 (field username) _ d3 (length (field username)) refl in
      let d5 : drop at3 whole ≡ field peer_info ++ rest =
        drop_past whole at2 (field password) _ d4 (length (field password)) refl in
      rw
        (
          take_slice_ahead whole 0 4 (0 ∷ 0 ∷ 0 ∷ 0 ∷ [])
              (2 ∷ (random1 ++ (random2 ++ strings_behind))) "the leading zero" refl refl
              (omega arith),
          take_slice_ahead whole 4 1 (2 ∷ []) (random1 ++ (random2 ++ strings_behind))
              "a key method" refl refl (omega arith),
          read_array_ahead whole 5 32 random1 (random2 ++ strings_behind)
              "the server's first random" refl long1 (omega arith),
          read_array_ahead whole 37 32 random2 strings_behind "the server's second random" d1 long2
              (omega arith),
          string_ahead lossy whole 69 options _ "the options string" valid1 s1 d2,
          string_ahead lossy whole at1 username _ "a username" valid2 s2 d3,
          string_ahead lossy whole at2 password _ "a password" valid3 s3 d4,
          string_ahead lossy whole at3 peer_info _ "peer info" valid4 s4 d5,
        )
        refl

  -- If the two randoms have 32 bytes, the four strings are short enough for `write_string` to write
  -- the server's message and the texts are valid for `from_utf8_lossy`, then reading that message,
  -- whatever follows it, gives the randoms and the options, and uses exactly its bytes.
  pub decode-server_message :
      (lossy : List ℕ → List ℕ)
      → length random1 ≡ 32
      → length random2 ≡ 32
      → lossy options ≡ options
      → lossy username ≡ username
      → lossy password ≡ password
      → lossy peer_info ≡ peer_info
      → server_message random1 random2 options username password peer_info ≡ ok message
      → decode lossy (message ++ rest)
        ≡ ok (
          key_method2 (record { random1 = random1; random2 = random2; options = options }),
          length message,
        )
  unfolding decode same
  decode-server_message lossy long1 long2 valid1 valid2 valid3 valid4 e =
      let parts = message_parts e in
      let long_enough : ltb (length whole) 4 ≡ false = ground arith in
      rw
        (
          parts.0,
          long_enough,
          decode_key_method-whole lossy long1 long2 valid1 valid2 valid3 valid4 (parts.1),
          length-message e long1 long2,
        )
        refl
