-- ===== src/Openvpn/Packet/Safety.antt =====
-- What `decode` does on any bytes, which anyone who can send a datagram chooses.
use synology_filestation.Prelude.{
  ℕ, zero, suc, ◌+◌, ◌-◌, ◌/◌, ◌^◌, ◌≤◌, ◌<◌, ◌≡◌, ◌≢◌, refl, true, false, Option, some, none, List,
  [], ◌∷◌, length, length-take, length-drop, drop, get_elem?, range?, All, ltb, ◌==◌, arith,
  bit_and, le→leb, ==_refl,
}
use synology_filestation.Prelude.Bytes.{IsByte, low_three}
use synology_filestation.Openvpn.Error.{Error, ok, ◌>>=◌, expect}
use synology_filestation.Openvpn.Error.Ensures.{
  Ensures, returns, fails, Ensures-ok, Ensures-ok_or, Ensures-if, Ensures-bind,
}
use synology_filestation.Openvpn.KeyId
use synology_filestation.Openvpn.KeyId.{IsKeyId}
use synology_filestation.Openvpn.Opcode.{Opcode, carries_packet_id}
use synology_filestation.Openvpn.Packet.{
  Acks, ControlPacket, Cursor, SessionId, IsSession, decode, take_bytes, array, read_u8, read_u32,
  read_session_id, read_ids, read_acks, read_packet_id, rest, new_acks, from_u8, max_acks,
  encode_prefix, encode_tail,
}

-- The reader never stands past the end of its bytes.
abbrev IsInside : Cursor → Type 0
IsInside c = c.at ≤ length c.bytes

length-range? :
    (a b : ℕ) (xs s : List ℕ)
    → a ≤ b
    → range? a b xs ≡ some s
    → (length s ≡ b - a) × (b ≤ length xs)
unfolding range?
length-range? a b xs s le e = ground (arith, length-take (b - a) (drop a xs), length-drop a xs)

take_bytes-Ensures :
    (c : Cursor) (n : ℕ) (e : Error)
    → Ensures (λ (r : List ℕ × Cursor). (length r.0 ≡ n) × IsInside r.1) (take_bytes c n e)
unfolding take_bytes
take_bytes-Ensures c n e =
    Ensures-bind _
      (Ensures-ok_or (range? c.at (c.at + n) c.bytes) e
        (λ s eq. length-range? c.at (c.at + n) c.bytes s (omega arith) eq))
      (λ s h. returns (omega (arith, h), h.1))

-- The reader's value may be anything; the reader stays inside.
abbrev Inside : {A : Type 0} → A × Cursor → Type 0
Inside r = IsInside r.1

read_u8-Ensures : (c : Cursor) (e : Error) → Ensures Inside (read_u8 c e)
unfolding read_u8
read_u8-Ensures c e = Ensures-bind _ (take_bytes-Ensures c 1 e) (λ (s, c') h. first s c' h)
  where
    first :
        (s : List ℕ) (c' : Cursor)
        → (length s ≡ 1) × IsInside c'
        → Ensures {A = ℕ × Cursor} Inside (expect (get_elem? s 0) >>= λ byte. ok (byte, c'))
    first [] c' h = absurd (omega arith)
    first (b ∷ s) c' h = returns (h.1)

read_u32-Ensures : (c : Cursor) (e : Error) → Ensures Inside (read_u32 c e)
unfolding read_u32
read_u32-Ensures c e =
    Ensures-bind _ (take_bytes-Ensures c 4 e) (λ (s, c') h. rw (h.0) (returns (h.1)))

read_session_id-Ensures :
    (c : Cursor)
    → Ensures (λ (r : SessionId × Cursor). IsSession r.0 × IsInside r.1) (read_session_id c)
unfolding read_session_id
read_session_id-Ensures c =
    Ensures-bind _ (take_bytes-Ensures c 8 _) (λ (s, c') h. rw (h.0) (returns h))

read_ids-Ensures :
    (n : ℕ) (c : Cursor)
    → IsInside c
    → Ensures (λ (r : List ℕ × Cursor). (length r.0 ≡ n) × IsInside r.1) (read_ids n c)
unfolding read_ids
read_ids-Ensures zero c h = returns (refl, h)
read_ids-Ensures (suc n) c h = Ensures-bind _ (read_u32-Ensures c _) (λ (id, c') h'.
    Ensures-bind _ (read_ids-Ensures n c' h')
      (λ (ids, c'') h''. returns (omega (arith, h''), h''.1)))

-- Acknowledgements that were read: none, or 1 to 8 ids with a whole session id.
abbrev IsRead : Option Acks → Type 0
IsRead none = Unit
IsRead (some a) = (0 < length a.ids) × (length a.ids ≤ max_acks) × IsSession a.session_id

new_acks-Ensures :
    (ids : List ℕ) (s : SessionId)
    → Ensures (λ a. (a.ids ≡ ids) × (a.session_id ≡ s) × (length ids ≤ max_acks)) (new_acks ids s)
unfolding new_acks
new_acks-Ensures ids s =
    Ensures-if (ltb max_acks (length ids)) _ _ (λ many. fails)
      (λ few. returns (refl, refl, ground arith))

read_acks-Ensures :
    (n : ℕ) (c : Cursor)
    → IsInside c
    → Ensures (λ (r : Option Acks × Cursor). IsRead r.0 × IsInside r.1) (read_acks n c)
unfolding read_acks
read_acks-Ensures n c h =
    Ensures-if (ltb 0 n) _ _
      (λ some_id. Ensures-bind _ (read_ids-Ensures n c h) λ (ids, c') h'.
        Ensures-bind _ (read_session_id-Ensures c') λ (s, c'') h''.
          Ensures-bind _ (new_acks-Ensures ids s) λ acks h3. returns (ground arith, h''.1))
      (λ _. returns (tt, h))

-- A packet carries a message id exactly when its opcode does.
abbrev CarriesId : Opcode → Option ℕ → Type 0
CarriesId o none = carries_packet_id o ≡ false
CarriesId o (some id) = carries_packet_id o ≡ true

read_packet_id-Ensures :
    (o : Opcode) (c : Cursor)
    → IsInside c
    → Ensures (λ (r : Option ℕ × Cursor). CarriesId o r.0 × IsInside r.1) (read_packet_id o c)
unfolding read_packet_id
read_packet_id-Ensures o c h =
    Ensures-if (carries_packet_id o) _ _
      (λ carries. Ensures-bind _ (read_u32-Ensures c _) λ (id, c') h'. returns (carries, h'))
      (λ bare. returns (bare, h))

rest-Ensures : (c : Cursor) → IsInside c → Ensures (λ _. Unit {0}) (rest c)
unfolding rest
rest-Ensures c h = rw (le→leb c.at (length c.bytes) h) (returns tt)

array-Ensures : (n : ℕ) (s : List ℕ) → length s ≡ n → Ensures (λ a. length a ≡ n) (array n s)
array-Ensures n s h = rw (h, ==_refl n) (returns h)

pub from_u8-Ensures : (b : ℕ) → Ensures (λ _. Unit {0}) (from_u8 b)
unfolding from_u8
from_u8-Ensures b =
    Ensures-if (b == 3) _ _ (λ _. returns tt)
      λ _.
        Ensures-if (b == 4) _ _ (λ _. returns tt)
          λ _.
            Ensures-if (b == 5) _ _ (λ _. returns tt)
              λ _.
                Ensures-if (b == 6) _ _ (λ _. returns tt)
                  λ _.
                    Ensures-if (b == 7) _ _ (λ _. returns tt)
                      λ _.
                        Ensures-if (b == 8) _ _ (λ _. returns tt)
                          λ _. Ensures-if (b == 9) _ _ (λ _. returns tt) (λ _. fails)

pub read_key-Ensures : (b : ℕ) → IsByte b → Ensures IsKeyId (expect (KeyId.new (bit_and b 7)))
unfolding KeyId.new
read_key-Ensures b h =
    let small : bit_and b 7 ≤ 7 = omega (arith, low_three b h) in
    rw (le→leb (bit_and b 7) 7 small) (returns small)

pub record IsDecoded (p : ControlPacket) : Type 0 where
  pub key_id : IsKeyId p.key_id
  pub session : IsSession p.session_id
  pub acks : IsRead p.acks
  pub packet_id : CarriesId p.opcode p.packet_id

first-IsByte : (bytes : List ℕ) (b : ℕ) → All IsByte bytes → get_elem? bytes 0 ≡ some b → IsByte b
first-IsByte [] b h e = cc
first-IsByte (x ∷ xs) b h e = ground arith

-- If the prefix consists of bytes, `decode` does not panic, and a packet that it returns has a key
-- id of three bits, whole session ids, 1 to 8 acknowledged ids if it acknowledges any, and a
-- message id exactly when its opcode carries one.
pub decode_safe :
    (prefix tail : List ℕ) → All IsByte prefix → Ensures IsDecoded (decode prefix tail)
unfolding decode
decode_safe prefix tail bytes =
    Ensures-bind _ (Ensures-ok_or (get_elem? prefix 0) _ (λ b e. first-IsByte prefix b bytes e))
      λ header hb. Ensures-bind _ (from_u8-Ensures (header / 2 ^ 3)) λ opcode _.
        Ensures-bind _ (read_key-Ensures header hb) λ key_id hk.
          Ensures-bind _
            (Ensures-ok_or (range? 1 9 prefix) _
              (λ s e. (length-range? 1 9 prefix s (omega arith) e).0))
            λ slice hs. Ensures-bind _ (array-Ensures 8 slice hs) λ session_id hs'.
              Ensures-bind _ (read_u8-Ensures _ _) λ (count, c) hc.
                Ensures-bind _ (read_acks-Ensures count c hc) λ (acks, c') ha.
                  Ensures-bind _ (read_packet_id-Ensures opcode c' ha.1) λ (packet_id, c'') hp.
                    Ensures-bind _ (rest-Ensures c'' hp.1) λ payload _.
                      returns (record { key_id = hk; session = hs'; acks = ha.0; packet_id = hp.0 })

-- A packet whose acknowledgements name no id, if its prefix consists of bytes, is not what
-- decoding its own encoding gives.
pub empty_acks-ne :
    (p : ControlPacket) (s : SessionId)
    → p.acks ≡ some (record { ids = []; session_id = s })
    → All IsByte (encode_prefix p)
    → decode (encode_prefix p) (encode_tail p) ≢ ok p
empty_acks-ne p s e bytes = λ same.
    let read = (Ensures-ok (decode_safe (encode_prefix p) (encode_tail p) bytes) same).acks in
    let impossible : IsRead (some (record { ids = []; session_id = s })) = rw e at read in
    absurd (omega arith)
