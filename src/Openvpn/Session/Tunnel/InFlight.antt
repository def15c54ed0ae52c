-- ===== src/Openvpn/Session/Tunnel/InFlight.antt =====
-- Datagrams that are in flight while the keys rotate.
use synology_filestation.Prelude.{
  ℕ, ◌+◌, ◌/◌, ◌^◌, ◌≡◌, refl, ap, ◌∙◌, false, Bool-cases, not, Option, some, none, List, [], ◌∷◌,
  length, take, drop, leb, ◌==◌, if◌then◌else◌, bit_and, arith, inl, inr,
}
use synology_filestation.Openvpn.Channel.{ControlChannel, KeyState, promote}
use synology_filestation.Openvpn.Crypto.{Hmac, Cipher}
use synology_filestation.Openvpn.Data
use synology_filestation.Openvpn.Data.{
  DataChannel, DataKeys, for_client, authenticate, open_sealed, admit, decrypt, header_end,
  hmac_key_len, iv_len,
}
use synology_filestation.Openvpn.Error.{
  Error, Result, ok, err, panic, ◌>>=◌, expect, truncated, other_key_id, bad_hmac, not_ready,
}
use synology_filestation.Openvpn.KeyId
use synology_filestation.Openvpn.KeyId.{KeyId}
use synology_filestation.Openvpn.Packet.{from_u8}
use synology_filestation.Openvpn.Prf.{KeySource2}
use synology_filestation.Openvpn.Session.{Session, Suite, Stepped, Renegotiation}
use synology_filestation.Openvpn.Session.Renegotiate.{take_over}
use synology_filestation.Openvpn.Session.Traffic.{
  received, receive_previous, receive_payload, unless_ping,
}
use synology_filestation.Openvpn.Session.Tunnel.Opened.{opened, tunnel_of, open_tunnel-opened}
use synology_filestation.Openvpn.Session.Tunnel.Rotated.{rotated, take_over-some}

-- Where one continuation returns, another fails.
bind_other :
    {A B : Type 0} (m : Result A) (f g : A → Result B) (b : B) (e : Error)
    → m >>= f ≡ ok b
    → ((a : A) → f a ≡ ok b → g a ≡ err e)
    → m >>= g ≡ err e
bind_other (ok a) f g b e h k = k a h
bind_other (err _) f g b e h k = cc
bind_other panic f g b e h k = cc

module _ (hmac : Hmac) (cipher : Cipher) where
  -- What is left of `authenticate` once the key id is known.
  abbrev by_key : DataChannel → List ℕ → ℕ → KeyId → Result ℕ
  by_key c datagram at key_id =
      if not (key_id == c.key_id)
      then err (other_key_id key_id c.key_id)
      else if hmac.verify c.keys.decrypt_hmac (drop (at + hmac_key_len) datagram)
          (take hmac_key_len (drop at datagram))
      then ok at
      else err bad_hmac

  other_key :
      (d d' : DataChannel) (datagram : List ℕ) (at n : ℕ) (key_id : KeyId)
      → (d.key_id == d'.key_id) ≡ false
      → by_key d datagram at key_id ≡ ok n
      → by_key d' datagram at key_id ≡ err (other_key_id d.key_id d'.key_id)
  other_key d d' datagram at n key_id apart e = elim (Bool-cases (key_id == d.key_id)) [
    | inl here ↦ let same : key_id ≡ d.key_id = ground arith in rw (same, apart) refl
    | inr other ↦ absurd (let e' = rw other at e in cc)
  ]

  abbrev by_length : DataChannel → List ℕ → ℕ → ℕ → Result ℕ
  by_length c datagram first at =
      if leb (length datagram) (at + hmac_key_len + iv_len)
      then err (truncated "a data packet")
      else expect (KeyId.new (bit_and first 7)) >>= λ key_id. by_key c datagram at key_id

  other_length :
      (d d' : DataChannel) (datagram : List ℕ) (first at n : ℕ)
      → (d.key_id == d'.key_id) ≡ false
      → by_length d datagram first at ≡ ok n
      → by_length d' datagram first at ≡ err (other_key_id d.key_id d'.key_id)
  other_length d d' datagram first at n apart e =
      elim (Bool-cases (leb (length datagram) (at + hmac_key_len + iv_len))) [
        | inl short ↦ absurd (let e' = rw short at e in cc)
        | inr long ↦ rw long (
            bind_other (expect (KeyId.new (bit_and first 7)))
              (λ key_id. by_key d datagram at key_id) (λ key_id. by_key d' datagram at key_id) n
              (other_key_id d.key_id d'.key_id) (rw long at e)
              (λ key_id e'. other_key d d' datagram at n key_id apart e'))
      ]

  -- A datagram that is authentic under one key id is refused as another's under another.
  authenticate_other :
      (d d' : DataChannel) (datagram : List ℕ) (n : ℕ)
      → (d.key_id == d'.key_id) ≡ false
      → authenticate hmac cipher d datagram ≡ ok n
      → authenticate hmac cipher d' datagram ≡ err (other_key_id d.key_id d'.key_id)
  unfolding authenticate
  authenticate_other d d' [] n apart e = cc
  authenticate_other d d' (first ∷ bytes) n apart e =
      bind_other (from_u8 (first / 2 ^ 3))
        (λ opcode. header_end opcode >>= λ at. by_length d (first ∷ bytes) first at)
        (λ opcode. header_end opcode >>= λ at. by_length d' (first ∷ bytes) first at) n
        (other_key_id d.key_id d'.key_id) e
        (λ opcode e'.
          bind_other (header_end opcode) (λ at. by_length d (first ∷ bytes) first at)
            (λ at. by_length d' (first ∷ bytes) first at) n (other_key_id d.key_id d'.key_id) e'
            (λ at e''. other_length d d' (first ∷ bytes) first at n apart e''))

  decrypt_other :
      (d d' : DataChannel) (datagram : List ℕ) (n : ℕ)
      → (d.key_id == d'.key_id) ≡ false
      → authenticate hmac cipher d datagram ≡ ok n
      → decrypt hmac cipher d' datagram ≡ (d', err (other_key_id d.key_id d'.key_id))
  unfolding decrypt admit
  decrypt_other d d' datagram n apart e = rw (authenticate_other d d' datagram n apart e) refl

module _ {Conn : Type 0} (suite : Suite Conn) where
  receive_payload_tunnel :
      (s : Session Conn) (d : DataChannel) (datagram : List ℕ)
      → s.data_channel ≡ some d
      → receive_payload suite s datagram
        ≡ received suite s datagram (decrypt suite.hmac suite.cipher d datagram)
  unfolding receive_payload
  receive_payload_tunnel s d datagram e = by_tunnel s.data_channel e
    where
      by_tunnel :
          (o : Option DataChannel)
          → o ≡ some d
          → elim o as (λ _. Stepped Conn (Option (List ℕ))) [
            | none ↦ (s, err not_ready)
            | some channel ↦
                received suite s datagram (decrypt suite.hmac suite.cipher channel datagram)
          ]
            ≡ received suite s datagram (decrypt suite.hmac suite.cipher d datagram)
      by_tunnel none e = cc
      by_tunnel (some c) e = let same : c ≡ d = cc in rw same refl

  receive_previous_tunnel :
      (s : Session Conn) (p : DataChannel) (datagram : List ℕ) (theirs ours : KeyId)
      → s.previous_data ≡ some p
      → (receive_previous suite s datagram theirs ours).1
        ≡ ((decrypt suite.hmac suite.cipher p datagram).1 >>= λ bytes. ok (unless_ping bytes))
  unfolding receive_previous
  receive_previous_tunnel s p datagram theirs ours e = rw (e, receive_previous) refl

  -- What the tunnel refuses for its key id is left to the tunnel of before.
  receive_from_previous :
      (s : Session Conn) (d p : DataChannel) (datagram : List ℕ) (n : ℕ)
      → s.data_channel ≡ some d
      → s.previous_data ≡ some p
      → (p.key_id == d.key_id) ≡ false
      → authenticate suite.hmac suite.cipher p datagram ≡ ok n
      → (receive_payload suite s datagram).1
        ≡ ((decrypt suite.hmac suite.cipher p datagram).1 >>= λ bytes. ok (unless_ping bytes))
  receive_from_previous s d p datagram n e before apart authentic =
      ap (λ (r : Stepped Conn (Option (List ℕ))). r.1)
        (receive_payload_tunnel s d datagram e
          ∙ ap (λ (r : DataChannel × Result (List ℕ)). received suite s datagram r)
              (decrypt_other suite.hmac suite.cipher p d datagram n apart authentic))
      ∙ receive_previous_tunnel (record s { data_channel = some d }) p datagram p.key_id d.key_id
          before

  promote_key :
      (c : ControlChannel) (next : KeyState)
      → c.pending ≡ some next
      → (promote c).primary.key_id ≡ next.key_id
  unfolding promote
  promote_key c next e = rw (e, promote) refl

  -- The payload of a datagram that was in flight while the keys rotated is not lost: after the
  -- rotation of a session with a tunnel to a generation under another key id, over a key expansion
  -- that the client's keys can be split from, a datagram that the tunnel of before takes for
  -- authentic gives what that tunnel decrypts it to, a keepalive apart, which carries nothing.
  pub receive_payload-take_over :
      (s : Session Conn) (pending : Renegotiation Conn) (source : KeySource2) (keys : List ℕ)
      (used : ℕ) (client : DataKeys) (d : DataChannel) (next : KeyState) (datagram : List ℕ) (n : ℕ)
      → for_client keys ≡ ok client
      → s.data_channel ≡ some d
      → s.channel.pending ≡ some next
      → (d.key_id == next.key_id) ≡ false
      → authenticate suite.hmac suite.cipher d datagram ≡ ok n
      → (receive_payload suite (take_over s pending source keys used).0 datagram).1
        ≡ ((decrypt suite.hmac suite.cipher d datagram).1 >>= λ bytes. ok (unless_ping bytes))
  unfolding Data.new
  receive_payload-take_over s pending source keys used client d next datagram n split e promoted
        apart authentic =
      let s' = rotated s pending source keys used in
      let after : Session Conn = opened s' client in
      let over : (take_over s pending source keys used).0 ≡ after =
        ap (λ (r : Stepped Conn (Unit {0})). r.0)
          (take_over-some s pending source keys used d e
            ∙ open_tunnel-opened s' client (record { bytes = keys; kept = refl; split = split })) in
      ap (λ (t : Session Conn). (receive_payload suite t datagram).1) over
      ∙ receive_from_previous after (tunnel_of s' client) d datagram n refl e
          (rw (promote_key s.channel next promoted) apart) authentic
