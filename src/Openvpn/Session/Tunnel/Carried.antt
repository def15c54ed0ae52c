-- ===== src/Openvpn/Session/Tunnel/Carried.antt =====
-- The steps that encrypt and decrypt.
use mathlib.Core.Path.{subst}
use synology_filestation.Prelude.{
  ℕ, ◌+◌, ◌^◌, ◌≡◌, refl, ◌∙◌, Option, some, none, Option-cases, inl, inr, List, All, leb, if_cases,
}
use synology_filestation.Prelude.Bytes.{IsByte}
use synology_filestation.Openvpn.Crypto.{Hmac, Cipher}
use synology_filestation.Openvpn.Data.{
  DataChannel, encrypt_with_iv, decrypt, admit, seal, authenticate, open_sealed,
}
use synology_filestation.Openvpn.Data.Authentic.{decrypt_safe}
use synology_filestation.Openvpn.Error.{
  Result, ok, err, panic, ◌>>=◌, other_key_id, packet_id_exhausted,
}
use synology_filestation.Openvpn.Error.Ensures.{Anything, Ensures, returns, fails, Ensures-bind}
use synology_filestation.Openvpn.KeyId.{KeyId}
use synology_filestation.Openvpn.Session.{
  Session, Suite, Stepped, Phase, awaiting_keys, established, awaiting_push, ready,
}
use synology_filestation.Openvpn.Session.Traffic.{
  sent, send_payload, received, receive_previous, receive_payload, kept_alive, unless_ping,
}
use synology_filestation.Openvpn.Session.Tunnel.{
  IsConsistent, IsTunnel, AtPhase, SameTunnel-IsConsistent, Kept,
}

-- A data channel with the keys, the peer id and the key id of another.
pub record SameEnds (d d' : DataChannel) : Type 0 where
  pub keys : d'.keys ≡ d.keys
  pub peer_id : d'.peer_id ≡ d.peer_id
  pub key_id : d'.key_id ≡ d.key_id

module _ (hmac : Hmac) (cipher : Cipher) where
  pub encrypt_kept :
      (d : DataChannel) (payload iv : List ℕ)
      → SameEnds d (encrypt_with_iv hmac cipher d payload iv).0
        × Ensures Anything (encrypt_with_iv hmac cipher d payload iv).1
  unfolding encrypt_with_iv
  encrypt_kept d payload iv =
      if_cases (λ (r : DataChannel × Result (List ℕ)). SameEnds d r.0 × Ensures Anything r.1)
        (leb (2 ^ 32) (d.next_packet_id + 1)) (d, err packet_id_exhausted)
        (record d { next_packet_id = d.next_packet_id + 1 }, ok (seal hmac cipher d payload iv))
        (λ _. (record { keys = refl; peer_id = refl; key_id = refl }, fails))
        (λ _. (record { keys = refl; peer_id = refl; key_id = refl }, returns tt))

  admit-SameEnds : (d : DataChannel) (r : Result (List ℕ)) → SameEnds d (admit hmac cipher d r).0
  unfolding admit
  admit-SameEnds d (ok plaintext) = record { keys = refl; peer_id = refl; key_id = refl }
  admit-SameEnds d (err e) = record { keys = refl; peer_id = refl; key_id = refl }
  admit-SameEnds d panic = record { keys = refl; peer_id = refl; key_id = refl }

  decrypt-SameEnds :
      (d : DataChannel) (datagram : List ℕ) → SameEnds d (decrypt hmac cipher d datagram).0
  unfolding decrypt
  decrypt-SameEnds d datagram =
      admit-SameEnds d
        (authenticate hmac cipher d datagram >>= λ at. open_sealed hmac cipher d datagram at)

module _ {Conn : Type 0} where
  -- The fields that these steps change.
  abbrev carried : Session Conn → Option DataChannel → Option DataChannel → Option ℕ → Session Conn
  carried s channel previous last = record s {
    data_channel = channel;
    previous_data = previous;
    last_sent = last;
  }

  carried-AtPhase :
      (s : Session Conn) (d d' : DataChannel) (previous : Option DataChannel) (last : Option ℕ)
      (p : Phase)
      → s.data_channel ≡ some d
      → SameEnds d d'
      → AtPhase s p
      → AtPhase (carried s (some d') previous last) p
  carried-AtPhase s d d' previous last Phase.tls e same h = absurd (cc)
  carried-AtPhase s d d' previous last awaiting_keys e same h = absurd (cc)
  carried-AtPhase s d d' previous last established e same h = absurd (cc)
  carried-AtPhase s d d' previous last awaiting_push e same (h, _) = absurd (cc)
  carried-AtPhase s d d' previous last ready e same (c, e', h) =
      let one : c ≡ d = cc in
      let t = subst (λ (x : DataChannel). IsTunnel s x) one h in
      (
        d',
        refl,
        record {
          key_id = same.key_id ∙ t.key_id;
          peer_id = same.peer_id ∙ t.peer_id;
          keys = record {
            bytes = t.keys.bytes;
            kept = t.keys.kept;
            split = rw same.keys t.keys.split;
          };
        },
      )

  pub dropped-IsConsistent :
      (s : Session Conn) (previous : Option DataChannel) (last : Option ℕ)
      → IsConsistent s
      → IsConsistent (carried s s.data_channel previous last)
  dropped-IsConsistent s previous last h =
      SameTunnel-IsConsistent s (carried s s.data_channel previous last)
        (record { phase = refl; keys = refl; push = refl; data_channel = refl; key_id = refl }) h

module _ {Conn : Type 0} (suite : Suite Conn) where
  sent-Kept :
      (s : Session Conn) (now : ℕ) (d : DataChannel) (r : DataChannel × Result (List ℕ))
      → s.data_channel ≡ some d
      → SameEnds d r.0 × Ensures Anything r.1
      → IsConsistent s
      → Kept (sent suite s now r)
  sent-Kept s now d (d', ok datagram) e (same, fine) h =
      (carried-AtPhase s d d' s.previous_data (some now) s.phase e same h, returns tt)
  sent-Kept s now d (d', err _) e (same, fine) h =
      (carried-AtPhase s d d' s.previous_data s.last_sent s.phase e same h, fails)
  sent-Kept s now d (d', panic) e (same, fine) h = elim fine [ ]

  pub kept_alive-Kept :
      (s : Session Conn) (now : ℕ) (d : DataChannel) (r : DataChannel × Result (List ℕ))
      → s.data_channel ≡ some d
      → SameEnds d r.0 × Ensures Anything r.1
      → IsConsistent s
      → Kept (kept_alive suite s now r)
  kept_alive-Kept s now d (d', ok datagram) e (same, fine) h =
      (carried-AtPhase s d d' s.previous_data (some now) s.phase e same h, returns tt)
  kept_alive-Kept s now d (d', err _) e (same, fine) h =
      (carried-AtPhase s d d' s.previous_data s.last_sent s.phase e same h, returns tt)
  kept_alive-Kept s now d (d', panic) e (same, fine) h = elim fine [ ]

  pub send_payload-Kept :
      (s : Session Conn) (now : ℕ) (payload iv : List ℕ)
      → IsConsistent s
      → Kept (send_payload suite s now payload iv)
  unfolding send_payload
  send_payload-Kept s now payload iv h = elim (Option-cases s.data_channel) [
    | inl e ↦ rw (e, send_payload) (h, fails)
    | inr (d, e) ↦
        rw (e, send_payload)
          (sent-Kept s now d (encrypt_with_iv suite.hmac suite.cipher d payload iv) e
            (encrypt_kept suite.hmac suite.cipher d payload iv) h)
  ]

  receive_previous-Kept :
      (s : Session Conn) (datagram : List ℕ) (theirs ours : KeyId)
      → All IsByte datagram
      → IsConsistent s
      → Kept (receive_previous suite s datagram theirs ours)
  unfolding receive_previous
  receive_previous-Kept s datagram theirs ours bytes h = by_previous s.previous_data
    where
      by_previous :
          (o : Option DataChannel)
          → Kept (elim o as (λ _. Stepped Conn (Option (List ℕ))) [
            | none ↦ (s, err (other_key_id theirs ours))
            | some previous ↦ (
              record s {
                previous_data = some (decrypt suite.hmac suite.cipher previous datagram).0;
              },
              (decrypt suite.hmac suite.cipher previous datagram).1 >>= λ payload.
                  ok (unless_ping payload),
            )
          ])
      by_previous none = (h, fails)
      by_previous (some previous) =
          let (previous', payload) = decrypt suite.hmac suite.cipher previous datagram in
          (
            dropped-IsConsistent s (some previous') s.last_sent h,
            Ensures-bind _ (decrypt_safe suite.hmac suite.cipher previous datagram bytes)
                (λ _ _. returns tt),
          )

  received-Kept :
      (s : Session Conn) (datagram : List ℕ) (d : DataChannel) (r : DataChannel × Result (List ℕ))
      → All IsByte datagram
      → s.data_channel ≡ some d
      → SameEnds d r.0
      → Ensures Anything r.1
      → IsConsistent s
      → Kept (received suite s datagram r)
  received-Kept s datagram d (d', ok payload) bytes e same fine h =
      (carried-AtPhase s d d' none s.last_sent s.phase e same h, returns tt)
  received-Kept s datagram d (d', err (other_key_id theirs ours)) bytes e same fine h =
      receive_previous-Kept (record s { data_channel = some d' }) datagram theirs ours bytes
        (carried-AtPhase s d d' s.previous_data s.last_sent s.phase e same h)
  received-Kept s datagram d (d', err _) bytes e same fine h =
      (carried-AtPhase s d d' s.previous_data s.last_sent s.phase e same h, fails)
  received-Kept s datagram d (d', panic) bytes e same fine h = elim fine [ ]

  decrypt-Ensures :
      (d : DataChannel) (datagram : List ℕ)
      → All IsByte datagram
      → Ensures Anything (decrypt suite.hmac suite.cipher d datagram).1
  decrypt-Ensures d datagram bytes =
      anything (decrypt suite.hmac suite.cipher d datagram).1
        (decrypt_safe suite.hmac suite.cipher d datagram bytes)
    where
      anything : {P : List ℕ → Type 0} (r : Result (List ℕ)) → Ensures P r → Ensures Anything r
      anything _ (returns _) = returns tt
      anything _ fails = fails

  pub receive_payload-Kept :
      (s : Session Conn) (datagram : List ℕ)
      → All IsByte datagram
      → IsConsistent s
      → Kept (receive_payload suite s datagram)
  unfolding receive_payload
  receive_payload-Kept s datagram bytes h = elim (Option-cases s.data_channel) [
    | inl e ↦ rw (e, receive_payload) (h, fails)
    | inr (d, e) ↦
        rw (e, receive_payload)
          (received-Kept s datagram d (decrypt suite.hmac suite.cipher d datagram) bytes e
            (decrypt-SameEnds suite.hmac suite.cipher d datagram) (decrypt-Ensures d datagram bytes)
            h)
  ]
