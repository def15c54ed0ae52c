-- ===== src/Openvpn/Session/Traffic.antt =====
-- rust/synology-filestation-openvpn/src/session.rs: payloads through the tunnel, and its keepalives.
use synology_filestation.Prelude.{
  ℕ, ◌+◌, ◌-◌, ◌/◌, ◌^◌, Bool, true, false, ◌||◌, Option, some, none, List, [], ◌∷◌, ◌==◌, leb,
  if◌then◌else◌,
}
use synology_filestation.Prelude.Bytes.{same}
use synology_filestation.Openvpn.Data.{DataChannel, encrypt_with_iv, decrypt}
use synology_filestation.Openvpn.Error.{Result, ok, err, panic, not_ready, other_key_id, ◌>>=◌}
use synology_filestation.Openvpn.KeyId.{KeyId}
use synology_filestation.Openvpn.Opcode.{as_u8, data_v1, data_v2}
use synology_filestation.Openvpn.Push.{PushReply}
use synology_filestation.Openvpn.Session.{Session, Suite, Stepped}
use synology_filestation.Openvpn.Session.Texts.{ping_payload}

-- A payload, or nothing if it is a keepalive.
unfoldable pub unless_ping : List ℕ → Option (List ℕ)
unfolding same
unless_ping payload = if same payload ping_payload then none else some payload

unfoldable pub is_data : List ℕ → Bool
unfolding as_u8
is_data [] = false
is_data (first ∷ datagram) =
    let opcode = first / 2 ^ 3 in opcode == as_u8 data_v1 || opcode == as_u8 data_v2

-- The interval of the keepalives, if the server asked for any.
abbrev pub ping_interval : Option PushReply → Option ℕ
ping_interval none = none
ping_interval (some push) = push.ping

-- `map_or(true, |last| now.duration_since(last) >= interval)`
abbrev pub is_quiet : Option ℕ → ℕ → ℕ → Bool
is_quiet none now interval = true
is_quiet (some last) now interval = leb interval (now - last)

module _ {Conn : Type 0} where
  unfoldable pub keepalive_due : Session Conn → ℕ → Option ℕ
  keepalive_due s now = elim (ping_interval s.push) [
    | none ↦ none
    | some interval ↦ elim s.data_channel [
      | none ↦ none
      | some _ ↦ elim s.last_sent [ some last ↦ some (last + interval) | none ↦ some now ]
    ]
  ]

module _ {Conn : Type 0} (suite : Suite Conn) where
  -- `encrypt` through the tunnel, with the IV drawn already: what is sent is no silence.
  abbrev pub sent : Session Conn → ℕ → DataChannel × Result (List ℕ) → Stepped Conn (List ℕ)
  sent s now (channel, ok datagram) =
      (record s { data_channel = some channel; last_sent = some now }, ok datagram)
  sent s now (channel, err e) = (record s { data_channel = some channel }, err e)
  sent s now (channel, panic) = (record s { data_channel = some channel }, panic)

  unfoldable pub send_payload : Session Conn → ℕ → List ℕ → List ℕ → Stepped Conn (List ℕ)
  send_payload s now payload iv = elim s.data_channel [
    | none ↦ (s, err not_ready)
    | some channel ↦ sent s now (encrypt_with_iv suite.hmac suite.cipher channel payload iv)
  ]

  -- A datagram under another key id goes to the tunnel of before the rotation, if there is one.
  unfoldable pub receive_previous :
      Session Conn → List ℕ → KeyId → KeyId → Stepped Conn (Option (List ℕ))
  receive_previous s datagram theirs ours = elim s.previous_data [
    | none ↦ (s, err (other_key_id theirs ours))
    | some previous ↦
        (let (previous', payload) = decrypt suite.hmac suite.cipher previous datagram in
          (
            record s { previous_data = some previous' },
            payload >>= λ bytes. ok (unless_ping bytes),
          ))
  ]

  abbrev pub received :
      Session Conn → List ℕ → DataChannel × Result (List ℕ) → Stepped Conn (Option (List ℕ))
  received s datagram (channel, ok payload) =
      (record s { data_channel = some channel; previous_data = none }, ok (unless_ping payload))
  received s datagram (channel, err (other_key_id theirs ours)) =
      receive_previous (record s { data_channel = some channel }) datagram theirs ours
  received s datagram (channel, err e) = (record s { data_channel = some channel }, err e)
  received s datagram (channel, panic) = (record s { data_channel = some channel }, panic)

  unfoldable pub receive_payload : Session Conn → List ℕ → Stepped Conn (Option (List ℕ))
  unfolding receive_previous
  receive_payload s datagram = elim s.data_channel [
    | none ↦ (s, err not_ready)
    | some channel ↦ received s datagram (decrypt suite.hmac suite.cipher channel datagram)
  ]

  -- `encrypt(..).ok()?`
  abbrev pub kept_alive :
      Session Conn → ℕ → DataChannel × Result (List ℕ) → Stepped Conn (Option (List ℕ))
  kept_alive s now (channel, ok datagram) =
      (record s { data_channel = some channel; last_sent = some now }, ok (some datagram))
  kept_alive s now (channel, err e) = (record s { data_channel = some channel }, ok none)
  kept_alive s now (channel, panic) = (record s { data_channel = some channel }, panic)

  unfoldable pub poll_keepalive : Session Conn → ℕ → List ℕ → Stepped Conn (Option (List ℕ))
  poll_keepalive s now iv = elim (ping_interval s.push) [
    | none ↦ (s, ok none)
    | some interval ↦ elim (is_quiet s.last_sent now interval) [
      | false ↦ (s, ok none)
      | true ↦ elim s.data_channel [
        | none ↦ (s, ok none)
        | some channel ↦
            kept_alive s now (encrypt_with_iv suite.hmac suite.cipher channel ping_payload iv)
      ]
    ]
  ]
