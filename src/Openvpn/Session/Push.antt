-- ===== src/Openvpn/Session/Push.antt =====
-- rust/synology-filestation-openvpn/src/session.rs: the request for the configuration, its answer,
-- and the tunnel that the answer opens.
use synology_filestation.Prelude.{
  ℕ, ◌+◌, ◌-◌, Bool, true, false, Option, some, none, List, [], ◌∷◌, ◌++◌, drop, ltb, leb, min,
  if◌then◌else◌,
}
use synology_filestation.Prelude.Text.{Text, strip_prefix}
use synology_filestation.Openvpn.Data
use synology_filestation.Openvpn.Data.{PeerId, for_client}
use synology_filestation.Openvpn.Error.{
  Error, Result, ok, err, panic, ◌>>=◌, not_ready, truncated, auth_failed, no_push_reply,
  unexpected_control_message, unsupported_compression, unsupported_cipher,
}
use synology_filestation.Openvpn.KeyMethod.{ServerMessage, key_method2, control, decode}
use synology_filestation.Openvpn.Push.{
  PushReply, parse, compression_is_supported, cipher_is_supported,
}
use synology_filestation.Openvpn.Push.Words.{push_request}
use synology_filestation.Openvpn.Session.{
  Session, Suite, Stepped, Phase, awaiting_push, ready, push_request_interval, push_request_timeout,
}
use synology_filestation.Openvpn.Session.Tls.{Outcome, done, refused}
use synology_filestation.Openvpn.Session.Texts.{auth_failed_word}

-- `self.phase == Phase::AwaitingPush`
abbrev pub is_awaiting_push : Phase → Bool
is_awaiting_push awaiting_push = true
is_awaiting_push _ = false

-- What a text that is no answer means.
unfoldable pub refusal : Text → Error
unfolding strip_prefix
refusal text = elim (strip_prefix text auth_failed_word) [
  | some detail ↦ auth_failed detail
  | none ↦ unexpected_control_message text
]

-- The bytes of `key material after the exchange`.
abbrev key_material_again : Text
key_material_again =
    b'k' ∷ b'e' ∷ b'y' ∷ b' ' ∷ b'm' ∷ b'a' ∷ b't' ∷ b'e' ∷ b'r' ∷ b'i' ∷ b'a' ∷ b'l' ∷ b' ' ∷ b'a'
    ∷ b'f' ∷ b't' ∷ b'e' ∷ b'r' ∷ b' ' ∷ b't' ∷ b'h' ∷ b'e' ∷ b' ' ∷ b'e' ∷ b'x' ∷ b'c' ∷ b'h'
    ∷ b'a' ∷ b'n' ∷ b'g' ∷ b'e' ∷ []

-- `unwrap_or_default`
abbrev or_empty : Option Text → Text
or_empty none = []
or_empty (some text) = text

abbrev pub pushed_peer_id : Option PushReply → Option PeerId
pushed_peer_id none = none
pushed_peer_id (some reply) = reply.peer_id

-- The reply in a text, if this client can speak as it says.
unfoldable pub accept_reply : Text → Result PushReply
unfolding strip_prefix parse compression_is_supported cipher_is_supported
accept_reply text = elim (strip_prefix text auth_failed_word) [
  | some detail ↦ err (auth_failed detail)
  | none ↦ (do
    reply ← parse text
    (if compression_is_supported reply
        then (if cipher_is_supported reply
            then ok reply
            else err (unsupported_cipher (or_empty reply.cipher)))
        else err (unsupported_compression (or_empty reply.compression))))
]

abbrev pub is_nil : List ℕ → Bool
is_nil [] = true
is_nil (_ ∷ _) = false

-- Whether the asking has gone on for too long.
abbrev pub gives_up : Option ℕ → ℕ → Bool
gives_up none now = false
gives_up (some first) now = leb push_request_timeout (now - first)

abbrev pub asked_lately : Option ℕ → ℕ → Bool
asked_lately none now = false
asked_lately (some asked) now = ltb (now - asked) push_request_interval

-- `get_or_insert`
abbrev pub or_insert : Option ℕ → ℕ → Option ℕ
or_insert none now = some now
or_insert (some first) now = some first

module _ {Conn : Type 0} where
  unfoldable pub open_tunnel : Session Conn → Stepped Conn (Unit {0})
  unfolding for_client Data.new
  open_tunnel s = elim s.keys [
    | none ↦ (s, err not_ready)
    | some bytes ↦ elim (for_client bytes) [
      | err e ↦ (s, err e)
      | panic ↦ (s, panic)
      | ok keys ↦ (
        record s {
          data_channel = some (Data.new keys (pushed_peer_id s.push) s.channel.primary.key_id);
        },
        ok tt,
      )
    ]
  ]

  -- The end of `receive_push_reply`.
  abbrev pub take_reply : Session Conn → Result PushReply → Stepped Conn (Unit {0})
  take_reply s (ok reply) = open_tunnel (record s { push = some reply; phase = ready })
  take_reply s (err e) = (s, err e)
  take_reply s panic = (s, panic)

  -- What was read, behind which the rest stays.
  abbrev pub take_push : Session Conn → Result (ServerMessage × ℕ) → Stepped Conn (Unit {0})
  take_push s (err (truncated _)) = (s, ok tt)
  take_push s (err e) = (s, err e)
  take_push s panic = (s, panic)
  take_push s (ok (key_method2 _, used)) = (
    record s { inbound = drop used s.inbound },
    err (unexpected_control_message key_material_again),
  )
  take_push s (ok (control text, used)) =
      take_reply (record s { inbound = drop used s.inbound }) (accept_reply text)

  unfoldable pub push_retry_due : Session Conn → Option ℕ
  push_retry_due s = elim (is_awaiting_push s.phase) [
    | false ↦ none
    | true ↦ elim s.push_requested_at [
      | none ↦ none
      | some asked ↦ elim s.push_first_requested_at [
        | none ↦ none
        | some first ↦ some (min (asked + push_request_interval) (first + push_request_timeout))
      ]
    ]
  ]

module _ {Conn : Type 0} (suite : Suite Conn) where
  unfoldable pub receive_push_reply : Session Conn → Stepped Conn (Unit {0})
  unfolding decode
  receive_push_reply s = elim (is_awaiting_push s.phase) [
    | false ↦ (s, ok tt)
    | true ↦ elim (is_nil s.inbound) [
      | true ↦ (s, ok tt)
      | false ↦ take_push s (decode suite.lossy s.inbound)
    ]
  ]

  abbrev pub asked : Session Conn → ℕ → Conn × Outcome (Unit {0}) → Stepped Conn (Unit {0})
  asked s now (conn, done _) = (
    record s {
      tls = conn;
      push_requested_at = some now;
      push_first_requested_at = or_insert s.push_first_requested_at now;
    },
    ok tt,
  )
  asked s now (conn, refused text) = (record s { tls = conn }, err (Error.tls text))

  unfoldable pub send_push_request : Session Conn → ℕ → Stepped Conn (Unit {0})
  send_push_request s now = asked s now (suite.engine.write_all s.tls (push_request ++ (0 ∷ [])))

  unfoldable pub resend_push_request : Session Conn → ℕ → Stepped Conn (Unit {0})
  unfolding send_push_request
  resend_push_request s now = elim (is_awaiting_push s.phase) [
    | false ↦ (s, ok tt)
    | true ↦ elim (gives_up s.push_first_requested_at now) [
      | true ↦ (s, err no_push_reply)
      | false ↦ elim (asked_lately s.push_requested_at now) [
        | true ↦ (s, ok tt)
        | false ↦ send_push_request s now
      ]
    ]
  ]
