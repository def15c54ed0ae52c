-- ===== src/Openvpn/Session/Transmit.antt =====
-- rust/synology-filestation-openvpn/src/session.rs: `poll_transmit`, the next datagram to send, and
-- `next_wakeup`, when there will be one.
use synology_filestation.Prelude.{
  ℕ, zero, suc, Bool, true, false, ◌&&◌, ◌||◌, not, Option, some, none, List, [], ◌∷◌,
}
use synology_filestation.Openvpn.Channel
use synology_filestation.Openvpn.Channel.{ControlChannel, can_send_for, sooner}
use synology_filestation.Openvpn.Error.{Result, ok, err, panic}
use synology_filestation.Openvpn.KeyId.{KeyId}
use synology_filestation.Openvpn.Session.{Session, Suite, Stepped, Renegotiation}
use synology_filestation.Openvpn.Session.Outgoing
use synology_filestation.Openvpn.Session.Outgoing.{Outbox, drain_into, is_empty}
use synology_filestation.Openvpn.Session.Push.{resend_push_request, push_retry_due}
use synology_filestation.Openvpn.Session.Traffic.{poll_keepalive, keepalive_due}

module _ {Conn : Type 0} (suite : Suite Conn) where
  -- What `write_tls` gave, and the loop after it.
  abbrev pub one_write :
      Conn × Option (List ℕ) → Outbox → (Conn → Outbox → Conn × Outbox) → Conn × Outbox
  one_write (conn, none) outbox rest = (conn, outbox)
  one_write (conn, some []) outbox rest = (conn, outbox)
  one_write (conn, some (b ∷ bytes)) outbox rest = rest conn (Outgoing.push outbox (b ∷ bytes))

  -- The loop over what TLS has to send, for a number of rounds.
  unfoldable pub write_loop : ℕ → Conn → Outbox → Conn × Outbox
  write_loop zero conn outbox = (conn, outbox)
  write_loop (suc rounds) conn outbox = elim (suite.engine.wants_write conn) [
    | false ↦ (conn, outbox)
    | true ↦
        one_write (suite.engine.write_tls conn) outbox
          (λ conn' outbox'. write_loop rounds conn' outbox')
  ]

  -- A round leaves less to be sent.
  unfoldable pub collect : Conn → Outbox → Conn × Outbox
  unfolding write_loop
  collect conn outbox = write_loop (suc (suite.engine.unsent conn)) conn outbox

  -- TLS bytes of one generation, moved as far as the channel's window has room.
  unfoldable pub move_bytes :
      Conn → Outbox → ControlChannel → KeyId → (Conn × Outbox) × ControlChannel
  unfolding collect drain_into
  move_bytes conn outbox channel key_id =
      let (conn', filled) = collect conn outbox in
      let (outbox', channel') = drain_into filled channel key_id in ((conn', outbox'), channel')

  unfoldable pub move_primary : Session Conn → Session Conn
  unfolding move_bytes
  move_primary s =
      let ((conn, outbox), channel) =
        move_bytes s.tls s.outbox s.channel s.channel.primary.key_id in
      record s { tls = conn; outbox = outbox; channel = channel }

  unfoldable pub move_pending : Session Conn → Session Conn
  unfolding move_bytes
  move_pending s = elim s.renegotiation [
    | none ↦ s
    | some pending ↦
        (let ((conn, outbox), channel) =
            move_bytes pending.tls pending.outbox s.channel pending.key_id in
          record s {
            renegotiation = some (record pending { tls = conn; outbox = outbox });
            channel = channel;
          })
  ]

  -- What the channel has, or else a keepalive.
  abbrev pub or_keepalive :
      Session Conn
      → ℕ
      → List ℕ
      → ControlChannel × Result (Option (List ℕ))
      → Stepped Conn (Option (List ℕ))
  or_keepalive s now iv (channel, ok (some datagram)) =
      (record s { channel = channel; last_sent = some now }, ok (some datagram))
  or_keepalive s now iv (channel, ok none) =
      poll_keepalive suite (record s { channel = channel }) now iv
  or_keepalive s now iv (channel, err e) = (record s { channel = channel }, err e)
  or_keepalive s now iv (channel, panic) = (record s { channel = channel }, panic)

  unfoldable pub transmit : Session Conn → ℕ → ℕ → List ℕ → Stepped Conn (Option (List ℕ))
  unfolding move_primary move_pending poll_keepalive
  transmit s now net_time iv =
      let s' = move_pending (move_primary s) in
      or_keepalive s' now iv (Channel.poll_transmit suite.hmac s'.channel now net_time)

  -- A request that cannot be sent is kept as the session's failure.
  abbrev pub unless_failed :
      Stepped Conn (Unit {0})
      → (Session Conn → Stepped Conn (Option (List ℕ)))
      → Stepped Conn (Option (List ℕ))
  unless_failed (s, ok _) rest = rest s
  unless_failed (s, err e) rest = (record s { failure = some e }, ok none)
  unless_failed (s, panic) rest = (s, panic)

  -- `poll_transmit`, with the IV of a keepalive drawn already.
  unfoldable pub poll_transmit : Session Conn → ℕ → ℕ → List ℕ → Stepped Conn (Option (List ℕ))
  unfolding resend_push_request transmit
  poll_transmit s now net_time iv = elim s.failure [
    | some _ ↦ (s, ok none)
    | none ↦ unless_failed (resend_push_request suite s now) (λ s'. transmit s' now net_time iv)
  ]

  -- Whether a generation has bytes for which its window has room.
  unfoldable pub has_bytes : ControlChannel → KeyId → Conn → Outbox → Bool
  unfolding can_send_for is_empty
  has_bytes channel key_id conn outbox =
      can_send_for channel key_id && (suite.engine.wants_write conn || not (is_empty outbox))

  abbrev pub pending_has_bytes : ControlChannel → Option (Renegotiation Conn) → Bool
  pending_has_bytes channel none = false
  pending_has_bytes channel (some pending) =
      has_bytes channel pending.key_id pending.tls pending.outbox

  unfoldable pub next_wakeup : Session Conn → ℕ → Option ℕ
  unfolding has_bytes keepalive_due push_retry_due
  next_wakeup s now = elim (has_bytes s.channel s.channel.primary.key_id s.tls s.outbox) [
    | true ↦ some now
    | false ↦ elim (pending_has_bytes s.channel s.renegotiation) [
      | true ↦ some now
      | false ↦
          sooner (Channel.next_wakeup s.channel now)
            (sooner (keepalive_due s now) (push_retry_due s))
    ]
  ]
