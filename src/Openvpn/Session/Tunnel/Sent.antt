-- ===== src/Openvpn/Session/Tunnel/Sent.antt =====
-- The steps of `poll_transmit`.
use synology_filestation.Prelude.{
  ℕ, refl, Bool-cases, Option, some, none, Option-cases, inl, inr, List, ◌++◌, [], ◌∷◌,
}
use synology_filestation.Openvpn.Channel.{ControlChannel, key_ids, poll_transmit}
use synology_filestation.Openvpn.Channel.Primary.{Stays, poll_transmit-Stays}
use synology_filestation.Openvpn.Channel.Run.{poll_keys-Served}
use synology_filestation.Openvpn.Data.{encrypt_with_iv}
use synology_filestation.Openvpn.Error.{Error, Result, ok, err, panic}
use synology_filestation.Openvpn.Error.Ensures.{Anything, Ensures, returns, fails}
use synology_filestation.Openvpn.Push.Words.{push_request}
use synology_filestation.Openvpn.Session.{Session, Suite, Stepped}
use synology_filestation.Openvpn.Session.Push.{
  is_awaiting_push, gives_up, asked_lately, asked, send_push_request, resend_push_request,
}
use synology_filestation.Openvpn.Session.Texts.{ping_payload}
use synology_filestation.Openvpn.Session.Tls.{Outcome, done, refused}
use synology_filestation.Openvpn.Session.Traffic.{ping_interval, is_quiet, poll_keepalive}
use synology_filestation.Openvpn.Session.Transmit
use synology_filestation.Openvpn.Session.Transmit.{
  move_primary, move_pending, or_keepalive, transmit, unless_failed,
}
use synology_filestation.Openvpn.Session.Tunnel.{IsConsistent, SameTunnel-IsConsistent, Kept}
use synology_filestation.Openvpn.Session.Tunnel.Moved.{
  moved-IsConsistent, move_primary-IsConsistent, move_pending-IsConsistent,
}
use synology_filestation.Openvpn.Session.Tunnel.Carried.{
  encrypt_kept, kept_alive-Kept, dropped-IsConsistent,
}

module _ {Conn : Type 0} where
  pub failing-IsConsistent :
      (s : Session Conn) (failure : Option Error)
      → IsConsistent s
      → IsConsistent (record s { failure = failure })
  failing-IsConsistent s failure h =
      SameTunnel-IsConsistent s (record s { failure = failure })
        (record { phase = refl; keys = refl; push = refl; data_channel = refl; key_id = refl }) h

module _ {Conn : Type 0} (suite : Suite Conn) where
  poll_keepalive-Kept :
      (s : Session Conn) (now : ℕ) (iv : List ℕ)
      → IsConsistent s
      → Kept (poll_keepalive suite s now iv)
  unfolding poll_keepalive
  poll_keepalive-Kept s now iv h = elim (Option-cases (ping_interval s.push)) [
    | inl e ↦ rw (e, poll_keepalive) (h, returns tt)
    | inr (interval, e) ↦ elim (Bool-cases (is_quiet s.last_sent now interval)) [
      | inr busy ↦ rw (e, busy, poll_keepalive) (h, returns tt)
      | inl quiet ↦ elim (Option-cases s.data_channel) [
        | inl none_open ↦ rw (e, quiet, none_open, poll_keepalive) (h, returns tt)
        | inr (d, here) ↦
            rw (e, quiet, here, poll_keepalive)
              (kept_alive-Kept suite s now d
                (encrypt_with_iv suite.hmac suite.cipher d ping_payload iv) here
                (encrypt_kept suite.hmac suite.cipher d ping_payload iv) h)
      ]
    ]
  ]

  or_keepalive-Kept :
      (s : Session Conn) (now : ℕ) (iv : List ℕ) (r : ControlChannel × Result (Option (List ℕ)))
      → Stays s.channel r
      → Ensures Anything r.1
      → IsConsistent s
      → Kept (or_keepalive suite s now iv r)
  or_keepalive-Kept s now iv (channel, ok (some datagram)) stays fine h = (
    dropped-IsConsistent (record s { channel = channel }) s.previous_data (some now)
        (moved-IsConsistent s channel s.tls s.outbox s.renegotiation stays h),
    returns tt,
  )
  or_keepalive-Kept s now iv (channel, ok none) stays fine h =
      poll_keepalive-Kept (record s { channel = channel }) now iv
        (moved-IsConsistent s channel s.tls s.outbox s.renegotiation stays h)
  or_keepalive-Kept s now iv (channel, err _) stays fine h =
      (moved-IsConsistent s channel s.tls s.outbox s.renegotiation stays h, fails)
  or_keepalive-Kept s now iv (channel, panic) stays fine h = elim fine [ ]

  transmit-Kept :
      (s : Session Conn) (now net_time : ℕ) (iv : List ℕ)
      → IsConsistent s
      → Kept (transmit suite s now net_time iv)
  unfolding transmit poll_transmit
  transmit-Kept s now net_time iv h =
      let s' = move_pending suite (move_primary suite s) in
      let (_, fine) = poll_keys-Served suite.hmac (key_ids s'.channel) s'.channel now net_time in
      or_keepalive-Kept s' now iv (poll_transmit suite.hmac s'.channel now net_time)
        (poll_transmit-Stays suite.hmac s'.channel now net_time) fine
        (move_pending-IsConsistent suite (move_primary suite s)
          (move_primary-IsConsistent suite s h))

  asked-Kept :
      (s : Session Conn) (now : ℕ) (r : Conn × Outcome (Unit {0}))
      → IsConsistent s
      → Kept (asked suite s now r)
  asked-Kept s now (conn, done _) h = (
    SameTunnel-IsConsistent s _
        (record { phase = refl; keys = refl; push = refl; data_channel = refl; key_id = refl }) h,
    returns tt,
  )
  asked-Kept s now (conn, refused text) h =
      (moved-IsConsistent s s.channel conn s.outbox s.renegotiation refl h, fails)

  resend_push_request-Kept :
      (s : Session Conn) (now : ℕ) → IsConsistent s → Kept (resend_push_request suite s now)
  unfolding resend_push_request send_push_request
  resend_push_request-Kept s now h = elim (Bool-cases (is_awaiting_push s.phase)) [
    | inr other ↦ rw (other, resend_push_request) (h, returns tt)
    | inl here ↦ elim (Bool-cases (gives_up s.push_first_requested_at now)) [
      | inl late ↦ rw (here, late, resend_push_request) (h, fails)
      | inr early ↦ elim (Bool-cases (asked_lately s.push_requested_at now)) [
        | inl lately ↦ rw (here, early, lately, resend_push_request) (h, returns tt)
        | inr long_ago ↦
            rw (here, early, long_ago, resend_push_request)
              (asked-Kept s now (suite.engine.write_all s.tls (push_request ++ (0 ∷ []))) h)
      ]
    ]
  ]

  unless_failed-Kept :
      (r : Stepped Conn (Unit {0})) (rest : Session Conn → Stepped Conn (Option (List ℕ)))
      → Kept r
      → ((s : Session Conn) → IsConsistent s → Kept (rest s))
      → Kept (unless_failed suite r rest)
  unless_failed-Kept (s, ok _) rest (h, fine) k = k s h
  unless_failed-Kept (s, err e) rest (h, fine) k = (failing-IsConsistent s (some e) h, returns tt)
  unless_failed-Kept (s, panic) rest (h, fine) k = elim fine [ ]

  pub poll_transmit-Kept :
      (s : Session Conn) (now net_time : ℕ) (iv : List ℕ)
      → IsConsistent s
      → Kept (Transmit.poll_transmit suite s now net_time iv)
  unfolding Transmit.poll_transmit
  poll_transmit-Kept s now net_time iv h = elim (Option-cases s.failure) [
    | inr (e, failed) ↦ rw (failed, Transmit.poll_transmit) (h, returns tt)
    | inl fine ↦
        rw (fine, Transmit.poll_transmit)
          (unless_failed-Kept (resend_push_request suite s now)
            (λ t. transmit suite t now net_time iv) (resend_push_request-Kept s now h)
            (λ t ht. transmit-Kept t now net_time iv ht))
  ]
