-- ===== src/Openvpn/Session/Tunnel/Advanced.antt =====
-- The negotiation of the next key generation, up to its rotation.
use synology_filestation.Prelude.{
  ℕ, true, Bool-cases, ◌&&◌, not, Option, some, Option-cases, inl, inr, drop,
}
use synology_filestation.Openvpn.Error.{Result, ok, err, panic, truncated}
use synology_filestation.Openvpn.Error.Ensures.{Anything, Ensures, returns, fails}
use synology_filestation.Openvpn.KeyMethod.{
  ServerMessage, ServerKeyMethod2, key_method2, control, decode,
}
use synology_filestation.Openvpn.KeyMethod.Stream.{decode-Ensures}
use synology_filestation.Openvpn.Prf.{key_expansion}
use synology_filestation.Openvpn.Prf.Derived.{key_expansion-opposite}
use synology_filestation.Openvpn.Session.{Session, Suite, Stepped, Credentials, Renegotiation}
use synology_filestation.Openvpn.Session.Keys.{write_message, with_server}
use synology_filestation.Openvpn.Session.Renegotiate.{
  offer_keys, drain_pending, take_new_keys, take_message, go_on, advance_renegotiation,
}
use synology_filestation.Openvpn.Session.Tunnel.{IsConsistent, Kept}
use synology_filestation.Openvpn.Session.Tunnel.Exchanged.{write_message-Ensures, read_all-Ensures}
use synology_filestation.Openvpn.Session.Tunnel.Rotated.{renegotiating-IsConsistent, take_over-Kept}

module _ {Conn : Type 0} (suite : Suite Conn) where
  offer_keys-Ensures :
      (pending : Renegotiation Conn) (credentials : Option Credentials)
      → Ensures Anything (offer_keys suite pending credentials).1
  unfolding offer_keys
  offer_keys-Ensures pending credentials =
      elim (Bool-cases
        (not (suite.engine.is_handshaking pending.tls) && not pending.sent_key_material)) [
          | inr off ↦ rw (off, offer_keys) (returns tt)
          | inl on ↦
              rw (on, offer_keys)
                (by_write (write_message suite pending.tls pending.source credentials)
                  (write_message-Ensures suite pending.tls pending.source credentials))
        ]
    where
      by_write :
          (r : Conn × Result (Unit {0}))
          → Ensures Anything r.1
          → Ensures Anything
              (elim r.1 as (λ _. Renegotiation Conn × Result (Unit {0})) [
                | ok _ ↦ (record pending { tls = r.0; sent_key_material = true }, ok tt)
                | err e ↦ (record pending { tls = r.0 }, err e)
                | panic ↦ (record pending { tls = r.0 }, panic)
              ]).1
      by_write (conn, ok _) fine = returns tt
      by_write (conn, err _) fine = fails
      by_write (conn, panic) fine = elim fine [ ]

  drain_pending-Ensures :
      (pending : Renegotiation Conn) → Ensures Anything (drain_pending suite pending).1
  unfolding drain_pending
  drain_pending-Ensures pending = read_all-Ensures suite pending.tls pending.inbound

  take_new_keys-Kept :
      (s : Session Conn) (pending : Renegotiation Conn) (reply : ServerKeyMethod2) (used : ℕ)
      → IsConsistent s
      → Kept (take_new_keys suite s pending reply used)
  unfolding take_new_keys
  take_new_keys-Kept s pending reply used h = elim (Option-cases s.channel.remote_session) [
    | inl unknown ↦
        rw (unknown, take_new_keys)
          (
            renegotiating-IsConsistent s
                (some (record pending { source = with_server pending.source reply })) h,
            fails,
          )
    | inr (server_session, met) ↦
        let source = with_server pending.source reply in
        let (client, _, (split, _, _)) =
          key_expansion-opposite suite.hashes source s.channel.local_session server_session in
        rw (met, take_new_keys)
          (take_over-Kept s pending source
            (key_expansion suite.hashes source s.channel.local_session server_session) used client
            split h)
  ]

  take_message-Kept :
      (s : Session Conn) (pending : Renegotiation Conn) (r : Result (ServerMessage × ℕ))
      → IsConsistent s
      → Ensures Anything r
      → Kept (take_message suite s pending r)
  take_message-Kept s pending (ok (control text, used)) h fine = (
    renegotiating-IsConsistent s (some (record pending { inbound = drop used pending.inbound })) h,
    fails,
  )
  take_message-Kept s pending (ok (key_method2 reply, used)) h fine =
      take_new_keys-Kept s pending reply used h
  take_message-Kept s pending (err (truncated _)) h fine =
      (renegotiating-IsConsistent s (some pending) h, returns tt)
  take_message-Kept s pending (err _) h fine =
      (renegotiating-IsConsistent s (some pending) h, fails)
  take_message-Kept s pending panic h fine = elim fine [ ]

  go_on-Kept :
      (s : Session Conn) (r : Renegotiation Conn × Result (Unit {0}))
      (rest : Renegotiation Conn → Stepped Conn (Unit {0}))
      → IsConsistent s
      → Ensures Anything r.1
      → ((p : Renegotiation Conn) → Kept (rest p))
      → Kept (go_on suite s r rest)
  go_on-Kept s (pending, ok _) rest h fine k = k pending
  go_on-Kept s (pending, err _) rest h fine k =
      (renegotiating-IsConsistent s (some pending) h, fails)
  go_on-Kept s (pending, panic) rest h fine k = elim fine [ ]

  pub advance_renegotiation-Kept :
      (s : Session Conn) → IsConsistent s → Kept (advance_renegotiation suite s)
  unfolding advance_renegotiation
  advance_renegotiation-Kept s h = elim (Option-cases s.renegotiation) [
    | inl e ↦ rw (e, advance_renegotiation) (h, returns tt)
    | inr (pending, e) ↦
        rw (e, advance_renegotiation)
          (go_on-Kept s (offer_keys suite pending s.credentials)
            (λ offered.
              go_on suite s (drain_pending suite offered)
                (λ drained. take_message suite s drained (decode suite.lossy drained.inbound)))
            h (offer_keys-Ensures pending s.credentials)
            (λ offered.
              go_on-Kept s (drain_pending suite offered)
                (λ drained. take_message suite s drained (decode suite.lossy drained.inbound)) h
                (drain_pending-Ensures offered)
                (λ drained.
                  take_message-Kept s drained (decode suite.lossy drained.inbound) h
                    (decode-Ensures suite.lossy drained.inbound))))
  ]
