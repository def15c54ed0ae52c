-- ===== src/Openvpn/Session/Tunnel/Moved.antt =====
-- The steps that move bytes between TLS and the channel.
use mathlib.Core.Option
use synology_filestation.Prelude.{
  ℕ, zero, suc, ◌+◌, ◌≡◌, refl, ◌∙◌, Bool-cases, Option, some, none, inl, inr, List, [], ◌∷◌, All,
  take, drop, min, length,
}
use synology_filestation.Prelude.Bytes.{IsByte}
use synology_filestation.Openvpn.Channel.{ControlChannel, send_control}
use synology_filestation.Openvpn.Channel.Fewer.{held}
use synology_filestation.Openvpn.Channel.Handle
use synology_filestation.Openvpn.Channel.Handle.{poll_control}
use synology_filestation.Openvpn.Channel.Keys.{send_control-SameKeys}
use synology_filestation.Openvpn.Channel.Primary.{
  Stays, handle-Stays, handle-Ensures, poll_control-Stays,
}
use synology_filestation.Openvpn.Error.{Result, ok, err, panic}
use synology_filestation.Openvpn.Error.Ensures.{Anything, Ensures, returns, fails}
use synology_filestation.Openvpn.KeyId.{KeyId}
use synology_filestation.Openvpn.Session.{Session, Suite, Stepped, Renegotiation}
use synology_filestation.Openvpn.Session.Handle.{
  one_process, one_feed, feed_loop, feed, pick, connection_of, put_fed, feed_session,
  and_then_ended, one_record, record_loop, read_records, hear,
}
use synology_filestation.Openvpn.Session.Outgoing.{Outbox, is_empty, drain_loop, drain_into}
use synology_filestation.Openvpn.Session.Rounds.Feeding.{Stalled, feed-Stalled}
use synology_filestation.Openvpn.Session.Tls.{Outcome, done, refused}
use synology_filestation.Openvpn.Session.Transmit.{collect, move_bytes, move_primary, move_pending}
use synology_filestation.Openvpn.Session.Tunnel.{IsConsistent, SameTunnel-IsConsistent, Kept}

module _ {Conn : Type 0} where
  -- The fields that these steps change.
  abbrev pub moved :
      Session Conn → ControlChannel → Conn → Outbox → Option (Renegotiation Conn) → Session Conn
  moved s channel conn outbox r = record s {
    channel = channel;
    tls = conn;
    outbox = outbox;
    renegotiation = r;
  }

  pub moved-IsConsistent :
      (s : Session Conn) (channel : ControlChannel) (conn : Conn) (outbox : Outbox)
      (r : Option (Renegotiation Conn))
      → channel.primary.key_id ≡ s.channel.primary.key_id
      → IsConsistent s
      → IsConsistent (moved s channel conn outbox r)
  moved-IsConsistent s channel conn outbox r stays h =
      SameTunnel-IsConsistent s (moved s channel conn outbox r)
        (record { phase = refl; keys = refl; push = refl; data_channel = refl; key_id = stays }) h

drain_loop-Stays :
    (rounds : ℕ) (o : Outbox) (c : ControlChannel) (k : KeyId)
    → (drain_loop rounds o c k).1.primary.key_id ≡ c.primary.key_id
unfolding drain_loop
drain_loop-Stays zero o c k = refl
drain_loop-Stays (suc rounds) o c k = elim (Bool-cases (is_empty o)) [
  | inl e ↦ rw (e, drain_loop) refl
  | inr e ↦
      let fragment = take (min (length o.pending) 1124) o.pending in
      let sent = send_control c k fragment in
      elim (Bool-cases sent.1) [
        | inr full ↦ rw (e, full, drain_loop) (send_control-SameKeys c k fragment).primary
        | inl taken ↦
            rw (e, taken, drain_loop)
              (drain_loop-Stays rounds
                  (record { pending = drop (min (length o.pending) 1124) o.pending }) sent.0 k
                ∙ (send_control-SameKeys c k fragment).primary)
      ]
]

module _ {Conn : Type 0} (suite : Suite Conn) where
  -- A step kept the session consistent, or some feed stalls.
  abbrev pub KeptIfEnded : Option (Stepped Conn (Unit {0})) → Type 0
  KeptIfEnded none = Stalled suite
  KeptIfEnded (some r) = Kept r

  pub and_then_ended-Kept :
      (r : Option (Stepped Conn (Unit {0})))
      (rest : Session Conn → Option (Stepped Conn (Unit {0})))
      → KeptIfEnded r
      → ((s : Session Conn) → IsConsistent s → KeptIfEnded (rest s))
      → KeptIfEnded (and_then_ended suite r rest)
  and_then_ended-Kept none rest h k = h
  and_then_ended-Kept (some (s, ok _)) rest (h, fine) k = k s h
  and_then_ended-Kept (some (s, err e)) rest (h, fine) k = (h, fails)
  and_then_ended-Kept (some (s, panic)) rest (h, fine) k = elim fine [ ]

  move_bytes-Stays :
      (conn : Conn) (o : Outbox) (c : ControlChannel) (k : KeyId)
      → (move_bytes suite conn o c k).1.primary.key_id ≡ c.primary.key_id
  unfolding move_bytes drain_into
  move_bytes-Stays conn o c k =
      drain_loop-Stays (length (collect suite conn o).1.pending) (collect suite conn o).1 c k

  pub move_primary-IsConsistent :
      (s : Session Conn) → IsConsistent s → IsConsistent (move_primary suite s)
  unfolding move_primary
  move_primary-IsConsistent s h =
      let bytes = move_bytes suite s.tls s.outbox s.channel s.channel.primary.key_id in
      moved-IsConsistent s bytes.1 bytes.0.0 bytes.0.1 s.renegotiation
        (move_bytes-Stays s.tls s.outbox s.channel s.channel.primary.key_id) h

  pub move_pending-IsConsistent :
      (s : Session Conn) → IsConsistent s → IsConsistent (move_pending suite s)
  unfolding move_pending
  move_pending-IsConsistent s h = by_pending s.renegotiation
    where
      by_pending :
          (r : Option (Renegotiation Conn))
          → IsConsistent (elim r as (λ _. Session Conn) [
            | none ↦ s
            | some pending ↦ record s {
              renegotiation = some (record pending {
                tls = (move_bytes suite pending.tls pending.outbox s.channel pending.key_id).0.0;
                outbox = (move_bytes suite pending.tls pending.outbox s.channel pending.key_id).0.1;
              });
              channel = (move_bytes suite pending.tls pending.outbox s.channel pending.key_id).1;
            }
          ])
      by_pending none = h
      by_pending (some pending) =
          let bytes = move_bytes suite pending.tls pending.outbox s.channel pending.key_id in
          moved-IsConsistent s bytes.1 s.tls s.outbox
            (some (record pending { tls = bytes.0.0; outbox = bytes.0.1 }))
            (move_bytes-Stays pending.tls pending.outbox s.channel pending.key_id) h

  -- What a loop that has ended gives.
  Sound : Option (Conn × Result (Unit {0})) → Type 0
  Sound none = Unit
  Sound (some r) = Ensures Anything r.1

  feed_loop-Sound :
      (rounds : ℕ) (conn : Conn) (bytes : List ℕ) → Sound (feed_loop suite rounds conn bytes)
  unfolding feed_loop Sound
  feed_loop-Sound zero conn [] = returns tt
  feed_loop-Sound zero conn (b ∷ bytes) = tt
  feed_loop-Sound (suc rounds) conn [] = returns tt
  feed_loop-Sound (suc rounds) conn (b ∷ bytes) =
      by_taken (suite.engine.read_tls conn (b ∷ bytes))
        (λ conn' remaining. feed_loop-Sound rounds conn' remaining)
    where
      Later : Type 0
      Later = (conn : Conn) (remaining : List ℕ) → Sound (feed_loop suite rounds conn remaining)

      by_processed :
          (r : Conn × Outcome (Unit {0})) (remaining : List ℕ)
          → Later
          → Sound (one_process suite r remaining (λ c rest. feed_loop suite rounds c rest))
      by_processed (c, refused text) remaining later = fails
      by_processed (c, done _) remaining later = later c remaining

      by_taken :
          (r : Conn × Outcome ℕ)
          → Later
          → Sound (one_feed suite r (b ∷ bytes) (λ c rest. feed_loop suite rounds c rest))
      by_taken (c, refused text) later = fails
      by_taken (c, done n) later =
          by_processed (suite.engine.process_new_packets c) (drop n (b ∷ bytes)) later

  feed-Sound : (more : ℕ) (conn : Conn) (bytes : List ℕ) → Sound (feed suite more conn bytes)
  unfolding feed
  feed-Sound more conn bytes = feed_loop-Sound (more + length bytes) conn bytes

  put_fed-Kept :
      (s : Session Conn) (p : Option (Renegotiation Conn)) (o : Option (Conn × Result (Unit {0})))
      → IsConsistent s
      → Sound o
      → (o ≡ none → Stalled suite)
      → KeptIfEnded (Option.map (put_fed suite s p) o)
  unfolding Sound
  put_fed-Kept s p none h fine stalled = stalled refl
  put_fed-Kept s none (some (conn, r)) h fine stalled =
      (moved-IsConsistent s s.channel conn s.outbox s.renegotiation refl h, fine)
  put_fed-Kept s (some pending) (some (conn, r)) h fine stalled = (
    moved-IsConsistent s s.channel s.tls s.outbox (some (record pending { tls = conn })) refl h,
    fine,
  )

  feed_session-Kept :
      (more : ℕ) (s : Session Conn) (k : KeyId) (bytes : List ℕ)
      → IsConsistent s
      → KeptIfEnded (feed_session suite more s k bytes)
  unfolding feed_session
  feed_session-Kept more s k bytes h =
      let conn = connection_of suite s (pick suite s.renegotiation k) in
      put_fed-Kept s (pick suite s.renegotiation k) (feed suite more conn bytes) h
        (feed-Sound more conn bytes) (feed-Stalled suite more conn bytes)

  one_record-Kept :
      (more : ℕ) (s : Session Conn) (r : ControlChannel × Option (KeyId × List ℕ))
      (rest : Session Conn → Option (Stepped Conn (Unit {0})))
      → Stays s.channel r
      → IsConsistent s
      → ((t : Session Conn) → IsConsistent t → KeptIfEnded (rest t))
      → KeptIfEnded (one_record suite more s r rest)
  one_record-Kept more s (channel, none) rest stays h k =
      (moved-IsConsistent s channel s.tls s.outbox s.renegotiation stays h, returns tt)
  one_record-Kept more s (channel, some (key_id, bytes)) rest stays h k =
      and_then_ended-Kept (feed_session suite more (record s { channel = channel }) key_id bytes)
        rest
        (feed_session-Kept more (record s { channel = channel }) key_id bytes
          (moved-IsConsistent s channel s.tls s.outbox s.renegotiation stays h))
        k

  record_loop-Kept :
      (more rounds : ℕ) (s : Session Conn)
      → IsConsistent s
      → KeptIfEnded (record_loop suite more rounds s)
  unfolding record_loop
  record_loop-Kept more zero s h = (h, returns tt)
  record_loop-Kept more (suc rounds) s h =
      one_record-Kept more s (poll_control s.channel) (λ t. record_loop suite more rounds t)
        (poll_control-Stays s.channel) h (λ t ht. record_loop-Kept more rounds t ht)

  pub read_records-Kept :
      (more : ℕ) (s : Session Conn) → IsConsistent s → KeptIfEnded (read_records suite more s)
  unfolding read_records
  read_records-Kept more s h = record_loop-Kept more (suc (held s.channel)) s h

  pub hear-Kept :
      (s : Session Conn) (datagram : List ℕ)
      → All IsByte datagram
      → IsConsistent s
      → Kept (hear suite s datagram)
  unfolding hear
  hear-Kept s datagram bytes h = (
    moved-IsConsistent s (Handle.handle suite.hmac s.channel datagram).0 s.tls s.outbox
        s.renegotiation (handle-Stays suite.hmac s.channel datagram) h,
    handle-Ensures suite.hmac s.channel datagram bytes,
  )
