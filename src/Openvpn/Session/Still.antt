-- ===== src/Openvpn/Session/Still.antt =====
-- Moving bytes where there are none, or no room: the channel stays as it is.
use mathlib.Core.Path.{subst}
use synology_filestation.Prelude.{
  ℕ, ◌≡◌, refl, sym, ◌∙◌, true, false, Bool-cases, Option, some, none, inl, inr, List, [], ◌∷◌,
}
use synology_filestation.Openvpn.Channel.{ControlChannel, can_send_for}
use synology_filestation.Openvpn.KeyId.{KeyId}
use synology_filestation.Openvpn.Session.{Session, Suite, Renegotiation}
use synology_filestation.Openvpn.Session.Outgoing.{Outbox, is_empty, drain_loop, drain_into}
use synology_filestation.Openvpn.Session.Outgoing.Conserved.{
  drain_into-Drained, send_all, send_control_cases, nothing_pending,
}
use synology_filestation.Openvpn.Session.Transmit.{
  write_loop, collect, move_bytes, move_primary, move_pending, has_bytes, pending_has_bytes,
}

-- A channel without room takes no messages.
send_all-closed :
    (c c' : ControlChannel) (k : KeyId) (fragments : List (List ℕ))
    → can_send_for c k ≡ false
    → send_all c k fragments ≡ some c'
    → c' ≡ c
unfolding send_all
send_all-closed c c' k [] closed e = cc
send_all-closed c c' k (fragment ∷ fragments) closed e = elim (send_control_cases c k fragment) [
  | inl (room, taken) ↦ absurd (cc)
  | inr (full, refused, same) ↦ absurd (let e' = rw (refused, send_all) at e in cc)
]

drain_into-closed :
    (o : Outbox) (c : ControlChannel) (k : KeyId)
    → can_send_for c k ≡ false
    → (drain_into o c k).1 ≡ c
drain_into-closed o c k closed =
    let h = drain_into-Drained o c k in
    send_all-closed c (drain_into o c k).1 k h.fragments closed h.taken

drain_into-empty :
    (o : Outbox) (c : ControlChannel) (k : KeyId) → is_empty o ≡ true → (drain_into o c k).1 ≡ c
unfolding drain_into drain_loop
drain_into-empty o c k e = rw (nothing_pending o e) refl

module _ {Conn : Type 0} (suite : Suite Conn) where
  collect-quiet :
      (conn : Conn) (o : Outbox)
      → suite.engine.wants_write conn ≡ false
      → collect suite conn o ≡ (conn, o)
  unfolding collect write_loop
  collect-quiet conn o e = rw (e, write_loop) refl

  move_bytes-still :
      (conn : Conn) (o : Outbox) (c : ControlChannel) (k : KeyId)
      → has_bytes suite c k conn o ≡ false
      → (move_bytes suite conn o c k).1 ≡ c
  unfolding move_bytes has_bytes
  move_bytes-still conn o c k e = elim (Bool-cases (can_send_for c k)) [
    | inr closed ↦ drain_into-closed (collect suite conn o).1 c k closed
    | inl open_window ↦ elim (Bool-cases (suite.engine.wants_write conn)) [
      | inl wants ↦ absurd (let e' = rw (open_window, wants) at e in cc)
      | inr quiet ↦ elim (Bool-cases (is_empty o)) [
        | inr full ↦ absurd (let e' = rw (open_window, quiet, full) at e in cc)
        | inl nothing ↦ rw (collect-quiet conn o quiet) (drain_into-empty o c k nothing)
      ]
    ]
  ]

module _ {Conn : Type 0} where
  -- A session whose channel and timers are those of another.
  pub record IsStill (s t : Session Conn) : Type 0 where
    pub channel : t.channel ≡ s.channel
    pub push : t.push ≡ s.push
    pub data_channel : t.data_channel ≡ s.data_channel
    pub last_sent : t.last_sent ≡ s.last_sent
    pub failure : t.failure ≡ s.failure

module _ {Conn : Type 0} (suite : Suite Conn) where
  move_primary-IsStill :
      (s : Session Conn)
      → has_bytes suite s.channel s.channel.primary.key_id s.tls s.outbox ≡ false
      → IsStill s (move_primary suite s)
  unfolding move_primary
  move_primary-IsStill s e = record {
    channel = move_bytes-still suite s.tls s.outbox s.channel s.channel.primary.key_id e;
    push = refl;
    data_channel = refl;
    last_sent = refl;
    failure = refl;
  }

  move_pending-IsStill :
      (s : Session Conn)
      → pending_has_bytes suite s.channel s.renegotiation ≡ false
      → IsStill s (move_pending suite s)
  unfolding move_pending
  move_pending-IsStill s e = by_pending s.renegotiation e
    where
      by_pending :
          (r : Option (Renegotiation Conn))
          → pending_has_bytes suite s.channel r ≡ false
          → IsStill s (elim r as (λ _. Session Conn) [
            | none ↦ s
            | some pending ↦ record s {
              renegotiation = some (record pending {
                tls = (move_bytes suite pending.tls pending.outbox s.channel pending.key_id).0.0;
                outbox = (move_bytes suite pending.tls pending.outbox s.channel pending.key_id).0.1;
              });
              channel = (move_bytes suite pending.tls pending.outbox s.channel pending.key_id).1;
            }
          ])
      by_pending none e = record {
        channel = refl;
        push = refl;
        data_channel = refl;
        last_sent = refl;
        failure = refl;
      }
      by_pending (some pending) e = record {
        channel = move_bytes-still suite pending.tls pending.outbox s.channel pending.key_id e;
        push = refl;
        data_channel = refl;
        last_sent = refl;
        failure = refl;
      }

  -- Neither generation has bytes for which its window has room.
  pub move_both-IsStill :
      (s : Session Conn)
      → has_bytes suite s.channel s.channel.primary.key_id s.tls s.outbox ≡ false
      → pending_has_bytes suite s.channel s.renegotiation ≡ false
      → IsStill s (move_pending suite (move_primary suite s))
  unfolding move_primary
  move_both-IsStill s e e' =
      let first = move_primary-IsStill s e in
      let then = move_pending-IsStill (move_primary suite s) (
        subst (λ (c : ControlChannel). pending_has_bytes suite c s.renegotiation ≡ false)
          (sym first.channel) e') in
      record {
        channel = then.channel ∙ first.channel;
        push = then.push;
        data_channel = then.data_channel;
        last_sent = then.last_sent;
        failure = then.failure;
      }
