-- ===== src/Openvpn/Session/Wakeup.antt =====
-- The time that `next_wakeup` gives, beside what `poll_transmit` does.
use mathlib.Core.Path.{subst}
use synology_filestation.Prelude.{
  ℕ, ◌+◌, ◌≤◌, ◌≡◌, refl, sym, ◌∙◌, Bool, true, false, Bool-cases, ◌||◌, Option, some, none,
  Option-cases, ◌⊎◌, inl, inr, List, min, arith,
}
use synology_filestation.Openvpn.Channel
use synology_filestation.Openvpn.Channel.{ControlChannel, sooner}
use synology_filestation.Openvpn.Channel.Keys.{IsKeyed}
use synology_filestation.Openvpn.Channel.Wakeup.{sends, reached-sooner, poll_transmit-next_wakeup}
use synology_filestation.Openvpn.Data.{DataChannel}
use synology_filestation.Openvpn.Error.{Error, Result, ok, err, panic}
use synology_filestation.Openvpn.Reliable.Send.Wakeup.{is_some, reached}
use synology_filestation.Openvpn.Session.{Session, Suite, Stepped}
use synology_filestation.Openvpn.Session.Push.{
  is_awaiting_push, gives_up, asked_lately, push_retry_due, resend_push_request,
}
use synology_filestation.Openvpn.Session.Still.{IsStill, move_both-IsStill}
use synology_filestation.Openvpn.Session.Traffic.{
  ping_interval, is_quiet, keepalive_due, poll_keepalive,
}
use synology_filestation.Openvpn.Session.Transmit.{
  move_primary, move_pending, or_keepalive, transmit, unless_failed, poll_transmit, has_bytes,
  pending_has_bytes, next_wakeup,
}

quiet-reached :
    (last : Option ℕ) (now u interval : ℕ)
    → now ≤ u
    → ((t : ℕ) → last ≡ some t → t ≤ now)
    → is_quiet last u interval ≡ true
    → reached (elim last [ some last ↦ some (last + interval) | none ↦ some now ]) u ≡ true
quiet-reached none now u interval le past e = ground arith
quiet-reached (some t) now u interval le past e = let before = past t refl in ground arith

module _ {Conn : Type 0} where
  -- A session that has asked for its configuration if it waits for it.
  abbrev pub HasAsked : Session Conn → Type 0
  HasAsked s =
      is_awaiting_push s.phase ≡ true
      → (asked : ℕ) × (first : ℕ) × (s.push_requested_at ≡ some asked)
        × (s.push_first_requested_at ≡ some first)

  -- Whether a poll sent a datagram or failed.
  abbrev pub acts : Stepped Conn (Option (List ℕ)) → Bool
  acts outcome = sends outcome.1 || is_some outcome.0.failure

  push_due_other : (s : Session Conn) → is_awaiting_push s.phase ≡ false → push_retry_due s ≡ none
  unfolding push_retry_due
  push_due_other s e = rw (e, push_retry_due) refl

  push_due_asked :
      (s : Session Conn) (asked first : ℕ)
      → is_awaiting_push s.phase ≡ true
      → s.push_requested_at ≡ some asked
      → s.push_first_requested_at ≡ some first
      → push_retry_due s ≡ some (min (asked + 5000000000) (first + 60000000000))
  unfolding push_retry_due
  push_due_asked s asked first e a f = rw (e, a, f, push_retry_due) refl

  keepalive_due_at :
      (s : Session Conn) (now interval : ℕ) (d : DataChannel)
      → ping_interval s.push ≡ some interval
      → s.data_channel ≡ some d
      → keepalive_due s now
        ≡ elim s.last_sent [ some last ↦ some (last + interval) | none ↦ some now ]
  unfolding keepalive_due
  keepalive_due_at s now interval d e here = rw (e, here, keepalive_due) refl

module _ {Conn : Type 0} (suite : Suite Conn) where
  -- What a request does that is not yet to go again.
  resend_waits :
      (s : Session Conn) (u : ℕ)
      → HasAsked s
      → reached (push_retry_due s) u ≡ false
      → resend_push_request suite s u ≡ (s, ok tt)
  unfolding resend_push_request
  resend_waits s u asked_before e = elim (Bool-cases (is_awaiting_push s.phase)) [
    | inr other ↦ rw (other, resend_push_request) refl
    | inl here ↦
        let (asked, first, a, f) = asked_before here in
        let waits = rw (push_due_asked s asked first here a f) at e in
        let early : gives_up s.push_first_requested_at u ≡ false = rw f (ground arith) in
        let lately : asked_lately s.push_requested_at u ≡ true = rw a (ground arith) in
        rw (here, early, lately, resend_push_request) refl
  ]

  -- A keepalive that is sent is due.
  poll_keepalive-reached :
      (s : Session Conn) (now u : ℕ) (iv : List ℕ)
      → now ≤ u
      → ((t : ℕ) → s.last_sent ≡ some t → t ≤ now)
      → s.failure ≡ none
      → acts (poll_keepalive suite s u iv) ≡ true
      → reached (keepalive_due s now) u ≡ true
  unfolding poll_keepalive
  poll_keepalive-reached s now u iv le past well e = elim (Option-cases (ping_interval s.push)) [
    | inl none_asked ↦ absurd (let idle = rw (none_asked, poll_keepalive, well) at e in cc)
    | inr (interval, i) ↦ elim (Bool-cases (is_quiet s.last_sent u interval)) [
      | inr busy ↦ absurd (let idle = rw (i, busy, poll_keepalive, well) at e in cc)
      | inl quiet ↦ elim (Option-cases s.data_channel) [
        | inl closed ↦ absurd (let idle = rw (i, quiet, closed, poll_keepalive, well) at e in cc)
        | inr (d, here) ↦
            rw (keepalive_due_at s now interval d i here)
              (quiet-reached s.last_sent now u interval le past quiet)
      ]
    ]
  ]

  or_keepalive-reached :
      (s : Session Conn) (now u : ℕ) (iv : List ℕ) (r : ControlChannel × Result (Option (List ℕ)))
      → now ≤ u
      → ((t : ℕ) → s.last_sent ≡ some t → t ≤ now)
      → s.failure ≡ none
      → acts (or_keepalive suite s u iv r) ≡ true
      → (sends r.1 ≡ true) ⊎ (reached (keepalive_due s now) u ≡ true)
  unfolding keepalive_due
  or_keepalive-reached s now u iv (channel, ok (some datagram)) le past well e = inl refl
  or_keepalive-reached s now u iv (channel, ok none) le past well e =
      inr (poll_keepalive-reached (record s { channel = channel }) now u iv le past well e)
  or_keepalive-reached s now u iv (channel, err _) le past well e =
      absurd (let idle = rw well at e in cc)
  or_keepalive-reached s now u iv (channel, panic) le past well e =
      absurd (let idle = rw well at e in cc)

  keepalive_due-still :
      (s t : Session Conn) (now : ℕ) → IsStill s t → keepalive_due t now ≡ keepalive_due s now
  unfolding keepalive_due
  keepalive_due-still s t now h = rw (h.push, h.data_channel, h.last_sent) refl

  -- What is sent where no bytes of TLS can move was due.
  transmit-reached :
      (s : Session Conn) (now u net_time : ℕ) (iv : List ℕ)
      → IsKeyed s.channel
      → now ≤ u
      → ((t : ℕ) → s.last_sent ≡ some t → t ≤ now)
      → s.failure ≡ none
      → IsStill s (move_pending suite (move_primary suite s))
      → acts (transmit suite s u net_time iv) ≡ true
      → (reached (Channel.next_wakeup s.channel now) u ≡ true)
        ⊎ (reached (keepalive_due s now) u ≡ true)
  unfolding transmit
  transmit-reached s now u net_time iv keyed le past well still e =
      let s' = move_pending suite (move_primary suite s) in
      let outcome = Channel.poll_transmit suite.hmac s'.channel u net_time in
      elim (or_keepalive-reached s' now u iv outcome le (λ t at. past t (sym still.last_sent ∙ at))
        (still.failure ∙ well) e) [
          | inl sent ↦ inl (
              sym (poll_transmit-next_wakeup suite.hmac s.channel now u net_time keyed le)
              ∙ subst
                  (λ (c : ControlChannel).
                    sends (Channel.poll_transmit suite.hmac c u net_time).1 ≡ true)
                  still.channel sent)
          | inr due ↦ inr (rw (keepalive_due-still s s' now still) at due)
        ]

  wakes_now :
      (s : Session Conn) (now : ℕ)
      → has_bytes suite s.channel s.channel.primary.key_id s.tls s.outbox ≡ true
      → next_wakeup suite s now ≡ some now
  unfolding next_wakeup
  wakes_now s now e = rw (e, next_wakeup) refl

  wakes_now_pending :
      (s : Session Conn) (now : ℕ)
      → has_bytes suite s.channel s.channel.primary.key_id s.tls s.outbox ≡ false
      → pending_has_bytes suite s.channel s.renegotiation ≡ true
      → next_wakeup suite s now ≡ some now
  unfolding next_wakeup
  wakes_now_pending s now e e' = rw (e, e', next_wakeup) refl

  wakes_later :
      (s : Session Conn) (now u : ℕ)
      → has_bytes suite s.channel s.channel.primary.key_id s.tls s.outbox ≡ false
      → pending_has_bytes suite s.channel s.renegotiation ≡ false
      → reached (next_wakeup suite s now) u
        ≡ reached (Channel.next_wakeup s.channel now) u
          || (reached (keepalive_due s now) u || reached (push_retry_due s) u)
  unfolding next_wakeup
  wakes_later s now u e e' =
      rw
        (
          e,
          e',
          next_wakeup,
          reached-sooner (Channel.next_wakeup s.channel now)
              (sooner (keepalive_due s now) (push_retry_due s)) u,
          reached-sooner (keepalive_due s now) (push_retry_due s) u,
        )
        refl

  poll_transmit-well :
      (s : Session Conn) (u net_time : ℕ) (iv : List ℕ)
      → s.failure ≡ none
      → poll_transmit suite s u net_time iv
        ≡ unless_failed suite (resend_push_request suite s u) (λ t. transmit suite t u net_time iv)
  unfolding poll_transmit
  poll_transmit-well s u net_time iv e =
      by_failure s.failure
        (unless_failed suite (resend_push_request suite s u) (λ t. transmit suite t u net_time iv))
        e
    where
      by_failure :
          (o : Option Error) (later : Stepped Conn (Option (List ℕ)))
          → o ≡ none
          → elim o as (λ _. Stepped Conn (Option (List ℕ))) [ some _ ↦ (s, ok none) | none ↦ later ]
            ≡ later
      by_failure none later e = refl
      by_failure (some _) later e = cc

  -- If a poll at a time from `now` on sends a datagram or fails, then the
  -- time that `next_wakeup` gives at `now` has come: a caller who sleeps until then misses no
  -- retransmission, no keepalive, no retry of the request and no byte of TLS that a window has room
  -- for. This holds of a session that has not failed, whose channel's key ids are kept apart, which
  -- sent nothing after `now`, and which has asked for its configuration if it waits for it.
  pub poll_transmit-reached :
      (s : Session Conn) (now u net_time : ℕ) (iv : List ℕ)
      → IsKeyed s.channel
      → now ≤ u
      → ((t : ℕ) → s.last_sent ≡ some t → t ≤ now)
      → s.failure ≡ none
      → HasAsked s
      → acts (poll_transmit suite s u net_time iv) ≡ true
      → reached (next_wakeup suite s now) u ≡ true
  poll_transmit-reached s now u net_time iv keyed le past well asked_before e =
      elim (Bool-cases (has_bytes suite s.channel s.channel.primary.key_id s.tls s.outbox)) [
        | inl here ↦ rw (wakes_now s now here) (ground arith)
        | inr no_bytes ↦ elim (Bool-cases (pending_has_bytes suite s.channel s.renegotiation)) [
          | inl there ↦ rw (wakes_now_pending s now no_bytes there) (ground arith)
          | inr none_there ↦ elim (Bool-cases (reached (push_retry_due s) u)) [
            | inl due ↦ rw (wakes_later s now u no_bytes none_there) (ground arith)
            | inr waits ↦
                let still = move_both-IsStill suite s no_bytes none_there in
                let polled =
                  rw (poll_transmit-well s u net_time iv well, resend_waits s u asked_before waits)
                    at e in
                let found = transmit-reached s now u net_time iv keyed le past well still polled in
                rw (wakes_later s now u no_bytes none_there) (ground arith)
          ]
        ]
      ]
