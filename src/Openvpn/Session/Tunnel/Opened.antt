-- ===== src/Openvpn/Session/Tunnel/Opened.antt =====
-- The steps that open the tunnel: the push reply and the first key material.
use mathlib.Core.Path.{subst}
use synology_filestation.Prelude.{
  Option, none, List, ℕ, ◌≡◌, refl, sym, true, Bool-cases, some, Option-cases, inl, inr, drop,
}
use synology_filestation.Prelude.Text.{Text, strip_prefix}
use synology_filestation.Openvpn.Data
use synology_filestation.Openvpn.Data.{DataChannel, DataKeys, for_client}
use synology_filestation.Openvpn.Error.{Result, ok, err, panic, truncated, not_ready}
use synology_filestation.Openvpn.Error.Ensures.{Anything, Ensures, returns, fails, Ensures-bind}
use synology_filestation.Openvpn.KeyMethod.{ServerMessage, key_method2, control, decode}
use synology_filestation.Openvpn.KeyMethod.Stream.{decode-Ensures}
use synology_filestation.Openvpn.Push.{PushReply, compression_is_supported, cipher_is_supported}
use synology_filestation.Openvpn.Push.Safe.{parse-IsSafe, either}
use synology_filestation.Openvpn.Session.{
  Stepped, Session, Suite, Phase, awaiting_keys, established, awaiting_push, ready,
}
use synology_filestation.Openvpn.Session.Push.{
  pushed_peer_id, accept_reply, open_tunnel, take_reply, take_push, is_nil, is_awaiting_push,
  receive_push_reply,
}
use synology_filestation.Openvpn.Session.Texts.{auth_failed_word}
use synology_filestation.Openvpn.Session.Tunnel.{
  HasKeys, IsConsistent, AtPhase, SameTunnel-IsConsistent, Kept,
}

accept_reply-Ensures : (text : Text) → Ensures Anything (accept_reply text)
unfolding accept_reply
accept_reply-Ensures text = elim (Option-cases (strip_prefix text auth_failed_word)) [
  | inl e ↦
      rw (e, accept_reply)
        (Ensures-bind _ (parse-IsSafe text) (λ reply _.
          either (compression_is_supported reply)
            (either (cipher_is_supported reply) (returns tt) fails) fails))
  | inr (detail, e) ↦ rw (e, accept_reply) fails
]

phase_awaiting_push : (p : Phase) → is_awaiting_push p ≡ true → p ≡ awaiting_push
phase_awaiting_push awaiting_push e = refl
phase_awaiting_push Phase.tls e = cc
phase_awaiting_push awaiting_keys e = cc
phase_awaiting_push established e = cc
phase_awaiting_push ready e = cc

module _ {Conn : Type 0} where
  abbrev pub tunnel_of : Session Conn → DataKeys → DataChannel
  tunnel_of s keys = Data.new keys (pushed_peer_id s.push) s.channel.primary.key_id

  abbrev pub opened : Session Conn → DataKeys → Session Conn
  opened s keys = record s { data_channel = some (tunnel_of s keys) }

  pub open_tunnel-opened :
      (s : Session Conn) (keys : DataKeys) → HasKeys s keys → open_tunnel s ≡ (opened s keys, ok tt)
  unfolding open_tunnel
  open_tunnel-opened s keys h = by_keys s.keys h.kept
    where
      by_split :
          (r : Result DataKeys)
          → r ≡ ok keys
          → elim r as (λ _. Stepped Conn (Unit {0})) [
            | err e ↦ (s, err e)
            | panic ↦ (s, panic)
            | ok k ↦ (opened s k, ok tt)
          ]
            ≡ (opened s keys, ok tt)
      by_split (ok k) e = let same : k ≡ keys = cc in rw same refl
      by_split (err _) e = cc
      by_split panic e = cc

      by_keys :
          (o : Option (List ℕ))
          → o ≡ some h.bytes
          → elim o as (λ _. Stepped Conn (Unit {0})) [
            | none ↦ (s, err not_ready)
            | some bytes ↦ elim (for_client bytes) [
              | err e ↦ (s, err e)
              | panic ↦ (s, panic)
              | ok k ↦ (opened s k, ok tt)
            ]
          ]
            ≡ (opened s keys, ok tt)
      by_keys none e = cc
      by_keys (some bytes) e =
          by_split (for_client bytes) (let same : bytes ≡ h.bytes = cc in rw same h.split)

  -- With the keys in place, the tunnel opens.
  pub open_tunnel_opens :
      (s : Session Conn) (keys : DataKeys) → HasKeys s keys → s.phase ≡ ready → Kept (open_tunnel s)
  unfolding Data.new
  open_tunnel_opens s keys h e =
      subst (λ (r : Stepped Conn (Unit {0})). Kept r) (sym (open_tunnel-opened s keys h))
        (
          subst (AtPhase (opened s keys)) (sym e) (
            tunnel_of s keys,
            refl,
            record {
              key_id = refl;
              peer_id = refl;
              keys = record { bytes = h.bytes; kept = h.kept; split = h.split };
            },
          ),
          returns tt,
        )

  -- The session after the answer, before the tunnel.
  abbrev answered : Session Conn → PushReply → Session Conn
  answered s reply = record s { push = some reply; phase = ready }

  take_reply-Kept :
      (s : Session Conn) (r : Result PushReply)
      → s.phase ≡ awaiting_push
      → IsConsistent s
      → Ensures Anything r
      → Kept (take_reply s r)
  take_reply-Kept s (ok reply) e h fine =
      let (closed, (keys, held)) = subst (AtPhase s) e h in
      open_tunnel_opens (answered s reply) keys
        (record { bytes = held.bytes; kept = held.kept; split = held.split }) refl
  take_reply-Kept s (err _) e h fine = (h, fails)
  take_reply-Kept s panic e h fine = elim fine [ ]

  -- A session that differs in what TLS read.
  abbrev pub consumed : Session Conn → ℕ → Session Conn
  consumed s used = record s { inbound = drop used s.inbound }

  pub consumed-IsConsistent :
      (s : Session Conn) (used : ℕ) → IsConsistent s → IsConsistent (consumed s used)
  consumed-IsConsistent s used h =
      SameTunnel-IsConsistent s (consumed s used)
        (record { phase = refl; keys = refl; push = refl; data_channel = refl; key_id = refl }) h

  take_push-Kept :
      (s : Session Conn) (r : Result (ServerMessage × ℕ))
      → s.phase ≡ awaiting_push
      → IsConsistent s
      → Ensures Anything r
      → Kept (take_push s r)
  take_push-Kept s (ok (control text, used)) e h fine =
      take_reply-Kept (consumed s used) (accept_reply text) e (consumed-IsConsistent s used h)
        (accept_reply-Ensures text)
  take_push-Kept s (ok (key_method2 _, used)) e h fine = (consumed-IsConsistent s used h, fails)
  take_push-Kept s (err (truncated _)) e h fine = (h, returns tt)
  take_push-Kept s (err _) e h fine = (h, fails)
  take_push-Kept s panic e h fine = elim fine [ ]

module _ {Conn : Type 0} (suite : Suite Conn) where
  pub receive_push_reply-Kept :
      (s : Session Conn) → IsConsistent s → Kept (receive_push_reply suite s)
  unfolding receive_push_reply
  receive_push_reply-Kept s h = elim (Bool-cases (is_awaiting_push s.phase)) [
    | inr other ↦ rw (other, receive_push_reply) (h, returns tt)
    | inl here ↦ elim (Bool-cases (is_nil s.inbound)) [
      | inl none_read ↦ rw (here, none_read, receive_push_reply) (h, returns tt)
      | inr some_read ↦
          rw (here, some_read, receive_push_reply)
            (take_push-Kept s (decode suite.lossy s.inbound) (phase_awaiting_push s.phase here) h
              (decode-Ensures suite.lossy s.inbound))
    ]
  ]
