-- ===== src/Openvpn/Session/Tunnel/Exchanged.antt =====
-- The exchange of key material under the first generation.
use mathlib.Core.Path.{subst}
use synology_filestation.Prelude.{
  ℕ, zero, suc, [], ◌∷◌, ◌++◌, ◌≡◌, refl, true, Bool-cases, Option, some, none, Option-cases, inl,
  inr, List, drop,
}
use synology_filestation.Openvpn.Error.{Error, Result, ok, err, panic, truncated}
use synology_filestation.Openvpn.Error.Ensures.{Anything, Ensures, returns, fails}
use synology_filestation.Openvpn.KeyMethod.{
  ServerMessage, ServerKeyMethod2, key_method2, control, decode, encode,
}
use synology_filestation.Openvpn.KeyMethod.Stream.{decode-Ensures}
use synology_filestation.Openvpn.KeyMethod.Written.{encode-Ensures}
use synology_filestation.Openvpn.Packet.{SessionId}
use synology_filestation.Openvpn.Prf.{KeySource2, key_expansion}
use synology_filestation.Openvpn.Prf.Derived.{key_expansion-opposite}
use synology_filestation.Openvpn.Session.{
  Session, Suite, Credentials, Phase, awaiting_keys, established, awaiting_push, ready,
}
use synology_filestation.Openvpn.Session.Keys.{
  one_read, read_loop, read_all, client_message, write_message, key_material_sent,
  send_our_key_material, drain_plaintext, is_first, is_awaiting_keys, with_server,
  take_key_material, take_their_message, receive_their_key_material,
}
use synology_filestation.Openvpn.Session.Tls.{
  Plaintext, received, would_block, failed, Outcome, done, refused,
}
use synology_filestation.Openvpn.Session.Tunnel.Opened.{
  consumed-IsConsistent, receive_push_reply-Kept,
}
use synology_filestation.Openvpn.Session.Tunnel.{
  IsConsistent, AtPhase, SameTunnel-IsConsistent, Kept,
}

phase_awaiting_keys : (p : Phase) → is_awaiting_keys p ≡ true → p ≡ awaiting_keys
phase_awaiting_keys awaiting_keys e = refl
phase_awaiting_keys Phase.tls e = cc
phase_awaiting_keys awaiting_push e = cc
phase_awaiting_keys established e = cc
phase_awaiting_keys ready e = cc

phase_first : (p : Phase) → is_first p ≡ true → p ≡ Phase.tls
phase_first Phase.tls e = refl
phase_first awaiting_keys e = cc
phase_first awaiting_push e = cc
phase_first established e = cc
phase_first ready e = cc

module _ {Conn : Type 0} (suite : Suite Conn) where
  -- A session whose connection and plaintext are others.
  abbrev pub with_tls : Session Conn → Conn → List ℕ → Session Conn
  with_tls s conn inbound = record s { tls = conn; inbound = inbound }

  with_tls-IsConsistent :
      (s : Session Conn) (conn : Conn) (inbound : List ℕ)
      → IsConsistent s
      → IsConsistent (with_tls s conn inbound)
  with_tls-IsConsistent s conn inbound h =
      SameTunnel-IsConsistent s (with_tls s conn inbound)
        (record { phase = refl; keys = refl; push = refl; data_channel = refl; key_id = refl }) h

  pub write_message-Ensures :
      (conn : Conn) (source : KeySource2) (credentials : Option Credentials)
      → Ensures Anything (write_message suite conn source credentials).1
  unfolding write_message
  write_message-Ensures conn source credentials =
      by_message (encode (client_message source credentials))
        (encode-Ensures (client_message source credentials))
    where
      by_outcome :
          (o : Outcome (Unit {0}))
          → Ensures Anything (elim o as (λ _. Result (Unit {0})) [
            | done _ ↦ ok tt
            | refused text ↦ err (Error.tls text)
          ])
      by_outcome (done _) = returns tt
      by_outcome (refused text) = fails

      by_message :
          (r : Result (List ℕ))
          → Ensures Anything r
          → Ensures Anything
              (elim r as (λ _. Conn × Result (Unit {0})) [
                | err e ↦ (conn, err e)
                | panic ↦ (conn, panic)
                | ok message ↦ (
                  (suite.engine.write_all conn message).0,
                  elim (suite.engine.write_all conn message).1 [
                    | done _ ↦ ok tt
                    | refused text ↦ err (Error.tls text)
                  ],
                )
              ]).1
      by_message (err e) fine = fails
      by_message panic fine = elim fine [ ]
      by_message (ok message) fine = by_outcome (suite.engine.write_all conn message).1

  key_material_sent-Kept :
      (s : Session Conn) (r : Conn × Result (Unit {0}))
      → s.phase ≡ Phase.tls
      → IsConsistent s
      → Ensures Anything r.1
      → Kept (key_material_sent suite s r)
  key_material_sent-Kept s (conn, ok _) e h fine = (subst (AtPhase s) e h, returns tt)
  key_material_sent-Kept s (conn, err _) e h fine =
      (with_tls-IsConsistent s conn s.inbound h, fails)
  key_material_sent-Kept s (conn, panic) e h fine = elim fine [ ]

  pub send_our_key_material-Kept :
      (s : Session Conn) → IsConsistent s → Kept (send_our_key_material suite s)
  unfolding send_our_key_material
  send_our_key_material-Kept s h = elim (Bool-cases (is_first s.phase)) [
    | inr other ↦ rw (other, send_our_key_material) (h, returns tt)
    | inl here ↦ elim (Bool-cases (suite.engine.is_handshaking s.tls)) [
      | inl shaking ↦ rw (here, shaking, send_our_key_material) (h, returns tt)
      | inr done_shaking ↦
          rw (here, done_shaking, send_our_key_material)
            (key_material_sent-Kept s (write_message suite s.tls s.source s.credentials)
              (phase_first s.phase here) h (write_message-Ensures s.tls s.source s.credentials))
    ]
  ]

  read_loop-Ensures :
      (rounds : ℕ) (conn : Conn) (inbound : List ℕ)
      → Ensures Anything (read_loop suite rounds conn inbound).1
  unfolding read_loop
  read_loop-Ensures zero conn inbound = returns tt
  read_loop-Ensures (suc rounds) conn inbound =
      by_read (suite.engine.read conn) (λ conn' inbound'. read_loop-Ensures rounds conn' inbound')
    where
      by_read :
          (r : Conn × Plaintext)
          → ((conn' : Conn) (inbound' : List ℕ)
              → Ensures Anything (read_loop suite rounds conn' inbound').1)
          → Ensures Anything
              (one_read suite r inbound (λ conn' inbound'. read_loop suite rounds conn' inbound')).1
      by_read (conn', received []) later = fails
      by_read (conn', received (b ∷ bytes)) later = later conn' (inbound ++ (b ∷ bytes))
      by_read (conn', would_block) later = returns tt
      by_read (conn', failed text) later = fails

  pub read_all-Ensures :
      (conn : Conn) (inbound : List ℕ) → Ensures Anything (read_all suite conn inbound).1
  unfolding read_all
  read_all-Ensures conn inbound = read_loop-Ensures (suc (suite.engine.unread conn)) conn inbound

  pub drain_plaintext-Kept : (s : Session Conn) → IsConsistent s → Kept (drain_plaintext suite s)
  unfolding drain_plaintext
  drain_plaintext-Kept s h = (
    with_tls-IsConsistent s (read_all suite s.tls s.inbound).0.0
        (read_all suite s.tls s.inbound).0.1 h,
    read_all-Ensures s.tls s.inbound,
  )

  -- The session with the keys, about to ask for the configuration.
  abbrev keyed : Session Conn → ServerKeyMethod2 → SessionId → ℕ → Session Conn
  keyed s reply server_session used = record s {
    source = with_server s.source reply;
    keys = some (
        key_expansion suite.hashes (with_server s.source reply) s.channel.local_session
          server_session);
    inbound = drop used s.inbound;
    phase = awaiting_push;
  }

  keyed-IsConsistent :
      (s : Session Conn) (reply : ServerKeyMethod2) (server_session : SessionId) (used : ℕ)
      → s.data_channel ≡ none
      → IsConsistent (keyed s reply server_session used)
  keyed-IsConsistent s reply server_session used closed =
      let (client, _, (split, _, _)) =
        key_expansion-opposite suite.hashes (with_server s.source reply) s.channel.local_session
          server_session in
      (closed, (client, record { bytes = _; kept = refl; split = split }))

  take_key_material-Kept :
      (s : Session Conn) (reply : ServerKeyMethod2) (used : ℕ)
      → s.phase ≡ awaiting_keys
      → IsConsistent s
      → Kept (take_key_material suite s reply used)
  unfolding take_key_material
  take_key_material-Kept s reply used e h = elim (Option-cases s.channel.remote_session) [
    | inl unknown ↦
        rw (unknown, take_key_material)
          (
            SameTunnel-IsConsistent s _
                (record {
                  phase = refl;
                  keys = refl;
                  push = refl;
                  data_channel = refl;
                  key_id = refl;
                })
                h,
            fails,
          )
    | inr (server_session, met) ↦
        rw (met, take_key_material)
          (receive_push_reply-Kept suite (keyed s reply server_session used)
            (keyed-IsConsistent s reply server_session used (subst (AtPhase s) e h)))
  ]

  take_their_message-Kept :
      (s : Session Conn) (r : Result (ServerMessage × ℕ))
      → s.phase ≡ awaiting_keys
      → IsConsistent s
      → Ensures Anything r
      → Kept (take_their_message suite s r)
  take_their_message-Kept s (ok (control text, used)) e h fine =
      (consumed-IsConsistent s used h, fails)
  take_their_message-Kept s (ok (key_method2 reply, used)) e h fine =
      take_key_material-Kept s reply used e h
  take_their_message-Kept s (err (truncated _)) e h fine = (h, returns tt)
  take_their_message-Kept s (err _) e h fine = (h, fails)
  take_their_message-Kept s panic e h fine = elim fine [ ]

  pub receive_their_key_material-Kept :
      (s : Session Conn) → IsConsistent s → Kept (receive_their_key_material suite s)
  unfolding receive_their_key_material
  receive_their_key_material-Kept s h = elim (Bool-cases (is_awaiting_keys s.phase)) [
    | inr other ↦ rw (other, receive_their_key_material) (h, returns tt)
    | inl here ↦
        rw (here, receive_their_key_material)
          (take_their_message-Kept s (decode suite.lossy s.inbound)
            (phase_awaiting_keys s.phase here) h (decode-Ensures suite.lossy s.inbound))
  ]
