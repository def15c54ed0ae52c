-- ===== src/Openvpn/Session/Renegotiate.antt =====
-- rust/synology-filestation-openvpn/src/session.rs: the next key generation, from the peer's reset
-- to the rotation of the keys.
use synology_filestation.Prelude.{
  ℕ, Bool, true, false, ◌&&◌, not, Option, some, none, List, [], drop, ◌==◌,
}
use synology_filestation.Openvpn.Channel.{KeyState, promote}
use synology_filestation.Openvpn.Error.{Result, ok, err, panic, truncated}
use synology_filestation.Openvpn.KeyId.{KeyId}
use synology_filestation.Openvpn.KeyMethod.{
  ServerKeyMethod2, ServerMessage, key_method2, control, decode,
}
use synology_filestation.Openvpn.Prf.{KeySource2, key_expansion}
use synology_filestation.Openvpn.Session.{Session, Suite, Stepped, Renegotiation, Credentials}
use synology_filestation.Openvpn.Session.Keys.{read_all, write_message, with_server, known}
use synology_filestation.Openvpn.Session.Outgoing
use synology_filestation.Openvpn.Session.Push.{open_tunnel, refusal}

-- `pending_key_id`
abbrev pub pending_key_id : Option KeyState → Option KeyId
pending_key_id none = none
pending_key_id (some pending) = some pending.key_id

module _ {Conn : Type 0} where
  -- Whether the generation under a key id is the one that is negotiated.
  abbrev pub is_negotiated : Option (Renegotiation Conn) → KeyId → Bool
  is_negotiated none key_id = false
  is_negotiated (some pending) key_id = pending.key_id == key_id

  -- Given a new connection to the same peer, or rustls' error, and the source's random draws.
  unfoldable pub begin_renegotiation :
      Session Conn → Result Conn → KeySource2 → Stepped Conn (Unit {0})
  begin_renegotiation s connection source = elim (pending_key_id s.channel.pending) [
    | none ↦ (s, ok tt)
    | some key_id ↦ elim (is_negotiated s.renegotiation key_id) [
      | true ↦ (s, ok tt)
      | false ↦ elim connection [
        | err e ↦ (s, err e)
        | panic ↦ (s, panic)
        | ok conn ↦ (
          record s {
            renegotiation = some (record {
              key_id = key_id;
              tls = conn;
              outbox = Outgoing.empty;
              source = source;
              inbound = [];
              sent_key_material = false;
            });
          },
          ok tt,
        )
      ]
    ]
  ]

  -- The rotation: the channel, the connection, the keys and the tunnel take over together, and the
  -- tunnel of before is kept. A tunnel is opened only in the place of one.
  unfoldable pub take_over :
      Session Conn → Renegotiation Conn → KeySource2 → List ℕ → ℕ → Stepped Conn (Unit {0})
  unfolding promote open_tunnel
  take_over s pending source keys used =
      let s' = record s {
        renegotiation = none;
        channel = promote s.channel;
        tls = pending.tls;
        outbox = pending.outbox;
        source = source;
        inbound = drop used pending.inbound;
        keys = some keys;
        previous_data = s.data_channel;
        data_channel = none;
      } in
      elim s.data_channel [ none ↦ (s', ok tt) | some _ ↦ open_tunnel s' ]

module _ {Conn : Type 0} (suite : Suite Conn) where
  -- Our key material, once the handshake is done.
  unfoldable pub offer_keys :
      Renegotiation Conn → Option Credentials → Renegotiation Conn × Result (Unit {0})
  unfolding write_message
  offer_keys pending credentials =
      elim (not (suite.engine.is_handshaking pending.tls) && not pending.sent_key_material) [
        | false ↦ (pending, ok tt)
        | true ↦
            (let (conn, r) = write_message suite pending.tls pending.source credentials in
              elim r [
                | ok _ ↦ (record pending { tls = conn; sent_key_material = true }, ok tt)
                | err e ↦ (record pending { tls = conn }, err e)
                | panic ↦ (record pending { tls = conn }, panic)
              ])
      ]

  unfoldable pub drain_pending : Renegotiation Conn → Renegotiation Conn × Result (Unit {0})
  unfolding read_all
  drain_pending pending =
      let ((conn, inbound), r) = read_all suite pending.tls pending.inbound in
      (record pending { tls = conn; inbound = inbound }, r)

  abbrev pub with_pending : Session Conn → Renegotiation Conn → Session Conn
  with_pending s pending = record s { renegotiation = some pending }

  -- The peer's half of the material.
  unfoldable pub take_new_keys :
      Session Conn → Renegotiation Conn → ServerKeyMethod2 → ℕ → Stepped Conn (Unit {0})
  unfolding key_expansion take_over
  take_new_keys s pending reply used =
      let source = with_server pending.source reply in
      elim (known s.channel.remote_session) [
        | err e ↦ (with_pending s (record pending { source = source }), err e)
        | panic ↦ (with_pending s (record pending { source = source }), panic)
        | ok server_session ↦
            take_over s pending source
              (key_expansion suite.hashes source s.channel.local_session server_session) used
      ]

  abbrev pub take_message :
      Session Conn → Renegotiation Conn → Result (ServerMessage × ℕ) → Stepped Conn (Unit {0})
  take_message s pending (err (truncated _)) = (with_pending s pending, ok tt)
  take_message s pending (err e) = (with_pending s pending, err e)
  take_message s pending panic = (with_pending s pending, panic)
  take_message s pending (ok (control text, used)) =
      (with_pending s (record pending { inbound = drop used pending.inbound }), err (refusal text))
  take_message s pending (ok (key_method2 reply, used)) = take_new_keys s pending reply used

  -- What is left of `advance_renegotiation` after a step on the generation.
  abbrev pub go_on :
      Session Conn
      → Renegotiation Conn × Result (Unit {0})
      → (Renegotiation Conn → Stepped Conn (Unit {0}))
      → Stepped Conn (Unit {0})
  go_on s (pending, ok _) rest = rest pending
  go_on s (pending, err e) rest = (with_pending s pending, err e)
  go_on s (pending, panic) rest = (with_pending s pending, panic)

  unfoldable pub advance_renegotiation : Session Conn → Stepped Conn (Unit {0})
  unfolding offer_keys drain_pending take_new_keys decode
  advance_renegotiation s = elim s.renegotiation [
    | none ↦ (s, ok tt)
    | some pending ↦ go_on s (offer_keys pending s.credentials) (λ offered.
        go_on s (drain_pending offered)
          (λ drained. take_message s drained (decode suite.lossy drained.inbound)))
  ]
