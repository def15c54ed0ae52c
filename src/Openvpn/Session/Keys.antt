-- ===== src/Openvpn/Session/Keys.antt =====
-- rust/synology-filestation-openvpn/src/session.rs: the plaintext that TLS gives, and the exchange of
-- key material under the first generation.
use synology_filestation.Prelude.{
  ℕ, zero, suc, Bool, true, false, Option, some, none, List, [], ◌∷◌, ◌++◌, drop,
}
use synology_filestation.Openvpn.Error.{
  Error, Result, ok, err, panic, ok_or, truncated, peer_closed,
}
use synology_filestation.Openvpn.KeyMethod.{
  ClientKeyMethod2, ServerKeyMethod2, ServerMessage, key_method2, control, encode, decode,
}
use synology_filestation.Openvpn.Packet.{SessionId}
use synology_filestation.Openvpn.Prf.{KeySource2, key_expansion}
use synology_filestation.Openvpn.Session.{
  Session, Suite, Stepped, Credentials, Phase, awaiting_keys, awaiting_push,
}
use synology_filestation.Openvpn.Session.Tls.{
  Plaintext, received, would_block, failed, done, refused,
}
use synology_filestation.Openvpn.Session.Push.{receive_push_reply, refusal}
use synology_filestation.Openvpn.Session.Texts.{options_text, peer_info}

-- The client's message; without credentials, both are empty.
unfoldable pub client_message : KeySource2 → Option Credentials → ClientKeyMethod2
client_message source none = record {
  source = source;
  options = options_text;
  username = [];
  password = [];
  peer_info = peer_info;
}
client_message source (some credentials) = record {
  source = source;
  options = options_text;
  username = credentials.username;
  password = credentials.password;
  peer_info = peer_info;
}

-- The random material with the server's half in it.
abbrev pub with_server : KeySource2 → ServerKeyMethod2 → KeySource2
with_server source reply = record source {
  server_random1 = reply.random1;
  server_random2 = reply.random2;
}

-- `remote_session().ok_or_else(..)`
abbrev pub known : Option SessionId → Result SessionId
known session = ok_or session (Error.tls "key material before a session id")

abbrev pub is_first : Phase → Bool
is_first Phase.tls = true
is_first _ = false

abbrev pub is_awaiting_keys : Phase → Bool
is_awaiting_keys awaiting_keys = true
is_awaiting_keys _ = false

module _ {Conn : Type 0} (suite : Suite Conn) where
  -- What a read gave, and the loop after it.
  abbrev pub one_read :
      Conn × Plaintext
      → List ℕ
      → (Conn → List ℕ → (Conn × List ℕ) × Result (Unit {0}))
      → (Conn × List ℕ) × Result (Unit {0})
  one_read (conn, received []) inbound rest = ((conn, inbound), err peer_closed)
  one_read (conn, received (b ∷ bytes)) inbound rest = rest conn (inbound ++ (b ∷ bytes))
  one_read (conn, would_block) inbound rest = ((conn, inbound), ok tt)
  one_read (conn, failed text) inbound rest = ((conn, inbound), err (Error.tls text))

  -- The loop over the reads, for a number of rounds.
  unfoldable pub read_loop : ℕ → Conn → List ℕ → (Conn × List ℕ) × Result (Unit {0})
  read_loop zero conn inbound = ((conn, inbound), ok tt)
  read_loop (suc rounds) conn inbound =
      one_read (suite.engine.read conn) inbound (λ conn' inbound'. read_loop rounds conn' inbound')

  -- A round leaves less to be read.
  unfoldable pub read_all : Conn → List ℕ → (Conn × List ℕ) × Result (Unit {0})
  unfolding read_loop
  read_all conn inbound = read_loop (suc (suite.engine.unread conn)) conn inbound

  unfoldable pub drain_plaintext : Session Conn → Stepped Conn (Unit {0})
  unfolding read_all
  drain_plaintext s =
      let ((conn, inbound), r) = read_all s.tls s.inbound in
      (record s { tls = conn; inbound = inbound }, r)

  -- The message written to a connection.
  unfoldable pub write_message : Conn → KeySource2 → Option Credentials → Conn × Result (Unit {0})
  unfolding encode client_message
  write_message conn source credentials = elim (encode (client_message source credentials)) [
    | err e ↦ (conn, err e)
    | panic ↦ (conn, panic)
    | ok message ↦
        (let (conn', outcome) = suite.engine.write_all conn message in
          (conn', elim outcome [ done _ ↦ ok tt | refused text ↦ err (Error.tls text) ]))
  ]

  -- The phase moves once the message is written.
  abbrev pub key_material_sent : Session Conn → Conn × Result (Unit {0}) → Stepped Conn (Unit {0})
  key_material_sent s (conn, ok _) = (record s { tls = conn; phase = awaiting_keys }, ok tt)
  key_material_sent s (conn, err e) = (record s { tls = conn }, err e)
  key_material_sent s (conn, panic) = (record s { tls = conn }, panic)

  unfoldable pub send_our_key_material : Session Conn → Stepped Conn (Unit {0})
  unfolding write_message
  send_our_key_material s = elim (is_first s.phase) [
    | false ↦ (s, ok tt)
    | true ↦ elim (suite.engine.is_handshaking s.tls) [
      | true ↦ (s, ok tt)
      | false ↦ key_material_sent s (write_message s.tls s.source s.credentials)
    ]
  ]

  -- The server's half of the material, and the keys that come of both.
  unfoldable pub take_key_material : Session Conn → ServerKeyMethod2 → ℕ → Stepped Conn (Unit {0})
  unfolding key_expansion
  take_key_material s reply used =
      let source = with_server s.source reply in
      elim (known s.channel.remote_session) [
        | err e ↦ (record s { source = source }, err e)
        | panic ↦ (record s { source = source }, panic)
        | ok server_session ↦ receive_push_reply suite (record s {
          source = source;
          keys = some (key_expansion suite.hashes source s.channel.local_session server_session);
          inbound = drop used s.inbound;
          phase = awaiting_push;
        })
      ]

  abbrev pub take_their_message :
      Session Conn → Result (ServerMessage × ℕ) → Stepped Conn (Unit {0})
  take_their_message s (err (truncated _)) = (s, ok tt)
  take_their_message s (err e) = (s, err e)
  take_their_message s panic = (s, panic)
  take_their_message s (ok (control text, used)) =
      (record s { inbound = drop used s.inbound }, err (refusal text))
  take_their_message s (ok (key_method2 reply, used)) = take_key_material s reply used

  unfoldable pub receive_their_key_material : Session Conn → Stepped Conn (Unit {0})
  unfolding decode take_key_material
  receive_their_key_material s = elim (is_awaiting_keys s.phase) [
    | false ↦ (s, ok tt)
    | true ↦ take_their_message s (decode suite.lossy s.inbound)
  ]
