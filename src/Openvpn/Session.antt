-- ===== src/Openvpn/Session.antt =====
-- rust/synology-filestation-openvpn/src/session.rs: a TLS session that the control channel carries,
-- and the tunnel that comes of it. A method that changes the session returns it beside its result.
-- A `Duration` and an `Instant` are numbers of nanoseconds. The connection is of a type `Conn`.
pub mod Tls
pub mod Outgoing
pub mod Texts
pub mod Traffic
pub mod Keys
pub mod Push
pub mod Renegotiate
pub mod Handle
pub mod Transmit
pub mod Tunnel
pub mod Still
pub mod Wakeup
pub mod Rounds
pub mod Sample
mod Runs
use synology_filestation.Prelude.{ℕ, ◌+◌, ◌*◌, Bool, true, false, Option, some, none, List, []}
use synology_filestation.Prelude.Text.{Text}
use synology_filestation.Openvpn.Channel
use synology_filestation.Openvpn.Channel.{ControlChannel, open_channel}
use synology_filestation.Openvpn.Crypto.{Hmac, Cipher}
use synology_filestation.Openvpn.Data.{DataChannel}
use synology_filestation.Openvpn.Error.{Error, Result, ok, err, ◌>>=◌, panic}
use synology_filestation.Openvpn.KeyId.{KeyId}
use synology_filestation.Openvpn.Packet.{SessionId}
use synology_filestation.Openvpn.Prf.{KeySource2, Hashes}
use synology_filestation.Openvpn.Push.{PushReply}
use synology_filestation.Openvpn.Session.Tls.{Engine}
use synology_filestation.Openvpn.Session.Outgoing
use synology_filestation.Openvpn.Session.Outgoing.{Outbox}
use synology_filestation.Openvpn.StaticKey.{StaticKey, KeyDirection}
use synology_filestation.Openvpn.TlsAuth

abbrev pub second : ℕ
second = 1000000000

abbrev pub push_request_interval : ℕ
push_request_interval = 5 * second

abbrev pub push_request_timeout : ℕ
push_request_timeout = 60 * second

pub record Credentials : Type 0 where
  pub username : Text
  pub password : Text

-- What the source's `SessionConfig` has beside the texts that only the TLS configuration reads.
pub record SessionConfig : Type 0 where
  pub static_key : StaticKey
  pub key_direction : KeyDirection
  pub session_id : SessionId
  pub tls_timeout : ℕ
  pub peer_timeout : Option ℕ
  pub credentials : Option Credentials

pub data Phase : Type 0 where
  tls awaiting_keys established awaiting_push ready : Phase

-- A key generation that is negotiated while the current one carries traffic.
pub record Renegotiation (Conn : Type 0) : Type 0 where
  pub key_id : KeyId
  pub tls : Conn
  pub outbox : Outbox
  pub source : KeySource2
  pub inbound : List ℕ
  pub sent_key_material : Bool

-- `data_channel` is the source's `data`.
pub record Session (Conn : Type 0) : Type 0 where
  pub channel : ControlChannel
  pub tls : Conn
  pub outbox : Outbox
  pub renegotiation : Option (Renegotiation Conn)
  pub phase : Phase
  pub source : KeySource2
  pub credentials : Option Credentials
  pub inbound : List ℕ
  pub keys : Option (List ℕ)
  pub push : Option PushReply
  pub peer_timeout : Option ℕ
  pub push_requested_at : Option ℕ
  pub push_first_requested_at : Option ℕ
  pub data_channel : Option DataChannel
  pub previous_data : Option DataChannel
  pub last_sent : Option ℕ
  pub failure : Option Error

-- The parts that other crates provide; `lossy` is `String::from_utf8_lossy`.
pub record Suite (Conn : Type 0) : Type 0 where
  pub engine : Engine Conn
  pub hmac : Hmac
  pub cipher : Cipher
  pub hashes : Hashes
  pub lossy : List ℕ → List ℕ

-- A step of a session, and its result.
abbrev pub Stepped : Type 0 → Type 0 → Type 0
Stepped Conn A = Session Conn × Result A

-- `?` behind a step: the session goes on from where the step left it, unless it failed.
abbrev pub and_then :
    {Conn A B : Type 0} → Stepped Conn A → (Session Conn → A → Stepped Conn B) → Stepped Conn B
and_then (s, ok a) rest = rest s a
and_then (s, err e) rest = (s, err e)
and_then (s, panic) rest = (s, panic)

module _ {Conn : Type 0} where
  -- `Session::new`, given the connection that rustls made of the configuration, or its error, and
  -- the source's random draws.
  unfoldable pub new : SessionConfig → Result Conn → KeySource2 → Result (Session Conn)
  unfolding TlsAuth.new open_channel
  new config connection source = do
    conn ← connection
    let channel =
        Channel.new (TlsAuth.new config.static_key config.key_direction) config.session_id
          config.tls_timeout
    ok (record {
      channel = open_channel channel;
      tls = conn;
      outbox = Outgoing.empty;
      renegotiation = none;
      phase = Phase.tls;
      source = source;
      credentials = config.credentials;
      inbound = [];
      keys = none;
      push = none;
      peer_timeout = config.peer_timeout;
      push_requested_at = none;
      push_first_requested_at = none;
      data_channel = none;
      previous_data = none;
      last_sent = none;
      failure = none;
    })

  unfoldable pub is_established : Session Conn → Bool
  is_established s = elim s.phase [
    | Phase.tls ↦ false
    | awaiting_keys ↦ false
    | established ↦ true
    | awaiting_push ↦ true
    | ready ↦ true
  ]

  unfoldable pub is_ready : Session Conn → Bool
  is_ready s = elim s.data_channel [ none ↦ false | some _ ↦ true ]

  unfoldable pub peer_timeout : Session Conn → Option ℕ
  peer_timeout s = elim s.push [
    | none ↦ s.peer_timeout
    | some push ↦ elim push.ping_restart_disabled [
      | true ↦ none
      | false ↦ elim push.ping_restart [ some limit ↦ some limit | none ↦ s.peer_timeout ]
    ]
  ]
