-- ===== src/Openvpn/Channel/Handle.antt =====
-- rust/synology-filestation-openvpn/src/channel.rs: `handle`, which takes a datagram, and
-- `poll_control`, which gives out what the datagrams carried.
use synology_filestation.Prelude.{
  ℕ, zero, suc, Bool, false, ◌&&◌, not, Option, some, none, List, [], ◌∷◌, ◌++◌, length, contains,
  ◌==◌, if◌then◌else◌,
}
use synology_filestation.Prelude.Bytes.{same}
use synology_filestation.Openvpn.Crypto.{Hmac}
use synology_filestation.Openvpn.Error.{
  Result, ok, err, panic, ◌>>=◌, replayed, wrong_session, unexpected_first_packet,
  ack_for_another_session, other_key_id,
}
use synology_filestation.Openvpn.KeyId.{KeyId}
use synology_filestation.Openvpn.Opcode.{
  control_soft_reset_v1, control_v1, control_hard_reset_server_v2,
}
use synology_filestation.Openvpn.Packet.{Acks, ControlPacket, SessionId}
use synology_filestation.Openvpn.Reliable.Recv
use synology_filestation.Openvpn.Reliable.Recv.{RecvWindow, next_in_order, Message}
use synology_filestation.Openvpn.Reliable.Send.{acknowledge}
use synology_filestation.Openvpn.Replay
use synology_filestation.Openvpn.TlsAuth.{TlsAuthHeader, unwrap}
use synology_filestation.Openvpn.Channel.{
  KeyState, ControlChannel, new_state, opening_message_id, same_opcode, state_of, put_state,
  key_ids,
}

abbrev is_opening_id : Option ℕ → Bool
is_opening_id none = false
is_opening_id (some id) = id == opening_message_id

abbrev acks_opening : Option Acks → Bool
acks_opening none = false
acks_opening (some acks) = contains acks.ids opening_message_id

-- A server's reset, the first of its messages, that acknowledges our opening message.
unfoldable pub answers_our_open : ControlPacket → Bool
answers_our_open packet =
    same_opcode packet.opcode control_hard_reset_server_v2
    && is_opening_id packet.packet_id
    && acks_opening packet.acks

-- Whether the packet may belong to the session.
unfoldable pub check_session : ControlChannel → ControlPacket → Result (Unit {0})
unfolding answers_our_open
check_session c packet = elim c.remote_session [
  | none ↦
      if c.primary.opened && not (answers_our_open packet)
      then err unexpected_first_packet
      else ok tt
  | some known ↦ if not (same known packet.session_id) then err wrong_session else ok tt
]

unfoldable pub check_acks : ControlChannel → ControlPacket → Result (Unit {0})
check_acks c packet = elim packet.acks [
  | none ↦ ok tt
  | some acks ↦
      if not (same acks.session_id c.local_session) then err ack_for_another_session else ok tt
]

abbrev pub is_pending : Option KeyState → KeyId → Bool
is_pending none key_id = false
is_pending (some pending) key_id = pending.key_id == key_id

abbrev pub supersede : List KeyId → Option KeyState → List KeyId
supersede superseded none = superseded
supersede superseded (some previous) = superseded ++ (previous.key_id ∷ [])

-- A soft reset under a new key id starts a generation in the place of the one that was pending.
unfoldable pub renegotiate : ControlChannel → ControlPacket → ControlChannel
renegotiate c packet =
    if same_opcode packet.opcode control_soft_reset_v1 && not (packet.key_id == c.primary.key_id)
    then (if not (is_pending c.pending packet.key_id) && not (contains c.superseded packet.key_id)
        then record c {
          pending = some (new_state packet.key_id c.tls_timeout);
          superseded = supersede c.superseded c.pending;
        }
        else c)
    else c

-- `remote_session.get_or_insert`
unfoldable pub latch : ControlChannel → SessionId → ControlChannel
latch c session_id = elim c.remote_session [
  | none ↦ record c { remote_session = some session_id }
  | some _ ↦ c
]

abbrev pub acknowledged : KeyState → Option Acks → KeyState
acknowledged state none = state
acknowledged state (some acks) = record state { send = acknowledge state.send acks.ids }

abbrev pub accepted : KeyState → Option ℕ → Message → KeyState
accepted state none message = state
accepted state (some id) message = record state { recv = (Recv.accept state.recv id message).0 }

unfoldable pub deliver : ControlChannel → ControlPacket → ControlChannel × Result (Unit {0})
deliver c packet = elim (state_of c packet.key_id) [
  | none ↦ (c, err (other_key_id packet.key_id c.primary.key_id))
  | some state ↦ (
    put_state c packet.key_id (
        accepted (acknowledged state packet.acks) packet.packet_id (packet.opcode, packet.payload)),
    ok tt,
  )
]

-- What happens to an authentic packet that is no replay.
unfoldable pub admit : ControlChannel → ControlPacket → ControlChannel × Result (Unit {0})
unfolding check_session check_acks renegotiate latch deliver
admit c packet = elim (check_session c packet >>= λ _. check_acks c packet) [
  | ok _ ↦ deliver (latch (renegotiate c packet) packet.session_id) packet
  | err e ↦ (c, err e)
  | panic ↦ (c, panic)
]

unfoldable pub fresh_only :
    ControlChannel → Result (ControlPacket × TlsAuthHeader) → ControlChannel × Result (Unit {0})
unfolding admit
fresh_only c (ok (packet, header)) =
    let (window, fresh) = Replay.accept c.replay header.packet_id header.net_time in
    let c' = record c { replay = window } in
    if not fresh then (c', err replayed) else admit c' packet
fresh_only c (err e) = (c, err e)
fresh_only c panic = (c, panic)

unfoldable pub handle : Hmac → ControlChannel → List ℕ → ControlChannel × Result (Unit {0})
unfolding fresh_only
handle hmac c datagram = fresh_only c (unwrap hmac c.auth datagram)

-- What one delivery gives, and the rest of the loop as a function of the window.
abbrev pub next_control :
    RecvWindow × Option Message
    → (RecvWindow → RecvWindow × Option (List ℕ))
    → RecvWindow × Option (List ℕ)
next_control (w, none) rest = (w, none)
next_control (w, some (opcode, payload)) rest =
    if same_opcode opcode control_v1 then (w, some payload) else rest w

-- The loop over a window's deliveries, for a number of rounds: `none` once nothing is in order.
unfoldable pub control_loop : ℕ → RecvWindow → RecvWindow × Option (List ℕ)
control_loop zero w = (w, none)
control_loop (suc rounds) w = next_control (next_in_order w) (λ w'. control_loop rounds w')

-- Each round but the last takes a message out of the window.
unfoldable pub poll_keys : List KeyId → ControlChannel → ControlChannel × Option (KeyId × List ℕ)
unfolding control_loop
poll_keys [] c = (c, none)
poll_keys (key_id ∷ rest) c = elim (state_of c key_id) [
  | none ↦ (c, none)
  | some state ↦
      (let (recv, payload) = control_loop (suc (length state.recv.messages)) state.recv in
        let c' = put_state c key_id (record state { recv = recv }) in
        let later = poll_keys rest c' in
        elim payload [ none ↦ later | some bytes ↦ (c', some (key_id, bytes)) ])
]

unfoldable pub poll_control : ControlChannel → ControlChannel × Option (KeyId × List ℕ)
unfolding poll_keys
poll_control c = poll_keys (key_ids c) c
