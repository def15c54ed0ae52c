-- ===== src/Openvpn/Channel.antt =====
-- rust/synology-filestation-openvpn/src/channel.rs: the control channel, which joins the envelope, the
-- replay window and a pair of windows for each key generation. A method that changes the channel
-- returns it beside its result.
pub mod Handle
pub mod Refusal
pub mod Drain
pub mod Keys
pub mod Parts
pub mod Run
pub mod Wakeup
pub mod Primary
pub mod Fewer
mod Runs
use synology_filestation.Prelude.{
  ℕ, zero, suc, ◌+◌, ◌%◌, ◌^◌, Bool, true, false, ◌&&◌, ◌||◌, not, Option, some, none, List, [],
  ◌∷◌, ◌++◌, length, contains, ◌==◌, if◌then◌else◌, min,
}
use synology_filestation.Prelude.Bytes.{same}
use synology_filestation.Openvpn.Crypto.{Hmac}
use synology_filestation.Openvpn.Error.{
  Error, Result, ok, err, panic, ◌>>=◌, expect, replayed, wrong_session, unexpected_first_packet,
  ack_for_another_session, other_key_id,
}
use synology_filestation.Openvpn.KeyId
use synology_filestation.Openvpn.KeyId.{KeyId}
use synology_filestation.Openvpn.Opcode.{
  Opcode, as_u8, control_soft_reset_v1, control_v1, ack_v1, control_hard_reset_client_v2,
  control_hard_reset_server_v2,
}
use synology_filestation.Openvpn.Packet.{Acks, ControlPacket, SessionId, max_acks, new_acks}
use synology_filestation.Openvpn.Reliable.Recv
use synology_filestation.Openvpn.Reliable.Recv.{
  RecvWindow, owes_acks, take_acks, next_in_order, Message,
}
use synology_filestation.Openvpn.Reliable.Send
use synology_filestation.Openvpn.Reliable.Send.{
  SendWindow, Outgoing, is_full, acknowledge, next_due,
}
use synology_filestation.Openvpn.Replay
use synology_filestation.Openvpn.Replay.{ReplayWindow}
use synology_filestation.Openvpn.TlsAuth.{TlsAuth, wrap, unwrap}

-- One key generation.
pub record KeyState : Type 0 where
  pub key_id : KeyId
  pub send : SendWindow
  pub recv : RecvWindow
  pub opened : Bool

abbrev pub new_state : KeyId → ℕ → KeyState
new_state key_id tls_timeout = record {
  key_id = key_id;
  send = Send.new tls_timeout;
  recv = Recv.new;
  opened = false;
}

pub record ControlChannel : Type 0 where
  pub auth : TlsAuth
  pub local_session : SessionId
  pub remote_session : Option SessionId
  pub next_replay_id : ℕ
  pub replay : ReplayWindow
  pub tls_timeout : ℕ
  pub primary : KeyState
  pub superseded : List KeyId
  pub pending : Option KeyState

abbrev pub opening_message_id : ℕ
opening_message_id = 0

abbrev pub new : TlsAuth → SessionId → ℕ → ControlChannel
new auth local_session tls_timeout = record {
  auth = auth;
  local_session = local_session;
  remote_session = none;
  next_replay_id = 1;
  replay = Replay.new;
  tls_timeout = tls_timeout;
  primary = new_state KeyId.first tls_timeout;
  superseded = [];
  pending = none;
}

-- `==` on opcodes.
abbrev pub same_opcode : Opcode → Opcode → Bool
same_opcode a b = as_u8 a == as_u8 b

unfoldable pub open_channel : ControlChannel → ControlChannel
open_channel c = record c {
  primary = record c.primary {
    opened = true;
    send = (Send.queue c.primary.send control_hard_reset_client_v2 []).0;
  };
}

-- The generation in `pending`, if it has that key id.
abbrev pub pending_of : Option KeyState → KeyId → Option KeyState
pending_of none key_id = none
pending_of (some pending) key_id = if pending.key_id == key_id then some pending else none

-- `state_mut`: the generation of a key id, and the channel with it changed.
unfoldable pub state_of : ControlChannel → KeyId → Option KeyState
state_of c key_id =
    if c.primary.key_id == key_id then some c.primary else pending_of c.pending key_id

unfoldable pub put_state : ControlChannel → KeyId → KeyState → ControlChannel
put_state c key_id state =
    if c.primary.key_id == key_id
    then record c { primary = state }
    else record c { pending = some state }

-- `send_control`: whether the window took the message.
unfoldable pub send_control : ControlChannel → KeyId → List ℕ → ControlChannel × Bool
unfolding state_of put_state
send_control c key_id payload = elim (state_of c key_id) [
  | none ↦ (c, false)
  | some state ↦
      (let (send, id) = Send.queue state.send control_v1 payload in
        (
          put_state c key_id (record state { send = send }),
          elim id [ none ↦ false | some _ ↦ true ],
        ))
]

unfoldable pub promote : ControlChannel → ControlChannel
promote c = elim c.pending [
  | none ↦ c
  | some pending ↦ record c { primary = pending; superseded = []; pending = none }
]

unfoldable pub can_send_for : ControlChannel → KeyId → Bool
unfolding state_of
can_send_for c key_id = elim (state_of c key_id) [
  | none ↦ false
  | some state ↦ not (is_full state.send)
]

-- The key ids in the order in which they are served.
unfoldable pub key_ids : ControlChannel → List KeyId
key_ids c = elim c.pending [
  | none ↦ c.primary.key_id ∷ []
  | some pending ↦ pending.key_id ∷ c.primary.key_id ∷ []
]

-- When a generation has something to send.
unfoldable pub state_wakeup : KeyState → ℕ → Option ℕ
state_wakeup state now = if owes_acks state.recv then some now else Send.next_wakeup state.send now

-- `(soonest, due)`
abbrev pub sooner : Option ℕ → Option ℕ → Option ℕ
sooner none due = due
sooner (some a) none = some a
sooner (some a) (some b) = some (min a b)

unfoldable pub next_wakeup : ControlChannel → ℕ → Option ℕ
unfolding state_wakeup
next_wakeup c now = elim c.pending [
  | none ↦ state_wakeup c.primary now
  | some pending ↦ sooner (state_wakeup c.primary now) (state_wakeup pending now)
]

-- The acknowledgements that go with a packet: none before the peer's session is known.
unfoldable pub acks_for : Option SessionId → RecvWindow → RecvWindow × Result (Option Acks)
acks_for none recv = (recv, ok none)
acks_for (some session_id) recv =
    let (recv', ids) = take_acks recv max_acks in
    (
      recv',
      elim ids [
        | [] ↦ ok none
        | id ∷ rest ↦ elim (new_acks (id ∷ rest) session_id) [
          | ok acks ↦ ok (some acks)
          | err _ ↦ panic
          | panic ↦ panic
        ]
      ],
    )

unfoldable pub packet_for : KeyId → SessionId → Option Outgoing → Option Acks → ControlPacket
packet_for key_id local_session (some outgoing) acks = record {
  opcode = outgoing.opcode;
  key_id = key_id;
  session_id = local_session;
  acks = acks;
  packet_id = some outgoing.packet_id;
  payload = outgoing.payload;
}
packet_for key_id local_session none acks = record {
  opcode = ack_v1;
  key_id = key_id;
  session_id = local_session;
  acks = acks;
  packet_id = none;
  payload = [];
}

abbrev pub is_none {ℓ} : {A : Type ℓ} → Option A → Bool
is_none none = true
is_none (some _) = false

-- What a generation has to send, if it has anything.
unfoldable pub packet_of :
    ControlChannel → KeyId → KeyState → ℕ → KeyState × Result (Option ControlPacket)
unfolding acks_for packet_for
packet_of c key_id state now =
    let (send, due) = next_due state.send now in
    if is_none due && not (owes_acks state.recv)
    then (record state { send = send }, ok none)
    else (let (recv, acks) = acks_for c.remote_session state.recv in
        (
          record state { send = send; recv = recv },
          acks >>= λ a. ok (some (packet_for key_id c.local_session due a)),
        ))

unfoldable pub next_packet :
    ControlChannel → KeyId → ℕ → ControlChannel × Result (Option ControlPacket)
unfolding state_of put_state packet_of
next_packet c key_id now = elim (state_of c key_id) [
  | none ↦ (c, ok none)
  | some state ↦
      (let (state', packet) = packet_of c key_id state now in (put_state c key_id state', packet))
]

module _ (hmac : Hmac) where
  -- A packet goes out under the next replay id.
  unfoldable pub transmit : ControlChannel → ControlPacket → ℕ → ControlChannel × List ℕ
  transmit c packet net_time = (
    record c { next_replay_id = (c.next_replay_id + 1) % 2 ^ 32 },
    wrap hmac c.auth packet c.next_replay_id net_time,
  )

  -- One key id of the loop, and the rest of it as a function of the channel.
  abbrev pub served :
      ControlChannel × Result (Option ControlPacket)
      → ℕ
      → (ControlChannel → ControlChannel × Result (Option (List ℕ)))
      → ControlChannel × Result (Option (List ℕ))
  served (c, ok none) net_time rest = rest c
  served (c, ok (some packet)) net_time rest =
      let (c', datagram) = transmit c packet net_time in (c', ok (some datagram))
  served (c, err e) net_time rest = (c, err e)
  served (c, panic) net_time rest = (c, panic)

  unfoldable pub poll_keys :
      List KeyId → ControlChannel → ℕ → ℕ → ControlChannel × Result (Option (List ℕ))
  unfolding next_packet transmit
  poll_keys [] c now net_time = (c, ok none)
  poll_keys (key_id ∷ rest) c now net_time =
      served (next_packet c key_id now) net_time (λ c'. poll_keys rest c' now net_time)

  unfoldable pub poll_transmit : ControlChannel → ℕ → ℕ → ControlChannel × Result (Option (List ℕ))
  unfolding poll_keys key_ids
  poll_transmit c now net_time = poll_keys (key_ids c) c now net_time
