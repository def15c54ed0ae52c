-- ===== src/Openvpn/Session/Runs.antt =====
-- Runs of a session over pipes, and its theorems at concrete sessions.
use synology_filestation.Prelude.{
  range?, ℕ, ◌+◌, ◌⊎◌, zero, suc, ◌≡◌, refl, true, Option, some, none, List, [], ◌∷◌, replicate,
  contains, All, arith,
}
use synology_filestation.Prelude.Bytes.{IsByte, same}
use synology_filestation.Prelude.Keyed.{starts_with}
use synology_filestation.Openvpn.Channel
use synology_filestation.Openvpn.Channel.{
  ControlChannel, KeyState, new_state, open_channel, send_control, can_send_for, state_of,
  put_state,
}
use synology_filestation.Openvpn.Channel.Keys.{IsKeyed}
use synology_filestation.Openvpn.Crypto.Sample.{sample_hmac, sample_cipher, sign}
use synology_filestation.Openvpn.Data
use synology_filestation.Openvpn.Data.{
  DataChannel, DataKeys, for_client, encrypt_with_iv, decrypt, authenticate, split,
}
use synology_filestation.Openvpn.Error.{Result, ok, ◌>>=◌}
use synology_filestation.Openvpn.Error.Ensures.{returns}
use synology_filestation.Openvpn.KeyId
use synology_filestation.Openvpn.Prf.Sample.{sample_source}
use synology_filestation.Openvpn.Reliable.Send
use synology_filestation.Openvpn.Reliable.Send.{is_full, next_due}
use synology_filestation.Openvpn.Reliable.Send.Wakeup.{reached}
use synology_filestation.Prelude.Tree.{insert}
use synology_filestation.Openvpn.Session.{
  Session, SessionConfig, Renegotiation, Phase, awaiting_push, ready, new,
}
use synology_filestation.Openvpn.Session.Handle.{handle, feed, record_loop, read_records}
use synology_filestation.Openvpn.Session.Keys.{read_loop, read_all}
use synology_filestation.Openvpn.Session.Rounds.{enough_rounds}
use synology_filestation.Openvpn.Session.Rounds.Feeding.{Settles, Stalls}
use synology_filestation.Openvpn.Channel.Fewer.{held}
use synology_filestation.Openvpn.Session.Outgoing
use synology_filestation.Openvpn.Session.Outgoing.{Outbox, drain_into}
use synology_filestation.Openvpn.Session.Outgoing.Conserved.{Drained, drain_into-Drained}
use synology_filestation.Openvpn.Session.Push.{receive_push_reply, accept_reply, open_tunnel}
use synology_filestation.Openvpn.Session.Renegotiate.{take_over}
use synology_filestation.Openvpn.Session.Sample.{Pipe, sample_suite}
use synology_filestation.Openvpn.Session.Traffic.{send_payload, receive_payload, unless_ping}
use synology_filestation.Openvpn.Session.Transmit.{write_loop, collect, poll_transmit, next_wakeup}
use synology_filestation.Openvpn.Session.Tunnel.InFlight.{receive_payload-take_over}
use synology_filestation.Openvpn.Session.Tunnel.Run.{
  SessionOp, hears, polls, sends, receives, run, use_new, EndsWell, run-IsConsistent,
}
use synology_filestation.Openvpn.Session.Wakeup.{acts, poll_transmit-reached}
use synology_filestation.Openvpn.StaticKey.{inverse, in_hmac}
use synology_filestation.Openvpn.TlsAuth.{unwrap}

abbrev zeros : ℕ → List ℕ
zeros n = replicate n 0

abbrev config : SessionConfig
config = record {
  static_key = zeros 256;
  key_direction = inverse;
  session_id = replicate 8 1;
  tls_timeout = 2000000000;
  peer_timeout = none;
  credentials = none;
}

-- A connection with a `ClientHello` of three bytes.
abbrev greeting : Pipe
greeting = record { outgoing = 22 ∷ 3 ∷ 1 ∷ []; incoming = [] }

abbrev channel : ControlChannel
channel = Channel.new (record { out_key = 1 ∷ []; in_key = 2 ∷ [] }) (replicate 8 1) 2000000000

abbrev session_at : Phase → Option DataChannel → ControlChannel → List ℕ → Session Pipe
session_at phase data_channel c inbound = record {
  channel = c;
  tls = greeting;
  outbox = Outgoing.empty;
  renegotiation = none;
  phase = phase;
  source = sample_source;
  credentials = none;
  inbound = inbound;
  keys = some (zeros 256);
  push = none;
  peer_timeout = none;
  push_requested_at = none;
  push_first_requested_at = none;
  data_channel = data_channel;
  previous_data = none;
  last_sent = none;
  failure = none;
}

abbrev a_payload : Outbox
a_payload = record { pending = 5 ∷ 6 ∷ 7 ∷ [] }

drain_into-Drained_example :
    Drained a_payload channel 0
      (drain_into a_payload channel 0).0
      (drain_into a_payload channel 0).1
drain_into-Drained_example = drain_into-Drained a_payload channel 0

abbrev uses : List (SessionOp Pipe)
uses =
    polls 5 1700 (zeros 16)
    ∷ hears (zeros 100) (ok greeting) sample_source
    ∷ receives (48 ∷ zeros 90)
    ∷ sends 9 (69 ∷ []) (zeros 16)
    ∷ []

zeros_bytes : (n : ℕ) → All IsByte (zeros n)
zeros_bytes zero = tt
zeros_bytes (suc n) = (omega arith, zeros_bytes n)

abbrev opened : Result (Session Pipe)
opened = new config (ok greeting) sample_source

run-IsConsistent_example : EndsWell sample_suite (use_new sample_suite 0 opened uses)
run-IsConsistent_example =
    run-IsConsistent sample_suite config (ok greeting) sample_source 0 uses (returns tt)
      (tt, ((zeros_bytes 100, returns tt), ((omega arith, zeros_bytes 90), (tt, tt))))

ended_run : (use_new sample_suite 0 opened uses ≡ none) → ⊥
unfolding new run poll_transmit Channel.poll_transmit Outgoing.push send_control Send.queue is_full
    insert next_due handle unwrap range? same sign in_hmac receive_payload send_payload
ended_run e = cc

-- The push reply opens the tunnel.
abbrev answered : Session Pipe
answered = session_at awaiting_push none channel (
    b'P' ∷ b'U' ∷ b'S' ∷ b'H' ∷ b'_' ∷ b'R' ∷ b'E' ∷ b'P' ∷ b'L' ∷ b'Y' ∷ b',' ∷ b'p' ∷ b'e' ∷ b'e'
    ∷ b'r' ∷ b'-' ∷ b'i' ∷ b'd' ∷ b' ' ∷ b'9' ∷ b',' ∷ b'c' ∷ b'i' ∷ b'p' ∷ b'h' ∷ b'e' ∷ b'r'
    ∷ b' ' ∷ b'A' ∷ b'E' ∷ b'S' ∷ b'-' ∷ b'2' ∷ b'5' ∷ b'6' ∷ b'-' ∷ b'C' ∷ b'B' ∷ b'C' ∷ 0 ∷ [])

opened_run : (receive_push_reply sample_suite answered).0.phase ≡ ready
unfolding receive_push_reply starts_with same for_client split accept_reply open_tunnel
opened_run = refl

-- A tunnel under the first key id, and a channel with a generation under the next.
abbrev keys : DataKeys
keys = record {
  encrypt_cipher = zeros 32;
  encrypt_hmac = zeros 64;
  decrypt_cipher = zeros 32;
  decrypt_hmac = zeros 64;
}

abbrev tunnel : DataChannel
tunnel = Data.new keys none 0

abbrev next : KeyState
next = new_state 1 2000000000

abbrev rotating : Session Pipe
rotating = session_at ready (some tunnel) (record channel { pending = some next }) []

abbrev renegotiation : Renegotiation Pipe
renegotiation = record {
  key_id = 1;
  tls = greeting;
  outbox = Outgoing.empty;
  source = sample_source;
  inbound = [];
  sent_key_material = true;
}

-- An IP packet that the tunnel of before sealed.
abbrev in_flight : List ℕ
in_flight = Data.seal sample_hmac sample_cipher tunnel (69 ∷ 1 ∷ []) (zeros 16)

authentic_run : authenticate sample_hmac sample_cipher tunnel in_flight ≡ ok 1
unfolding authenticate Data.seal sign same KeyId.new Data.new
authentic_run = refl

keys_run : for_client (zeros 256) ≡ ok keys
unfolding for_client split
keys_run = refl

tunnel_key_run : tunnel.key_id ≡ 0
unfolding Data.new
tunnel_key_run = refl

receive_payload-take_over_example :
    (receive_payload sample_suite
      (take_over rotating renegotiation sample_source (zeros 256) 0).0
      in_flight).1
    ≡ ((decrypt sample_hmac sample_cipher tunnel in_flight).1 >>= λ bytes. ok (unless_ping bytes))
receive_payload-take_over_example =
    receive_payload-take_over sample_suite rotating renegotiation sample_source (zeros 256) 0 keys
      tunnel next in_flight 1 keys_run refl refl (rw tunnel_key_run refl) authentic_run

-- A new session, before its first poll.
abbrev fresh : Session Pipe
fresh = session_at Phase.tls none (open_channel channel) []

fresh-IsKeyed : IsKeyed (open_channel channel)
unfolding open_channel contains
fresh-IsKeyed = record { other = refl; primary = refl; pending = λ p e. cc }

polled_run : acts (poll_transmit sample_suite fresh 7 1700 (zeros 16)) ≡ true
unfolding poll_transmit open_channel state_of contains Channel.poll_transmit Outgoing.push
    send_control Send.queue is_full insert next_due
polled_run = refl

poll_transmit-reached_example : reached (next_wakeup sample_suite fresh 5) 7 ≡ true
poll_transmit-reached_example =
    poll_transmit-reached sample_suite fresh 5 7 1700 (zeros 16) fresh-IsKeyed (omega arith)
      (λ t e. cc) refl (λ e. cc) polled_run

enough_rounds_example :
    (write_loop sample_suite (3 + suc 3) greeting a_payload
      ≡ collect sample_suite greeting a_payload)
    × (read_loop sample_suite (3 + suc 0) greeting [] ≡ read_all sample_suite greeting [])
    × (Settles sample_suite greeting (1 ∷ 2 ∷ []) ⊎ Stalls sample_suite greeting (1 ∷ 2 ∷ []))
    × (record_loop sample_suite 0 (3 + suc (held fresh.channel)) fresh
        ≡ read_records sample_suite 0 fresh)
enough_rounds_example = enough_rounds sample_suite fresh greeting a_payload [] (1 ∷ 2 ∷ []) 0 3

-- The pipe takes the whole record.
fed_run :
    feed sample_suite 5 greeting (1 ∷ 2 ∷ [])
    ≡ some (record greeting { incoming = 1 ∷ 2 ∷ [] }, ok tt)
unfolding feed
fed_run = refl
