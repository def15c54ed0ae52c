-- ===== src/Openvpn/Channel/Runs.antt =====
-- Runs of a channel with a checksum for the HMAC, and its theorems at concrete channels.
use synology_filestation.Prelude.{
  ℕ, ◌≡◌, refl, some, List, [], ◌∷◌, replicate, range?, contains, arith,
}
use synology_filestation.Prelude.Bytes.{from_be, same}
use synology_filestation.Openvpn.Crypto.Sample.{sample_hmac, sign}
use synology_filestation.Openvpn.Error.{ok, err, bad_hmac}
use synology_filestation.Openvpn.Error.Ensures.{Ensures}
use synology_filestation.Openvpn.KeyId
use synology_filestation.Openvpn.Opcode.{as_u8, control_hard_reset_server_v2}
use synology_filestation.Openvpn.Packet.{ControlPacket, decode, encode_prefix, encode_tail}
use synology_filestation.Openvpn.Replay
use synology_filestation.Openvpn.Replay.{ReplayWindow}
use synology_filestation.Openvpn.TlsAuth.{TlsAuth, wrap, unwrap, verify}
use synology_filestation.Openvpn.Reliable.Send.Wakeup.{reached}
use synology_filestation.Openvpn.Channel.{
  ControlChannel, state_of, new, open_channel, poll_transmit, next_wakeup,
}
use synology_filestation.Openvpn.Channel.Handle.{handle}
use synology_filestation.Openvpn.Channel.Keys.{IsKeyed}
use synology_filestation.Openvpn.Channel.Refusal.{handle_refused}
use synology_filestation.Openvpn.Channel.Wakeup.{sends, poll_transmit-next_wakeup}

abbrev client_auth : TlsAuth
client_auth = record { out_key = 1 ∷ 2 ∷ []; in_key = 3 ∷ [] }

abbrev server_auth : TlsAuth
server_auth = record { out_key = 3 ∷ []; in_key = 1 ∷ 2 ∷ [] }

abbrev ours : List ℕ
ours = replicate 8 1

abbrev theirs : List ℕ
theirs = replicate 8 2

abbrev client : ControlChannel
client = new client_auth ours 2

-- The server's answer to the opening message.
abbrev server_reset : ControlPacket
server_reset = record {
  opcode = control_hard_reset_server_v2;
  key_id = 0;
  session_id = theirs;
  acks = some (record { ids = 0 ∷ []; session_id = ours });
  packet_id = some 0;
  payload = [];
}

answered_run :
    (handle sample_hmac (open_channel client) (wrap sample_hmac server_auth server_reset 1 1700)).1
    ≡ ok tt
unfolding handle unwrap wrap open_channel verify range? encode_prefix sign encode_tail same as_u8
    decode KeyId.new Replay.accept from_be contains state_of
answered_run = refl

forged_run : (handle sample_hmac client (replicate 100 0)).1 ≡ err bad_hmac
unfolding handle unwrap verify same sign range?
forged_run = refl

handle_refused_example :
    (window : ReplayWindow) × ((handle sample_hmac client (replicate 100 0)).0
      ≡ record client { replay = window })
handle_refused_example =
    handle_refused sample_hmac client (replicate 100 0) bad_hmac forged_run (λ theirs ours e. cc)

client-IsKeyed : IsKeyed (open_channel client)
unfolding open_channel contains
client-IsKeyed = record { other = refl; primary = refl; pending = λ p e. cc }

poll_transmit-next_wakeup_example :
    sends (poll_transmit sample_hmac (open_channel client) 7 1700).1
    ≡ reached (next_wakeup (open_channel client) 5) 7
poll_transmit-next_wakeup_example =
    poll_transmit-next_wakeup sample_hmac (open_channel client) 5 7 1700 client-IsKeyed
      (omega arith)
