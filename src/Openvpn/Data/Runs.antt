-- ===== src/Openvpn/Data/Runs.antt =====
-- Runs of the data channel with a checksum for the HMAC and a marker byte for the cipher.
use synology_filestation.Prelude.{
  ℕ, ◌≡◌, refl, true, false, some, none, List, [], ◌∷◌, ◌++◌, replicate, arith,
}
use synology_filestation.Openvpn.Crypto.Sample.{sample_hmac, sample_cipher, sign}
use synology_filestation.Openvpn.Error.{
  ok, err, replayed, packet_id_exhausted, unexpected_data_opcode,
}
use synology_filestation.Prelude.Bytes.{from_be, same}
use synology_filestation.Openvpn.Error.Ensures.{Ensures}
use synology_filestation.Openvpn.Replay
use synology_filestation.Openvpn.KeyId
use synology_filestation.Openvpn.Opcode.{control_v1}
use synology_filestation.Openvpn.Data.{
  DataChannel, DataKeys, new, for_client, for_server, split, encrypt_with_iv, decrypt, authenticate,
  admit, open_sealed,
}
use synology_filestation.Openvpn.Data.Replayed.{decrypt_all, replay_refused}
use synology_filestation.Openvpn.Data.Authentic.{IsSigned, decrypt_safe}
use synology_filestation.Openvpn.Data.Sequence.{Traffic, exchange, arriving, exchange_delivers}

abbrev zeros : ℕ → List ℕ
zeros n = replicate n 0

abbrev flat_keys : DataKeys
flat_keys = record {
  encrypt_cipher = zeros 32;
  encrypt_hmac = zeros 64;
  decrypt_cipher = zeros 32;
  decrypt_hmac = zeros 64;
}

client_run : for_client (zeros 256) ≡ ok flat_keys
unfolding for_client split
client_run = refl

server_run : for_server (zeros 256) ≡ ok flat_keys
unfolding for_server split
server_run = refl

abbrev three_packets : List Traffic
three_packets =
    record { payload = 69 ∷ 1 ∷ []; iv = zeros 16; lost = false }
    ∷ record { payload = []; iv = replicate 16 9; lost = true }
    ∷ record { payload = 69 ∷ []; iv = replicate 16 7; lost = false }
    ∷ []

arriving_run : arriving three_packets ≡ ok (69 ∷ 1 ∷ []) ∷ ok (69 ∷ []) ∷ []
unfolding arriving
arriving_run = refl

exchange_delivers_example :
    (exchange sample_hmac sample_cipher
        (new flat_keys (some 5) 1)
        (new flat_keys none 1)
        three_packets
      ≡ arriving three_packets)
    × (exchange sample_hmac sample_cipher
          (new flat_keys none 1)
          (new flat_keys (some 5) 1)
          three_packets
        ≡ arriving three_packets)
exchange_delivers_example =
    exchange_delivers sample_hmac sample_cipher (zeros 256) flat_keys flat_keys 1 (some 5) none
      three_packets client_run server_run (omega arith) (refl, (refl, (refl, tt))) (omega arith)

abbrev spent : DataChannel
spent = record {
  keys = flat_keys;
  peer_id = none;
  key_id = 0;
  next_packet_id = 4294967295;
  replay = record { time = 0; highest = 0; seen = 0 };
}

spent_run :
    encrypt_with_iv sample_hmac sample_cipher spent [] (zeros 16) ≡ (spent, err packet_id_exhausted)
unfolding encrypt_with_iv
spent_run = refl

control_run :
    (decrypt sample_hmac sample_cipher spent (32 ∷ [])).1 ≡ err (unexpected_data_opcode control_v1)
unfolding decrypt authenticate admit
control_run = refl

-- A packet that the other end sealed under the id 1.
abbrev fresh_server : DataChannel
fresh_server = record {
  keys = flat_keys;
  peer_id = none;
  key_id = 1;
  next_packet_id = 1;
  replay = record { time = 0; highest = 0; seen = 0 };
}

abbrev sealed_packet : List ℕ
sealed_packet = 49 ∷ (sample_hmac.sign (zeros 64) (zeros 16 ++ body) ++ (zeros 16 ++ body))
  where
    body : List ℕ
    body = 1 ∷ 0 ∷ 0 ∷ 0 ∷ 1 ∷ 69 ∷ []

sealed_run :
    (decrypt sample_hmac sample_cipher
      (decrypt_all sample_hmac sample_cipher (new flat_keys none 1) ((32 ∷ []) ∷ []))
      sealed_packet).1
    ≡ ok (69 ∷ [])
unfolding decrypt decrypt_all authenticate admit open_sealed new Replay.accept sign same from_be
    KeyId.new
sealed_run = refl

replay_refused_example :
    (decrypt sample_hmac sample_cipher
      (decrypt_all sample_hmac sample_cipher
        (new flat_keys none 1)
        (((32 ∷ []) ∷ []) ++ (sealed_packet ∷ ((48 ∷ []) ∷ []))))
      sealed_packet).1
    ≡ err replayed
replay_refused_example =
    replay_refused sample_hmac sample_cipher flat_keys none 1 ((32 ∷ []) ∷ []) ((48 ∷ []) ∷ [])
      sealed_packet (69 ∷ []) sealed_run

decrypt_safe_example :
    Ensures
      (λ _. IsSigned sample_hmac spent (zeros 90))
      (decrypt sample_hmac sample_cipher spent (zeros 90)).1
decrypt_safe_example = decrypt_safe sample_hmac sample_cipher spent (zeros 90) (omega arith)
