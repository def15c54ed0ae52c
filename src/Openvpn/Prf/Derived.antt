-- ===== src/Openvpn/Prf/Derived.antt =====
-- The data channel's keys as the two ends take them from the derived key material.
use synology_filestation.Prelude.{
  ℕ, ◌+◌, ◌≤◌, ◌≡◌, refl, List, length, length-take, length-drop, take, drop, arith,
}
use synology_filestation.Openvpn.Error.{ok}
use synology_filestation.Openvpn.Data.{DataKeys, for_client, for_server, split}
use synology_filestation.Openvpn.Packet.{SessionId}
use synology_filestation.Openvpn.Prf.{KeySource2, Hashes, key_expansion}
use synology_filestation.Openvpn.Prf.Blocks.{length-key_expansion}

-- Two ends whose directions are each other's, with keys of the lengths AES-256 and the HMAC need.
pub record AreOpposite (client server : DataKeys) : Type 0 where
  pub upward_cipher : client.encrypt_cipher ≡ server.decrypt_cipher
  pub upward_hmac : client.encrypt_hmac ≡ server.decrypt_hmac
  pub downward_cipher : server.encrypt_cipher ≡ client.decrypt_cipher
  pub downward_hmac : server.encrypt_hmac ≡ client.decrypt_hmac
  pub upward_lengths : (length client.encrypt_cipher ≡ 32) × (length client.encrypt_hmac ≡ 64)
  pub downward_lengths : (length client.decrypt_cipher ≡ 32) × (length client.decrypt_hmac ≡ 64)

length-slice :
    (bytes : List ℕ) (at n : ℕ) → at + n ≤ length bytes → length (take n (drop at bytes)) ≡ n
length-slice bytes at n fits = omega (arith, length-take n (drop at bytes), length-drop at bytes)

split_opposite :
    (bytes : List ℕ)
    → length bytes ≡ 256
    → (client : DataKeys) × (server : DataKeys) × ((for_client bytes ≡ ok client)
        × (for_server bytes ≡ ok server)
        × AreOpposite client server)
unfolding for_client for_server split
split_opposite bytes long = rw long (
  _,
  _,
  (
    refl,
    refl,
    record {
      upward_cipher = refl;
      upward_hmac = refl;
      downward_cipher = refl;
      downward_hmac = refl;
      upward_lengths =
          (length-slice bytes 0 32 (omega arith), length-slice bytes 64 64 (omega arith));
      downward_lengths =
          (length-slice bytes 128 32 (omega arith), length-slice bytes 192 64 (omega arith));
    },
  ),
)

-- Whatever the random material and the two session ids are, the derived bytes are enough for the
-- keys of both ends, and the keys that the client takes are those that the server takes with the
-- directions exchanged: 32 bytes for a cipher, 64 for an HMAC.
pub key_expansion-opposite :
    (hashes : Hashes) (source : KeySource2) (client_session server_session : SessionId)
    → (client : DataKeys) × (server : DataKeys) × ((for_client
            (key_expansion hashes source client_session server_session)
          ≡ ok client)
        × (for_server (key_expansion hashes source client_session server_session) ≡ ok server)
        × AreOpposite client server)
key_expansion-opposite hashes source client_session server_session =
    split_opposite (key_expansion hashes source client_session server_session)
      (length-key_expansion hashes source client_session server_session)
