-- ===== src/Openvpn/Prf/Runs.antt =====
-- Runs of the key derivation, with hashes that can be evaluated.
use synology_filestation.Prelude.{◌≡◌, refl, [], ◌∷◌, length, take, replicate, arith}
use synology_filestation.Openvpn.Crypto.Sample.{checksum}
use synology_filestation.Openvpn.Error.{ok}
use synology_filestation.Openvpn.Data.{DataKeys, for_client, for_server}
use synology_filestation.Openvpn.Prf.{p_hash, key_expansion, xor_into}
use synology_filestation.Openvpn.Prf.Sample.{flat_hash, sample_hashes, sample_source}
use synology_filestation.Openvpn.Prf.Blocks.{blocks_from, p_hash-blocks_from}
use synology_filestation.Openvpn.Prf.Derived.{AreOpposite, key_expansion-opposite}

-- Three outputs of two bytes fill five.
p_hash_run : length (p_hash (flat_hash 2) (1 ∷ []) (2 ∷ []) 5) ≡ 5
unfolding p_hash checksum
p_hash_run = refl

xor_run : xor_into (255 ∷ 6 ∷ []) (15 ∷ 3 ∷ []) ≡ 240 ∷ 5 ∷ []
unfolding xor_into
xor_run = refl

p_hash-blocks_from_example :
    p_hash (flat_hash 2) (1 ∷ []) (2 ∷ []) 5
    ≡ take 5 (blocks_from (flat_hash 2 (1 ∷ [])) (2 ∷ []) 1 3)
p_hash-blocks_from_example =
    p_hash-blocks_from (flat_hash 2) (1 ∷ []) (2 ∷ []) 2 5 3 (λ message. refl) (omega arith)
      (omega arith)

key_expansion-opposite_example :
    (client : DataKeys) × (server : DataKeys) × ((for_client
          (key_expansion sample_hashes sample_source (replicate 8 1) (replicate 8 2))
        ≡ ok client)
      × (for_server (key_expansion sample_hashes sample_source (replicate 8 1) (replicate 8 2))
          ≡ ok server)
      × AreOpposite client server)
key_expansion-opposite_example =
    key_expansion-opposite sample_hashes sample_source (replicate 8 1) (replicate 8 2)
