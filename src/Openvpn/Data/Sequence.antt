-- ===== src/Openvpn/Data/Sequence.antt =====
-- Two ends of a data channel, over a network that loses datagrams.
use synology_filestation.Prelude.{
  ℕ, ◌+◌, ◌<◌, ◌^◌, ◌≡◌, refl, ap, Bool, true, false, Option, List, [], ◌∷◌, length, All,
  if◌then◌else◌, ltb, ◌==◌, Bool-cases, inl, inr, arith,
}
use synology_filestation.Openvpn.Crypto.{Hmac, Cipher}
use synology_filestation.Openvpn.Error.{Result, ok, err, panic}
use synology_filestation.Openvpn.KeyId.{KeyId, IsKeyId}
use synology_filestation.Openvpn.Replay
use synology_filestation.Openvpn.Replay.{ReplayWindow}
use synology_filestation.Openvpn.Data.{
  DataChannel, DataKeys, PeerId, new, encrypt_with_iv, decrypt, seal, for_client, for_server, split,
}
use synology_filestation.Openvpn.Data.RoundTrip.{IsPaired, decrypt-seal}

-- A packet of the tunnel, the IV that was drawn for it, and whether the network loses its datagram.
pub record Traffic : Type 0 where
  pub payload : List ℕ
  pub iv : List ℕ
  pub lost : Bool

-- The payloads that are not lost.
unfoldable pub arriving : List Traffic → List (Result (List ℕ))
arriving [] = []
arriving (t ∷ traffic) = let rest = arriving traffic in if t.lost then rest else ok t.payload ∷ rest

-- Each end decrypts with the keys that the other encrypts with.
split_crossed :
    (expansion : List ℕ) (client server : DataKeys)
    → for_client expansion ≡ ok client
    → for_server expansion ≡ ok server
    → (server.decrypt_cipher ≡ client.encrypt_cipher)
      × (server.decrypt_hmac ≡ client.encrypt_hmac)
      × (client.decrypt_cipher ≡ server.encrypt_cipher)
      × (client.decrypt_hmac ≡ server.encrypt_hmac)
unfolding for_client for_server split
split_crossed expansion client server hc hs = ground arith

abbrev advanced : DataChannel → DataChannel
advanced channel = record channel { next_packet_id = channel.next_packet_id + 1 }

module _ (hmac : Hmac) (cipher : Cipher) where
  unfoldable pub receive : DataChannel → Result (List ℕ) → DataChannel × Result (List ℕ)
  receive receiver (ok datagram) = decrypt hmac cipher receiver datagram
  receive receiver (err e) = (receiver, err e)
  receive receiver panic = (receiver, panic)

  -- What the ends return for each packet whose datagram is not lost.
  unfoldable pub exchange : DataChannel → DataChannel → List Traffic → List (Result (List ℕ))
  unfolding receive
  exchange sender receiver [] = []
  exchange sender receiver (t ∷ traffic) =
      let (sender', sent) = encrypt_with_iv hmac cipher sender t.payload t.iv in
      let (receiver', result) = receive receiver sent in
      let rest = exchange sender' (if t.lost then receiver else receiver') traffic in
      if t.lost then rest else result ∷ rest

  encrypts :
      (sender : DataChannel) (payload iv : List ℕ)
      → sender.next_packet_id + 1 < 2 ^ 32
      → encrypt_with_iv hmac cipher sender payload iv
        ≡ (advanced sender, ok (seal hmac cipher sender payload iv))
  unfolding encrypt_with_iv
  encrypts sender payload iv h = ground arith

  -- A window that has seen lower ids only.
  record IsBehind (window : ReplayWindow) (id : ℕ) : Type 0 where
    time : window.time ≡ 0
    highest : window.highest < id

  accepts :
      (window : ReplayWindow) (id : ℕ)
      → IsBehind window id
      → ((Replay.accept window id 0).1 ≡ true) × IsBehind (Replay.accept window id 0).0 (id + 1)
  unfolding Replay.accept
  accepts window id h =
      rw (nonzero, h.time, above) (refl, record { time = refl; highest = omega arith })
    where
      nonzero : (id == 0) ≡ false
      nonzero = ground (arith, h.highest)

      above : ltb window.highest id ≡ true
      above = ground (arith, h.highest)

  exchange_from :
      (traffic : List Traffic) (sender receiver : DataChannel)
      → IsPaired sender receiver
      → IsBehind receiver.replay sender.next_packet_id
      → sender.next_packet_id + length traffic < 2 ^ 32
      → All (λ t. length t.iv ≡ 16) traffic
      → exchange sender receiver traffic ≡ arriving traffic
  unfolding exchange arriving receive
  exchange_from [] sender receiver pair behind room ivs = refl
  exchange_from (t ∷ traffic) sender receiver pair behind room ivs =
      let first = accepts receiver.replay sender.next_packet_id behind in
      let pair' : IsPaired (advanced sender) receiver = record {
        cipher = pair.cipher;
        hmac = pair.hmac;
        same_key_id = pair.same_key_id;
        key_id = pair.key_id;
      } in
      rw
        (
          encrypts sender t.payload t.iv (omega (arith, room)),
          decrypt-seal hmac cipher sender receiver t.payload t.iv pair ivs.0 (omega (arith, room)),
          first.0,
        )
        (elim (Bool-cases t.lost) [
          | inl e ↦ rw e (
              exchange_from traffic (advanced sender) receiver pair'
                (record { time = behind.time; highest = omega arith }) (omega (arith, room)) ivs.1)
          | inr e ↦ rw e (
              ap (ok t.payload ∷◌) (
                exchange_from traffic (advanced sender)
                  (record receiver {
                    replay = (Replay.accept receiver.replay sender.next_packet_id 0).0;
                  })
                  (record {
                    cipher = pair.cipher;
                    hmac = pair.hmac;
                    same_key_id = pair.same_key_id;
                    key_id = pair.key_id;
                  })
                  first.1 (omega (arith, room)) ivs.1))
        ])

  -- Over a key expansion that both ends can split, with a key id of three bits, IVs of 16 bytes
  -- and at most 2 ^ 32 - 2 packets sent, a new server decrypts each datagram of a new client that
  -- is not lost to its payload, and the other way round.
  pub exchange_delivers :
      (expansion : List ℕ) (client server : DataKeys) (key_id : KeyId)
      (to_server to_client : Option PeerId) (traffic : List Traffic)
      → for_client expansion ≡ ok client
      → for_server expansion ≡ ok server
      → IsKeyId key_id
      → All (λ t. length t.iv ≡ 16) traffic
      → length traffic + 1 < 2 ^ 32
      → (exchange (new client to_server key_id) (new server to_client key_id) traffic
          ≡ arriving traffic)
        × (exchange (new server to_client key_id) (new client to_server key_id) traffic
            ≡ arriving traffic)
  unfolding new
  exchange_delivers expansion client server key_id to_server to_client traffic hc hs hk ivs room =
      let crossed = split_crossed expansion client server hc hs in
      (
        exchange_from traffic _ _
            (record { cipher = crossed.0; hmac = crossed.1; same_key_id = refl; key_id = hk })
            (record { time = refl; highest = omega arith }) (omega (arith, room)) ivs,
        exchange_from traffic _ _
            (record { cipher = crossed.2; hmac = crossed.3; same_key_id = refl; key_id = hk })
            (record { time = refl; highest = omega arith }) (omega (arith, room)) ivs,
      )
