-- ===== src/Openvpn/Data/RoundTrip.antt =====
-- What one end encrypts the other decrypts.
use synology_filestation.Prelude.{
  ℕ, suc, ◌+◌, ◌*◌, ◌/◌, ◌%◌, ◌^◌, ◌≤◌, ◌≡◌, refl, sym, ap, ◌∙◌, true, false, Option, some, none,
  List, [], ◌∷◌, ◌++◌, append_assoc, length, length-append, take, drop, drop-append, take-append,
  ==_refl, bit_and, bit_or, if◌then◌else◌, leb, le→leb, arith,
}
use synology_filestation.Prelude.Bytes.{IsU32, be32, from_be-be32}
use synology_filestation.Openvpn.Crypto.{Hmac, Cipher}
use synology_filestation.Openvpn.Error.{ok, err, replayed}
use synology_filestation.Openvpn.KeyId
use synology_filestation.Openvpn.KeyId.{IsKeyId}
use synology_filestation.Openvpn.Opcode.{Opcode, as_u8, data_v1, data_v2}
use synology_filestation.Openvpn.Packet.{from_u8}
use synology_filestation.Openvpn.Packet.Header.{from_u8-as_u8, header_fields, as_u8-le}
use synology_filestation.Openvpn.Replay
use synology_filestation.Openvpn.Data.{
  DataChannel, PeerId, authenticate, open_sealed, admit, decrypt, seal, header, header_end,
}

-- A datagram in its parts.
module _ (head tag iv text : List ℕ) (at : ℕ) (hh : length head ≡ at) (ht : length tag ≡ 64)
    (hi : length iv ≡ 16) where
  abbrev datagram : List ℕ
  datagram = head ++ (tag ++ (iv ++ text))

  tag_part : take 64 (drop at datagram) ≡ tag
  tag_part = rw (drop-append at head (tag ++ (iv ++ text)) hh) (take-append 64 tag (iv ++ text) ht)

  body_part : drop (at + 64) datagram ≡ iv ++ text
  body_part =
      ap (drop (at + 64)) (sym (append_assoc head tag (iv ++ text)))
      ∙ drop-append (at + 64) (head ++ tag) (iv ++ text)
          (omega (arith, hh, ht, length-append head tag))

  iv_part : take 16 (drop (at + 64) datagram) ≡ iv
  iv_part = rw body_part (take-append 16 iv text hi)

  text_part : drop (at + 64 + 16) datagram ≡ text
  text_part =
      ap (drop (at + 64 + 16))
        (sym (append_assoc head tag (iv ++ text)) ∙ sym (append_assoc (head ++ tag) iv text))
      ∙ drop-append (at + 64 + 16) ((head ++ tag) ++ iv) text
          (omega (arith, hh, ht, hi, length-append head tag, length-append (head ++ tag) iv))

  length-datagram : length datagram ≡ at + 64 + 16 + length text
  length-datagram = omega (
    arith,
    hh,
    ht,
    hi,
    length-append head (tag ++ (iv ++ text)),
    length-append tag (iv ++ text),
    length-append iv text,
  )

module _ (hmac : Hmac) (cipher : Cipher) (channel : DataChannel) where
  authenticate_parts :
      (o : Opcode) (at first : ℕ) (hs tag iv text : List ℕ)
      → from_u8 (first / 2 ^ 3) ≡ ok o
      → header_end o ≡ ok at
      → KeyId.new (bit_and first 7) ≡ some channel.key_id
      → length (first ∷ hs) ≡ at
      → length tag ≡ 64
      → length iv ≡ 16
      → 1 ≤ length text
      → hmac.verify channel.keys.decrypt_hmac (iv ++ text) tag ≡ true
      → authenticate hmac cipher channel ((first ∷ hs) ++ (tag ++ (iv ++ text))) ≡ ok at
  unfolding authenticate
  authenticate_parts o at first hs tag iv text ho ha hk hh ht hi some_text verified =
      let long : leb (length (first ∷ (hs ++ (tag ++ (iv ++ text))))) (at + 64 + 16) ≡ false =
        ground (arith, length-datagram (first ∷ hs) tag iv text at hh ht hi) in
      rw (
        ho,
        ha,
        long,
        hk,
        ==_refl channel.key_id,
        body_part (first ∷ hs) tag iv text at hh ht hi,
        tag_part (first ∷ hs) tag iv text at hh ht hi,
        verified,
      )

new_small : (k : ℕ) → IsKeyId k → KeyId.new k ≡ some k
unfolding KeyId.new
new_small k h = rw (le→leb k 7 h) refl

-- Two ends that agree: the receiver opens with the keys that the sender seals with, under one key id.
pub record IsPaired (sender receiver : DataChannel) : Type 0 where
  pub cipher : receiver.keys.decrypt_cipher ≡ sender.keys.encrypt_cipher
  pub hmac : receiver.keys.decrypt_hmac ≡ sender.keys.encrypt_hmac
  pub same_key_id : receiver.key_id ≡ sender.key_id
  pub key_id : IsKeyId sender.key_id

module _ (hmac : Hmac) (cipher : Cipher) (sender receiver : DataChannel) (payload iv : List ℕ) where
  abbrev plaintext : List ℕ
  plaintext = be32 sender.next_packet_id ++ payload

  abbrev ciphertext : List ℕ
  ciphertext = cipher.encrypt sender.keys.encrypt_cipher iv plaintext

  abbrev tag : List ℕ
  tag = hmac.sign sender.keys.encrypt_hmac (iv ++ ciphertext)

  header_authentic :
      (o : Opcode) (at : ℕ) (hs : List ℕ)
      → header_end o ≡ ok at
      → suc (length hs) ≡ at
      → IsPaired sender receiver
      → length iv ≡ 16
      → authenticate hmac cipher receiver
          ((bit_or (as_u8 o * 2 ^ 3 % 256) sender.key_id ∷ hs) ++ (tag ++ (iv ++ ciphertext)))
        ≡ ok at
  header_authentic o at hs ho hh pair hi =
      let fields = header_fields (as_u8 o) sender.key_id (as_u8-le o) pair.key_id in
      authenticate_parts hmac cipher receiver o at _ hs tag iv ciphertext
        (rw (fields.0) (from_u8-as_u8 o)) ho
        (rw (fields.1, pair.same_key_id) (new_small sender.key_id pair.key_id)) hh
        (hmac.length-sign _ _) hi (cipher.encrypt_some _ _ _)
        (rw (pair.hmac) ((hmac.verify_iff sender.keys.encrypt_hmac (iv ++ ciphertext) tag).1 refl))

  open_sealed_parts :
      (head : List ℕ) (at : ℕ)
      → length head ≡ at
      → IsPaired sender receiver
      → length iv ≡ 16
      → open_sealed hmac cipher receiver (head ++ (tag ++ (iv ++ ciphertext))) at ≡ ok plaintext
  unfolding open_sealed
  open_sealed_parts head at hh pair hi =
      let signed = hmac.length-sign sender.keys.encrypt_hmac (iv ++ ciphertext) in
      rw
        (
          iv_part head tag iv ciphertext at hh signed hi,
          text_part head tag iv ciphertext at hh signed hi,
          pair.cipher,
          cipher.decrypt-encrypt sender.keys.encrypt_cipher iv plaintext,
        )
        (ground arith)

  admit-plaintext :
      IsU32 sender.next_packet_id
      → admit hmac cipher receiver (ok plaintext) ≡ (
          let (window, accepted) = Replay.accept receiver.replay sender.next_packet_id 0 in
          (record receiver { replay = window }, if accepted then ok payload else err replayed))
  unfolding admit
  admit-plaintext h = rw (from_be-be32 sender.next_packet_id h) refl

  -- The receiver of a sealed packet returns its payload, unless the replay window refuses its id; the
  -- window is all that changes.
  pub decrypt-seal :
      IsPaired sender receiver
      → length iv ≡ 16
      → IsU32 sender.next_packet_id
      → decrypt hmac cipher receiver (seal hmac cipher sender payload iv) ≡ (
          let (window, accepted) = Replay.accept receiver.replay sender.next_packet_id 0 in
          (record receiver { replay = window }, if accepted then ok payload else err replayed))
  unfolding decrypt seal header header_end
  decrypt-seal pair hi h = by_form sender.peer_id refl
    where
      by_form :
          (form : Option PeerId)
          → sender.peer_id ≡ form
          → decrypt hmac cipher receiver (seal hmac cipher sender payload iv) ≡ (
              let (window, accepted) = Replay.accept receiver.replay sender.next_packet_id 0 in
              (record receiver { replay = window }, if accepted then ok payload else err replayed))
      by_form none e = rw (
        e,
        header_authentic data_v1 1 [] refl refl pair hi,
        open_sealed_parts (_ ∷ []) 1 refl pair hi,
        admit-plaintext h,
      )
      by_form (some id) e = rw (
        e,
        header_authentic data_v2 4 (drop 1 (be32 id)) refl refl pair hi,
        open_sealed_parts (_ ∷ drop 1 (be32 id)) 4 refl pair hi,
        admit-plaintext h,
      )
