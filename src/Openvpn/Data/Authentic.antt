-- ===== src/Openvpn/Data/Authentic.antt =====
-- Only a datagram that carries the HMAC of its own bytes is opened.
use synology_filestation.Prelude.{
  ℕ, ◌+◌, ◌/◌, ◌^◌, ◌≡◌, refl, not, ◌⊎◌, inl, inr, List, [], ◌∷◌, length, take, drop, All, leb, ltb,
  ◌==◌,
}
use synology_filestation.Prelude.Bytes.{IsByte, from_be}
use synology_filestation.Openvpn.Crypto.{Hmac, Cipher}
use synology_filestation.Openvpn.Error.{Result, ok, err, panic}
use synology_filestation.Openvpn.Error.Ensures.{
  Ensures, returns, fails, Ensures-bind, Ensures-ok_or, Ensures-if,
}
use synology_filestation.Openvpn.Opcode.{Opcode, data_v1, data_v2}
use synology_filestation.Openvpn.Packet.Safety.{from_u8-Ensures, read_key-Ensures}
use synology_filestation.Openvpn.Replay
use synology_filestation.Openvpn.Data.{
  DataChannel, header_end, authenticate, open_sealed, admit, decrypt,
}

-- The tag behind a header of one or four bytes is that of all the bytes after it, under the
-- channel's key.
abbrev pub IsSigned : Hmac → DataChannel → List ℕ → Type 0
IsSigned hmac channel datagram =
    (at : ℕ) × ((at ≡ 1) ⊎ (at ≡ 4))
    × (take 64 (drop at datagram) ≡ hmac.sign channel.keys.decrypt_hmac (drop (at + 64) datagram))

header_end-Ensures : (o : Opcode) → Ensures (λ at. (at ≡ 1) ⊎ (at ≡ 4)) (header_end o)
unfolding header_end
header_end-Ensures data_v1 = returns (inl refl)
header_end-Ensures data_v2 = returns (inr refl)
header_end-Ensures _ = fails

module _ (hmac : Hmac) (cipher : Cipher) (channel : DataChannel) where
  authenticate-Ensures :
      (datagram : List ℕ)
      → All IsByte datagram
      → Ensures (λ _. IsSigned hmac channel datagram) (authenticate hmac cipher channel datagram)
  unfolding authenticate
  authenticate-Ensures [] bytes = fails
  authenticate-Ensures (first ∷ rest) bytes =
      Ensures-bind _ (from_u8-Ensures (first / 2 ^ 3)) λ opcode _.
        Ensures-bind _ (header_end-Ensures opcode) λ at form.
          Ensures-if (leb (length (first ∷ rest)) (at + 64 + 16)) _ _ (λ _. fails)
            λ long. Ensures-bind _ (read_key-Ensures first bytes.0) λ key_id _.
              Ensures-if (not (key_id == channel.key_id)) _ _ (λ _. fails)
                λ same_key.
                  Ensures-if
                    (hmac.verify channel.keys.decrypt_hmac (drop (at + 64) (first ∷ rest))
                      (take 64 (drop at (first ∷ rest))))
                    _ _ (λ verified. returns (at, form, (hmac.verify_iff _ _ _).0 verified))
                    (λ _. fails)

  open_sealed-Ensures :
      (P : Type 0) (datagram : List ℕ) (at : ℕ)
      → P
      → Ensures (λ _. P) (open_sealed hmac cipher channel datagram at)
  unfolding open_sealed
  open_sealed-Ensures P datagram at h =
      Ensures-bind {P = λ _. Unit {0}} _
        (Ensures-ok_or
          (cipher.decrypt channel.keys.decrypt_cipher (take 16 (drop (at + 64) datagram))
            (drop (at + 64 + 16) datagram))
          _ (λ _ _. tt))
        λ plaintext _.
          Ensures-if {A = List ℕ} (ltb (length plaintext) 4) _ _ (λ _. fails) (λ _. returns h)

  admit-Ensures :
      (P : Type 0) (r : Result (List ℕ))
      → Ensures (λ _. P) r
      → Ensures (λ _. P) (admit hmac cipher channel r).1
  unfolding admit
  admit-Ensures P (ok p) (returns h) =
      Ensures-if (Replay.accept channel.replay (from_be (take 4 p)) 0).1 _ _ (λ _. returns h)
        (λ _. fails)
  admit-Ensures P (err e) fails = fails
  admit-Ensures P panic h = elim h [ ]

  -- Whatever the bytes of a datagram, `decrypt` does not panic; and if it returns a payload, the tag
  -- in the datagram, behind a header of one or four bytes, is the one that the channel's key gives to
  -- all the bytes after the tag.
  pub decrypt_safe :
      (datagram : List ℕ)
      → All IsByte datagram
      → Ensures (λ _. IsSigned hmac channel datagram) (decrypt hmac cipher channel datagram).1
  unfolding decrypt
  decrypt_safe datagram bytes = admit-Ensures _ _ (
      Ensures-bind _ (authenticate-Ensures datagram bytes)
        λ at signed. open_sealed-Ensures _ datagram at signed)
