-- ===== src/Openvpn/TlsAuth/Authentic.antt =====
-- Only a datagram that carries the HMAC of its own bytes is taken.
use synology_filestation.Prelude.{
  ℕ, ◌-◌, ◌≡◌, refl, sym, ◌∙◌, some, List, ◌++◌, take, drop, range?, All, All-take, arith,
}
use synology_filestation.Prelude.Bytes.{IsByte}
use synology_filestation.Openvpn.Crypto.{Hmac}
use synology_filestation.Openvpn.Error.Ensures.{
  Ensures, returns, fails, Ensures-bind, Ensures-ok_or, Ensures-if,
}
use synology_filestation.Openvpn.Packet.{ControlPacket}
use synology_filestation.Openvpn.Packet.Safety.{IsDecoded, decode_safe}
use synology_filestation.Openvpn.TlsAuth.{TlsAuth, TlsAuthHeader, unwrap, verify}

-- The bytes that the HMAC covers, in the order in which it covers them.
abbrev pub signed_bytes : List ℕ → List ℕ
signed_bytes datagram = take 8 (drop 73 datagram) ++ (take 9 datagram ++ drop 81 datagram)

-- The tag in the datagram is that of its bytes, under the receiver's key.
abbrev pub IsSigned : Hmac → TlsAuth → List ℕ → Type 0
IsSigned hmac auth datagram =
    take 64 (drop 9 datagram) ≡ hmac.sign auth.in_key (signed_bytes datagram)

range?-some : (a b : ℕ) (xs s : List ℕ) → range? a b xs ≡ some s → s ≡ take (b - a) (drop a xs)
unfolding range?
range?-some a b xs s e = ground arith

verify-Ensures :
    (hmac : Hmac) (key message tag : List ℕ)
    → Ensures (λ _. tag ≡ hmac.sign key message) (verify hmac key message tag)
unfolding verify
verify-Ensures hmac key message tag =
    Ensures-if (hmac.verify key message tag) _ _
      (λ e. returns ((hmac.verify_iff key message tag).0 e)) (λ _. fails)

-- Whatever the bytes of a datagram, `unwrap` does not panic; and if it returns a packet, the tag in
-- the datagram is the one that the receiver's key gives to the datagram's other bytes, and the
-- packet is well-formed.
pub unwrap_safe :
    (hmac : Hmac) (auth : TlsAuth) (datagram : List ℕ)
    → All IsByte datagram
    → Ensures
        (λ (r : ControlPacket × TlsAuthHeader). IsSigned hmac auth datagram × IsDecoded r.0)
        (unwrap hmac auth datagram)
unfolding unwrap
unwrap_safe hmac auth datagram bytes =
    Ensures-bind _ (Ensures-ok_or (range? 0 9 datagram) _ (λ s e. range?-some 0 9 datagram s e))
      λ prefix hp.
        Ensures-bind _
          (Ensures-ok_or (range? 9 73 datagram) _ (λ s e. range?-some 9 73 datagram s e))
          λ mac hm.
            Ensures-bind _
              (Ensures-ok_or (range? 73 81 datagram) _ (λ s e. range?-some 73 81 datagram s e))
              λ replay hr. Ensures-bind _ (verify-Ensures hmac auth.in_key _ mac) λ _ signed.
                Ensures-bind _ (decode_safe prefix _ (rw hp (All-take IsByte 9 datagram bytes)))
                  λ packet decoded. returns ((sym hm ∙ signed) ∙ rw (hp, hr) refl, decoded)
