-- ===== src/Openvpn/Crypto/Sample.antt =====
-- A tag and a cipher that can be evaluated and that keep the interface, to run the code with.
use synology_filestation.Prelude.{
  ℕ, ◌+◌, ◌*◌, ◌%◌, ◌≡◌, refl, Option, some, none, List, [], ◌∷◌, ◌++◌, length, replicate, arith,
}
use synology_filestation.Prelude.Bytes.{same, same_sound, same_refl}
use synology_filestation.Openvpn.Crypto.{Hmac, Cipher}

unfoldable pub checksum : List ℕ → ℕ
checksum [] = 7
checksum (b ∷ bytes) = (checksum bytes * 31 + b) % 256

unfoldable pub sign : List ℕ → List ℕ → List ℕ
unfolding checksum
sign key message = checksum (key ++ message) ∷ replicate 63 0

pub length-sign : (key message : List ℕ) → length (sign key message) ≡ 64
unfolding sign
length-sign key message = refl

abbrev pub sample_hmac : Hmac
sample_hmac = record {
  sign = sign;
  verify = λ key message tag. same tag (sign key message);
  length-sign = length-sign;
  verify_iff = λ key message tag.
      (same_sound tag (sign key message), λ e. rw e (same_refl (sign key message)));
}

-- The text behind one byte.
abbrev tail_of : List ℕ → Option (List ℕ)
tail_of [] = none
tail_of (b ∷ text) = some text

abbrev pub sample_cipher : Cipher
sample_cipher = record {
  encrypt = λ key iv text. 1 ∷ text;
  decrypt = λ key iv text. tail_of text;
  encrypt_some = λ key iv text. omega arith;
  decrypt-encrypt = λ key iv text. refl;
}
