-- ===== src/Openvpn/Crypto.antt =====
-- The cryptography that the crate takes from the `hmac` and `aes` crates, as an interface: its
-- operations, and what the crate relies on of them.
pub mod Sample
use synology_filestation.Prelude.{ℕ, ◌≤◌, ◌≡◌, ◌↔◌, Bool, true, Option, some, List, length}

-- HMAC-SHA-512. `verify_slice` accepts exactly the tag that signing gives.
pub record Hmac : Type 0 where
  pub sign : List ℕ → List ℕ → List ℕ
  pub verify : List ℕ → List ℕ → List ℕ → Bool
  pub length-sign : (key message : List ℕ) → length (sign key message) ≡ 64
  pub verify_iff :
      (key message tag : List ℕ) → (verify key message tag ≡ true) ↔ (tag ≡ sign key message)

-- AES-256-CBC with PKCS#7 padding: a key, an IV and a text. The ciphertext is not empty, and
-- decryption with the same key and IV gives the text back.
pub record Cipher : Type 0 where
  pub encrypt : List ℕ → List ℕ → List ℕ → List ℕ
  pub decrypt : List ℕ → List ℕ → List ℕ → Option (List ℕ)
  pub encrypt_some : (key iv text : List ℕ) → 1 ≤ length (encrypt key iv text)
  pub decrypt-encrypt : (key iv text : List ℕ) → decrypt key iv (encrypt key iv text) ≡ some text
