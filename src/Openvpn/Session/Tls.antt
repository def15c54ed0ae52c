-- ===== src/Openvpn/Session/Tls.antt =====
-- The TLS connection that the session takes from the `rustls` crate, as an interface: its
-- operations on a connection, and what the session relies on of them.
use Prim.Native.String.{String}
use synology_filestation.Prelude.{ℕ, ◌<◌, ◌≡◌, Bool, Option, some, List, ◌∷◌}

-- What a read of plaintext gives: bytes, where none are a clean close; nothing at the moment; or an
-- error.
pub data Plaintext : Type 0 where
  received : List ℕ → Plaintext
  would_block : Plaintext
  failed : String → Plaintext

-- A result with the text of an error.
pub data Outcome (A : Type 0) : Type 0 where
  done : A → Outcome A
  refused : String → Outcome A

-- `write_tls` gives the bytes that it wrote, or none on an error, and bytes that it wrote are no
-- longer to be sent; `read_tls` gives how many bytes it took from the front of those it is given,
-- which may be none of some; plaintext that is read is no longer to be read.
pub record Engine (Conn : Type 0) : Type 0 where
  pub is_handshaking : Conn → Bool
  pub wants_write : Conn → Bool
  pub write_tls : Conn → Conn × Option (List ℕ)
  pub read_tls : Conn → List ℕ → Conn × Outcome ℕ
  pub process_new_packets : Conn → Conn × Outcome (Unit {0})
  pub read : Conn → Conn × Plaintext
  pub write_all : Conn → List ℕ → Conn × Outcome (Unit {0})
  pub unsent : Conn → ℕ
  pub unread : Conn → ℕ
  pub write_tls_sends :
      (c c' : Conn) (b : ℕ) (bytes : List ℕ)
      → write_tls c ≡ (c', some (b ∷ bytes))
      → unsent c' < unsent c
  pub read_takes :
      (c c' : Conn) (b : ℕ) (bytes : List ℕ)
      → read c ≡ (c', received (b ∷ bytes))
      → unread c' < unread c
