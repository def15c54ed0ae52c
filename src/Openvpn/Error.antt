-- ===== src/Openvpn/Error.antt =====
-- rust/synology-filestation-openvpn/src/lib.rs: the errors of the crate, and which of them end a
-- session. A fallible function returns a `Result`; `panic` is no value of the source's type but
-- the process stopping on an `expect` or on an index out of range.
pub mod Ensures
use Prim.Native.String.{String}
use synology_filestation.Prelude.{ℕ, Bool, true, false, Option, some, none, List}
use synology_filestation.Openvpn.Opcode.{Opcode}
use synology_filestation.Openvpn.KeyId.{KeyId}

-- A `Duration` is a number of nanoseconds; the text that a peer sent is its bytes.
pub data Error : Type 0 where
  truncated : String → Error
  unknown_opcode : ℕ → Error
  too_many_acks : ℕ → Error
  bad_hmac wrong_session : Error
  other_key_id : KeyId → KeyId → Error
  ack_for_another_session replayed unexpected_first_packet : Error
  unsupported_key_method : ℕ → Error
  auth_failed unexpected_control_message : List ℕ → Error
  peer_closed : Error
  unexpected_data_opcode : Opcode → Error
  bad_padding packet_id_exhausted : Error
  bad_push_directive unsupported_cipher unsupported_compression : List ℕ → Error
  not_ready no_push_reply handshake_timeout : Error
  peer_gone : ℕ → Error
  io bad_profile unsupported_profile_option field_too_long tls : String → Error
  key_length : ℕ → Error
  key_not_hex key_missing : Error

pub data Result {ℓ} (A : Type ℓ) : Type ℓ where
  ok : A → Result A
  err : Error → Result A
  panic : Result A

infixl 5 ◌>>=◌
abbrev pub ◌>>=◌ {ℓ κ} : {A : Type ℓ} {B : Type κ} → Result A → (A → Result B) → Result B
ok a >>= f = f a
err e >>= f = err e
panic >>= f = panic

-- `option.ok_or(error)`
abbrev pub ok_or {ℓ} : {A : Type ℓ} → Option A → Error → Result A
ok_or none e = err e
ok_or (some a) e = ok a

-- `option.expect(..)`
abbrev pub expect {ℓ} : {A : Type ℓ} → Option A → Result A
expect none = panic
expect (some a) = ok a

-- Whether an error ends the session, or only this datagram.
unfoldable pub is_fatal : Error → Bool
is_fatal (truncated _) = false
is_fatal (unknown_opcode _) = false
is_fatal bad_hmac = false
is_fatal wrong_session = false
is_fatal ack_for_another_session = false
is_fatal unexpected_first_packet = false
is_fatal replayed = false
is_fatal (other_key_id _ _) = false
is_fatal (too_many_acks _) = false
is_fatal (unexpected_data_opcode _) = false
is_fatal bad_padding = false
is_fatal (unexpected_control_message _) = false
is_fatal not_ready = false
is_fatal _ = true
