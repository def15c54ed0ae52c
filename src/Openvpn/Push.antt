-- ===== src/Openvpn/Push.antt =====
-- rust/synology-filestation-openvpn/src/push.rs: what the server tells the client after it has
-- accepted it. A `Duration` is a number of nanoseconds.
pub mod Words
pub mod Safe
mod Runs
use synology_filestation.Prelude.{
  ℕ, ◌+◌, ◌-◌, ◌*◌, ◌^◌, Bool, true, false, ◌&&◌, ◌||◌, not, Option, some, none, List, [], ◌∷◌,
  ◌++◌, ◌==◌, if◌then◌else◌,
}
use synology_filestation.Prelude.Bytes.{same}
use synology_filestation.Prelude.Text.{
  Text, strip_prefix, eq_ignore_ascii_case, split_on, trim, split_whitespace, parse_unsigned,
  parse_ipv4,
}
use synology_filestation.Openvpn.Error.{
  Result, ok, err, ◌>>=◌, ok_or, bad_push_directive, unexpected_control_message,
}
use synology_filestation.Openvpn.Data
use synology_filestation.Openvpn.Data.{PeerId}
use synology_filestation.Openvpn.Ip.{Ipv4Addr}
use synology_filestation.Openvpn.Push.Words.{
  push_reply, peer_id_name, cipher_name, ifconfig_name, comp_lzo, compress, ping_name,
  ping_restart_name, no_word, supported_cipher,
}

pub record PushReply : Type 0 where
  pub peer_id : Option PeerId
  pub cipher : Option Text
  pub ifconfig : Option (Ipv4Addr × Ipv4Addr)
  pub ping : Option ℕ
  pub ping_restart : Option ℕ
  pub ping_restart_disabled : Bool
  pub compression : Option Text
  pub directives : List Text

-- `Self::default()`
abbrev pub nothing_pushed : PushReply
nothing_pushed = record {
  peer_id = none;
  cipher = none;
  ifconfig = none;
  ping = none;
  ping_restart = none;
  ping_restart_disabled = false;
  compression = none;
  directives = [];
}

unfoldable pub seconds_from : Text → Text → Result ℕ
unfolding parse_unsigned
seconds_from value directive = do
  seconds ← ok_or (parse_unsigned (2 ^ 64 - 1) value) (bad_push_directive directive)
  ok (seconds * 1000000000)

unfoldable pub read_peer_id : PushReply → Text → Text → Result PushReply
unfolding parse_unsigned Data.peer_id
read_peer_id parsed id directive = do
  value ← ok_or (parse_unsigned (2 ^ 32 - 1) id) (bad_push_directive directive)
  peer_id ← ok_or (Data.peer_id value) (bad_push_directive directive)
  ok (record parsed { peer_id = some peer_id })

unfoldable pub read_ifconfig : PushReply → Text → Text → Text → Result PushReply
unfolding parse_ipv4
read_ifconfig parsed address mask directive = do
  address' ← ok_or (parse_ipv4 address) (bad_push_directive directive)
  mask' ← ok_or (parse_ipv4 mask) (bad_push_directive directive)
  ok (record parsed { ifconfig = some (address', mask') })

unfoldable pub read_ping : PushReply → Text → Text → Result PushReply
unfolding seconds_from
read_ping parsed seconds directive = do
  interval ← seconds_from seconds directive
  ok (record parsed { ping = if interval == 0 then none else some interval })

unfoldable pub read_ping_restart : PushReply → Text → Text → Result PushReply
unfolding seconds_from
read_ping_restart parsed seconds directive = do
  limit ← seconds_from seconds directive
  ok (
      if limit == 0
      then record parsed { ping_restart_disabled = true }
      else record parsed { ping_restart = some limit })

-- Compression, unless it is `comp-lzo no`.
unfoldable pub read_compression : PushReply → Text → List Text → Text → PushReply
unfolding same
read_compression parsed name (word ∷ []) directive =
    if same name comp_lzo && same word no_word
    then parsed
    else if same name comp_lzo || same name compress
    then record parsed { compression = some directive }
    else parsed
read_compression parsed name rest directive =
    if same name comp_lzo || same name compress
    then record parsed { compression = some directive }
    else parsed

-- The arms of the `match` on a directive's words.
unfoldable pub read_directive : PushReply → Text → List Text → Text → Result PushReply
unfolding same read_peer_id read_ifconfig read_ping read_ping_restart read_compression
read_directive parsed name (a ∷ []) directive =
    if same name peer_id_name
    then read_peer_id parsed a directive
    else if same name cipher_name
    then ok (record parsed { cipher = some a })
    else if same name ping_name
    then read_ping parsed a directive
    else if same name ping_restart_name
    then read_ping_restart parsed a directive
    else ok (read_compression parsed name (a ∷ []) directive)
read_directive parsed name (a ∷ b ∷ []) directive =
    if same name ifconfig_name
    then read_ifconfig parsed a b directive
    else ok (read_compression parsed name (a ∷ b ∷ []) directive)
read_directive parsed name rest directive = ok (read_compression parsed name rest directive)

-- One round of the loop, for a directive that is not empty.
unfoldable pub read_words : PushReply → List Text → Text → Result PushReply
unfolding read_directive
read_words parsed [] directive = ok parsed
read_words parsed (name ∷ rest) directive = read_directive parsed name rest directive

unfoldable pub read_directives : PushReply → List Text → Result PushReply
unfolding read_words trim split_whitespace
read_directives parsed [] = ok parsed
read_directives parsed (piece ∷ pieces) = elim (trim piece) [
  | [] ↦ read_directives parsed pieces
  | b ∷ text ↦ (do
    parsed' ←
        read_words (record parsed { directives = parsed.directives ++ ((b ∷ text) ∷ []) })
          (split_whitespace (b ∷ text)) (b ∷ text)
    read_directives parsed' pieces)
]

-- `strip_prefix(',').unwrap_or("")`
abbrev pub after_comma : Text → Text
after_comma [] = []
after_comma (b ∷ text) = if b == b',' then text else []

unfoldable pub parse : Text → Result PushReply
unfolding strip_prefix read_directives split_on
parse reply = do
  body ← ok_or (strip_prefix reply push_reply) (unexpected_control_message reply)
  read_directives nothing_pushed (split_on b',' (after_comma body))

unfoldable pub compression_is_supported : PushReply → Bool
compression_is_supported reply = elim reply.compression [ none ↦ true | some _ ↦ false ]

unfoldable pub cipher_is_supported : PushReply → Bool
unfolding eq_ignore_ascii_case
cipher_is_supported reply = elim reply.cipher [
  | none ↦ true
  | some cipher ↦ eq_ignore_ascii_case cipher supported_cipher
]
