-- ===== src/Openvpn/Push/Words.antt =====
-- rust/synology-filestation-openvpn/src/push.rs: the words of the push exchange, as bytes.
use synology_filestation.Prelude.{[], ◌∷◌}
use synology_filestation.Prelude.Text.{Text}

abbrev pub push_reply : Text
push_reply = b'P' ∷ b'U' ∷ b'S' ∷ b'H' ∷ b'_' ∷ b'R' ∷ b'E' ∷ b'P' ∷ b'L' ∷ b'Y' ∷ []

abbrev pub peer_id_name : Text
peer_id_name = b'p' ∷ b'e' ∷ b'e' ∷ b'r' ∷ b'-' ∷ b'i' ∷ b'd' ∷ []

abbrev pub cipher_name : Text
cipher_name = b'c' ∷ b'i' ∷ b'p' ∷ b'h' ∷ b'e' ∷ b'r' ∷ []

abbrev pub ifconfig_name : Text
ifconfig_name = b'i' ∷ b'f' ∷ b'c' ∷ b'o' ∷ b'n' ∷ b'f' ∷ b'i' ∷ b'g' ∷ []

abbrev pub comp_lzo : Text
comp_lzo = b'c' ∷ b'o' ∷ b'm' ∷ b'p' ∷ b'-' ∷ b'l' ∷ b'z' ∷ b'o' ∷ []

abbrev pub compress : Text
compress = b'c' ∷ b'o' ∷ b'm' ∷ b'p' ∷ b'r' ∷ b'e' ∷ b's' ∷ b's' ∷ []

abbrev pub ping_name : Text
ping_name = b'p' ∷ b'i' ∷ b'n' ∷ b'g' ∷ []

abbrev pub ping_restart_name : Text
ping_restart_name =
    b'p' ∷ b'i' ∷ b'n' ∷ b'g' ∷ b'-' ∷ b'r' ∷ b'e' ∷ b's' ∷ b't' ∷ b'a' ∷ b'r' ∷ b't' ∷ []

abbrev pub no_word : Text
no_word = b'n' ∷ b'o' ∷ []

-- `PUSH_REQUEST` and `SUPPORTED_CIPHER`
abbrev pub push_request : Text
push_request =
    b'P' ∷ b'U' ∷ b'S' ∷ b'H' ∷ b'_' ∷ b'R' ∷ b'E' ∷ b'Q' ∷ b'U' ∷ b'E' ∷ b'S' ∷ b'T' ∷ []

abbrev pub supported_cipher : Text
supported_cipher = b'A' ∷ b'E' ∷ b'S' ∷ b'-' ∷ b'2' ∷ b'5' ∷ b'6' ∷ b'-' ∷ b'C' ∷ b'B' ∷ b'C' ∷ []
