-- ===== src/Openvpn/Session/Texts.antt =====
-- rust/synology-filestation-openvpn/src/session.rs: the texts that a session sends and reads, as
-- bytes.
use synology_filestation.Prelude.{ℕ, List, [], ◌∷◌}
use synology_filestation.Prelude.Text.{Text}

abbrev pub options_text : Text
options_text =
    b'V' ∷ b'4' ∷ b',' ∷ b'd' ∷ b'e' ∷ b'v' ∷ b'-' ∷ b't' ∷ b'y' ∷ b'p' ∷ b'e' ∷ b' ' ∷ b't' ∷ b'u'
    ∷ b'n' ∷ b',' ∷ b'l' ∷ b'i' ∷ b'n' ∷ b'k' ∷ b'-' ∷ b'm' ∷ b't' ∷ b'u' ∷ b' ' ∷ b'1' ∷ b'6'
    ∷ b'0' ∷ b'2' ∷ b',' ∷ b't' ∷ b'u' ∷ b'n' ∷ b'-' ∷ b'm' ∷ b't' ∷ b'u' ∷ b' ' ∷ b'1' ∷ b'5'
    ∷ b'0' ∷ b'0' ∷ b',' ∷ b'p' ∷ b'r' ∷ b'o' ∷ b't' ∷ b'o' ∷ b' ' ∷ b'U' ∷ b'D' ∷ b'P' ∷ b'v'
    ∷ b'4' ∷ b',' ∷ b'c' ∷ b'i' ∷ b'p' ∷ b'h' ∷ b'e' ∷ b'r' ∷ b' ' ∷ b'A' ∷ b'E' ∷ b'S' ∷ b'-'
    ∷ b'2' ∷ b'5' ∷ b'6' ∷ b'-' ∷ b'C' ∷ b'B' ∷ b'C' ∷ b',' ∷ b'a' ∷ b'u' ∷ b't' ∷ b'h' ∷ b' '
    ∷ b'S' ∷ b'H' ∷ b'A' ∷ b'5' ∷ b'1' ∷ b'2' ∷ b',' ∷ b'k' ∷ b'e' ∷ b'y' ∷ b's' ∷ b'i' ∷ b'z'
    ∷ b'e' ∷ b' ' ∷ b'2' ∷ b'5' ∷ b'6' ∷ b',' ∷ b'k' ∷ b'e' ∷ b'y' ∷ b'-' ∷ b'm' ∷ b'e' ∷ b't'
    ∷ b'h' ∷ b'o' ∷ b'd' ∷ b' ' ∷ b'2' ∷ b',' ∷ b't' ∷ b'l' ∷ b's' ∷ b'-' ∷ b'c' ∷ b'l' ∷ b'i'
    ∷ b'e' ∷ b'n' ∷ b't' ∷ []

abbrev pub peer_info : Text
peer_info =
    b'I' ∷ b'V' ∷ b'_' ∷ b'V' ∷ b'E' ∷ b'R' ∷ b'=' ∷ b'2' ∷ b'.' ∷ b'5' ∷ b'.' ∷ b'1' ∷ b'1' ∷ b'\n'
    ∷ b'I' ∷ b'V' ∷ b'_' ∷ b'P' ∷ b'L' ∷ b'A' ∷ b'T' ∷ b'=' ∷ b'r' ∷ b'u' ∷ b's' ∷ b't' ∷ b'\n'
    ∷ b'I' ∷ b'V' ∷ b'_' ∷ b'P' ∷ b'R' ∷ b'O' ∷ b'T' ∷ b'O' ∷ b'=' ∷ b'2' ∷ b'\n' ∷ b'I' ∷ b'V'
    ∷ b'_' ∷ b'C' ∷ b'I' ∷ b'P' ∷ b'H' ∷ b'E' ∷ b'R' ∷ b'S' ∷ b'=' ∷ b'A' ∷ b'E' ∷ b'S' ∷ b'-'
    ∷ b'2' ∷ b'5' ∷ b'6' ∷ b'-' ∷ b'C' ∷ b'B' ∷ b'C' ∷ b'\n' ∷ []

abbrev pub auth_failed_word : Text
auth_failed_word = b'A' ∷ b'U' ∷ b'T' ∷ b'H' ∷ b'_' ∷ b'F' ∷ b'A' ∷ b'I' ∷ b'L' ∷ b'E' ∷ b'D' ∷ []

-- `PING` of data.rs
abbrev pub ping_payload : List ℕ
ping_payload =
    0x2a ∷ 0x18 ∷ 0x7b ∷ 0xf3 ∷ 0x64 ∷ 0x1e ∷ 0xb4 ∷ 0xcb ∷ 0x07 ∷ 0xed ∷ 0x2d ∷ 0x0a ∷ 0x98 ∷ 0x1f
    ∷ 0xc7 ∷ 0x48 ∷ []
