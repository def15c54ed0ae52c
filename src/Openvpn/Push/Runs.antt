-- ===== src/Openvpn/Push/Runs.antt =====
-- A push reply read.
use synology_filestation.Prelude.{ℕ, ◌≡◌, refl, true, some, none, List, [], ◌∷◌}
use synology_filestation.Prelude.Bytes.{same, from_be}
use synology_filestation.Prelude.Keyed.{starts_with}
use synology_filestation.Openvpn.Error.{ok}
use synology_filestation.Openvpn.Ip.{prefix_of_netmask}
use synology_filestation.Openvpn.Push.{parse}

abbrev reply : List ℕ
reply =
    b'P' ∷ b'U' ∷ b'S' ∷ b'H' ∷ b'_' ∷ b'R' ∷ b'E' ∷ b'P' ∷ b'L' ∷ b'Y' ∷ b',' ∷ b'i' ∷ b'f' ∷ b'c'
    ∷ b'o' ∷ b'n' ∷ b'f' ∷ b'i' ∷ b'g' ∷ b' ' ∷ b'1' ∷ b'0' ∷ b'.' ∷ b'9' ∷ b'0' ∷ b'.' ∷ b'2'
    ∷ b'4' ∷ b'.' ∷ b'6' ∷ b' ' ∷ b'2' ∷ b'5' ∷ b'5' ∷ b'.' ∷ b'2' ∷ b'5' ∷ b'5' ∷ b'.' ∷ b'2'
    ∷ b'5' ∷ b'5' ∷ b'.' ∷ b'0' ∷ b',' ∷ b' ' ∷ b'p' ∷ b'e' ∷ b'e' ∷ b'r' ∷ b'-' ∷ b'i' ∷ b'd'
    ∷ b' ' ∷ b' ' ∷ b'3' ∷ b',' ∷ b'p' ∷ b'i' ∷ b'n' ∷ b'g' ∷ b' ' ∷ b'1' ∷ b'0' ∷ b',' ∷ b','
    ∷ b'p' ∷ b'i' ∷ b'n' ∷ b'g' ∷ b'-' ∷ b'r' ∷ b'e' ∷ b's' ∷ b't' ∷ b'a' ∷ b'r' ∷ b't' ∷ b' '
    ∷ b'0' ∷ []

reply_run :
    parse reply
    ≡ ok (record {
      peer_id = some 3;
      cipher = none;
      ifconfig = some (10 ∷ 90 ∷ 24 ∷ 6 ∷ [], 255 ∷ 255 ∷ 255 ∷ 0 ∷ []);
      ping = some 10000000000;
      ping_restart = none;
      ping_restart_disabled = true;
      compression = none;
      directives =
          (b'i' ∷ b'f' ∷ b'c' ∷ b'o' ∷ b'n' ∷ b'f' ∷ b'i' ∷ b'g' ∷ b' ' ∷ b'1' ∷ b'0' ∷ b'.' ∷ b'9'
            ∷ b'0' ∷ b'.' ∷ b'2' ∷ b'4' ∷ b'.' ∷ b'6' ∷ b' ' ∷ b'2' ∷ b'5' ∷ b'5' ∷ b'.' ∷ b'2'
            ∷ b'5' ∷ b'5' ∷ b'.' ∷ b'2' ∷ b'5' ∷ b'5' ∷ b'.' ∷ b'0' ∷ [])
          ∷ (b'p' ∷ b'e' ∷ b'e' ∷ b'r' ∷ b'-' ∷ b'i' ∷ b'd' ∷ b' ' ∷ b' ' ∷ b'3' ∷ [])
          ∷ (b'p' ∷ b'i' ∷ b'n' ∷ b'g' ∷ b' ' ∷ b'1' ∷ b'0' ∷ [])
          ∷ (b'p' ∷ b'i' ∷ b'n' ∷ b'g' ∷ b'-' ∷ b'r' ∷ b'e' ∷ b's' ∷ b't' ∷ b'a' ∷ b'r' ∷ b't'
              ∷ b' ' ∷ b'0' ∷ [])
          ∷ [];
    })
unfolding parse starts_with same
reply_run = refl

mask_run : prefix_of_netmask (255 ∷ 255 ∷ 255 ∷ 0 ∷ []) ≡ some 24
unfolding prefix_of_netmask from_be
mask_run = refl
