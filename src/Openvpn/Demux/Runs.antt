-- ===== src/Openvpn/Demux/Runs.antt =====
-- Packets at concrete bytes. A sender is a number; those below 10 are closed.
use synology_filestation.Prelude.{
  ℕ, ◌≡◌, refl, some, none, List, [], ◌∷◌, ◌++◌, replicate, ltb, if◌then◌else◌, arith,
}
use synology_filestation.Prelude.Bytes.{from_be}
use synology_filestation.Openvpn.Error.{ok}
use synology_filestation.Openvpn.Error.Ensures.{Ensures}
use synology_filestation.Openvpn.Demux.{
  Sent, destination_port, word_at, route, remove_route, hand_over, demux_one, demux,
}
use synology_filestation.Openvpn.Demux.Routing.{demux_one_keeps, demux-Ensures}

-- A header of five words, a fragment offset, a protocol, and ports 80 and 49153.
abbrev segment : ℕ → ℕ → List ℕ
segment offset protocol =
    69
    ∷ 0
    ∷ 0
    ∷ 0
    ∷ 0
    ∷ 0
    ∷ 64
    ∷ offset
    ∷ 64
    ∷ protocol
    ∷ (replicate 10 1 ++ (0 ∷ 80 ∷ 192 ∷ 1 ∷ []))

tcp_run : destination_port (segment 0 6) ≡ ok (some 49153)
unfolding destination_port word_at from_be
tcp_run = refl

fragment_run : destination_port (segment 1 6) ≡ ok none
unfolding destination_port word_at from_be
fragment_run = refl

udp_run : destination_port (segment 0 17) ≡ ok none
unfolding destination_port
udp_run = refl

abbrev try_send : ℕ → List ℕ → Sent
try_send sender packet = if ltb sender 10 then Sent.closed else Sent.sent

abbrev routes : List (ℕ × ℕ)
routes = (49152, 20) ∷ (49153, 3) ∷ []

closed_run : demux_one try_send routes (segment 0 6) ≡ ok ((49152, 20) ∷ [])
unfolding demux_one destination_port word_at from_be route hand_over remove_route
closed_run = refl

held_run : route try_send routes 49152 ≡ some 20
unfolding route
held_run = refl

demux_one_keeps_example :
    Ensures
      (λ routes'. route try_send routes' 49152 ≡ some 20)
      (demux_one try_send routes (segment 0 6))
demux_one_keeps_example =
    demux_one_keeps try_send routes (segment 0 6) 49152 20 (omega arith) held_run (λ e. cc)

demux-Ensures_example :
    Ensures (λ routes'. routes' ≡ []) (demux try_send routes (segment 0 6 ∷ (255 ∷ []) ∷ []))
demux-Ensures_example =
    demux-Ensures try_send routes (segment 0 6 ∷ (255 ∷ []) ∷ []) (omega arith, (omega arith, tt))
