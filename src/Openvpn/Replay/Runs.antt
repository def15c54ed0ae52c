-- ===== src/Openvpn/Replay/Runs.antt =====
-- The window at concrete packets: reordering, a replay, an id too far behind, a restarted clock.
use synology_filestation.Prelude.{◌≡◌, refl, [], ◌∷◌, List}
use synology_filestation.Openvpn.Replay.{new, accept}
use synology_filestation.Openvpn.Replay.History.{Stamp, fresh, Distinct}
use synology_filestation.Openvpn.Replay.Refine.{offer_all, remember, verdict_after, no_replay}

abbrev packets : List Stamp
packets = (1, 7) ∷ (3, 7) ∷ (2, 7) ∷ (3, 7) ∷ (70, 7) ∷ (5, 7) ∷ (1, 8) ∷ (2, 7) ∷ []

packets_run : (offer_all new [] packets).1 ≡ (1, 8) ∷ (70, 7) ∷ (2, 7) ∷ (3, 7) ∷ (1, 7) ∷ []
unfolding offer_all remember accept
packets_run = refl

verdict_after_example :
    (accept (offer_all new [] packets).0 4 8).1 ≡ fresh (offer_all new [] packets).1 4 8
verdict_after_example = verdict_after packets 4 8

no_replay_example : Distinct (offer_all new [] packets).1
no_replay_example = no_replay packets
