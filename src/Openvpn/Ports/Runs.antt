-- ===== src/Openvpn/Ports/Runs.antt =====
-- Claims over concrete routes. A sender is named by a number, and those below 10 are closed.
use synology_filestation.Prelude.{ℕ, ◌<◌, ◌≡◌, length, refl, Bool, some, List, [], ◌∷◌, ltb, arith}
use synology_filestation.Openvpn.Ports.{
  PortCursor, after, take_port, retain_open, occupied, claim_loop, claim_port, ports,
}
use synology_filestation.Openvpn.Ports.Claim.{IsClaim, claim_port-IsClaim}

abbrev is_closed : ℕ → Bool
is_closed sender = ltb sender 10

abbrev routes : List (ℕ × ℕ)
routes = (65151, 20) ∷ (49152, 3) ∷ (49153, 21) ∷ []

-- The cursor starts at a port in use and wraps to one whose connection is closed.
wraps_run :
    claim_port is_closed 3 routes 65151 22
    ≡ some (49152, (49152, 22) ∷ (65151, 20) ∷ (49153, 21) ∷ [], 49153)
unfolding claim_port claim_loop retain_open occupied after take_port
wraps_run = refl

retained : retain_open is_closed routes ≡ (65151, 20) ∷ (49153, 21) ∷ []
unfolding retain_open
retained = refl

few : length (retain_open is_closed routes) < ports
few = rw retained (omega arith)

claim_port-IsClaim_example :
    (claim : ℕ × List (ℕ × ℕ) × PortCursor) × (claim_port is_closed ports routes 65151 22
      ≡ some claim)
    × IsClaim is_closed (retain_open is_closed routes) 22 claim
claim_port-IsClaim_example = claim_port-IsClaim is_closed routes 65151 22 (omega arith) few
