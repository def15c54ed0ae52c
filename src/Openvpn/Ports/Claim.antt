-- ===== src/Openvpn/Ports/Claim.antt =====
-- Claiming a port ends while a port is free, and takes a free one.
use synology_filestation.Prelude.{
  ℕ, zero, suc, ◌+◌, ◌-◌, ◌%◌, ◌≤◌, ◌<◌, ◌≡◌, refl, sym, Bool, true, false, some, Bool-cases, ◌⊎◌,
  ◌∙◌, inl, inr, List, [], ◌∷◌, length, map, length-map, contains, Distinct, All, arith,
}
use synology_filestation.Prelude.Pigeonhole.{Distinct-length}
use synology_filestation.Openvpn.Ports.{
  PortCursor, first_port, ports, after, take_port, retain_open, occupied, claim_loop, claim_port,
}

-- The ports that are given out.
abbrev pub IsPort : ℕ → Type 0
IsPort port = (first_port ≤ port) × (port < first_port + ports)

-- The ports that so many rounds look at.
unfoldable scan : ℕ → PortCursor → List ℕ
scan zero cursor = []
scan (suc rounds) cursor = cursor ∷ scan rounds (after cursor)

length-scan : (rounds : ℕ) (cursor : PortCursor) → length (scan rounds cursor) ≡ rounds
unfolding scan
length-scan zero cursor = refl
length-scan (suc rounds) cursor = omega (arith, length-scan rounds (after cursor))

after-IsPort : (port : ℕ) → IsPort port → IsPort (after port)
unfolding after
after-IsPort port h = ground arith

-- How many rounds lie between two ports.
abbrev ahead : ℕ → ℕ → ℕ
ahead cursor port = (port + ports - cursor) % ports

ahead-after :
    (cursor port : ℕ)
    → IsPort cursor
    → IsPort port
    → 0 < ahead cursor port
    → suc (ahead (after cursor) port) ≡ ahead cursor port
unfolding after
ahead-after cursor port hc hp pos = ground arith

-- A port is not looked at before the rounds have reached it.
scan_far :
    (rounds : ℕ) (cursor port : ℕ)
    → IsPort cursor
    → IsPort port
    → rounds ≤ ahead cursor port
    → contains (scan rounds cursor) port ≡ false
unfolding scan contains
scan_far zero cursor port hc hp far = refl
scan_far (suc rounds) cursor port hc hp far = ground (
  arith,
  ahead-after cursor port hc hp,
  scan_far rounds (after cursor) port (after-IsPort cursor hc) hp,
)

scan-Distinct :
    (rounds : ℕ) (cursor : ℕ) → IsPort cursor → rounds ≤ ports → Distinct (scan rounds cursor)
unfolding scan after
scan-Distinct zero cursor h few = tt
scan-Distinct (suc rounds) cursor h few = (
  scan_far rounds (after cursor) cursor (after-IsPort cursor h) h (ground arith),
  scan-Distinct rounds (after cursor) (after-IsPort cursor h) (omega arith),
)

module _ {Sender : Type 0} (is_closed : Sender → Bool) where
  abbrev taken : List (ℕ × Sender) → List ℕ
  taken routes = map (λ r. r.0) routes

  occupied-contains :
      (routes : List (ℕ × Sender)) (port : ℕ)
      → occupied is_closed routes port ≡ contains (taken routes) port
  unfolding occupied contains
  occupied-contains [] port = refl
  occupied-contains ((p, s) ∷ routes) port = ground (arith, occupied-contains routes port)

  -- What a claim gives: a port that no route has, the routes with it, and a cursor in range.
  pub record IsClaim (routes : List (ℕ × Sender)) (to : Sender)
      (claim : ℕ × List (ℕ × Sender) × PortCursor) : Type 0 where
    pub free : occupied is_closed routes (claim.0) ≡ false
    pub port : IsPort (claim.0)
    pub routes' : claim.1 ≡ (claim.0, to) ∷ routes
    pub cursor : IsPort (claim.2)

  -- Either a round finds a free port, or all ports that the rounds look at are taken.
  claim_loop_cases :
      (rounds : ℕ) (routes : List (ℕ × Sender)) (cursor : PortCursor) (to : Sender)
      → IsPort cursor
      → All (λ port. contains (taken routes) port ≡ true) (scan rounds cursor)
        ⊎ ((claim : ℕ × List (ℕ × Sender) × PortCursor) × (claim_loop is_closed rounds routes cursor
                to
              ≡ some claim)
            × IsClaim routes to claim)
  unfolding claim_loop scan take_port
  claim_loop_cases zero routes cursor to h = inl tt
  claim_loop_cases (suc rounds) routes cursor to h =
      elim (Bool-cases (occupied is_closed routes cursor)) [
        | inl busy ↦
            elim (claim_loop_cases rounds routes (after cursor) to (after-IsPort cursor h)) [
              | inl all ↦ inl (sym (occupied-contains routes cursor) ∙ busy, all)
              | inr (claim, e, is) ↦ inr (claim, rw busy e, is)
            ]
        | inr free ↦ inr (
          (cursor, (cursor, to) ∷ routes, after cursor),
          rw free refl,
          record { free = free; port = h; routes' = refl; cursor = after-IsPort cursor h },
        )
      ]

  -- With a cursor in range and fewer open routes than ports, 16000 rounds of the loop of
  -- `claim_port` are enough: it returns a port in range that no open route has, together with the
  -- open routes, the new one added, and a cursor in range.
  pub claim_port-IsClaim :
      (routes : List (ℕ × Sender)) (cursor : PortCursor) (to : Sender)
      → IsPort cursor
      → length (retain_open is_closed routes) < ports
      → (claim : ℕ × List (ℕ × Sender) × PortCursor) × (claim_port is_closed ports routes cursor to
          ≡ some claim)
        × IsClaim (retain_open is_closed routes) to claim
  unfolding claim_port
  claim_port-IsClaim routes cursor to h few =
      let open_routes = retain_open is_closed routes in
      elim (claim_loop_cases ports open_routes cursor to h) [
        | inl all ↦ absurd (
            omega (
              arith,
              Distinct-length (scan ports cursor) (taken open_routes)
                  (scan-Distinct ports cursor h (omega arith)) all,
              length-scan ports cursor,
              length-map open_routes (λ r. r.0),
            ))
        | inr claim ↦ claim
      ]
