-- ===== src/Openvpn/Ports.antt =====
-- rust/synology-filestation-openvpn/src/mux.rs: the local ports that tell the connections inside one
-- tunnel apart. The table of routes is a list of ports and senders; a sender is the channel of the
-- tokio crate, of which the code asks whether it is closed. The lock and the atomic update make
-- each operation one step.
pub mod Claim
mod Runs
use synology_filestation.Prelude.{
  ℕ, zero, suc, ◌+◌, ◌-◌, ◌%◌, Bool, true, false, ◌||◌, not, Option, some, none, List, [], ◌∷◌, leb,
  ◌==◌, if◌then◌else◌,
}

abbrev pub first_port : ℕ
first_port = 49152

abbrev pub ports : ℕ
ports = 16000

abbrev pub PortCursor : Type 0
PortCursor = ℕ

-- `PortCursor::new`, with the number drawn at random.
unfoldable pub new : ℕ → PortCursor
new random = first_port + random % ports

-- The port that comes after another.
unfoldable pub after : ℕ → ℕ
after port = if leb (first_port + ports - 1) port then first_port else port + 1

-- The port, and the cursor moved on.
unfoldable pub take_port : PortCursor → ℕ × PortCursor
unfolding after
take_port cursor = (cursor, after cursor)

module _ {Sender : Type 0} (is_closed : Sender → Bool) where
  -- `routes.retain(|_, sender| !sender.is_closed())`
  unfoldable pub retain_open : List (ℕ × Sender) → List (ℕ × Sender)
  retain_open [] = []
  retain_open ((port, sender) ∷ routes) =
      let rest = retain_open routes in
      if not (is_closed sender) then (port, sender) ∷ rest else rest

  unfoldable pub occupied : List (ℕ × Sender) → ℕ → Bool
  occupied [] port = false
  occupied ((taken, sender) ∷ routes) port = taken == port || occupied routes port

  -- The loop, for a number of rounds; none if all of them met ports in use.
  unfoldable pub claim_loop :
      ℕ → List (ℕ × Sender) → PortCursor → Sender → Option (ℕ × List (ℕ × Sender) × PortCursor)
  unfolding take_port occupied
  claim_loop zero routes cursor to = none
  claim_loop (suc rounds) routes cursor to =
      let (port, cursor') = take_port cursor in
      let rest = claim_loop rounds routes cursor' to in
      if occupied routes port then rest else some (port, (port, to) ∷ routes, cursor')

  unfoldable pub claim_port :
      ℕ → List (ℕ × Sender) → PortCursor → Sender → Option (ℕ × List (ℕ × Sender) × PortCursor)
  unfolding retain_open claim_loop
  claim_port rounds routes cursor to = claim_loop rounds (retain_open routes) cursor to
