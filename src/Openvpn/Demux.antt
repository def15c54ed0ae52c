-- ===== src/Openvpn/Demux.antt =====
-- rust/synology-filestation-openvpn/src/mux.rs: each packet of the tunnel goes to the connection that
-- its TCP destination port names. `try_send` is that of the tokio crate's channel.
pub mod Routing
mod Runs
use synology_filestation.Prelude.{
  ℕ, ◌+◌, ◌*◌, ◌/◌, ◌^◌, Bool, true, false, ◌||◌, not, Option, some, none, List, [], ◌∷◌, length,
  get_elem?, ltb, ◌==◌, if◌then◌else◌, bit_and,
}
use synology_filestation.Prelude.Bytes.{from_be}
use synology_filestation.Openvpn.Error.{Result, ok, err, panic, ◌>>=◌, expect}

abbrev pub tcp : ℕ
tcp = 6

-- `packet[at]`
abbrev pub byte_at : List ℕ → ℕ → Result ℕ
byte_at packet at = expect (get_elem? packet at)

-- Two bytes as a `u16`.
unfoldable pub word_at : List ℕ → ℕ → ℕ → Result ℕ
word_at packet a b = do hi ← byte_at packet a; lo ← byte_at packet b; ok (from_be (hi ∷ lo ∷ []))

unfoldable pub destination_port : List ℕ → Result (Option ℕ)
unfolding word_at
destination_port [] = ok none
destination_port (first ∷ rest) =
    let packet = first ∷ rest in
    let header = bit_and first 15 * 4 in
    if not (first / 2 ^ 4 == 4)
    then ok none
    else if ltb header 20 || ltb (length packet) (header + 4)
    then ok none
    else (do
      protocol ← byte_at packet 9
      (if not (protocol == tcp) then ok none else (do
        flags ← word_at packet 6 7
        (if not (bit_and flags 8191 == 0)
            then ok none
            else (do port ← word_at packet (header + 2) (header + 3); ok (some port))))))

pub data Sent : Type 0 where
  sent full closed : Sent

module _ {Sender : Type 0} (try_send : Sender → List ℕ → Sent) where
  unfoldable pub route : List (ℕ × Sender) → ℕ → Option Sender
  route [] port = none
  route ((taken, sender) ∷ routes) port =
      let rest = route routes port in if taken == port then some sender else rest

  unfoldable pub remove_route : List (ℕ × Sender) → ℕ → List (ℕ × Sender)
  remove_route [] port = []
  remove_route ((taken, sender) ∷ routes) port =
      let rest = remove_route routes port in if taken == port then rest else (taken, sender) ∷ rest

  unfoldable pub hand_over : List (ℕ × Sender) → ℕ → List ℕ → Option Sender → List (ℕ × Sender)
  unfolding remove_route
  hand_over routes port packet none = routes
  hand_over routes port packet (some to) = elim (try_send to packet) [
    | sent ↦ routes
    | full ↦ routes
    | closed ↦ remove_route routes port
  ]

  -- One round of the loop of `demux`: the routes after the packet.
  unfoldable pub demux_one : List (ℕ × Sender) → List ℕ → Result (List (ℕ × Sender))
  unfolding destination_port route hand_over
  demux_one routes packet = do
    destination ← destination_port packet
    ok (elim destination [
      | none ↦ routes
      | some port ↦ hand_over routes port packet (route routes port)
    ])

  -- The loop over all packets that arrive, after which the link has ended and the routes go.
  unfoldable pub demux : List (ℕ × Sender) → List (List ℕ) → Result (List (ℕ × Sender))
  unfolding demux_one
  demux routes [] = ok []
  demux routes (packet ∷ inbound) = do routes' ← demux_one routes packet; demux routes' inbound
