-- ===== src/Openvpn/Demux/Routing.antt =====
-- Packets that are hostile, packets that are TCP, and what becomes of the routes.
use synology_filestation.Prelude.{
  ℕ, zero, suc, ◌+◌, ◌*◌, ◌/◌, ◌^◌, ◌≤◌, ◌<◌, ◌≡◌, refl, ◌≢◌, ap, ◌∙◌, inl, inr, Bool-cases, ==_iff,
  false, ◌||◌, not, Option, some, none, List, [], ◌∷◌, length, All, ltb, ◌==◌, bit_and, arith,
}
use synology_filestation.Prelude.Bytes.{IsByte, from_be}
use synology_filestation.Openvpn.Error.{ok}
use synology_filestation.Openvpn.Error.Ensures.{Ensures, returns, Ensures-bind, Ensures-if}
use synology_filestation.Openvpn.Demux.{
  byte_at, word_at, destination_port, Sent, route, remove_route, hand_over, demux_one, demux,
}

byte_at-Ensures :
    (packet : List ℕ) (at : ℕ)
    → All IsByte packet
    → at < length packet
    → Ensures IsByte (byte_at packet at)
byte_at-Ensures [] at bytes h = absurd (omega arith)
byte_at-Ensures (b ∷ packet) zero bytes h = returns (bytes.0)
byte_at-Ensures (b ∷ packet) (suc at) bytes h = byte_at-Ensures packet at bytes.1 (omega arith)

word_at-Ensures :
    (packet : List ℕ) (a b : ℕ)
    → All IsByte packet
    → a < length packet
    → b < length packet
    → Ensures (λ w. w < 2 ^ 16) (word_at packet a b)
unfolding word_at from_be
word_at-Ensures packet a b bytes ha hb =
    Ensures-bind _ (byte_at-Ensures packet a bytes ha)
      λ hi h. Ensures-bind _ (byte_at-Ensures packet b bytes hb) λ lo l. returns (omega arith)

-- A port of 16 bits, if there is one, of a packet that is long enough to have a TCP header's ports.
abbrev pub IsDestination : List ℕ → Option ℕ → Type 0
IsDestination packet none = Unit
IsDestination packet (some port) = (port < 2 ^ 16) × (24 ≤ length packet)

destination_port-Ensures :
    (packet : List ℕ) → All IsByte packet → Ensures (IsDestination packet) (destination_port packet)
unfolding destination_port
destination_port-Ensures [] bytes = returns tt
destination_port-Ensures (first ∷ rest) bytes =
    let packet = first ∷ rest in
    let header = bit_and first 15 * 4 in
    Ensures-if (not (first / 2 ^ 4 == 4)) _ _ (λ _. returns tt)
      λ _.
        Ensures-if (ltb header 20 || ltb (length packet) (header + 4)) _ _ (λ _. returns tt)
          λ long.
            let room : (20 ≤ header) × (header + 4 ≤ length packet) = ground arith in
            Ensures-bind _ (byte_at-Ensures packet 9 bytes (omega (arith, room))) λ protocol _.
              Ensures-if (not (protocol == 6)) _ _ (λ _. returns tt)
                λ _.
                  Ensures-bind _
                    (word_at-Ensures packet 6 7 bytes (omega (arith, room)) (omega (arith, room)))
                    λ flags _.
                      Ensures-if (not (bit_and flags 8191 == 0)) _ _ (λ _. returns tt)
                        λ _.
                          Ensures-bind _
                            (word_at-Ensures packet (header + 2) (header + 3) bytes
                              (omega (arith, room)) (omega (arith, room)))
                            λ port h. returns (h, omega (arith, room))

module _ {Sender : Type 0} (try_send : Sender → List ℕ → Sent) where
  route-remove_route :
      (routes : List (ℕ × Sender)) (gone port : ℕ)
      → (gone == port) ≡ false
      → route try_send (remove_route try_send routes gone) port ≡ route try_send routes port
  unfolding route remove_route
  route-remove_route [] gone port h = refl
  route-remove_route ((taken, sender) ∷ routes) gone port h =
      ground (arith, route-remove_route routes gone port h)

  hand_over_keeps :
      (routes : List (ℕ × Sender)) (gone port : ℕ) (packet : List ℕ) (sender : Sender)
      (to : Option Sender)
      → to ≡ route try_send routes gone
      → route try_send routes port ≡ some sender
      → try_send sender packet ≢ Sent.closed
      → route try_send (hand_over try_send routes gone packet to) port ≡ some sender
  unfolding hand_over
  hand_over_keeps routes gone port packet sender none e held alive = held
  hand_over_keeps routes gone port packet sender (some to) e held alive =
      by_verdict (try_send to packet) refl
    where
      by_verdict :
          (v : Sent)
          → try_send to packet ≡ v
          → route try_send (hand_over try_send routes gone packet (some to)) port ≡ some sender
      by_verdict Sent.sent eq = rw (eq, hand_over) held
      by_verdict Sent.full eq = rw (eq, hand_over) held
      by_verdict Sent.closed eq = elim (Bool-cases (gone == port)) [
        | inl same ↦
            let one : gone ≡ port = (==_iff gone port).0 same in
            let whole : some to ≡ some sender =
              e ∙ (ap (λ p. route try_send routes p) one ∙ held) in
            absurd (alive (cc))
        | inr other ↦ rw (eq, hand_over) (route-remove_route routes gone port other ∙ held)
      ]

  -- Whatever the bytes of a packet, its round does not panic, and a connection whose channel is not
  -- closed keeps its route.
  pub demux_one_keeps :
      (routes : List (ℕ × Sender)) (packet : List ℕ) (port : ℕ) (sender : Sender)
      → All IsByte packet
      → route try_send routes port ≡ some sender
      → try_send sender packet ≢ Sent.closed
      → Ensures
          (λ routes'. route try_send routes' port ≡ some sender)
          (demux_one try_send routes packet)
  unfolding demux_one
  demux_one_keeps routes packet port sender bytes held alive =
      Ensures-bind _ (destination_port-Ensures packet bytes)
        λ destination _. by_destination destination
    where
      by_destination :
          (destination : Option ℕ)
          → Ensures
              (λ routes'. route try_send routes' port ≡ some sender)
              (ok (elim destination [
                | none ↦ routes
                | some gone ↦ hand_over try_send routes gone packet (route try_send routes gone)
              ]))
      by_destination none = returns held
      by_destination (some gone) =
          returns (hand_over_keeps routes gone port packet sender _ refl held alive)

  demux_one-Ensures :
      (routes : List (ℕ × Sender)) (packet : List ℕ)
      → All IsByte packet
      → Ensures (λ _. Unit {0}) (demux_one try_send routes packet)
  unfolding demux_one
  demux_one-Ensures routes packet bytes =
      Ensures-bind _ (destination_port-Ensures packet bytes) λ destination _. returns tt

  -- Whatever packets arrive, the loop does not panic, and it leaves no route when the link ends.
  pub demux-Ensures :
      (routes : List (ℕ × Sender)) (inbound : List (List ℕ))
      → All (All IsByte) inbound
      → Ensures (λ routes'. routes' ≡ []) (demux try_send routes inbound)
  unfolding demux
  demux-Ensures routes [] bytes = returns refl
  demux-Ensures routes (packet ∷ inbound) bytes =
      Ensures-bind _ (demux_one-Ensures routes packet bytes.0)
        λ routes' _. demux-Ensures routes' inbound bytes.1
