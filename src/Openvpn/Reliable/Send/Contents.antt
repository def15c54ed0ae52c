-- ===== src/Openvpn/Reliable/Send/Contents.antt =====
-- What the window holds: the messages that the peer has not acknowledged, by id.
use mathlib.Core.Path.{subst}
use synology_filestation.Prelude.{
  ℕ, ◌+◌, ◌<◌, ◌≡◌, refl, true, false, Option, some, none, List, [], ◌∷◌, contains, ltb, ◌==◌,
  if◌then◌else◌, arith, Bool-cases, Option-cases, inl, inr, min, ◌∙◌,
}
use synology_filestation.Prelude.Tree.{
  Tree, IsSorted, lookup, remove, lookup-insert, lookup-remove, Every-lookup,
}
use synology_filestation.Openvpn.Opcode.{Opcode}
use synology_filestation.Openvpn.Reliable.Send.{
  InFlight, Outgoing, SendWindow, is_full, fresh, queue, send_first, next_due, is_due, sent,
  count_ack, acknowledge_one, acknowledge_all, acknowledge,
}
use synology_filestation.Openvpn.Reliable.Send.Sent.{GoesOut, head-GoesOut, tail-GoesOut}
use synology_filestation.Openvpn.Reliable.Send.Bounds.{Fits, acknowledge_one-IsSorted}

abbrev pub message : Option InFlight → Option (Opcode × List ℕ)
message none = none
message (some e) = some (e.opcode, e.payload)

-- The message with an id that still waits for the peer.
unfoldable pub held : SendWindow → ℕ → Option (Opcode × List ℕ)
held w id = message (lookup id w.in_flight)

-- One acknowledgement heard for `j`, at the entry of `k`.
abbrev once_counted : InFlight → InFlight
once_counted e = record e { later_acks = min 255 (e.later_acks + 1) }

abbrev counted : ℕ → ℕ → Option InFlight → Option InFlight
counted j k none = none
counted j k (some e) = some (if ltb k j then once_counted e else e)

lookup-count_ack :
    (j k : ℕ) (m : Tree InFlight) → lookup k (count_ack j m) ≡ counted j k (lookup k m)
unfolding lookup count_ack
lookup-count_ack j k [] = refl
lookup-count_ack j k ((i, e) ∷ m) = ground (arith, lookup-count_ack j k m)

pub lookup-acknowledge_one :
    (j k : ℕ) (m : Tree InFlight) (x : InFlight)
    → IsSorted m
    → lookup j m ≡ some x
    → lookup k (acknowledge_one j m) ≡ (if j == k then none else counted j k (lookup k m))
unfolding acknowledge_one
lookup-acknowledge_one j k m x s hit =
    rw (hit, acknowledge_one)
      (lookup-count_ack j k (remove j m) ∙ ground (arith, lookup-remove j k m s))

held-acknowledge_one :
    (j k : ℕ) (m : Tree InFlight)
    → IsSorted m
    → message (lookup k (acknowledge_one j m)) ≡ (if j == k then none else message (lookup k m))
held-acknowledge_one j k m s = elim (Option-cases (lookup j m)) [
  | inl miss ↦ unfold acknowledge_one in rw (miss, acknowledge_one) (ground (arith, miss))
  | inr (x, hit) ↦ ground (arith, lookup-acknowledge_one j k m x s hit)
]

held-acknowledge_all :
    (ids : List ℕ) (k : ℕ) (m : Tree InFlight)
    → IsSorted m
    → message (lookup k (acknowledge_all ids m))
      ≡ (if contains ids k then none else message (lookup k m))
unfolding acknowledge_all contains
held-acknowledge_all [] k m s = refl
held-acknowledge_all (j ∷ ids) k m s =
    held-acknowledge_all ids k (acknowledge_one j m) (acknowledge_one-IsSorted j m s)
    ∙ ground (arith, held-acknowledge_one j k m s)

-- In a window whose ids fit, acknowledgements release the messages that they name, and every other
-- message stays held unchanged.
pub held-acknowledge :
    (w : SendWindow) (ids : List ℕ) (k : ℕ)
    → Fits w
    → held (acknowledge w ids) k ≡ (if contains ids k then none else held w k)
unfolding held acknowledge
held-acknowledge w ids k f = held-acknowledge_all ids k w.in_flight f.sorted

-- A window that is not full takes a message under the next id and holds every other message
-- unchanged; a full window refuses the message and does not change.
pub held-queue :
    (w : SendWindow) (o : Opcode) (payload : List ℕ) (k : ℕ)
    → (is_full w ≡ false
        → ((queue w o payload).1 ≡ some w.next_id)
          × (held (queue w o payload).0 k
              ≡ (if w.next_id == k then some (o, payload) else held w k)))
      × (is_full w ≡ true → queue w o payload ≡ (w, none))
unfolding held queue
held-queue w o payload k = (
  λ free. ground (arith, lookup-insert w.next_id k (fresh w o payload) w.in_flight),
  λ full. ground arith,
)

send_first-held :
    (now k : ℕ) (m : Tree InFlight) → message (lookup k (send_first now m).1) ≡ message (lookup k m)
unfolding send_first lookup
send_first-held now k [] = refl
send_first-held now k ((id, e) ∷ m) = ground (arith, send_first-held now k m)

send_first-GoesOut :
    (now : ℕ) (m : Tree InFlight) (out : Outgoing)
    → IsSorted m
    → (send_first now m).0 ≡ some out
    → GoesOut now m (send_first now m).1 out
unfolding send_first
send_first-GoesOut now [] out s eq = cc
send_first-GoesOut now ((id, e) ∷ m) out s eq = elim (Bool-cases (is_due e now)) [
  | inl due ↦
      let is : some (record { opcode = e.opcode; packet_id = id; payload = e.payload }) ≡ some out =
        ground arith in
      rw due (
        subst (GoesOut now ((id, e) ∷ m) ((id, sent e now) ∷ m)) (cc) (head-GoesOut now id e m due))
  | inr idle ↦
      let g = send_first-GoesOut now m out s.1 (ground arith) in
      let later : id < out.packet_id =
        Every-lookup (λ k _. id < k) m out.packet_id g.entry s.0 g.in_flight in
      rw idle (tail-GoesOut now id e m (send_first now m).1 out later g)
]

-- Every id below the one that goes out waits for its time.
send_first-lowest :
    (now : ℕ) (m : Tree InFlight) (out : Outgoing) (k : ℕ) (e : InFlight)
    → IsSorted m
    → (send_first now m).0 ≡ some out
    → k < out.packet_id
    → lookup k m ≡ some e
    → is_due e now ≡ false
unfolding send_first lookup
send_first-lowest now [] out k e s eq lt hit = cc
send_first-lowest now ((id, x) ∷ m) out k e s eq lt hit = elim (Bool-cases (id == k)) [
  | inl here ↦ ground arith
  | inr other ↦
      let there : lookup k m ≡ some e = ground arith in
      let above : id < k = Every-lookup (λ j _. id < j) m k e s.0 there in
      ground (arith, send_first-lowest now m out k e s.1)
]

-- If nothing goes out, every entry waits for its time.
send_first-none :
    (now : ℕ) (m : Tree InFlight) (k : ℕ) (e : InFlight)
    → (send_first now m).0 ≡ none
    → lookup k m ≡ some e
    → is_due e now ≡ false
unfolding send_first lookup
send_first-none now [] k e idle hit = cc
send_first-none now ((id, x) ∷ m) k e idle hit = ground (arith, send_first-none now m k e)

-- In a window whose ids fit, a send leaves every held message held. Nothing goes out only if no
-- entry is due; else the held message with the lowest id among those due. Its entry then waits: it is due at a time
-- exactly if its timeout has passed since the send, its timeout doubles, and the later
-- acknowledgements that it counted are forgotten; no other entry changes.
pub held-next_due :
    (w : SendWindow) (now : ℕ)
    → Fits w
    → ((k : ℕ) → held (next_due w now).0 k ≡ held w k)
      × ((next_due w now).1 ≡ none
          → (k : ℕ) (e : InFlight) → lookup k w.in_flight ≡ some e
          → is_due e now ≡ false)
      × ((out : Outgoing)
          → (next_due w now).1 ≡ some out
          → GoesOut now w.in_flight (next_due w now).0.in_flight out
            × (held w out.packet_id ≡ some (out.opcode, out.payload))
            × ((k : ℕ) (e : InFlight)
                → k < out.packet_id
                → lookup k w.in_flight ≡ some e
                → is_due e now ≡ false))
unfolding held next_due
held-next_due w now f = (
  λ k. send_first-held now k w.in_flight,
  λ idle k e. send_first-none now w.in_flight k e idle,
  λ out eq.
      let g = send_first-GoesOut now w.in_flight out f.sorted eq in
      (
        g,
        ground (arith, g.in_flight, g.opcode, g.payload),
        λ k e. send_first-lowest now w.in_flight out k e f.sorted eq,
      ),
)

-- In a window whose ids fit, once three different later messages in flight are acknowledged
-- together in ascending order, an earlier message in flight is due at any time, whatever its
-- backoff.
pub fast_retransmit :
    (w : SendWindow) (id a b c now : ℕ) (e x y z : InFlight)
    → Fits w
    → lookup id w.in_flight ≡ some e
    → lookup a w.in_flight ≡ some x
    → lookup b w.in_flight ≡ some y
    → lookup c w.in_flight ≡ some z
    → id < a
    → a < b
    → b < c
    → (e' : InFlight) × (lookup id (acknowledge w (a ∷ b ∷ c ∷ [])).in_flight ≡ some e')
      × (is_due e' now ≡ true)
unfolding acknowledge
fast_retransmit w id a b c now e x y z f he ha hb hc ia ab bc =
    let s = f.sorted in
    let m = w.in_flight in
    let m1 = acknowledge_one a m in
    let s1 = acknowledge_one-IsSorted a m s in
    let s2 = acknowledge_one-IsSorted b m1 s1 in
    let hb1 : lookup b m1 ≡ some y = ground (arith, lookup-acknowledge_one a b m x s ha) in
    let hc2 : lookup c (acknowledge_one b m1) ≡ some z =
      ground (arith, lookup-acknowledge_one a c m x s ha, lookup-acknowledge_one b c m1 y s1 hb1) in
    (
      once_counted (once_counted (once_counted e)),
      ground (
        arith,
        lookup-acknowledge_one a id m x s ha,
        lookup-acknowledge_one b id m1 y s1 hb1,
        lookup-acknowledge_one c id (acknowledge_one b m1) z s2 hc2,
      ),
      unfold is_due in ground arith,
    )
