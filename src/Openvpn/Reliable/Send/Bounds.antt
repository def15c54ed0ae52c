-- ===== src/Openvpn/Reliable/Send/Bounds.antt =====
-- How far the window runs ahead of the peer.
use synology_filestation.Prelude.{
  ℕ, ◌+◌, ◌%◌, ◌^◌, ◌≤◌, ◌<◌, ◌≡◌, refl, false, Option, List, [], ◌∷◌, length, arith, Bool-cases,
  Option-cases, inl, inr, if_cases,
}
use synology_filestation.Prelude.Tree.{
  Tree, Every, IsSorted, lookup, remove, Every-insert, Every-remove, Every-mono, Every-zip,
  insert-IsSorted, remove-IsSorted, length-insert-le, length-remove-le,
}
use synology_filestation.Openvpn.Opcode.{Opcode}
use synology_filestation.Openvpn.Reliable.Send.{
  InFlight, SendWindow, new, capacity, spans, is_full, queue, send_first, next_due, is_due,
  count_ack, acknowledge_one, acknowledge_all, acknowledge, fresh, SendOp, queues, sends, hears,
  step, run,
}

-- Ids in order, at most six, each at most six behind the next id.
pub record Fits (w : SendWindow) : Type 0 where
  pub sorted : IsSorted w.in_flight
  pub few : length w.in_flight ≤ capacity
  pub within : Every (λ k _. (k < w.next_id) × (w.next_id ≤ k + capacity)) w.in_flight

-- Sends and acknowledgements change entries and not their ids.
module _ (P : ℕ → Type 0) where
  send_first-Every :
      (now : ℕ) (m : Tree InFlight) → Every (λ k _. P k) m → Every (λ k _. P k) (send_first now m).1
  unfolding send_first
  send_first-Every now [] h = tt
  send_first-Every now ((id, e) ∷ m) h =
      let later = send_first-Every now m h.1 in
      elim (Bool-cases (is_due e now)) [
        | inl due ↦ rw due (h.0, h.1)
        | inr idle ↦ rw idle (h.0, later)
      ]

  count_ack-Every :
      (id : ℕ) (m : Tree InFlight) → Every (λ k _. P k) m → Every (λ k _. P k) (count_ack id m)
  unfolding count_ack
  count_ack-Every id [] h = tt
  count_ack-Every id ((k, e) ∷ m) h = (h.0, count_ack-Every id m h.1)

  acknowledge_one-Every :
      (id : ℕ) (m : Tree InFlight)
      → Every (λ k _. P k) m
      → Every (λ k _. P k) (acknowledge_one id m)
  unfolding acknowledge_one
  acknowledge_one-Every id m h = elim (Option-cases (lookup id m)) [
    | inl miss ↦ rw (miss, acknowledge_one) h
    | inr (e, hit) ↦
        rw (hit, acknowledge_one)
          (count_ack-Every id (remove id m) (Every-remove (λ k _. P k) id m h))
  ]

  acknowledge_all-Every :
      (ids : List ℕ) (m : Tree InFlight)
      → Every (λ k _. P k) m
      → Every (λ k _. P k) (acknowledge_all ids m)
  unfolding acknowledge_all
  acknowledge_all-Every [] m h = h
  acknowledge_all-Every (id ∷ ids) m h =
      acknowledge_all-Every ids (acknowledge_one id m) (acknowledge_one-Every id m h)

send_first-IsSorted : (now : ℕ) (m : Tree InFlight) → IsSorted m → IsSorted (send_first now m).1
unfolding send_first
send_first-IsSorted now [] s = tt
send_first-IsSorted now ((id, e) ∷ m) s =
    let later = send_first-IsSorted now m s.1 in
    elim (Bool-cases (is_due e now)) [
      | inl due ↦ rw due s
      | inr idle ↦ rw idle (send_first-Every (λ k. id < k) now m s.0, later)
    ]

count_ack-IsSorted : (id : ℕ) (m : Tree InFlight) → IsSorted m → IsSorted (count_ack id m)
unfolding count_ack
count_ack-IsSorted id [] s = tt
count_ack-IsSorted id ((k, e) ∷ m) s =
    (count_ack-Every (λ j. k < j) id m s.0, count_ack-IsSorted id m s.1)

pub acknowledge_one-IsSorted :
    (id : ℕ) (m : Tree InFlight) → IsSorted m → IsSorted (acknowledge_one id m)
unfolding acknowledge_one
acknowledge_one-IsSorted id m s = elim (Option-cases (lookup id m)) [
  | inl miss ↦ rw (miss, acknowledge_one) s
  | inr (e, hit) ↦
      rw (hit, acknowledge_one) (count_ack-IsSorted id (remove id m) (remove-IsSorted id m s))
]

acknowledge_all-IsSorted :
    (ids : List ℕ) (m : Tree InFlight) → IsSorted m → IsSorted (acknowledge_all ids m)
unfolding acknowledge_all
acknowledge_all-IsSorted [] m s = s
acknowledge_all-IsSorted (id ∷ ids) m s =
    acknowledge_all-IsSorted ids (acknowledge_one id m) (acknowledge_one-IsSorted id m s)

length-send_first : (now : ℕ) (m : Tree InFlight) → length (send_first now m).1 ≡ length m
unfolding send_first
length-send_first now [] = refl
length-send_first now ((id, e) ∷ m) = ground (arith, length-send_first now m)

length-count_ack : (id : ℕ) (m : Tree InFlight) → length (count_ack id m) ≡ length m
unfolding count_ack
length-count_ack id [] = refl
length-count_ack id ((k, e) ∷ m) = omega (arith, length-count_ack id m)

length-acknowledge_one-le : (id : ℕ) (m : Tree InFlight) → length (acknowledge_one id m) ≤ length m
unfolding acknowledge_one
length-acknowledge_one-le id m =
    ground (arith, length-count_ack id (remove id m), length-remove-le id m)

length-acknowledge_all-le :
    (ids : List ℕ) (m : Tree InFlight) → length (acknowledge_all ids m) ≤ length m
unfolding acknowledge_all
length-acknowledge_all-le [] m = omega arith
length-acknowledge_all-le (id ∷ ids) m =
    omega
      (arith, length-acknowledge_one-le id m, length-acknowledge_all-le ids (acknowledge_one id m))

-- With room by the span test, every id is close enough to one more message.
room :
    (next : ℕ) (m : Tree InFlight)
    → next < 2 ^ 32
    → IsSorted m
    → Every (λ k _. (k < next) × (next ≤ k + capacity)) m
    → spans next m ≡ false
    → Every (λ k _. (k < next + 1) × (next + 1 ≤ k + capacity)) m
unfolding spans
room next [] small s h e = tt
room next ((oldest, x) ∷ m) small s h e =
    let near : next + 1 ≤ oldest + capacity = ground arith in
    let both =
      Every-zip (λ k _. oldest < k) (λ k _. (k < next) × (next ≤ k + capacity)) m s.0 h.1 in
    (
      omega arith,
      Every-mono (λ k _. (oldest < k) × ((k < next) × (next ≤ k + capacity)))
          (λ k _. (k < next + 1) × (next + 1 ≤ k + capacity)) m (λ k u both. omega arith) both,
    )

queue-Fits :
    (w : SendWindow) (o : Opcode) (payload : List ℕ)
    → w.next_id + 1 < 2 ^ 32
    → Fits w
    → Fits (queue w o payload).0
unfolding queue is_full
queue-Fits w o payload small f =
    if_cases (λ (r : SendWindow × Option ℕ). Fits r.0) (is_full w) _ _ (λ _. f)
      λ free.
        let next : (w.next_id + 1) % 2 ^ 32 ≡ w.next_id + 1 = omega arith in
        rw next (record {
          sorted = insert-IsSorted _ _ _ f.sorted;
          few = ground (arith, length-insert-le w.next_id (fresh w o payload) w.in_flight);
          within =
              Every-insert (λ k _. (k < w.next_id + 1) × (w.next_id + 1 ≤ k + capacity)) w.next_id _
                w.in_flight (omega arith)
                (room w.next_id w.in_flight (omega arith) f.sorted f.within (ground arith));
        })

next_due-Fits : (w : SendWindow) (now : ℕ) → Fits w → Fits (next_due w now).0
unfolding next_due
next_due-Fits w now f = record {
  sorted = send_first-IsSorted now w.in_flight f.sorted;
  few = omega (arith, f.few, length-send_first now w.in_flight);
  within =
      send_first-Every (λ k. (k < w.next_id) × (w.next_id ≤ k + capacity)) now w.in_flight f.within;
}

acknowledge-Fits : (w : SendWindow) (ids : List ℕ) → Fits w → Fits (acknowledge w ids)
unfolding acknowledge
acknowledge-Fits w ids f = record {
  sorted = acknowledge_all-IsSorted ids w.in_flight f.sorted;
  few = omega (arith, f.few, length-acknowledge_all-le ids w.in_flight);
  within =
      acknowledge_all-Every (λ k. (k < w.next_id) × (w.next_id ≤ k + capacity)) ids w.in_flight
        f.within;
}

next_id-step :
    (w : SendWindow) (op : SendOp) → w.next_id + 1 < 2 ^ 32 → (step w op).next_id ≤ w.next_id + 1
unfolding step queue next_due acknowledge
next_id-step w (queues o p) h = ground arith
next_id-step w _ h = omega arith

step-Fits : (w : SendWindow) (op : SendOp) → w.next_id + 1 < 2 ^ 32 → Fits w → Fits (step w op)
unfolding step
step-Fits w (queues o p) h f = queue-Fits w o p h f
step-Fits w (sends now) h f = next_due-Fits w now f
step-Fits w (hears ids) h f = acknowledge-Fits w ids f

run-Fits_from :
    (w : SendWindow) (ops : List SendOp)
    → w.next_id + length ops < 2 ^ 32
    → Fits w
    → Fits (run w ops)
unfolding run
run-Fits_from w [] h f = f
run-Fits_from w (op ∷ ops) h f =
    run-Fits_from (step w op) ops (omega (arith, next_id-step w op (omega arith)))
      (step-Fits w op (omega arith) f)

-- A new window, used fewer than 2 ^ 32 times in any way: the ids in flight ascend, there are at
-- most six, each lies below the next id, and none lies more than six behind it.
pub run-Fits :
    (timeout : ℕ) (ops : List SendOp) → length ops < 2 ^ 32 → Fits (run (new timeout) ops)
run-Fits timeout ops h =
    run-Fits_from (new timeout) ops (omega arith)
      (record { sorted = tt; few = omega arith; within = tt })
