-- ===== src/Openvpn/Reliable/Recv/Order.antt =====
-- What is delivered is what was sent, in order and once.
use synology_filestation.Prelude.{
  ℕ, zero, suc, ◌+◌, ◌%◌, ◌^◌, ◌≤◌, ◌<◌, ◌≡◌, ◌≢◌, ◌⊎◌, refl, ap, ◌||◌, not, some, none, List, [],
  ◌∷◌, ◌++◌, length, ltb, arith, Option-cases, inl, inr, if_cases,
}
use synology_filestation.Prelude.Tree.{
  Every, IsSorted, lookup, insert, remove, lookup-insert, Every-lookup, Every-insert, Every-remove,
  Every-mono, Every-zip, insert-IsSorted, remove-IsSorted, remove-ne,
}
use synology_filestation.Openvpn.Reliable.Recv.{
  RecvWindow, Message, Delivery, buffered, duplicate, out_of_window, capacity, new, accept, owe,
  next_in_order, take_acks, RecvOp, offers, delivers, acknowledges, appended, step, run, after,
  delivered, in_window, has,
}

-- The first `n` messages of the peer.
unfoldable pub sequence : (ℕ → Message) → ℕ → List Message
sequence messages zero = []
sequence messages (suc n) = sequence messages n ++ (messages n ∷ [])

-- What is kept is the peer's, and lies in the window.
pub record Holds (messages : ℕ → Message) (w : RecvWindow) : Type 0 where
  pub sorted : IsSorted w.messages
  pub within :
      Every
        (λ k m. (w.next_expected ≤ k) × (k < w.next_expected + capacity) × (m ≡ messages k))
        w.messages

module _ (messages : ℕ → Message) (w : RecvWindow) where
  owe-Holds : (d : Delivery) (id : ℕ) → Holds messages w → Holds messages (owe d id w)
  unfolding owe
  owe-Holds d id h =
      if_cases (Holds messages) _ _ _ (λ _. record { sorted = h.sorted; within = h.within })
        (λ _. h)

  take_acks-Holds : (max : ℕ) → Holds messages w → Holds messages (take_acks w max).0
  unfolding take_acks
  take_acks-Holds max h = record { sorted = h.sorted; within = h.within }

module _ (messages : ℕ → Message) (w : RecvWindow)
    (small : w.next_expected + capacity < 2 ^ 32) where
  insert-Holds :
      (id : ℕ)
      → w.next_expected ≤ id
      → id < w.next_expected + capacity
      → Holds messages w
      → Holds messages (record w { messages = insert id (messages id) w.messages })
  insert-Holds id lo hi h = record {
    sorted = insert-IsSorted id (messages id) w.messages h.sorted;
    within =
        Every-insert
          (λ k m. (w.next_expected ≤ k) × (k < w.next_expected + capacity) × (m ≡ messages k)) id
          (messages id) w.messages (lo, hi, refl) h.within;
  }

  accept-Holds : (id : ℕ) → Holds messages w → Holds messages (accept w id (messages id)).0
  unfolding accept
  accept-Holds id h =
      if_cases (λ (r : RecvWindow × Delivery). Holds messages r.0) (not (in_window w id)) _ _
        (λ _. h)
        λ inside.
          if_cases (λ (r : RecvWindow × Delivery). Holds messages r.0)
            (ltb id w.next_expected || has w id) _ _ (λ _. owe-Holds messages w duplicate id h)
            λ new_id.
              owe-Holds messages (record w { messages = insert id (messages id) w.messages })
                buffered id (insert-Holds id (ground arith) (ground arith) h)

  -- A delivery takes the next message of the peer.
  next_in_order-Holds :
      Holds messages w
      → Holds messages (next_in_order w).0
        × (((next_in_order w).1 ≡ none) × ((next_in_order w).0.next_expected ≡ w.next_expected)
            ⊎ ((next_in_order w).1 ≡ some (messages w.next_expected))
              × ((next_in_order w).0.next_expected ≡ w.next_expected + 1))
  unfolding next_in_order
  next_in_order-Holds h = elim (Option-cases (lookup w.next_expected w.messages)) [
    | inl miss ↦ rw (miss, next_in_order) (h, inl (refl, refl))
    | inr (m, hit) ↦
        let at = Every-lookup In w.messages w.next_expected m h.within hit in
        let next : (w.next_expected + 1) % 2 ^ 32 ≡ w.next_expected + 1 = omega arith in
        rw (hit, next_in_order, next)
          (
            record {
              sorted = remove-IsSorted w.next_expected w.messages h.sorted;
              within =
                  Every-mono (λ k m. (k ≢ w.next_expected) × In k m) InNext
                    (remove w.next_expected w.messages)
                    (λ k m x. (omega (arith, x.0, x.1.0), omega (arith, x.1.1), x.1.2))
                    (Every-zip (λ k _. k ≢ w.next_expected) In (remove w.next_expected w.messages)
                      (remove-ne w.next_expected w.messages h.sorted)
                      (Every-remove In w.next_expected w.messages h.within));
            },
            inr (ap some at.2, refl),
          )
  ]
    where
      In : ℕ → Message → Type 0
      In k m = (w.next_expected ≤ k) × (k < w.next_expected + capacity) × (m ≡ messages k)

      InNext : ℕ → Message → Type 0
      InNext k m =
          (w.next_expected + 1 ≤ k) × (k < w.next_expected + 1 + capacity) × (m ≡ messages k)

appended-sequence :
    (messages : ℕ → Message) (n : ℕ)
    → appended (some (messages n)) (sequence messages n) ≡ sequence messages (n + 1)
unfolding sequence
appended-sequence messages n = let e : suc n ≡ n + 1 = omega arith in ap (sequence messages) e

next_expected-owe :
    (d : Delivery) (id : ℕ) (w : RecvWindow) → (owe d id w).next_expected ≡ w.next_expected
unfolding owe
next_expected-owe d id w = ground arith

next_expected-accept :
    (w : RecvWindow) (id : ℕ) (m : Message) → (accept w id m).0.next_expected ≡ w.next_expected
unfolding accept
next_expected-accept w id m = ground (
  arith,
  next_expected-owe duplicate id w,
  next_expected-owe buffered id (record w { messages = insert id m w.messages }),
)

-- One use of a window whose deliveries so far are the first messages.
pub step-Holds :
    (messages : ℕ → Message) (op : RecvOp) (w : RecvWindow) (out : List Message)
    → w.next_expected + capacity < 2 ^ 32
    → Holds messages w
    → out ≡ sequence messages w.next_expected
    → Holds messages (step messages op w out).0
      × ((step messages op w out).1 ≡ sequence messages (step messages op w out).0.next_expected)
      × ((step messages op w out).0.next_expected ≤ w.next_expected + 1)
unfolding step
step-Holds messages (offers n) w out small h e =
    let same = next_expected-accept w n (messages n) in
    (accept-Holds messages w small n h, rw same e, omega (arith, same))
step-Holds messages (acknowledges max) w out small h e =
    unfold take_acks in (take_acks-Holds messages w max h, e, omega arith)
step-Holds messages delivers w out small h e =
    let (h', next) = next_in_order-Holds messages w small h in
    elim next [
      | inl (none_left, same) ↦ (h', rw (none_left, same) e, omega (arith, same))
      | inr (got, more) ↦
          (h', rw (got, more, e) (appended-sequence messages w.next_expected), omega (arith, more))
    ]

pub run-Holds_from :
    (messages : ℕ → Message) (ops : List RecvOp) (w : RecvWindow) (out : List Message)
    → w.next_expected + capacity + length ops < 2 ^ 32
    → Holds messages w
    → out ≡ sequence messages w.next_expected
    → Holds messages (run messages ops w out).0
      × ((run messages ops w out).1 ≡ sequence messages (run messages ops w out).0.next_expected)
      × ((run messages ops w out).0.next_expected ≤ w.next_expected + length ops)
unfolding run
run-Holds_from messages [] w out small h e = (h, e, omega arith)
run-Holds_from messages (op ∷ ops) w out small h e =
    let (h', e', le) = step-Holds messages op w out (omega arith) h e in
    let (h2, e2, le2) =
      run-Holds_from messages ops (step messages op w out).0 (step messages op w out).1
        (omega arith) h' e' in
    (h2, e2, omega (arith, le, le2))

new-Holds : (messages : ℕ → Message) → Holds messages new
new-Holds messages = record { sorted = tt; within = tt }

-- A new window, used for fewer than 2 ^ 32 - capacity steps, in which it is offered a peer's
-- numbered messages in any order, any of them lost or repeated, and asked for messages and
-- acknowledgements at any time, has delivered exactly the peer's first messages, each once and in
-- order.
pub in_order :
    (messages : ℕ → Message) (ops : List RecvOp)
    → length ops + capacity < 2 ^ 32
    → delivered messages ops ≡ sequence messages (after messages ops).next_expected
in_order messages ops small =
    (run-Holds_from messages ops new [] (omega arith) (new-Holds messages)
      (unfold sequence in refl)).1

lookup-accept :
    (messages : ℕ → Message) (w : RecvWindow)
    → w.next_expected + capacity < 2 ^ 32
    → Holds messages w
    → ((accept w w.next_expected (messages w.next_expected)).1 ≢ out_of_window)
      × (lookup w.next_expected (accept w w.next_expected (messages w.next_expected)).0.messages
          ≡ some (messages w.next_expected))
unfolding accept in_window has owe
lookup-accept messages w small h =
    let n = w.next_expected in
    elim (Option-cases (lookup n w.messages)) [
      | inl miss ↦ ground (arith, miss, lookup-insert n n (messages n) w.messages)
      | inr (m, hit) ↦
          let at =
            Every-lookup (λ k m. (n ≤ k) × (k < n + capacity) × (m ≡ messages k)) w.messages n m
              h.within hit in
          ground (arith, hit, at.2)
    ]

-- After any use of a new window for fewer than 2 ^ 32 - capacity steps, the message that it waits
-- for is not refused when it is offered, and is what the window delivers next.
pub takes_next :
    (messages : ℕ → Message) (ops : List RecvOp)
    → length ops + capacity < 2 ^ 32
    → ((accept
          (after messages ops)
          (after messages ops).next_expected
          (messages (after messages ops).next_expected)).1
        ≢ out_of_window)
      × ((next_in_order
            (accept
              (after messages ops)
              (after messages ops).next_expected
              (messages (after messages ops).next_expected)).0).1
          ≡ some (messages (after messages ops).next_expected))
takes_next messages ops small =
    let (h, e, le) =
      run-Holds_from messages ops new [] (omega arith) (new-Holds messages)
        (unfold sequence in refl) in
    let w = after messages ops in
    let (taken, found) = lookup-accept messages w (omega (arith, le)) h in
    let m = messages w.next_expected in
    (
      taken,
      unfold next_in_order in
          rw (next_expected-accept w w.next_expected m, found, next_in_order) refl,
    )
