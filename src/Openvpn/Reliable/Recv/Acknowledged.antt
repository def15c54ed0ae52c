-- ===== src/Openvpn/Reliable/Recv/Acknowledged.antt =====
-- What is acknowledged has been kept, and what has been kept is acknowledged.
use synology_filestation.Prelude.{
  ℕ, ◌+◌, ◌-◌, ◌^◌, ◌≤◌, ◌<◌, ◌≡◌, refl, ap, ◌∙◌, Bool, true, false, ◌||◌, not, List, [], ◌∷◌, ◌++◌,
  length, take, ltb, ◌==◌, arith, Option-cases, inl, inr, if_cases, contains, All, All-append,
  All-take, All-drop, All-mono, min, Distinct, push-Distinct, take-Distinct, drop-Distinct,
  contains-append, contains-take-drop, take-append_le, length-take, ◌⊎◌,
}
use synology_filestation.Prelude.Tree.{IsSorted, lookup, insert, lookup-insert, lookup-remove}
use synology_filestation.Openvpn.Reliable.Recv.{
  RecvWindow, Message, Delivery, buffered, duplicate, capacity, recent_max, new, accept, owe,
  next_in_order, without, promote, take_acks, RecvOp, offers, delivers, acknowledges, step, run,
  after, in_window, has,
}
use synology_filestation.Openvpn.Reliable.Recv.Order.{Holds, step-Holds, sequence}

-- Whether the message with an id has arrived: it was delivered, or waits in the window.
unfoldable pub arrived : RecvWindow → ℕ → Bool
arrived w id = ltb id w.next_expected || has w id

pub record Owns (w : RecvWindow) : Type 0 where
  pub pending : All (λ id. arrived w id ≡ true) w.pending_acks
  pub recent : All (λ id. arrived w id ≡ true) w.recent_acks
  pub distinct : Distinct w.pending_acks

module _ (P : ℕ → Type 0) where
  without-All : (id : ℕ) (l : List ℕ) → All P l → All P (without id l)
  unfolding without
  without-All id [] h = tt
  without-All id (x ∷ l) h =
      let rest = without-All id l h.1 in
      if_cases (All P) (x == id) _ _ (λ _. rest) (λ _. (h.0, rest))

  promote-All : (ids recent : List ℕ) → All P ids → All P recent → All P (promote ids recent)
  unfolding promote
  promote-All [] recent h k = k
  promote-All (id ∷ ids) recent h k =
      (h.0, without-All id (promote ids recent) (promote-All ids recent h.1 k))

Owns-mono :
    (w w' : RecvWindow)
    → w'.pending_acks ≡ w.pending_acks
    → w'.recent_acks ≡ w.recent_acks
    → ((id : ℕ) → arrived w id ≡ true → arrived w' id ≡ true)
    → Owns w
    → Owns w'
unfolding arrived has
Owns-mono w w' p r f o = record {
  pending = rw p (
      All-mono (λ id. arrived w id ≡ true) (λ id. arrived w' id ≡ true) w.pending_acks f o.pending);
  recent =
      rw r (
        All-mono (λ id. arrived w id ≡ true) (λ id. arrived w' id ≡ true) w.recent_acks f o.recent);
  distinct = rw p o.distinct;
}

owe-Owns :
    (d : Delivery) (id : ℕ) (w : RecvWindow) → arrived w id ≡ true → Owns w → Owns (owe d id w)
unfolding owe arrived has
owe-Owns d id w here o =
    if_cases Owns _ _ _
      (λ new_id. record {
        distinct = push-Distinct w.pending_acks id o.distinct (ground arith);
        pending =
            All-append (λ id. arrived w id ≡ true) w.pending_acks (id ∷ []) o.pending (here, tt);
        recent = o.recent;
      })
      (λ _. o)

accept-Owns : (w : RecvWindow) (id : ℕ) (m : Message) → Owns w → Owns (accept w id m).0
unfolding accept arrived has
accept-Owns w id m o =
    if_cases (λ (r : RecvWindow × Delivery). Owns r.0) (not (in_window w id)) _ _ (λ _. o)
      λ inside.
        if_cases (λ (r : RecvWindow × Delivery). Owns r.0) (ltb id w.next_expected || has w id) _ _
          (λ seen. owe-Owns duplicate id w seen o)
          λ new_id.
            let w' : RecvWindow = record w { messages = insert id m w.messages } in
            owe-Owns buffered id w' (ground (arith, lookup-insert id id m w.messages))
              (Owns-mono w w' refl refl (λ j h. ground (arith, lookup-insert id j m w.messages)) o)

next_in_order-Owns :
    (w : RecvWindow)
    → w.next_expected + capacity < 2 ^ 32
    → IsSorted w.messages
    → Owns w
    → Owns (next_in_order w).0
unfolding next_in_order arrived has
next_in_order-Owns w small s o = elim (Option-cases (lookup w.next_expected w.messages)) [
  | inl miss ↦ rw (miss, next_in_order) o
  | inr (m, hit) ↦
      rw (hit, next_in_order)
        (Owns-mono w _ refl refl
          (λ j h. ground (arith, lookup-remove w.next_expected j w.messages s)) o)
]

take_acks-Owns : (w : RecvWindow) (max : ℕ) → Owns w → Owns (take_acks w max).0
unfolding take_acks arrived has
take_acks-Owns w max o =
    let P = λ (id : ℕ). arrived w id ≡ true in
    let n = min (length w.pending_acks) (min max recent_max) in
    record {
      distinct = drop-Distinct n w.pending_acks o.distinct;
      pending = All-drop P n w.pending_acks o.pending;
      recent = All-take P recent_max _ (
          promote-All P (take n w.pending_acks) w.recent_acks
            (All-take P n w.pending_acks o.pending) o.recent);
    }

step-Owns :
    (messages : ℕ → Message) (op : RecvOp) (w : RecvWindow) (out : List Message)
    → w.next_expected + capacity < 2 ^ 32
    → IsSorted w.messages
    → Owns w
    → Owns (step messages op w out).0
unfolding step
step-Owns messages (offers n) w out small s o = accept-Owns w n (messages n) o
step-Owns messages delivers w out small s o = next_in_order-Owns w small s o
step-Owns messages (acknowledges max) w out small s o = take_acks-Owns w max o

run-Owns_from :
    (messages : ℕ → Message) (ops : List RecvOp) (w : RecvWindow) (out : List Message)
    → w.next_expected + capacity + length ops < 2 ^ 32
    → Holds messages w
    → out ≡ sequence messages w.next_expected
    → Owns w
    → Owns (run messages ops w out).0
unfolding run
run-Owns_from messages [] w out small h e o = o
run-Owns_from messages (op ∷ ops) w out small h e o =
    let (h', e', le) = step-Holds messages op w out (omega arith) h e in
    run-Owns_from messages ops (step messages op w out).0 (step messages op w out).1 (omega arith)
      h' e' (step-Owns messages op w out (omega arith) h.sorted o)

run-Owns :
    (messages : ℕ → Message) (ops : List RecvOp)
    → length ops + capacity < 2 ^ 32
    → Owns (after messages ops)
run-Owns messages ops small =
    run-Owns_from messages ops new [] (omega arith) (record { sorted = tt; within = tt })
      (unfold sequence in refl) (record { pending = tt; recent = tt; distinct = tt })

-- After any use of a new window for fewer than 2 ^ 32 - capacity steps, every id that `take_acks`
-- returns is that of a message that has arrived: it has been delivered, or it waits in the window.
pub take_acks-arrived :
    (messages : ℕ → Message) (ops : List RecvOp) (max : ℕ)
    → length ops + capacity < 2 ^ 32
    → All (λ id. arrived (after messages ops) id ≡ true) (take_acks (after messages ops) max).1
unfolding take_acks arrived has
take_acks-arrived messages ops max small =
    let w = after messages ops in
    All-take (λ id. arrived w id ≡ true) (min max recent_max) _
      (take_acks-Owns w max (run-Owns messages ops small)).recent

without-append :
    (id : ℕ) (xs ys : List ℕ) → contains xs id ≡ false → without id (xs ++ ys) ≡ xs ++ without id ys
unfolding without contains
without-append id [] ys h = refl
without-append id (x ∷ xs) ys h = ground (arith, without-append id xs ys)

-- What promotion leaves of the ids that were acknowledged before.
stripped : List ℕ → List ℕ → List ℕ
stripped [] recent = recent
stripped (id ∷ ids) recent = without id (stripped ids recent)

promote_lem : (ids recent : List ℕ) → Distinct ids → promote ids recent ≡ ids ++ stripped ids recent
unfolding promote stripped
promote_lem [] recent d = refl
promote_lem (id ∷ ids) recent d =
    ap (λ l. id ∷ without id l) (promote_lem ids recent d.1)
    ∙ ap (◌∷◌ id) (without-append id ids (stripped ids recent) d.0)

-- After any use of a new window for fewer than 2 ^ 32 - capacity steps, an id that waits to be
-- acknowledged is among those that `take_acks` returns, or goes on waiting.
pub take_acks_keeps :
    (messages : ℕ → Message) (ops : List RecvOp) (max id : ℕ)
    → length ops + capacity < 2 ^ 32
    → contains (after messages ops).pending_acks id ≡ true
    → (contains (take_acks (after messages ops) max).1 id ≡ true)
      ⊎ (contains (take_acks (after messages ops) max).0.pending_acks id ≡ true)
unfolding take_acks
take_acks_keeps messages ops max id small owed =
    let w = after messages ops in
    let room = min max recent_max in
    let n = min (length w.pending_acks) room in
    let ids = take n w.pending_acks in
    let rest = stripped ids w.recent_acks in
    let short : length ids ≤ room = omega (arith, length-take n w.pending_acks) in
    let front =
      promote_lem ids w.recent_acks
        (take-Distinct n w.pending_acks (run-Owns messages ops small).distinct) in
    rw
      (
        front,
        take-append_le recent_max ids rest (omega (arith, short)),
        take-append_le room ids _ short,
      )
      (ground (
        arith,
        contains-append ids (take (room - length ids) (take (recent_max - length ids) rest)) id,
        contains-take-drop n w.pending_acks id,
      ))
