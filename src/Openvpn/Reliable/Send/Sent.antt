-- ===== src/Openvpn/Reliable/Send/Sent.antt =====
-- What sending a message does to the entries in flight.
use synology_filestation.Prelude.{
  ℕ, ◌+◌, ◌*◌, ◌<◌, ◌≤◌, ◌≡◌, ◌≢◌, refl, true, false, some, ◌∷◌, arith,
}
use synology_filestation.Prelude.Tree.{Tree, lookup}
use synology_filestation.Openvpn.Reliable.Send.{InFlight, Outgoing, is_due, sent}

-- A message that goes out: its entry, and the entry after the send, which waits for its timeout,
-- with twice the timeout from then on and no later acknowledgement counted; no other entry changes.
pub record GoesOut (now : ℕ) (m m' : Tree InFlight) (out : Outgoing) : Type 0 where
  pub entry : InFlight
  pub entry' : InFlight
  pub in_flight : lookup out.packet_id m ≡ some entry
  pub due : is_due entry now ≡ true
  pub opcode : out.opcode ≡ entry.opcode
  pub payload : out.payload ≡ entry.payload
  pub after : lookup out.packet_id m' ≡ some entry'
  pub keeps_opcode : entry'.opcode ≡ entry.opcode
  pub keeps_payload : entry'.payload ≡ entry.payload
  pub waits : entry'.next_try ≡ some (now + entry.timeout)
  pub doubles : entry'.timeout ≡ 2 * entry.timeout
  pub uncounted : entry'.later_acks ≡ 0
  pub idle : (t : ℕ) → t < now + entry.timeout → is_due entry' t ≡ false
  pub due_again : (t : ℕ) → now + entry.timeout ≤ t → is_due entry' t ≡ true
  pub others : (k : ℕ) → k ≢ out.packet_id → lookup k m' ≡ lookup k m

sent_idle : (e : InFlight) (now t : ℕ) → t < now + e.timeout → is_due (sent e now) t ≡ false
unfolding sent is_due
sent_idle e now t h = ground arith

sent_due : (e : InFlight) (now t : ℕ) → now + e.timeout ≤ t → is_due (sent e now) t ≡ true
unfolding sent is_due
sent_due e now t h = ground arith

-- The first entry is the one that goes out.
pub head-GoesOut :
    (now id : ℕ) (e : InFlight) (m : Tree InFlight)
    → is_due e now ≡ true
    → GoesOut now
        ((id, e) ∷ m)
        ((id, sent e now) ∷ m)
        (record { opcode = e.opcode; packet_id = id; payload = e.payload })
unfolding lookup sent
head-GoesOut now id e m due = record {
  entry = e;
  entry' = sent e now;
  in_flight = ground arith;
  due = due;
  opcode = refl;
  payload = refl;
  after = ground arith;
  keeps_opcode = refl;
  keeps_payload = refl;
  waits = refl;
  doubles = omega arith;
  uncounted = refl;
  idle = sent_idle e now;
  due_again = sent_due e now;
  others = λ k h. ground arith;
}

-- An entry before it, of a lower id, stands.
pub tail-GoesOut :
    (now id : ℕ) (e : InFlight) (m m' : Tree InFlight) (out : Outgoing)
    → id < out.packet_id
    → GoesOut now m m' out
    → GoesOut now ((id, e) ∷ m) ((id, e) ∷ m') out
unfolding lookup
tail-GoesOut now id e m m' out below g = record {
  entry = g.entry;
  entry' = g.entry';
  in_flight = ground (arith, g.in_flight);
  due = g.due;
  opcode = g.opcode;
  payload = g.payload;
  after = ground (arith, g.after);
  keeps_opcode = g.keeps_opcode;
  keeps_payload = g.keeps_payload;
  waits = g.waits;
  doubles = g.doubles;
  uncounted = g.uncounted;
  idle = g.idle;
  due_again = g.due_again;
  others = λ k h. ground (arith, g.others k h);
}
