-- ===== src/Openvpn/Reliable/Send/Runs.antt =====
-- The send window at concrete messages.
use synology_filestation.Prelude.{
  ℕ, ◌≤◌, ◌<◌, ◌≡◌, refl, true, false, Option, some, none, List, [], ◌∷◌, leb, arith,
}
use synology_filestation.Prelude.Tree.{lookup, insert}
use synology_filestation.Openvpn.Opcode.{control_v1}
use synology_filestation.Openvpn.Reliable.Send.{
  SendWindow, InFlight, Outgoing, SendOp, queues, sends, new, is_full, queue, is_due, next_due,
  next_wakeup, acknowledge, step, run,
}
use synology_filestation.Openvpn.Reliable.Send.Bounds.{Fits, run-Fits}
use synology_filestation.Openvpn.Reliable.Send.Contents.{held, held-next_due, fast_retransmit}
use synology_filestation.Openvpn.Reliable.Send.Sent.{GoesOut}
use synology_filestation.Openvpn.Reliable.Send.Wakeup.{is_some, next_wakeup-next_due}

abbrev uses : List SendOp
uses =
    queues control_v1 (7 ∷ [])
    ∷ queues control_v1 (8 ∷ [])
    ∷ queues control_v1 (9 ∷ [])
    ∷ queues control_v1 (10 ∷ [])
    ∷ sends 100
    ∷ []

abbrev busy : SendWindow
busy = run (new 2000) uses

busy-Fits : Fits busy
busy-Fits = run-Fits 2000 uses (omega arith)

run-Fits_example : Fits (run (new 2000) uses)
run-Fits_example = run-Fits 2000 uses (omega arith)

wakes_now : next_wakeup busy 150 ≡ some 150
unfolding next_wakeup run step queue next_due is_full insert
wakes_now = refl

next_wakeup-next_due_example :
    (150 ≤ 150) × ((u : ℕ) → 150 ≤ u → is_some (next_due busy u).1 ≡ leb 150 u)
next_wakeup-next_due_example = next_wakeup-next_due busy 150 150 wakes_now

held-next_due_example :
    ((k : ℕ) → held (next_due busy 150).0 k ≡ held busy k)
    × ((next_due busy 150).1 ≡ none
        → (k : ℕ) (e : InFlight) → lookup k busy.in_flight ≡ some e
        → is_due e 150 ≡ false)
    × ((out : Outgoing)
        → (next_due busy 150).1 ≡ some out
        → GoesOut 150 busy.in_flight (next_due busy 150).0.in_flight out
          × (held busy out.packet_id ≡ some (out.opcode, out.payload))
          × ((k : ℕ) (e : InFlight)
              → k < out.packet_id
              → lookup k busy.in_flight ≡ some e
              → is_due e 150 ≡ false))
held-next_due_example = held-next_due busy 150 busy-Fits

abbrev waiting : ℕ → Option ℕ → ℕ → InFlight
waiting n t d = record {
  opcode = control_v1;
  payload = n ∷ [];
  next_try = t;
  timeout = d;
  later_acks = 0;
}

entries :
    (lookup 0 busy.in_flight ≡ some (waiting 7 (some 2100) 4000))
    × (lookup 1 busy.in_flight ≡ some (waiting 8 none 2000))
    × (lookup 2 busy.in_flight ≡ some (waiting 9 none 2000))
    × (lookup 3 busy.in_flight ≡ some (waiting 10 none 2000))
unfolding lookup run step queue next_due is_full insert
entries = (refl, refl, refl, refl)

fast_retransmit_example :
    (e : InFlight) × (lookup 0 (acknowledge busy (1 ∷ 2 ∷ 3 ∷ [])).in_flight ≡ some e)
    × (is_due e 150 ≡ true)
fast_retransmit_example =
    fast_retransmit busy 0 1 2 3 150 (waiting 7 (some 2100) 4000) (waiting 8 none 2000)
      (waiting 9 none 2000) (waiting 10 none 2000) busy-Fits entries.0 entries.1 entries.2 entries.3
      (omega arith) (omega arith) (omega arith)
