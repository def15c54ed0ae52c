-- ===== src/Openvpn/Reliable/Send.antt =====
-- rust/synology-filestation-openvpn/src/reliable.rs: `SendWindow`, outgoing control messages and
-- when to send them again.
pub mod Bounds
pub mod Contents
pub mod Sent
pub mod Wakeup
mod Runs
use synology_filestation.Prelude.{
  ℕ, zero, suc, ◌+◌, ◌-◌, ◌*◌, ◌%◌, ◌^◌, ◌≤◌, ◌<◌, ◌≡◌, Bool, true, false, ◌||◌, Option, some, none,
  List, [], ◌∷◌, length, ltb, leb, if◌then◌else◌, min,
}
use synology_filestation.Prelude.Tree.{Tree, lookup, insert, remove}
use synology_filestation.Openvpn.Opcode.{Opcode}

pub record Outgoing : Type 0 where
  pub opcode : Opcode
  pub packet_id : ℕ
  pub payload : List ℕ

-- `next_try` is none until the message has been sent.
pub record InFlight : Type 0 where
  pub opcode : Opcode
  pub payload : List ℕ
  pub next_try : Option ℕ
  pub timeout : ℕ
  pub later_acks : ℕ

pub record SendWindow : Type 0 where
  pub in_flight : Tree InFlight
  pub next_id : ℕ
  pub initial_timeout : ℕ

abbrev pub capacity : ℕ
capacity = 6

abbrev pub fast_retransmit_after : ℕ
fast_retransmit_after = 3

abbrev pub new : ℕ → SendWindow
new initial_timeout = record { in_flight = []; next_id = 0; initial_timeout = initial_timeout }

-- The window is full without a free slot, or with the next id too far from the oldest one.
unfoldable pub spans : ℕ → Tree InFlight → Bool
spans next_id [] = false
spans next_id ((oldest, e) ∷ m) = leb capacity ((next_id + 2 ^ 32 - oldest) % 2 ^ 32)

unfoldable pub is_full : SendWindow → Bool
unfolding spans
is_full w = if leb capacity (length w.in_flight) then true else spans w.next_id w.in_flight

-- A message that has not been sent.
abbrev pub fresh : SendWindow → Opcode → List ℕ → InFlight
fresh w opcode payload = record {
  opcode = opcode;
  payload = payload;
  next_try = none;
  timeout = w.initial_timeout;
  later_acks = 0;
}

unfoldable pub queue : SendWindow → Opcode → List ℕ → SendWindow × Option ℕ
queue w opcode payload = if is_full w then (w, none) else (
  record w {
    next_id = (w.next_id + 1) % 2 ^ 32;
    in_flight = insert w.next_id (fresh w opcode payload) w.in_flight;
  },
  some w.next_id,
)

unfoldable pub is_due : InFlight → ℕ → Bool
is_due e now = elim e.next_try [
  | none ↦ true
  | some at ↦ leb at now || leb fast_retransmit_after e.later_acks
]

unfoldable pub sent : InFlight → ℕ → InFlight
sent e now = record e { next_try = some (now + e.timeout); timeout = e.timeout * 2; later_acks = 0 }

-- The first entry that is due, as it goes on the wire, and the entries after the send.
unfoldable pub send_first : ℕ → Tree InFlight → Option Outgoing × Tree InFlight
unfolding is_due sent
send_first now [] = (none, [])
send_first now ((id, e) ∷ m) =
    let (out, m') = send_first now m in
    if is_due e now
    then (
      some (record { opcode = e.opcode; packet_id = id; payload = e.payload }),
      (id, sent e now) ∷ m,
    )
    else (out, (id, e) ∷ m')

unfoldable pub next_due : SendWindow → ℕ → SendWindow × Option Outgoing
unfolding send_first
next_due w now = let (out, m) = send_first now w.in_flight in (record w { in_flight = m }, out)

-- When an entry can next be sent.
unfoldable pub wake : InFlight → ℕ → ℕ
unfolding is_due
wake e now = if is_due e now then now else elim e.next_try [ none ↦ now | some at ↦ at ]

-- `Iterator::min` over the entries.
unfoldable pub soonest : ℕ → Tree InFlight → Option ℕ
unfolding wake
soonest now [] = none
soonest now ((id, e) ∷ m) =
    some (elim (soonest now m) [ none ↦ wake e now | some t ↦ min (wake e now) t ])

unfoldable pub next_wakeup : SendWindow → ℕ → Option ℕ
unfolding soonest
next_wakeup w now = soonest now w.in_flight

-- An acknowledgement counts against every earlier message that still waits, up to u8's 255.
unfoldable pub count_ack : ℕ → Tree InFlight → Tree InFlight
count_ack id [] = []
count_ack id ((pending, e) ∷ m) =
    (pending, if ltb pending id then record e { later_acks = min 255 (e.later_acks + 1) } else e)
    ∷ count_ack id m

unfoldable pub acknowledge_one : ℕ → Tree InFlight → Tree InFlight
unfolding count_ack
acknowledge_one id m = elim (lookup id m) [ none ↦ m | some _ ↦ count_ack id (remove id m) ]

unfoldable pub acknowledge_all : List ℕ → Tree InFlight → Tree InFlight
unfolding acknowledge_one
acknowledge_all [] m = m
acknowledge_all (id ∷ ids) m = acknowledge_all ids (acknowledge_one id m)

unfoldable pub acknowledge : SendWindow → List ℕ → SendWindow
unfolding acknowledge_all
acknowledge w ids = record w { in_flight = acknowledge_all ids w.in_flight }

-- A use of the window.
pub data SendOp : Type 0 where
  queues : Opcode → List ℕ → SendOp
  sends : ℕ → SendOp
  hears : List ℕ → SendOp

unfoldable pub step : SendWindow → SendOp → SendWindow
step w (queues opcode payload) = (queue w opcode payload).0
step w (sends now) = (next_due w now).0
step w (hears ids) = acknowledge w ids

unfoldable pub run : SendWindow → List SendOp → SendWindow
run w [] = w
run w (op ∷ ops) = run (step w op) ops
