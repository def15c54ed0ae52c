-- ===== src/Openvpn/Reliable/Recv.antt =====
-- rust/synology-filestation-openvpn/src/reliable.rs: `RecvWindow`, incoming control messages put
-- back into the order in which they were sent.
pub mod Order
pub mod Acknowledged
mod Runs
use synology_filestation.Prelude.{
  ℕ, zero, suc, ◌+◌, ◌-◌, ◌*◌, ◌%◌, ◌^◌, ◌≤◌, ◌<◌, ◌≡◌, Bool, true, false, ◌||◌, ◌&&◌, not, Option,
  some, none, List, [], ◌∷◌, ◌++◌, length, take, drop, contains, ltb, leb, ◌==◌, if◌then◌else◌, min,
}
use synology_filestation.Prelude.Tree.{Tree, lookup, insert, remove}
use synology_filestation.Openvpn.Opcode.{Opcode}

pub data Delivery : Type 0 where
  buffered duplicate out_of_window : Delivery

unfoldable pub should_acknowledge : Delivery → Bool
should_acknowledge buffered = true
should_acknowledge duplicate = true
should_acknowledge out_of_window = false

abbrev pub Message : Type 0
Message = Opcode × List ℕ

pub record RecvWindow : Type 0 where
  pub messages : Tree Message
  pub next_expected : ℕ
  pub pending_acks : List ℕ
  pub recent_acks : List ℕ

abbrev pub capacity : ℕ
capacity = 12

abbrev pub recent_max : ℕ
recent_max = 8

abbrev pub new : RecvWindow
new = record { messages = []; next_expected = 0; pending_acks = []; recent_acks = [] }

unfoldable pub in_window : RecvWindow → ℕ → Bool
in_window w packet_id = ltb packet_id ((w.next_expected + capacity) % 2 ^ 32)

-- `contains_key`
unfoldable pub has : RecvWindow → ℕ → Bool
has w packet_id = elim (lookup packet_id w.messages) [ none ↦ false | some _ ↦ true ]

-- The acknowledgement that a verdict asks for.
unfoldable pub owe : Delivery → ℕ → RecvWindow → RecvWindow
unfolding should_acknowledge
owe verdict packet_id w =
    if should_acknowledge verdict && not (contains w.pending_acks packet_id)
    then record w { pending_acks = w.pending_acks ++ (packet_id ∷ []) }
    else w

unfoldable pub accept : RecvWindow → ℕ → Message → RecvWindow × Delivery
unfolding in_window has owe
accept w packet_id message =
    if not (in_window w packet_id)
    then (w, out_of_window)
    else if ltb packet_id w.next_expected || has w packet_id
    then (owe duplicate packet_id w, duplicate)
    else (
      owe buffered packet_id (record w { messages = insert packet_id message w.messages }),
      buffered,
    )

unfoldable pub next_in_order : RecvWindow → RecvWindow × Option Message
next_in_order w = elim (lookup w.next_expected w.messages) [
  | none ↦ (w, none)
  | some message ↦ (
    record w {
      messages = remove w.next_expected w.messages;
      next_expected = (w.next_expected + 1) % 2 ^ 32;
    },
    some message,
  )
]

unfoldable pub owes_acks : RecvWindow → Bool
owes_acks w = leb 1 (length w.pending_acks)

-- `retain(|&recent| recent != id)`
unfoldable pub without : ℕ → List ℕ → List ℕ
without id [] = []
without id (recent ∷ l) = let rest = without id l in if recent == id then rest else recent ∷ rest

-- The loop over `promoting.into_iter().rev()`: the first id is moved to the front last.
unfoldable pub promote : List ℕ → List ℕ → List ℕ
unfolding without
promote [] recent = recent
promote (id ∷ ids) recent = id ∷ without id (promote ids recent)

unfoldable pub take_acks : RecvWindow → ℕ → RecvWindow × List ℕ
unfolding promote
take_acks w max =
    let room = min max recent_max in
    let taking = min (length w.pending_acks) room in
    let recent = take recent_max (promote (take taking w.pending_acks) w.recent_acks) in
    (record w { pending_acks = drop taking w.pending_acks; recent_acks = recent }, take room recent)

-- A use of the window. A peer's messages are numbered; `offers n` brings the n-th.
pub data RecvOp : Type 0 where
  offers : ℕ → RecvOp
  delivers : RecvOp
  acknowledges : ℕ → RecvOp

abbrev pub appended : Option Message → List Message → List Message
appended none out = out
appended (some m) out = out ++ (m ∷ [])

-- The window after a use, and all that it has delivered.
unfoldable pub step : (ℕ → Message) → RecvOp → RecvWindow → List Message → RecvWindow × List Message
step messages (offers n) w out = ((accept w n (messages n)).0, out)
step messages delivers w out = let (w', m) = next_in_order w in (w', appended m out)
step messages (acknowledges max) w out = ((take_acks w max).0, out)

unfoldable pub run :
    (ℕ → Message) → List RecvOp → RecvWindow → List Message → RecvWindow × List Message
run messages [] w out = (w, out)
run messages (op ∷ ops) w out = let (w', out') = step messages op w out in run messages ops w' out'

-- A new window after these uses, and what it has delivered.
abbrev pub after : (ℕ → Message) → List RecvOp → RecvWindow
after messages ops = (run messages ops new []).0

abbrev pub delivered : (ℕ → Message) → List RecvOp → List Message
delivered messages ops = (run messages ops new []).1
