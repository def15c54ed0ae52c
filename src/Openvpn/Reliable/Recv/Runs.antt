-- ===== src/Openvpn/Reliable/Recv/Runs.antt =====
-- The receive window at concrete messages: reordered, repeated, and too far ahead.
use synology_filestation.Prelude.{ℕ, ◌≡◌, refl, true, List, [], ◌∷◌, All, contains, ◌⊎◌, arith}
use synology_filestation.Prelude.Tree.{lookup, insert, remove}
use synology_filestation.Openvpn.Opcode.{control_v1}
use synology_filestation.Openvpn.Reliable.Recv.{
  Message, RecvOp, offers, delivers, accept, next_in_order, take_acks, step, run, after, delivered,
}
use synology_filestation.Openvpn.Reliable.Recv.Order.{sequence, in_order}
use synology_filestation.Openvpn.Reliable.Recv.Acknowledged.{
  arrived, take_acks-arrived, take_acks_keeps,
}

abbrev numbered : ℕ → Message
numbered n = (control_v1, n ∷ [])

abbrev uses : List RecvOp
uses =
    offers 1
    ∷ delivers
    ∷ offers 0
    ∷ offers 1
    ∷ delivers
    ∷ delivers
    ∷ offers 40
    ∷ offers 3
    ∷ delivers
    ∷ []

delivered_run : delivered numbered uses ≡ numbered 0 ∷ numbered 1 ∷ []
unfolding run step accept next_in_order lookup insert remove contains
delivered_run = refl

owed_run : (after numbered uses).pending_acks ≡ 1 ∷ 0 ∷ 3 ∷ []
unfolding run step accept next_in_order lookup insert remove contains
owed_run = refl

in_order_example : delivered numbered uses ≡ sequence numbered (after numbered uses).next_expected
in_order_example = in_order numbered uses (omega arith)

take_acks-arrived_example :
    All (λ id. arrived (after numbered uses) id ≡ true) (take_acks (after numbered uses) 2).1
take_acks-arrived_example = take_acks-arrived numbered uses 2 (omega arith)

owes_three : contains (after numbered uses).pending_acks 3 ≡ true
unfolding run step accept next_in_order lookup insert remove contains
owes_three = refl

take_acks_keeps_example :
    (contains (take_acks (after numbered uses) 2).1 3 ≡ true)
    ⊎ (contains (take_acks (after numbered uses) 2).0.pending_acks 3 ≡ true)
take_acks_keeps_example = take_acks_keeps numbered uses 2 3 (omega arith) owes_three
