-- ===== src/Openvpn/Channel/Drain.antt =====
-- The rounds that `poll_control` gives its loop.
use synology_filestation.Prelude.{
  ℕ, zero, suc, ◌+◌, ◌%◌, ◌^◌, ◌≤◌, ◌<◌, ◌≡◌, refl, Bool, true, false, Option, some, none,
  Option-cases, inl, inr, List, [], ◌∷◌, length, if◌then◌else◌, arith,
}
use synology_filestation.Prelude.Tree.{Tree, lookup, remove}
use synology_filestation.Openvpn.Opcode.{control_v1}
use synology_filestation.Openvpn.Reliable.Recv.{RecvWindow, Message, next_in_order}
use synology_filestation.Openvpn.Channel.{same_opcode}
use synology_filestation.Openvpn.Channel.Handle.{next_control, control_loop}

pub length-remove {ℓ} :
    {V : Type ℓ} (k : ℕ) (m : Tree V) (v : V)
    → lookup k m ≡ some v
    → suc (length (remove k m)) ≤ length m
unfolding lookup remove
length-remove k [] v e = cc
length-remove k ((j, w) ∷ m) v e = ground (arith, length-remove k m v)

-- Nothing more is in order.
abbrev IsDrained : RecvWindow → Type 0
IsDrained w = lookup w.next_expected w.messages ≡ none

abbrev pub delivered : RecvWindow → RecvWindow
delivered w = record w {
  messages = remove w.next_expected w.messages;
  next_expected = (w.next_expected + 1) % 2 ^ 32;
}

pub next_in_order-none :
    (w : RecvWindow) → lookup w.next_expected w.messages ≡ none → next_in_order w ≡ (w, none)
unfolding next_in_order
next_in_order-none w e = rw (e, next_in_order) refl

pub next_in_order-some :
    (w : RecvWindow) (m : Message)
    → lookup w.next_expected w.messages ≡ some m
    → next_in_order w ≡ (delivered w, some m)
unfolding next_in_order
next_in_order-some w m e = rw (e, next_in_order) refl

-- A round that delivers something, and the rounds after it.
next_control_done :
    (w : RecvWindow) (m : Message) (rest : RecvWindow → RecvWindow × Option (List ℕ))
    → (next_control (w, some m) rest).1 ≡ none
    → ((rest w).1 ≡ none → IsDrained (rest w).0)
    → IsDrained (next_control (w, some m) rest).0
next_control_done w (opcode, payload) rest e h = by_opcode (same_opcode opcode control_v1) e
  where
    by_opcode :
        (b : Bool)
        → (if◌then◌else◌ {A = RecvWindow × Option (List ℕ)} b (w, some payload) (rest w)).1 ≡ none
        → IsDrained
            (if◌then◌else◌ {A = RecvWindow × Option (List ℕ)} b (w, some payload) (rest w)).0
    by_opcode true e = cc
    by_opcode false e = h e

-- `control_loop` that ends without a payload has delivered all that is in order, if it was given more
-- rounds than the window holds messages.
control_loop_done :
    (rounds : ℕ) (w : RecvWindow)
    → length w.messages < rounds
    → (control_loop rounds w).1 ≡ none
    → IsDrained (control_loop rounds w).0
unfolding control_loop
control_loop_done zero w few e = absurd (omega arith)
control_loop_done (suc rounds) w few e = elim (Option-cases (lookup w.next_expected w.messages)) [
  | inl none_left ↦ rw (next_in_order-none w none_left) none_left
  | inr (m, held) ↦
      let w' = delivered w in
      rw (next_in_order-some w m held) (
        next_control_done w' m (λ w''. control_loop rounds w'')
          (rw (next_in_order-some w m held) at e)
          (control_loop_done rounds w'
            (omega (arith, length-remove w.next_expected w.messages m held))))
]
