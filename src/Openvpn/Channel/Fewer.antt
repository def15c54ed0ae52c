-- ===== src/Openvpn/Channel/Fewer.antt =====
-- The messages that the windows of a channel hold, and how `poll_control` takes them out.
use synology_filestation.Prelude.{
  ℕ, zero, suc, ◌+◌, ◌≤◌, ◌≡◌, sym, Bool, true, false, Bool-cases, Option, some, none, Option-cases,
  inl, inr, List, [], ◌∷◌, length, ◌==◌, if◌then◌else◌, arith,
}
use synology_filestation.Openvpn.KeyId.{KeyId}
use synology_filestation.Openvpn.Opcode.{control_v1}
use synology_filestation.Prelude.Tree.{lookup}
use synology_filestation.Openvpn.Reliable.Recv.{RecvWindow, Message}
use synology_filestation.Openvpn.Channel.{
  ControlChannel, KeyState, same_opcode, state_of, put_state, key_ids,
}
use synology_filestation.Openvpn.Channel.Drain.{
  length-remove, next_in_order-none, next_in_order-some, delivered,
}
use synology_filestation.Openvpn.Channel.Handle.{
  next_control, control_loop, poll_keys, poll_control,
}
use synology_filestation.Openvpn.Channel.Keys.{pending_of-some}

-- What a pending generation holds, and what both do.
abbrev pub waiting : Option KeyState → ℕ
waiting none = 0
waiting (some pending) = length pending.recv.messages

abbrev pub held : ControlChannel → ℕ
held c = length c.primary.recv.messages + waiting c.pending

-- How many a result has.
abbrev pub count {ℓ} : {A : Type ℓ} → Option A → ℕ
count none = 0
count (some _) = 1

next_control_fewer :
    (w w' : RecvWindow) (m : Message) (rest : RecvWindow → RecvWindow × Option (List ℕ))
    → suc (length w'.messages) ≤ length w.messages
    → length (rest w').0.messages + count (rest w').1 ≤ length w'.messages
    → length (next_control (w', some m) rest).0.messages + count (next_control (w', some m) rest).1
      ≤ length w.messages
next_control_fewer w w' (opcode, payload) rest fewer later =
    by_opcode (same_opcode opcode control_v1)
  where
    by_opcode :
        (b : Bool)
        → length
              (if◌then◌else◌ {A = RecvWindow × Option (List ℕ)} b
                (w', some payload)
                (rest w')).0.messages
            + count
                (if◌then◌else◌ {A = RecvWindow × Option (List ℕ)} b (w', some payload) (rest w')).1
          ≤ length w.messages
    by_opcode true = omega arith
    by_opcode false = omega arith

-- A payload is taken out of the window.
control_loop_fewer :
    (rounds : ℕ) (w : RecvWindow)
    → length (control_loop rounds w).0.messages + count (control_loop rounds w).1
      ≤ length w.messages
unfolding control_loop
control_loop_fewer zero w = omega arith
control_loop_fewer (suc rounds) w = elim (Option-cases (lookup w.next_expected w.messages)) [
  | inl none_left ↦ rw (next_in_order-none w none_left) (omega arith)
  | inr (m, here) ↦ rw (next_in_order-some w m here) (
      next_control_fewer w (delivered w) m (λ w'. control_loop rounds w')
        (length-remove w.next_expected w.messages m here) (control_loop_fewer rounds (delivered w)))
]

held-put_state :
    (c : ControlChannel) (k : KeyId) (s s' : KeyState)
    → state_of c k ≡ some s
    → held (put_state c k s') + length s.recv.messages ≡ held c + length s'.recv.messages
unfolding put_state state_of
held-put_state c k s s' e = elim (Bool-cases (c.primary.key_id == k)) [
  | inl here ↦
      let same : c.primary ≡ s = let found = rw here at e in cc in rw (here, sym same) (omega arith)
  | inr other ↦
      let pending : c.pending ≡ some s = pending_of-some c.pending k s (rw other at e) in
      rw (other, pending) (omega arith)
]

poll_keys_fewer :
    (ks : List KeyId) (c : ControlChannel)
    → held (poll_keys ks c).0 + count (poll_keys ks c).1 ≤ held c
unfolding poll_keys
poll_keys_fewer [] c = omega arith
poll_keys_fewer (k ∷ ks) c = elim (Option-cases (state_of c k)) [
  | inl e ↦ rw (e, poll_keys) (omega arith)
  | inr (s, e) ↦
      let drained = control_loop (suc (length s.recv.messages)) s.recv in
      let d = put_state c k (record s { recv = drained.0 }) in
      rw (e, poll_keys)
        (by_payload drained d (control_loop_fewer (suc (length s.recv.messages)) s.recv)
          (held-put_state c k s (record s { recv = drained.0 }) e) (poll_keys_fewer ks d))
]
  where
    by_payload :
        {n : ℕ} (drained : RecvWindow × Option (List ℕ)) (d : ControlChannel)
        → length drained.0.messages + count drained.1 ≤ n
        → held d + n ≡ held c + length drained.0.messages
        → held (poll_keys ks d).0 + count (poll_keys ks d).1 ≤ held d
        → held
              (elim drained.1 as (λ _. ControlChannel × Option (KeyId × List ℕ)) [
                | none ↦ poll_keys ks d
                | some bytes ↦ (d, some (k, bytes))
              ]).0
            + count
                (elim drained.1 as (λ _. ControlChannel × Option (KeyId × List ℕ)) [
                  | none ↦ poll_keys ks d
                  | some bytes ↦ (d, some (k, bytes))
                ]).1
          ≤ held c
    by_payload (w, none) d few same later = omega arith
    by_payload (w, some bytes) d few same later = omega arith

-- A record that `poll_control` gives is out of the windows.
pub poll_control_fewer :
    (c : ControlChannel) → held (poll_control c).0 + count (poll_control c).1 ≤ held c
unfolding poll_control
poll_control_fewer c = poll_keys_fewer (key_ids c) c
