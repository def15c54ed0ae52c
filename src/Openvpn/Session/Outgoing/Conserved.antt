-- ===== src/Openvpn/Session/Outgoing/Conserved.antt =====
-- rust/synology-filestation-openvpn/src/session.rs: what `drain_into` hands to the channel, and what
-- it keeps.
use synology_filestation.Prelude.{
  ℕ, zero, suc, ◌≤◌, ◌≡◌, refl, sym, ap, ◌∙◌, Bool, true, false, Option, some, none, Option-cases,
  ◌⊎◌, inl, inr, List, [], ◌∷◌, ◌++◌, append_assoc, length, length-take, length-drop, take, drop,
  take-append-drop, All, min, Bool-cases, ◌==◌, arith,
}
use synology_filestation.Prelude.Text.{joined}
use synology_filestation.Openvpn.KeyId.{KeyId}
use synology_filestation.Openvpn.Opcode.{control_v1}
use synology_filestation.Openvpn.Channel.{
  ControlChannel, KeyState, state_of, put_state, send_control, can_send_for,
}
use synology_filestation.Openvpn.Channel.Keys.{pending_of-some}
use synology_filestation.Openvpn.Reliable.Send
use synology_filestation.Openvpn.Reliable.Send.{SendWindow, is_full}
use synology_filestation.Openvpn.Session.Outgoing.{
  Outbox, max_tls_fragment, is_empty, drain_loop, drain_into,
}

queue-full :
    (w : SendWindow) (payload : List ℕ)
    → is_full w ≡ true
    → Send.queue w control_v1 payload ≡ (w, none)
unfolding Send.queue
queue-full w payload e = rw e refl

queue-room :
    (w : SendWindow) (payload : List ℕ)
    → is_full w ≡ false
    → (Send.queue w control_v1 payload).1 ≡ some w.next_id
unfolding Send.queue
queue-room w payload e = rw e refl

-- A generation written back as it was.
put_state-same :
    (c : ControlChannel) (k : KeyId) (s : KeyState) → state_of c k ≡ some s → put_state c k s ≡ c
unfolding put_state state_of
put_state-same c k s e = elim (Bool-cases (c.primary.key_id == k)) [
  | inl here ↦
      let same : c.primary ≡ s = let found = rw here at e in cc in
      rw here (ap (λ (t : KeyState). record c { primary = t }) (sym same))
  | inr other ↦ rw other (
      ap (λ (t : Option KeyState). record c { pending = t })
        (sym (pending_of-some c.pending k s (rw other at e))))
]

-- The channel takes a message exactly if the generation has room, and without room it does not
-- change.
pub send_control_cases :
    (c : ControlChannel) (k : KeyId) (payload : List ℕ)
    → (can_send_for c k ≡ true) × ((send_control c k payload).1 ≡ true)
      ⊎ (can_send_for c k ≡ false)
        × ((send_control c k payload).1 ≡ false)
        × ((send_control c k payload).0 ≡ c)
unfolding send_control can_send_for
send_control_cases c k payload = elim (Option-cases (state_of c k)) [
  | inl e ↦ inr (rw (e, can_send_for) refl, rw (e, send_control) refl, rw (e, send_control) refl)
  | inr (s, e) ↦ elim (Bool-cases (is_full s.send)) [
    | inl full ↦ inr (
      rw (e, can_send_for, full) refl,
      rw (e, send_control, queue-full s.send payload full) refl,
      rw (e, send_control, queue-full s.send payload full) (put_state-same c k s e),
    )
    | inr room ↦
        inl (
          rw (e, can_send_for, room) refl,
          rw (e, send_control, queue-room s.send payload room) refl,
        )
  ]
]

-- The channel after it took all of some messages, if it took them all.
unfoldable pub send_all : ControlChannel → KeyId → List (List ℕ) → Option ControlChannel
send_all c k [] = some c
send_all c k (fragment ∷ fragments) =
    let (c', sent) = send_control c k fragment in
    elim sent [ true ↦ send_all c' k fragments | false ↦ none ]

abbrev pub IsFragment : List ℕ → Type 0
IsFragment fragment = (1 ≤ length fragment) × (length fragment ≤ max_tls_fragment)

-- What `drain_into` of an outbox did, if it left the outbox and the channel given last.
pub record Drained (o : Outbox) (c : ControlChannel) (k : KeyId) (o' : Outbox) (c' : ControlChannel)
    : Type 0 where
  pub fragments : List (List ℕ)
  pub whole : joined fragments ++ o'.pending ≡ o.pending
  pub fit : All IsFragment fragments
  pub taken : send_all c k fragments ≡ some c'
  pub rest : (o'.pending ≡ []) ⊎ (can_send_for c' k ≡ false)

pub nothing_pending : (o : Outbox) → is_empty o ≡ true → o.pending ≡ []
unfolding is_empty
nothing_pending o e = by_bytes o.pending e
  where
    by_bytes :
        (bytes : List ℕ)
        → (elim bytes as (λ _. Bool) [ [] ↦ true | _ ∷ _ ↦ false ]) ≡ true
        → bytes ≡ []
    by_bytes [] e = refl
    by_bytes (b ∷ bytes) e = cc

some_pending : (o : Outbox) → is_empty o ≡ false → 1 ≤ length o.pending
unfolding is_empty
some_pending o e = by_bytes o.pending e
  where
    by_bytes :
        (bytes : List ℕ)
        → (elim bytes as (λ _. Bool) [ [] ↦ true | _ ∷ _ ↦ false ]) ≡ false
        → 1 ≤ length bytes
    by_bytes [] e = cc
    by_bytes (b ∷ bytes) e = omega arith

send_all_first :
    (c : ControlChannel) (k : KeyId) (fragment : List ℕ) (fragments : List (List ℕ))
    → (send_control c k fragment).1 ≡ true
    → send_all c k (fragment ∷ fragments) ≡ send_all (send_control c k fragment).0 k fragments
unfolding send_all
send_all_first c k fragment fragments e = rw (send_all, e) refl

abbrev first_fragment : Outbox → List ℕ
first_fragment o = take (min (length o.pending) max_tls_fragment) o.pending

abbrev behind : Outbox → Outbox
behind o = record { pending = drop (min (length o.pending) max_tls_fragment) o.pending }

first_fragment-IsFragment : (o : Outbox) → 1 ≤ length o.pending → IsFragment (first_fragment o)
first_fragment-IsFragment o some_bytes = (
  omega (arith, length-take (min (length o.pending) max_tls_fragment) o.pending),
  omega (arith, length-take (min (length o.pending) max_tls_fragment) o.pending),
)

nil_of_length : (bytes : List ℕ) → length bytes ≤ 0 → bytes ≡ []
nil_of_length [] h = refl
nil_of_length (b ∷ bytes) h = absurd (omega arith)

drain_loop_done :
    (rounds : ℕ) (o : Outbox) (c : ControlChannel) (k : KeyId)
    → length o.pending ≤ rounds
    → Drained o c k (drain_loop rounds o c k).0 (drain_loop rounds o c k).1
unfolding drain_loop send_all
drain_loop_done zero o c k few = record {
  fragments = [];
  whole = refl;
  fit = tt;
  taken = refl;
  rest = inl (nil_of_length o.pending few);
}
drain_loop_done (suc rounds) o c k few = elim (Bool-cases (is_empty o)) [
  | inl e ↦
      rw (e, drain_loop)
        (record {
          fragments = [];
          whole = refl;
          fit = tt;
          taken = refl;
          rest = inl (nothing_pending o e);
        })
  | inr e ↦ elim (send_control_cases c k (first_fragment o)) [
    | inr (full, refused, same) ↦
        rw (e, drain_loop, refused, same)
          (record { fragments = []; whole = refl; fit = tt; taken = refl; rest = inr full })
    | inl (room, sent) ↦
        let c' = (send_control c k (first_fragment o)).0 in
        let later = drain_loop_done rounds (behind o) c' k (
          omega (
            arith,
            first_fragment-IsFragment o (some_pending o e),
            length-drop (min (length o.pending) max_tls_fragment) o.pending,
          )) in
        rw (e, drain_loop, sent)
          (record {
            fragments = first_fragment o ∷ later.fragments;
            whole =
                append_assoc (first_fragment o) (joined later.fragments) _
                ∙ ap (first_fragment o ++◌) later.whole
                ∙ take-append-drop _ o.pending;
            fit = (first_fragment-IsFragment o (some_pending o e), later.fit);
            taken = send_all_first c k (first_fragment o) later.fragments sent ∙ later.taken;
            rest = later.rest;
          })
  ]
]

-- `drain_into` hands the front of the outbox's bytes to the channel, cut into fragments of 1 to
-- `MAX_TLS_FRAGMENT` bytes, which the channel takes one after another, and keeps the bytes behind
-- them: none is lost, none goes twice and none out of order. It keeps some only if the window of
-- the key id then has no room.
pub drain_into-Drained :
    (o : Outbox) (c : ControlChannel) (k : KeyId)
    → Drained o c k (drain_into o c k).0 (drain_into o c k).1
unfolding drain_into
drain_into-Drained o c k = drain_loop_done (length o.pending) o c k (omega arith)
