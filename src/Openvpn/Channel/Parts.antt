-- ===== src/Openvpn/Channel/Parts.antt =====
-- The parts of the operations and what they do to the key ids.
use synology_filestation.Prelude.{
  if_cases, ℕ, ◌≤◌, ◌≡◌, refl, Bool, true, false, Option, some, none, Option-cases, inl, inr, List,
  [], ◌∷◌, length, take, length-take, if◌then◌else◌, arith,
}
use synology_filestation.Openvpn.Error.{Error, Result, ok, err, panic}
use synology_filestation.Openvpn.Error.Ensures.{Anything, Ensures, returns, fails, Ensures-bind}
use synology_filestation.Openvpn.KeyId.{KeyId}
use synology_filestation.Openvpn.Packet.{Acks, ControlPacket, SessionId, new_acks, max_acks}
use synology_filestation.Openvpn.Packet.RoundTrip.{new_acks_few}
use synology_filestation.Openvpn.Reliable.Recv.{RecvWindow, take_acks}
use synology_filestation.Openvpn.Channel.{
  ControlChannel, KeyState, state_of, acks_for, packet_of, next_packet,
}
use synology_filestation.Openvpn.Channel.Handle.{deliver, check_session, check_acks}
use synology_filestation.Openvpn.Channel.Keys.{SameKeys, SameKeys-refl, put_state-SameKeys}

pub take_few : (n : ℕ) (ids : List ℕ) → length (take n ids) ≤ n
take_few n ids = omega (arith, length-take n ids)

pub take_acks_few : (w : RecvWindow) → length (take_acks w max_acks).1 ≤ max_acks
unfolding take_acks
take_acks_few w = take_few 8 _

-- `Acks::new` does not refuse what `take_acks` returns.
pub acks_for-some :
    (remote : Option SessionId) (w : RecvWindow)
    → (acks : Option Acks) × ((acks_for remote w).1 ≡ ok acks)
unfolding acks_for
acks_for-some none w = (none, refl)
acks_for-some (some s) w = of_ids (take_acks w max_acks).1 (take_acks_few w)
  where
    of_ids :
        (ids : List ℕ)
        → length ids ≤ max_acks
        → (acks : Option Acks) × ((elim ids as (λ _. Result (Option Acks)) [
          | [] ↦ ok none
          | id ∷ rest ↦ elim (new_acks (id ∷ rest) s) [
            | ok acks ↦ ok (some acks)
            | err _ ↦ panic
            | panic ↦ panic
          ]
        ])
            ≡ ok acks)
    of_ids [] few = (none, refl)
    of_ids (id ∷ rest) few = (
      some (record { ids = id ∷ rest; session_id = s }),
      rw (new_acks_few (record { ids = id ∷ rest; session_id = s }) few) refl,
    )

pub acks_for-Ensures :
    (remote : Option SessionId) (w : RecvWindow) → Ensures Anything (acks_for remote w).1
acks_for-Ensures remote w = let (acks, e) = acks_for-some remote w in rw e (returns tt)

pub packet_of-Ensures :
    (c : ControlChannel) (k : KeyId) (s : KeyState) (now : ℕ)
    → ((packet_of c k s now).0.key_id ≡ s.key_id) × Ensures Anything (packet_of c k s now).1
unfolding packet_of
packet_of-Ensures c k s now =
    if_cases
      (λ (p : KeyState × Result (Option ControlPacket)).
        (p.0.key_id ≡ s.key_id) × Ensures Anything p.1)
      _ _ _ (λ _. (refl, returns tt))
      (λ _. (refl, Ensures-bind _ (acks_for-Ensures c.remote_session s.recv) (λ a _. returns tt)))

-- What holds of a step's outcome: the same key ids, and no panic.
abbrev pub Served : {A : Type 0} → ControlChannel → ControlChannel × Result A → Type 0
Served c outcome = SameKeys c outcome.0 × Ensures Anything outcome.1

pub next_packet-Served : (c : ControlChannel) (k : KeyId) (now : ℕ) → Served c (next_packet c k now)
unfolding next_packet
next_packet-Served c k now = elim (Option-cases (state_of c k)) [
  | inl e ↦ rw (e, next_packet) (SameKeys-refl c, returns tt)
  | inr (s, e) ↦
      let (ids, fine) = packet_of-Ensures c k s now in
      rw (e, next_packet) (put_state-SameKeys c k s _ e ids, fine)
]

pub refuse_if : (b : Bool) (e : Error) → Ensures Anything (if b then err e else ok (tt {0}))
refuse_if true e = fails
refuse_if false e = returns tt

pub check_session-Ensures :
    (c : ControlChannel) (packet : ControlPacket) → Ensures Anything (check_session c packet)
unfolding check_session
check_session-Ensures c packet = elim (Option-cases c.remote_session) [
  | inl e ↦ rw (e, check_session) (refuse_if _ _)
  | inr (s, e) ↦ rw (e, check_session) (refuse_if _ _)
]

pub check_acks-Ensures :
    (c : ControlChannel) (packet : ControlPacket) → Ensures Anything (check_acks c packet)
unfolding check_acks
check_acks-Ensures c packet = elim (Option-cases packet.acks) [
  | inl e ↦ rw (e, check_acks) (returns tt)
  | inr (a, e) ↦ rw (e, check_acks) (refuse_if _ _)
]

pub deliver-Ensures :
    (c : ControlChannel) (packet : ControlPacket) → Ensures Anything (deliver c packet).1
unfolding deliver
deliver-Ensures c packet = elim (Option-cases (state_of c packet.key_id)) [
  | inl e ↦ rw (e, deliver) fails
  | inr (s, e) ↦ rw (e, deliver) (returns tt)
]
