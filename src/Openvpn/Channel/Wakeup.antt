-- ===== src/Openvpn/Channel/Wakeup.antt =====
-- The time that `next_wakeup` gives, beside what `poll_transmit` does.
use synology_filestation.Prelude.{
  ℕ, ◌≤◌, ◌≡◌, refl, sym, ap, ◌∙◌, Bool, true, false, ◌&&◌, ◌||◌, not, Option, some, none,
  Option-cases, inl, inr, List, [], ◌∷◌, ◌==◌, if◌then◌else◌, arith,
}
use synology_filestation.Openvpn.Crypto.{Hmac}
use synology_filestation.Openvpn.Error.{Result, ok, err, panic}
use synology_filestation.Openvpn.KeyId.{KeyId}
use synology_filestation.Openvpn.Packet.{Acks, ControlPacket}
use synology_filestation.Openvpn.Reliable.Recv.{owes_acks}
use synology_filestation.Openvpn.Reliable.Send.{next_due, Outgoing}
use synology_filestation.Openvpn.Reliable.Send.Wakeup.{is_some, reached, next_due-reached}
use synology_filestation.Openvpn.Channel.{
  ControlChannel, KeyState, state_of, put_state, acks_for, is_none, packet_of, packet_for,
  next_packet, served, poll_keys, poll_transmit, key_ids, state_wakeup, next_wakeup, sooner,
}
use synology_filestation.Openvpn.Channel.Keys.{IsKeyed, is_pending-some}
use synology_filestation.Openvpn.Channel.Parts.{acks_for-some}

-- Whether there is something to send.
abbrev pub sends : {A : Type 0} → Result (Option A) → Bool
sends (ok (some _)) = true
sends (ok none) = false
sends (err _) = false
sends panic = false

abbrev busy : KeyState → ℕ → Bool
busy s u = owes_acks s.recv || is_some (next_due s.send u).1

busy-reached : (s : KeyState) (now u : ℕ) → now ≤ u → busy s u ≡ reached (state_wakeup s now) u
unfolding state_wakeup
busy-reached s now u h = ground (arith, next_due-reached s.send now u h)

pub reached-sooner : (a b : Option ℕ) (u : ℕ) → reached (sooner a b) u ≡ reached a u || reached b u
reached-sooner none b u = refl
reached-sooner (some a) none u = ground arith
reached-sooner (some a) (some b) u = ground arith

-- A generation's turn does not fail, and gives a packet exactly if it is busy.
packet_of-ok :
    (c : ControlChannel) (k : KeyId) (s : KeyState) (u : ℕ)
    → (o : Option ControlPacket) × ((packet_of c k s u).1 ≡ ok o) × (is_some o ≡ busy s u)
unfolding packet_of
packet_of-ok c k s u =
    let (acks, e) = acks_for-some c.remote_session s.recv in
    rw e (by_due (next_due s.send u).1 (owes_acks s.recv) acks)
  where
    state' : KeyState
    state' = record s { send = (next_due s.send u).0; recv = (acks_for c.remote_session s.recv).0 }

    by_due :
        (due : Option Outgoing) (owes : Bool) (acks : Option Acks)
        → (o : Option ControlPacket) × ((if◌then◌else◌
              {A = KeyState × Result (Option ControlPacket)}
              (is_none due && not owes)
              (record s { send = (next_due s.send u).0 }, ok none)
              (state', ok (some (packet_for k c.local_session due acks)))).1
            ≡ ok o)
          × (is_some o ≡ owes || is_some due)
    by_due none true acks = (_, refl, refl)
    by_due none false acks = (_, refl, refl)
    by_due (some o) true acks = (_, refl, refl)
    by_due (some o) false acks = (_, refl, refl)

next_packet-some :
    (c : ControlChannel) (k : KeyId) (s : KeyState) (u : ℕ)
    → state_of c k ≡ some s
    → next_packet c k u ≡ (put_state c k (packet_of c k s u).0, (packet_of c k s u).1)
unfolding next_packet
next_packet-some c k s u e = rw (e, next_packet) refl

-- The primary generation, whatever is pending.
state_of-primary : (c : ControlChannel) → state_of c c.primary.key_id ≡ some c.primary
unfolding state_of
state_of-primary c = ground arith

primary-ne :
    (c : ControlChannel) (p : KeyState)
    → IsKeyed c
    → c.pending ≡ some p
    → (c.primary.key_id == p.key_id) ≡ false
primary-ne c p h e =
    let other : (p.key_id == c.primary.key_id) ≡ false =
      sym (is_pending-some c.pending c.primary.key_id p e) ∙ h.other in
    ground arith

state_of-pending :
    (c : ControlChannel) (p : KeyState)
    → IsKeyed c
    → c.pending ≡ some p
    → state_of c p.key_id ≡ some p
unfolding state_of
state_of-pending c p h e = rw (primary-ne c p h e, e) (ground arith)

key_ids-none : (c : ControlChannel) → c.pending ≡ none → key_ids c ≡ c.primary.key_id ∷ []
unfolding key_ids
key_ids-none c e = ground arith

key_ids-some :
    (c : ControlChannel) (p : KeyState)
    → c.pending ≡ some p
    → key_ids c ≡ p.key_id ∷ c.primary.key_id ∷ []
unfolding key_ids
key_ids-some c p e = ground arith

next_wakeup-none :
    (c : ControlChannel) (now : ℕ)
    → c.pending ≡ none
    → next_wakeup c now ≡ state_wakeup c.primary now
unfolding next_wakeup
next_wakeup-none c now e = ground arith

next_wakeup-some :
    (c : ControlChannel) (p : KeyState) (now : ℕ)
    → c.pending ≡ some p
    → next_wakeup c now ≡ sooner (state_wakeup c.primary now) (state_wakeup p now)
unfolding next_wakeup
next_wakeup-some c p now e = ground arith

||_comm : (a b : Bool) → a || b ≡ b || a
||_comm true true = refl
||_comm true false = refl
||_comm false true = refl
||_comm false false = refl

||-false : (b : Bool) → b || false ≡ b
||-false true = refl
||-false false = refl

module _ (hmac : Hmac) where
  served-sends :
      (c : ControlChannel) (o : Option ControlPacket) (net_time : ℕ)
      (rest : ControlChannel → ControlChannel × Result (Option (List ℕ)))
      → sends (served hmac (c, ok o) net_time rest).1 ≡ is_some o || sends (rest c).1
  served-sends c none net_time rest = refl
  served-sends c (some p) net_time rest = refl

  poll_keys-sends :
      (c : ControlChannel) (k : KeyId) (ks : List KeyId) (s : KeyState) (u net_time : ℕ)
      → state_of c k ≡ some s
      → sends (poll_keys hmac (k ∷ ks) c u net_time).1
        ≡ busy s u || sends (poll_keys hmac ks (put_state c k (packet_of c k s u).0) u net_time).1
  unfolding poll_keys
  poll_keys-sends c k ks s u net_time e =
      let (o, given, same) = packet_of-ok c k s u in
      rw (next_packet-some c k s u e, given, sym same)
        (served-sends (put_state c k (packet_of c k s u).0) o net_time
          (λ c'. poll_keys hmac ks c' u net_time))

  no_keys : (c : ControlChannel) (u net_time : ℕ) → sends (poll_keys hmac [] c u net_time).1 ≡ false
  unfolding poll_keys
  no_keys c u net_time = refl

  one_key :
      (c : ControlChannel) (u net_time : ℕ)
      → sends (poll_keys hmac (c.primary.key_id ∷ []) c u net_time).1 ≡ busy c.primary u
  one_key c u net_time =
      poll_keys-sends c c.primary.key_id [] c.primary u net_time (state_of-primary c)
      ∙ rw
          (no_keys (put_state c c.primary.key_id (packet_of c c.primary.key_id c.primary u).0) u
            net_time)
          (||-false (busy c.primary u))

  two_keys :
      (c : ControlChannel) (p : KeyState) (u net_time : ℕ)
      → IsKeyed c
      → c.pending ≡ some p
      → sends (poll_keys hmac (p.key_id ∷ c.primary.key_id ∷ []) c u net_time).1
        ≡ busy p u || busy c.primary u
  unfolding put_state
  two_keys c p u net_time h e =
      let p' = (packet_of c p.key_id p u).0 in
      poll_keys-sends c p.key_id (c.primary.key_id ∷ []) p u net_time (state_of-pending c p h e)
      ∙ rw (primary-ne c p h e)
          (ap (busy p u ||◌) (one_key (record c { pending = some p' }) u net_time))

  -- At every time from `now` on, `poll_transmit` has a datagram exactly if `next_wakeup` asked at `now`
  -- gives a time that has come: a caller who sleeps until then neither misses a datagram nor wakes for
  -- nothing. This holds of a channel whose pending generation, if any, has another key id than the
  -- primary one, and where neither key id is that of a generation that the peer gave up on.
  pub poll_transmit-next_wakeup :
      (c : ControlChannel) (now u net_time : ℕ)
      → IsKeyed c
      → now ≤ u
      → sends (poll_transmit hmac c u net_time).1 ≡ reached (next_wakeup c now) u
  unfolding poll_transmit
  poll_transmit-next_wakeup c now u net_time h le = elim (Option-cases c.pending) [
    | inl e ↦
        rw (key_ids-none c e, next_wakeup-none c now e)
          (one_key c u net_time ∙ busy-reached c.primary now u le)
    | inr (p, e) ↦
        rw
          (
            key_ids-some c p e,
            next_wakeup-some c p now e,
            reached-sooner (state_wakeup c.primary now) (state_wakeup p now) u,
          )
          (two_keys c p u net_time h e
            ∙ rw (busy-reached p now u le, busy-reached c.primary now u le)
                (||_comm (reached (state_wakeup p now) u) (reached (state_wakeup c.primary now) u)))
  ]
