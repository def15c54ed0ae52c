-- ===== src/Openvpn/Channel/Keys.antt =====
-- The key ids of a channel's generations.
use synology_filestation.Prelude.{
  ℕ, ◌≡◌, refl, sym, ap, ◌∙◌, false, Bool-cases, ◌⊎◌, Option, some, none, Option-cases, inl, inr,
  List, [], ◌∷◌, contains, contains-append, ◌==◌, arith,
}
use synology_filestation.Openvpn.KeyId.{KeyId}
use synology_filestation.Openvpn.Packet.{Acks, ControlPacket, SessionId}
use synology_filestation.Openvpn.Reliable.Recv.{Message}
use synology_filestation.Openvpn.Channel.{
  pending_of, new_state, ControlChannel, KeyState, new, state_of, put_state, open_channel,
  send_control, promote,
}
use synology_filestation.Openvpn.Channel.Handle.{
  is_pending, supersede, renegotiate, latch, deliver, acknowledged, accepted,
}

-- The generation that is pending has another key id than the primary one, and neither key id is
-- that of a generation that the peer gave up on.
pub record IsKeyed (c : ControlChannel) : Type 0 where
  pub other : is_pending c.pending c.primary.key_id ≡ false
  pub primary : contains c.superseded c.primary.key_id ≡ false
  pub pending : (p : KeyState) → c.pending ≡ some p → contains c.superseded p.key_id ≡ false

-- Two channels with the same key ids.
pub record SameKeys (c d : ControlChannel) : Type 0 where
  pub primary : d.primary.key_id ≡ c.primary.key_id
  pub superseded : d.superseded ≡ c.superseded
  pub pending :
      (p : KeyState)
      → d.pending ≡ some p
      → (q : KeyState) × (c.pending ≡ some q) × (p.key_id ≡ q.key_id)

pub is_pending-some :
    (p : Option KeyState) (k : KeyId) (q : KeyState) → p ≡ some q → is_pending p k ≡ (q.key_id == k)
is_pending-some p k q e = rw e refl

pub SameKeys-IsKeyed : (c d : ControlChannel) → SameKeys c d → IsKeyed c → IsKeyed d
SameKeys-IsKeyed c d same h = record {
  other = other d.pending refl;
  primary = rw (same.primary, same.superseded) h.primary;
  pending =
      λ p e. let (q, eq, ids) = same.pending p e in rw (same.superseded, ids) (h.pending q eq);
}
  where
    other : (p : Option KeyState) → d.pending ≡ p → is_pending p d.primary.key_id ≡ false
    other none e = refl
    other (some p) e =
        let (q, eq, ids) = same.pending p e in
        rw (ids, same.primary) (sym (is_pending-some c.pending c.primary.key_id q eq) ∙ h.other)

pub SameKeys-refl : (c : ControlChannel) → SameKeys c c
SameKeys-refl c = record { primary = refl; superseded = refl; pending = λ p e. (p, e, refl) }

pub SameKeys-trans : (c d e : ControlChannel) → SameKeys c d → SameKeys d e → SameKeys c e
SameKeys-trans c d e f g = record {
  primary = g.primary ∙ f.primary;
  superseded = g.superseded ∙ f.superseded;
  pending = λ p eq.
      let (q, eq', ids) = g.pending p eq in
      let (r, eq'', ids') = f.pending q eq' in (r, eq'', ids ∙ ids');
}

pub pending_of-some :
    (o : Option KeyState) (k : KeyId) (s : KeyState) → pending_of o k ≡ some s → o ≡ some s
pending_of-some none k s e = cc
pending_of-some (some p) k s e = ground arith

-- A generation is written back under its own key id.
pub put_state-SameKeys :
    (c : ControlChannel) (k : KeyId) (s s' : KeyState)
    → state_of c k ≡ some s
    → s'.key_id ≡ s.key_id
    → SameKeys c (put_state c k s')
unfolding put_state state_of
put_state-SameKeys c k s s' found ids = elim (Bool-cases (c.primary.key_id == k)) [
  | inl e ↦ rw e (record {
    primary = ground (arith, ids, found);
    superseded = refl;
    pending = λ p eq. (p, eq, refl);
  })
  | inr e ↦ rw e (record {
    primary = refl;
    superseded = refl;
    pending = λ p eq.
        let same : s' ≡ p = cc in
        (s, pending_of-some c.pending k s (rw e at found), ap (λ t. t.key_id) (sym same) ∙ ids);
  })
]

pub open_channel-SameKeys : (c : ControlChannel) → SameKeys c (open_channel c)
unfolding open_channel
open_channel-SameKeys c = record {
  primary = refl;
  superseded = refl;
  pending = λ p eq. (p, eq, refl);
}

pub send_control-SameKeys :
    (c : ControlChannel) (k : KeyId) (payload : List ℕ) → SameKeys c (send_control c k payload).0
unfolding send_control
send_control-SameKeys c k payload = elim (Option-cases (state_of c k)) [
  | inl e ↦ rw (e, send_control) (SameKeys-refl c)
  | inr (s, e) ↦ rw (e, send_control) (put_state-SameKeys c k s _ e refl)
]

latch_cases :
    (c : ControlChannel) (s : SessionId)
    → (latch c s ≡ c) ⊎ (latch c s ≡ record c { remote_session = some s })
unfolding latch
latch_cases c s = elim (Option-cases c.remote_session) [
  | inl e ↦ inr (ground arith)
  | inr (t, e) ↦ inl (ground arith)
]

pub latch-SameKeys : (c : ControlChannel) (s : SessionId) → SameKeys c (latch c s)
latch-SameKeys c s = elim (latch_cases c s) [
  | inl e ↦ rw e (SameKeys-refl c)
  | inr e ↦ rw e (record { primary = refl; superseded = refl; pending = λ p eq. (p, eq, refl) })
]

accepted-key_id :
    (s : KeyState) (acks : Option Acks) (id : Option ℕ) (m : Message)
    → (accepted (acknowledged s acks) id m).key_id ≡ s.key_id
accepted-key_id s none none m = refl
accepted-key_id s (some a) none m = refl
accepted-key_id s none (some id) m = refl
accepted-key_id s (some a) (some id) m = refl

pub deliver-SameKeys :
    (c : ControlChannel) (packet : ControlPacket) → SameKeys c (deliver c packet).0
unfolding deliver
deliver-SameKeys c packet = elim (Option-cases (state_of c packet.key_id)) [
  | inl e ↦ rw (e, deliver) (SameKeys-refl c)
  | inr (s, e) ↦
      rw (e, deliver)
        (put_state-SameKeys c packet.key_id s _ e
          (accepted-key_id s packet.acks packet.packet_id (packet.opcode, packet.payload)))
]

promote_cases :
    (c : ControlChannel)
    → (promote c ≡ c)
      ⊎ ((p : KeyState) × (promote c ≡ record c { primary = p; superseded = []; pending = none }))
unfolding promote
promote_cases c = elim (Option-cases c.pending) [
  | inl e ↦ inl (ground arith)
  | inr (p, e) ↦ inr (p, ground arith)
]

pub promote-IsKeyed : (c : ControlChannel) → IsKeyed c → IsKeyed (promote c)
promote-IsKeyed c h = elim (promote_cases c) [
  | inl e ↦ rw e h
  | inr (p, e) ↦
      rw e (record { other = refl; primary = unfold contains in refl; pending = λ q eq. cc })
]

-- The generation that a soft reset starts has a new key id.
supersede-contains :
    (superseded : List KeyId) (pending : Option KeyState) (k : KeyId)
    → contains superseded k ≡ false
    → is_pending pending k ≡ false
    → contains (supersede superseded pending) k ≡ false
unfolding contains
supersede-contains l none k h e = h
supersede-contains l (some p) k h e = ground (arith, contains-append l (p.key_id ∷ []) k)

pub renegotiate_cases :
    (c : ControlChannel) (packet : ControlPacket)
    → (renegotiate c packet ≡ c)
      ⊎ ((packet.key_id == c.primary.key_id) ≡ false)
        × (is_pending c.pending packet.key_id ≡ false)
        × (contains c.superseded packet.key_id ≡ false)
        × (renegotiate c packet ≡ record c {
          pending = some (new_state packet.key_id c.tls_timeout);
          superseded = supersede c.superseded c.pending;
        })
unfolding renegotiate
renegotiate_cases c packet = ground arith

pub renegotiate-IsKeyed :
    (c : ControlChannel) (packet : ControlPacket) → IsKeyed c → IsKeyed (renegotiate c packet)
renegotiate-IsKeyed c packet h = elim (renegotiate_cases c packet) [
  | inl e ↦ rw e h
  | inr (other, new, unused, e) ↦ rw e (record {
    other = other;
    primary = supersede-contains c.superseded c.pending c.primary.key_id h.primary h.other;
    pending = λ p eq.
        let same : new_state packet.key_id c.tls_timeout ≡ p = cc in
        rw⁻¹ same (supersede-contains c.superseded c.pending packet.key_id unused new);
  })
]
