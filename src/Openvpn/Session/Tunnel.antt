-- ===== src/Openvpn/Session/Tunnel.antt =====
-- The tunnel and the phase of a session: a tunnel stands in the last phase and in no other, on the
-- keys, the peer id and the generation that the session has.
pub mod Opened
pub mod Exchanged
pub mod Rotated
pub mod Advanced
pub mod Moved
pub mod Carried
pub mod Sent
pub mod InFlight
pub mod Heard
pub mod Run
use mathlib.Core.Path.{subst}
use synology_filestation.Prelude.{ℕ, ◌≡◌, refl, sym, ◌∙◌, Option, some, none, List}
use synology_filestation.Openvpn.Data.{DataChannel, DataKeys, for_client}
use synology_filestation.Openvpn.Error.{Error, Result, ok, err, panic}
use synology_filestation.Openvpn.Error.Ensures.{Anything, Ensures, returns, fails}
use synology_filestation.Openvpn.Session.{
  Session, Stepped, Phase, awaiting_keys, established, awaiting_push, ready, and_then,
}
use synology_filestation.Openvpn.Session.Push.{pushed_peer_id}

module _ {Conn : Type 0} where
  -- The session has bytes from which the client's keys are split.
  pub record HasKeys (s : Session Conn) (keys : DataKeys) : Type 0 where
    pub bytes : List ℕ
    pub kept : s.keys ≡ some bytes
    pub split : for_client bytes ≡ ok keys

  -- A tunnel on the keys of the session, addressed to the peer id that was pushed, under the key id
  -- of the generation that carries traffic.
  pub record IsTunnel (s : Session Conn) (d : DataChannel) : Type 0 where
    pub key_id : d.key_id ≡ s.channel.primary.key_id
    pub peer_id : d.peer_id ≡ pushed_peer_id s.push
    pub keys : HasKeys s d.keys

  abbrev pub AtPhase : Session Conn → Phase → Type 0
  AtPhase s Phase.tls = s.data_channel ≡ none
  AtPhase s awaiting_keys = s.data_channel ≡ none
  AtPhase s established = s.data_channel ≡ none
  AtPhase s awaiting_push = (s.data_channel ≡ none) × ((keys : DataKeys) × HasKeys s keys)
  AtPhase s ready = (d : DataChannel) × (s.data_channel ≡ some d) × IsTunnel s d

  abbrev pub IsConsistent : Session Conn → Type 0
  IsConsistent s = AtPhase s s.phase

  -- A step that leaves the tunnel, and what it stands on.
  pub record SameTunnel (s t : Session Conn) : Type 0 where
    pub phase : t.phase ≡ s.phase
    pub keys : t.keys ≡ s.keys
    pub push : t.push ≡ s.push
    pub data_channel : t.data_channel ≡ s.data_channel
    pub key_id : t.channel.primary.key_id ≡ s.channel.primary.key_id

  SameTunnel-HasKeys :
      (s t : Session Conn) (k : DataKeys) → SameTunnel s t → HasKeys s k → HasKeys t k
  SameTunnel-HasKeys s t k same h = record {
    bytes = h.bytes;
    kept = same.keys ∙ h.kept;
    split = h.split;
  }

  SameTunnel-AtPhase : (s t : Session Conn) (p : Phase) → SameTunnel s t → AtPhase s p → AtPhase t p
  SameTunnel-AtPhase s t Phase.tls same h = same.data_channel ∙ h
  SameTunnel-AtPhase s t awaiting_keys same h = same.data_channel ∙ h
  SameTunnel-AtPhase s t established same h = same.data_channel ∙ h
  SameTunnel-AtPhase s t awaiting_push same (h, (k, keys)) =
      (same.data_channel ∙ h, (k, SameTunnel-HasKeys s t k same keys))
  SameTunnel-AtPhase s t ready same (d, e, h) = (
    d,
    same.data_channel ∙ e,
    record {
      key_id = rw same.key_id h.key_id;
      peer_id = rw same.push h.peer_id;
      keys = SameTunnel-HasKeys s t d.keys same h.keys;
    },
  )

  pub SameTunnel-IsConsistent :
      (s t : Session Conn) → SameTunnel s t → IsConsistent s → IsConsistent t
  SameTunnel-IsConsistent s t same h =
      subst (AtPhase t) (sym same.phase) (SameTunnel-AtPhase s t s.phase same h)

  -- What a step keeps: the session stays consistent, and the step does not panic.
  abbrev pub Kept : {A : Type 0} → Stepped Conn A → Type 0
  Kept outcome = IsConsistent outcome.0 × Ensures Anything outcome.1

  pub and_then-Kept :
      {A B : Type 0} (r : Stepped Conn A) (rest : Session Conn → A → Stepped Conn B)
      → Kept r
      → ((s : Session Conn) (a : A) → IsConsistent s → Kept (rest s a))
      → Kept (and_then r rest)
  and_then-Kept (s, ok a) rest (h, fine) k = k s a h
  and_then-Kept (s, err e) rest (h, fine) k = (h, fails)
  and_then-Kept (s, panic) rest (h, fine) k = elim fine [ ]
