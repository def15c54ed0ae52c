-- ===== src/Openvpn/Session/Tunnel/Rotated.antt =====
-- The steps of the next key generation.
use mathlib.Core.Path.{subst}
use synology_filestation.Prelude.{
  ℕ, ◌≡◌, refl, sym, false, Bool-cases, Option, some, none, Option-cases, inl, inr, List, [], drop,
}
use synology_filestation.Openvpn.Channel.{promote}
use synology_filestation.Openvpn.Data.{DataChannel, DataKeys, for_client}
use synology_filestation.Openvpn.Error.{Result, ok, err, panic}
use synology_filestation.Openvpn.Error.Ensures.{Anything, Ensures, returns, fails}
use synology_filestation.Openvpn.KeyId.{KeyId}
use synology_filestation.Openvpn.Prf.{KeySource2}
use synology_filestation.Openvpn.Session.{
  Session, Stepped, Renegotiation, Phase, awaiting_keys, established, awaiting_push, ready,
}
use synology_filestation.Openvpn.Session.Outgoing
use synology_filestation.Openvpn.Session.Push.{open_tunnel}
use synology_filestation.Openvpn.Session.Renegotiate.{
  pending_key_id, is_negotiated, begin_renegotiation, take_over,
}
use synology_filestation.Openvpn.Session.Tunnel.{
  IsConsistent, AtPhase, SameTunnel-IsConsistent, Kept,
}
use synology_filestation.Openvpn.Session.Tunnel.Opened.{open_tunnel_opens}

module _ {Conn : Type 0} where
  pub renegotiating-IsConsistent :
      (s : Session Conn) (r : Option (Renegotiation Conn))
      → IsConsistent s
      → IsConsistent (record s { renegotiation = r })
  renegotiating-IsConsistent s r h =
      SameTunnel-IsConsistent s (record s { renegotiation = r })
        (record { phase = refl; keys = refl; push = refl; data_channel = refl; key_id = refl }) h

  pub begin_renegotiation-Kept :
      (s : Session Conn) (connection : Result Conn) (source : KeySource2)
      → Ensures Anything connection
      → IsConsistent s
      → Kept (begin_renegotiation s connection source)
  unfolding begin_renegotiation
  begin_renegotiation-Kept s connection source fine h =
      elim (Option-cases (pending_key_id s.channel.pending)) [
        | inl e ↦ rw (e, begin_renegotiation) (h, returns tt)
        | inr (key_id, e) ↦ elim (Bool-cases (is_negotiated s.renegotiation key_id)) [
          | inl same ↦ rw (e, same, begin_renegotiation) (h, returns tt)
          | inr other ↦ rw (e, other, begin_renegotiation) (by_connection key_id connection fine)
        ]
      ]
    where
      begun : KeyId → Conn → Session Conn
      begun key_id conn = record s {
        renegotiation = some (record {
          key_id = key_id;
          tls = conn;
          outbox = Outgoing.empty;
          source = source;
          inbound = [];
          sent_key_material = false;
        });
      }

      by_connection :
          (key_id : KeyId) (r : Result Conn)
          → Ensures Anything r
          → Kept (elim r as (λ _. Stepped Conn (Unit {0})) [
            | err e ↦ (s, err e)
            | panic ↦ (s, panic)
            | ok conn ↦ (begun key_id conn, ok tt)
          ])
      by_connection key_id (err e) fine = (h, fails)
      by_connection key_id panic fine = elim fine [ ]
      by_connection key_id (ok conn) fine =
          (renegotiating-IsConsistent s (begun key_id conn).renegotiation h, returns tt)

  -- The session after the rotation, before its tunnel.
  abbrev pub rotated : Session Conn → Renegotiation Conn → KeySource2 → List ℕ → ℕ → Session Conn
  rotated s pending source keys used = record s {
    renegotiation = none;
    channel = promote s.channel;
    tls = pending.tls;
    outbox = pending.outbox;
    source = source;
    inbound = drop used pending.inbound;
    keys = some keys;
    previous_data = s.data_channel;
    data_channel = none;
  }

  -- Without a tunnel, what the phase asks for is what the new keys give.
  rotated-AtPhase :
      (s : Session Conn) (pending : Renegotiation Conn) (source : KeySource2) (keys : List ℕ)
      (used : ℕ) (client : DataKeys) (p : Phase)
      → for_client keys ≡ ok client
      → s.data_channel ≡ none
      → AtPhase s p
      → AtPhase (rotated s pending source keys used) p
  rotated-AtPhase s pending source keys used client Phase.tls split closed h = refl
  rotated-AtPhase s pending source keys used client awaiting_keys split closed h = refl
  rotated-AtPhase s pending source keys used client established split closed h = refl
  rotated-AtPhase s pending source keys used client awaiting_push split closed h =
      (refl, (client, record { bytes = keys; kept = refl; split = split }))
  rotated-AtPhase s pending source keys used client ready split closed (d, e, h) = absurd (cc)

  -- A tunnel stands only in the last phase.
  tunnel_ready :
      (s : Session Conn) (p : Phase) (d : DataChannel)
      → s.data_channel ≡ some d
      → AtPhase s p
      → p ≡ ready
  tunnel_ready s ready d e h = refl
  tunnel_ready s Phase.tls d e h = absurd (cc)
  tunnel_ready s awaiting_keys d e h = absurd (cc)
  tunnel_ready s established d e h = absurd (cc)
  tunnel_ready s awaiting_push d e (h, _) = absurd (cc)

  no_tunnel :
      (t : Session Conn) (o : Option DataChannel)
      → o ≡ none
      → elim o as (λ _. Stepped Conn (Unit {0})) [ none ↦ (t, ok tt) | some _ ↦ open_tunnel t ]
        ≡ (t, ok tt)
  no_tunnel t none e = refl
  no_tunnel t (some d) e = cc

  a_tunnel :
      (t : Session Conn) (o : Option DataChannel) (d : DataChannel)
      → o ≡ some d
      → elim o as (λ _. Stepped Conn (Unit {0})) [ none ↦ (t, ok tt) | some _ ↦ open_tunnel t ]
        ≡ open_tunnel t
  a_tunnel t none d e = cc
  a_tunnel t (some d') d e = refl

  take_over-none :
      (s : Session Conn) (pending : Renegotiation Conn) (source : KeySource2) (keys : List ℕ)
      (used : ℕ)
      → s.data_channel ≡ none
      → take_over s pending source keys used ≡ (rotated s pending source keys used, ok tt)
  unfolding take_over
  take_over-none s pending source keys used e =
      no_tunnel (rotated s pending source keys used) s.data_channel e

  pub take_over-some :
      (s : Session Conn) (pending : Renegotiation Conn) (source : KeySource2) (keys : List ℕ)
      (used : ℕ) (d : DataChannel)
      → s.data_channel ≡ some d
      → take_over s pending source keys used ≡ open_tunnel (rotated s pending source keys used)
  unfolding take_over
  take_over-some s pending source keys used d e =
      a_tunnel (rotated s pending source keys used) s.data_channel d e

  -- A rotation leaves a tunnel where one was, on the new keys and under the new key id.
  pub take_over-Kept :
      (s : Session Conn) (pending : Renegotiation Conn) (source : KeySource2) (keys : List ℕ)
      (used : ℕ) (client : DataKeys)
      → for_client keys ≡ ok client
      → IsConsistent s
      → Kept (take_over s pending source keys used)
  take_over-Kept s pending source keys used client split h =
      let s' = rotated s pending source keys used in
      elim (Option-cases s.data_channel) [
        | inl closed ↦
            subst (λ (r : Stepped Conn (Unit {0})). Kept r)
              (sym (take_over-none s pending source keys used closed))
              (rotated-AtPhase s pending source keys used client s.phase split closed h, returns tt)
        | inr (d, e) ↦
            subst (λ (r : Stepped Conn (Unit {0})). Kept r)
              (sym (take_over-some s pending source keys used d e))
              (open_tunnel_opens s' client (record { bytes = keys; kept = refl; split = split })
                (tunnel_ready s s.phase d e h))
      ]
