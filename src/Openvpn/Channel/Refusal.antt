-- ===== src/Openvpn/Channel/Refusal.antt =====
-- A datagram that is refused.
use synology_filestation.Prelude.{
  ℕ, ◌≡◌, ◌≢◌, refl, Bool, true, false, not, List, if◌then◌else◌, arith,
}
use synology_filestation.Openvpn.Crypto.{Hmac}
use synology_filestation.Openvpn.Error.{
  Error, Result, ok, err, panic, ◌>>=◌, other_key_id, replayed,
}
use synology_filestation.Openvpn.KeyId.{KeyId}
use synology_filestation.Openvpn.Packet.{ControlPacket}
use synology_filestation.Openvpn.Replay
use synology_filestation.Openvpn.Replay.{ReplayWindow}
use synology_filestation.Openvpn.TlsAuth.{TlsAuthHeader, unwrap}
use synology_filestation.Openvpn.Channel.{ControlChannel}
use synology_filestation.Openvpn.Channel.Handle.{
  check_session, check_acks, deliver, admit, fresh_only, handle, latch, renegotiate,
}

-- An error other than that the generation is unknown.
abbrev pub IsOther : Error → Type 0
IsOther e = (theirs ours : KeyId) → e ≢ other_key_id theirs ours

-- A delivery has no other error.
deliver_error :
    (c : ControlChannel) (packet : ControlPacket) (e : Error)
    → (deliver c packet).1 ≡ err e
    → e ≡ other_key_id packet.key_id c.primary.key_id
unfolding deliver
deliver_error c packet e eq = ground arith

latch-renegotiate_primary :
    (c : ControlChannel) (packet : ControlPacket)
    → (latch (renegotiate c packet) packet.session_id).primary ≡ c.primary
unfolding latch renegotiate
latch-renegotiate_primary c packet = ground arith

admit_refused :
    (c : ControlChannel) (packet : ControlPacket) (e : Error)
    → (admit c packet).1 ≡ err e
    → IsOther e
    → (admit c packet).0 ≡ c
unfolding admit
admit_refused c packet e eq other =
    by_check (check_session c packet >>= λ _. check_acks c packet) eq
  where
    by_check :
        (r : Result (Unit {0}))
        → (elim r as (λ _. ControlChannel × Result (Unit {0})) [
          | ok _ ↦ deliver (latch (renegotiate c packet) packet.session_id) packet
          | err e' ↦ (c, err e')
          | panic ↦ (c, panic)
        ]).1
          ≡ err e
        → (elim r as (λ _. ControlChannel × Result (Unit {0})) [
          | ok _ ↦ deliver (latch (renegotiate c packet) packet.session_id) packet
          | err e' ↦ (c, err e')
          | panic ↦ (c, panic)
        ]).0
          ≡ c
    by_check (ok _) h = absurd (other _ _ (deliver_error _ packet e h))
    by_check (err _) h = refl
    by_check panic h = refl

fresh_only_refused :
    (c : ControlChannel) (r : Result (ControlPacket × TlsAuthHeader)) (e : Error)
    → (fresh_only c r).1 ≡ err e
    → IsOther e
    → (window : ReplayWindow) × ((fresh_only c r).0 ≡ record c { replay = window })
unfolding fresh_only
fresh_only_refused c (ok (packet, header)) e eq other =
    by_verdict (Replay.accept c.replay header.packet_id header.net_time).0
      (Replay.accept c.replay header.packet_id header.net_time).1 eq
  where
    by_verdict :
        (window : ReplayWindow) (fresh : Bool)
        → (if not fresh
            then (record c { replay = window }, err replayed)
            else admit (record c { replay = window }) packet).1
          ≡ err e
        → (window' : ReplayWindow) × ((if not fresh
              then (record c { replay = window }, err replayed)
              else admit (record c { replay = window }) packet).0
            ≡ record c { replay = window' })
    by_verdict window true h =
        (window, admit_refused (record c { replay = window }) packet e h other)
    by_verdict window false h = (window, refl)
fresh_only_refused c (err _) e eq other = (c.replay, refl)
fresh_only_refused c panic e eq other = (c.replay, refl)

-- A datagram that `handle` refuses with any error but that of an unknown generation changes
-- nothing of the channel but the replay window: no session is learned, no generation starts or
-- ends, and no message is released or kept.
pub handle_refused :
    (hmac : Hmac) (c : ControlChannel) (datagram : List ℕ) (e : Error)
    → (handle hmac c datagram).1 ≡ err e
    → IsOther e
    → (window : ReplayWindow) × ((handle hmac c datagram).0 ≡ record c { replay = window })
unfolding handle
handle_refused hmac c datagram e eq other =
    fresh_only_refused c (unwrap hmac c.auth datagram) e eq other
