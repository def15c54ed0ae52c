-- ===== src/Openvpn/Channel/Primary.antt =====
-- The key id that carries traffic, which only `promote` changes, and the safety of `handle` on any
-- channel.
use synology_filestation.Prelude.{ℕ, ◌≡◌, ◌≢◌, All, refl, ◌∙◌, not, inl, inr, List, if_cases}
use synology_filestation.Prelude.Bytes.{IsByte}
use synology_filestation.Openvpn.Crypto.{Hmac}
use synology_filestation.Openvpn.Error.{Result, ok, err, panic, ◌>>=◌, replayed}
use synology_filestation.Openvpn.Error.Ensures.{
  Anything, Ensures, fails, Ensures-bind, Ensures-ne-panic,
}
use synology_filestation.Openvpn.Packet.{ControlPacket}
use synology_filestation.Openvpn.Replay
use synology_filestation.Openvpn.TlsAuth.{TlsAuthHeader, unwrap}
use synology_filestation.Openvpn.TlsAuth.Authentic.{unwrap_safe}
use synology_filestation.Openvpn.Channel.Parts.{
  check_session-Ensures, check_acks-Ensures, deliver-Ensures,
}
use synology_filestation.Openvpn.Channel.{ControlChannel, key_ids, poll_transmit}
use synology_filestation.Openvpn.Channel.Handle.{
  renegotiate, latch, deliver, admit, check_session, check_acks, fresh_only, handle, poll_control,
}
use synology_filestation.Openvpn.Channel.Keys.{latch-SameKeys, deliver-SameKeys, renegotiate_cases}
use synology_filestation.Openvpn.Channel.Run.{poll_keys-Served, poll_keys-SameKeys}

-- A step that leaves the primary key id.
abbrev pub Stays : {A : Type 0} → ControlChannel → ControlChannel × A → Type 0
Stays c outcome = outcome.0.primary.key_id ≡ c.primary.key_id

renegotiate-Stays :
    (c : ControlChannel) (packet : ControlPacket)
    → (renegotiate c packet).primary.key_id ≡ c.primary.key_id
renegotiate-Stays c packet = elim (renegotiate_cases c packet) [
  | inl e ↦ rw e refl
  | inr (other, new, unused, e) ↦ rw e refl
]

admit-Stays : (c : ControlChannel) (packet : ControlPacket) → Stays c (admit c packet)
unfolding admit
admit-Stays c packet = by_check (check_session c packet >>= λ _. check_acks c packet)
  where
    passed : ControlChannel
    passed = latch (renegotiate c packet) packet.session_id

    by_check :
        (r : Result (Unit {0}))
        → Stays c (elim r as (λ _. ControlChannel × Result (Unit {0})) [
          | ok _ ↦ deliver passed packet
          | err e ↦ (c, err e)
          | panic ↦ (c, panic)
        ])
    by_check (ok _) =
        (deliver-SameKeys passed packet).primary
        ∙ (latch-SameKeys (renegotiate c packet) packet.session_id).primary
        ∙ renegotiate-Stays c packet
    by_check (err e) = refl
    by_check panic = refl

fresh_only-Stays :
    (c : ControlChannel) (r : Result (ControlPacket × TlsAuthHeader)) → Stays c (fresh_only c r)
unfolding fresh_only
fresh_only-Stays c (ok (packet, header)) =
    if_cases (λ (p : ControlChannel × Result (Unit {0})). Stays c p) _ _ _ (λ _. refl)
      (λ _.
        admit-Stays
          (record c { replay = (Replay.accept c.replay header.packet_id header.net_time).0 })
          packet)
fresh_only-Stays c (err e) = refl
fresh_only-Stays c panic = refl

pub handle-Stays :
    (hmac : Hmac) (c : ControlChannel) (datagram : List ℕ) → Stays c (handle hmac c datagram)
unfolding handle
handle-Stays hmac c datagram = fresh_only-Stays c (unwrap hmac c.auth datagram)

pub poll_control-Stays : (c : ControlChannel) → Stays c (poll_control c)
unfolding poll_control
poll_control-Stays c = (poll_keys-SameKeys (key_ids c) c).primary

pub poll_transmit-Stays :
    (hmac : Hmac) (c : ControlChannel) (now net_time : ℕ)
    → Stays c (poll_transmit hmac c now net_time)
unfolding poll_transmit
poll_transmit-Stays hmac c now net_time =
    (poll_keys-Served hmac (key_ids c) c now net_time).0.primary

admit-Ensures : (c : ControlChannel) (packet : ControlPacket) → Ensures Anything (admit c packet).1
unfolding admit
admit-Ensures c packet =
    by_check (check_session c packet >>= λ _. check_acks c packet)
      (Ensures-bind _ (check_session-Ensures c packet) (λ _ _. check_acks-Ensures c packet))
  where
    passed : ControlChannel
    passed = latch (renegotiate c packet) packet.session_id

    by_check :
        (r : Result (Unit {0}))
        → Ensures Anything r
        → Ensures Anything
            (elim r as (λ _. ControlChannel × Result (Unit {0})) [
              | ok _ ↦ deliver passed packet
              | err e ↦ (c, err e)
              | panic ↦ (c, panic)
            ]).1
    by_check (ok _) fine = deliver-Ensures passed packet
    by_check (err e) fine = fails
    by_check panic fine = elim fine [ ]

fresh_only-Ensures :
    (c : ControlChannel) (r : Result (ControlPacket × TlsAuthHeader))
    → r ≢ panic
    → Ensures Anything (fresh_only c r).1
unfolding fresh_only
fresh_only-Ensures c (ok (packet, header)) fine =
    let (window, fresh) = Replay.accept c.replay header.packet_id header.net_time in
    let c' = record c { replay = window } in
    if_cases (λ (p : ControlChannel × Result (Unit {0})). Ensures Anything p.1) (not fresh)
      (c', err replayed) (admit c' packet) (λ _. fails) (λ _. admit-Ensures c' packet)
fresh_only-Ensures c (err e) fine = fails
fresh_only-Ensures c panic fine = absurd (fine refl)

pub handle-Ensures :
    (hmac : Hmac) (c : ControlChannel) (datagram : List ℕ)
    → All IsByte datagram
    → Ensures Anything (handle hmac c datagram).1
unfolding handle
handle-Ensures hmac c datagram bytes =
    fresh_only-Ensures c (unwrap hmac c.auth datagram)
      (Ensures-ne-panic (unwrap_safe hmac c.auth datagram bytes))
