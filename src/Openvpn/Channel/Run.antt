-- ===== src/Openvpn/Channel/Run.antt =====
-- Any use of a control channel.
use synology_filestation.Prelude.{
  if_cases, ℕ, suc, ◌≢◌, refl, Option, some, none, Option-cases, inl, inr, List, [], ◌∷◌, length,
  All,
}
use synology_filestation.Prelude.Bytes.{IsByte}
use synology_filestation.Openvpn.Crypto.{Hmac}
use synology_filestation.Openvpn.Error.{Result, ok, err, panic, ◌>>=◌}
use synology_filestation.Openvpn.Error.Ensures.{
  Anything, Ensures, returns, fails, Ensures-ne-panic, Ensures-bind,
}
use synology_filestation.Openvpn.KeyId.{KeyId}
use synology_filestation.Openvpn.Packet.{ControlPacket}
use synology_filestation.Openvpn.Replay
use synology_filestation.Openvpn.TlsAuth.{TlsAuth, TlsAuthHeader, unwrap}
use synology_filestation.Openvpn.TlsAuth.Authentic.{unwrap_safe}
use synology_filestation.Openvpn.Channel.{
  ControlChannel, state_of, put_state, open_channel, send_control, promote, next_packet, served,
  transmit, poll_keys, poll_transmit,
}
use synology_filestation.Openvpn.Channel.Handle
use synology_filestation.Openvpn.Channel.Handle.{
  renegotiate, latch, deliver, admit, check_session, check_acks, fresh_only, handle, poll_control,
  control_loop,
}
use synology_filestation.Openvpn.Channel.Keys.{
  IsKeyed, SameKeys, SameKeys-refl, SameKeys-trans, SameKeys-IsKeyed, put_state-SameKeys,
  latch-SameKeys, deliver-SameKeys, renegotiate-IsKeyed,
}
use synology_filestation.Openvpn.Channel.Parts.{
  Served, next_packet-Served, check_session-Ensures, check_acks-Ensures, deliver-Ensures,
}

module _ (hmac : Hmac) where
  transmit-SameKeys :
      (c : ControlChannel) (packet : ControlPacket) (net_time : ℕ)
      → SameKeys c (transmit hmac c packet net_time).0
  unfolding transmit
  transmit-SameKeys c packet net_time = record {
    primary = refl;
    superseded = refl;
    pending = λ p eq. (p, eq, refl);
  }

  served-Served :
      (c : ControlChannel) (r : ControlChannel × Result (Option ControlPacket)) (net_time : ℕ)
      (rest : ControlChannel → ControlChannel × Result (Option (List ℕ)))
      → Served c r
      → ((d : ControlChannel) → Served d (rest d))
      → Served c (served hmac r net_time rest)
  served-Served c (d, ok none) net_time rest (same, fine) h =
      (SameKeys-trans c d (rest d).0 same (h d).0, (h d).1)
  served-Served c (d, ok (some packet)) net_time rest (same, fine) h =
      (SameKeys-trans c d _ same (transmit-SameKeys d packet net_time), returns tt)
  served-Served c (d, err e) net_time rest (same, fine) h = (same, fails)
  served-Served c (d, panic) net_time rest (same, fine) h = elim fine [ ]

  pub poll_keys-Served :
      (ks : List KeyId) (c : ControlChannel) (now net_time : ℕ)
      → Served c (poll_keys hmac ks c now net_time)
  unfolding poll_keys
  poll_keys-Served [] c now net_time = (SameKeys-refl c, returns tt)
  poll_keys-Served (k ∷ ks) c now net_time =
      served-Served c (next_packet c k now) net_time (λ d. poll_keys hmac ks d now net_time)
        (next_packet-Served c k now) (λ d. poll_keys-Served ks d now net_time)

  -- What holds of a step that may begin or end a generation.
  abbrev pub Kept : {A : Type 0} → ControlChannel × Result A → Type 0
  Kept outcome = IsKeyed outcome.0 × Ensures Anything outcome.1

  handle_packet-Kept :
      (c : ControlChannel) (packet : ControlPacket) → IsKeyed c → Kept (admit c packet)
  unfolding admit
  handle_packet-Kept c packet h =
      by_check (check_session c packet >>= λ _. check_acks c packet)
        (Ensures-bind _ (check_session-Ensures c packet) (λ _ _. check_acks-Ensures c packet))
    where
      passed : ControlChannel
      passed = latch (renegotiate c packet) packet.session_id

      by_check :
          (r : Result (Unit {0}))
          → Ensures Anything r
          → Kept (elim r as (λ _. ControlChannel × Result (Unit {0})) [
            | ok _ ↦ deliver passed packet
            | err e ↦ (c, err e)
            | panic ↦ (c, panic)
          ])
      by_check (ok _) fine = (
        SameKeys-IsKeyed (renegotiate c packet) _
            (SameKeys-trans (renegotiate c packet) passed _
              (latch-SameKeys (renegotiate c packet) packet.session_id)
              (deliver-SameKeys passed packet))
            (renegotiate-IsKeyed c packet h),
        deliver-Ensures passed packet,
      )
      by_check (err e) fine = (h, fails)
      by_check panic fine = elim fine [ ]

  fresh_only-Kept :
      (c : ControlChannel) (r : Result (ControlPacket × TlsAuthHeader))
      → IsKeyed c
      → r ≢ panic
      → Kept (fresh_only c r)
  unfolding fresh_only
  fresh_only-Kept c (ok (packet, header)) h fine =
      if_cases (λ (p : ControlChannel × Result (Unit {0})). Kept p) _ _ _ (λ _. (windowed, fails))
        (λ _. handle_packet-Kept _ packet windowed)
    where
      windowed :
          IsKeyed
            (record c { replay = (Replay.accept c.replay header.packet_id header.net_time).0 })
      windowed = record { other = h.other; primary = h.primary; pending = h.pending }
  fresh_only-Kept c (err e) h fine = (h, fails)
  fresh_only-Kept c panic h fine = absurd (fine refl)

  pub handle-Kept :
      (c : ControlChannel) (datagram : List ℕ)
      → IsKeyed c
      → All IsByte datagram
      → Kept (handle hmac c datagram)
  unfolding handle
  handle-Kept c datagram h bytes =
      fresh_only-Kept c (unwrap hmac c.auth datagram) h
        (Ensures-ne-panic (unwrap_safe hmac c.auth datagram bytes))

polled-SameKeys :
    (c d : ControlChannel) (k : KeyId) (later : ControlChannel × Option (KeyId × List ℕ))
    (payload : Option (List ℕ))
    → SameKeys c d
    → SameKeys d later.0
    → SameKeys c
        (elim payload as (λ _. ControlChannel × Option (KeyId × List ℕ)) [
          | none ↦ later
          | some bytes ↦ (d, some (k, bytes))
        ]).0
polled-SameKeys c d k later none first rest = SameKeys-trans c d later.0 first rest
polled-SameKeys c d k later (some bytes) first rest = first

pub poll_keys-SameKeys :
    (ks : List KeyId) (c : ControlChannel) → SameKeys c (Handle.poll_keys ks c).0
unfolding Handle.poll_keys
poll_keys-SameKeys [] c = SameKeys-refl c
poll_keys-SameKeys (k ∷ ks) c = elim (Option-cases (state_of c k)) [
  | inl e ↦ rw (e, Handle.poll_keys) (SameKeys-refl c)
  | inr (s, e) ↦
      let drained = control_loop (suc (length s.recv.messages)) s.recv in
      let d = put_state c k (record s { recv = drained.0 }) in
      rw (e, Handle.poll_keys)
        (polled-SameKeys c d k (Handle.poll_keys ks d) drained.1
          (put_state-SameKeys c k s (record s { recv = drained.0 }) e refl)
          (poll_keys-SameKeys ks d))
]

-- A use of a channel.
pub data ChannelOp : Type 0 where
  opens : ChannelOp
  queues : KeyId → List ℕ → ChannelOp
  hears : List ℕ → ChannelOp
  transmits : ℕ → ℕ → ChannelOp
  reads : ChannelOp
  promotes : ChannelOp

abbrev pub IsHeard : ChannelOp → Type 0
IsHeard (hears datagram) = All IsByte datagram
IsHeard _ = Unit

module _ (hmac : Hmac) where
  -- The channel after a use, or a panic.
  unfoldable pub step : ControlChannel → ChannelOp → ControlChannel × Result (Unit {0})
  step c opens = (open_channel c, ok tt)
  step c (queues key_id payload) = ((send_control c key_id payload).0, ok tt)
  step c (hears datagram) = handle hmac c datagram
  step c (transmits now net_time) =
      let (c', r) = poll_transmit hmac c now net_time in (c', r >>= λ _. ok tt)
  step c reads = ((poll_control c).0, ok tt)
  step c promotes = (promote c, ok tt)

  -- An error leaves the channel in use; a panic does not.
  abbrev pub go_on :
      ControlChannel × Result (Unit {0})
      → (ControlChannel → Result ControlChannel)
      → Result ControlChannel
  go_on (c, ok _) rest = rest c
  go_on (c, err _) rest = rest c
  go_on (c, panic) rest = panic

  unfoldable pub run : ControlChannel → List ChannelOp → Result ControlChannel
  unfolding step
  run c [] = ok c
  run c (op ∷ ops) = go_on (step c op) (λ c'. run c' ops)
