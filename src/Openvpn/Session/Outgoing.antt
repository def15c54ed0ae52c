-- ===== src/Openvpn/Session/Outgoing.antt =====
-- rust/synology-filestation-openvpn/src/session.rs: `Outbox`, the TLS bytes that wait for room on
-- the control channel.
pub mod Conserved
use synology_filestation.Prelude.{
  ℕ, zero, suc, ◌+◌, ◌-◌, Bool, true, false, List, [], ◌∷◌, ◌++◌, length, take, drop, min,
  if◌then◌else◌,
}
use synology_filestation.Openvpn.KeyId.{KeyId}
use synology_filestation.Openvpn.Channel.{ControlChannel, send_control}

abbrev pub control_mtu : ℕ
control_mtu = 1250

abbrev pub control_overhead : ℕ
control_overhead = 9 + 64 + 8 + 41 + 4

-- The most TLS that fits one control message.
abbrev pub max_tls_fragment : ℕ
max_tls_fragment = control_mtu - control_overhead

pub record Outbox : Type 0 where
  pub pending : List ℕ

abbrev pub empty : Outbox
empty = record { pending = [] }

unfoldable pub push : Outbox → List ℕ → Outbox
push outbox bytes = record { pending = outbox.pending ++ bytes }

unfoldable pub is_empty : Outbox → Bool
is_empty outbox = elim outbox.pending [ [] ↦ true | _ ∷ _ ↦ false ]

-- The loop, for a number of rounds. Each takes at least a byte, so there are no more of them than
-- bytes.
unfoldable pub drain_loop : ℕ → Outbox → ControlChannel → KeyId → Outbox × ControlChannel
unfolding is_empty
drain_loop zero outbox channel key_id = (outbox, channel)
drain_loop (suc rounds) outbox channel key_id = elim (is_empty outbox) [
  | true ↦ (outbox, channel)
  | false ↦
      (let fragment = min (length outbox.pending) max_tls_fragment in
        let (channel', sent) = send_control channel key_id (take fragment outbox.pending) in
        elim sent [
          | true ↦
              drain_loop rounds (record { pending = drop fragment outbox.pending }) channel' key_id
          | false ↦ (outbox, channel')
        ])
]

unfoldable pub drain_into : Outbox → ControlChannel → KeyId → Outbox × ControlChannel
unfolding drain_loop
drain_into outbox channel key_id = drain_loop (length outbox.pending) outbox channel key_id
