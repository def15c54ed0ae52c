-- ===== src/Lib.antt =====
-- A model of synology-filestation, a client and a file system for a Synology NAS written in Rust,
-- with the theorems that hold of it. The program reaches the NAS over HTTP
-- (rust/synology-filestation-core), over SMB (rust/synology-filestation-smb) and, where the
-- network does not let it through, over an OpenVPN tunnel that it terminates itself
-- (rust/synology-filestation-openvpn); rust/synology-filestation-fuse mounts what it finds. This
-- development models the layers of the tunnel that turn hostile datagrams into a trusted stream of
-- bytes, the agreement on keys, the session that joins them, and three parts of the SMB client:
-- how a logical path becomes a share and a path, the cache of open handles, and the framing of
-- messages; and the numbers by which the mounted file system knows its files, and its cache of
-- file blocks.
--
-- How the layers work together: a datagram of the control channel is authenticated by the tls-auth
-- envelope, decoded to a control packet, and handed to the receive window, which puts the messages
-- in order and owes acknowledgements; the send window repeats what was not acknowledged. Packets
-- of the tunnel are sealed and opened by the data channel, with keys that the control channel
-- agreed on, and a replay window refuses what was seen before.
--
-- - Prelude and its children: tests, lists, bits and bytes over native numbers, sorted association
--   lists in the place of BTreeMap (Prelude.Tree), and association lists over strings in the place
--   of HashMap (Prelude.Keyed).
-- - Openvpn.Opcode, Openvpn.KeyId, Openvpn.Packet:
--   rust/synology-filestation-openvpn/src/packet.rs. `Opcode`, `KeyId`, `Acks` and `ControlPacket`
--   have the names of the source; `encode_prefix`, `encode_tail` and `decode` are its methods, and
--   `Cursor::take`, `u8`, `u32`, `session_id` and `rest` are take_bytes, read_u8, read_u32,
--   read_session_id and rest.
-- - Openvpn.Error: the errors of rust/synology-filestation-openvpn/src/lib.rs with `is_fatal`, and
--   results with an outcome `panic` for an `expect` that fails or an index out of range.
-- - Openvpn.Replay: rust/synology-filestation-openvpn/src/replay.rs, `ReplayWindow::accept`.
--   Openvpn.Replay.History states what the window promises, over the list of all packets accepted.
-- - Openvpn.Reliable.Send and Openvpn.Reliable.Recv: `SendWindow` and `RecvWindow` of
--   rust/synology-filestation-openvpn/src/reliable.rs, with a step for each of their operations.
-- - Openvpn.StaticKey: rust/synology-filestation-openvpn/src/static_key.rs. Openvpn.TlsAuth:
--   rust/synology-filestation-openvpn/src/tls_auth.rs, `wrap` and `unwrap`.
-- - Openvpn.Data: `DataKeys`, `PeerId` and `DataChannel` of
--   rust/synology-filestation-openvpn/src/data.rs, `encrypt_with_iv` and `decrypt`. A method that
--   changes its object returns the new object beside its result.
-- - Openvpn.Ports: `PortCursor` and `claim_port` of rust/synology-filestation-openvpn/src/mux.rs,
--   with the table of routes as an association list.
-- - Openvpn.Demux: `destination_port` and the loop `demux` of the same file, over the packets that
--   arrive.
-- - Openvpn.Channel: `KeyState` and `ControlChannel` of
--   rust/synology-filestation-openvpn/src/channel.rs; Openvpn.Channel.Handle has `handle` and
--   `poll_control`. Openvpn.Channel.Run has a step for each operation, and runs of them.
-- - Openvpn.KeyMethod: rust/synology-filestation-openvpn/src/key_method.rs;
--   `String::from_utf8_lossy` is a parameter. Openvpn.Prf:
--   rust/synology-filestation-openvpn/src/prf.rs, over two keyed hashes with outputs of 16 and 20
--   bytes.
-- - Openvpn.Push: `PushReply` of rust/synology-filestation-openvpn/src/push.rs, with `str` as its
--   UTF-8 bytes and the functions of the standard library on it in Prelude.Text. Openvpn.Ip:
--   rust/synology-filestation-openvpn/src/ip.rs.
-- - Openvpn.Session: `Session`, `Renegotiation` and `Outbox` of
--   rust/synology-filestation-openvpn/src/session.rs, over a TLS connection of any type.
--   Session.Tls has the operations that the source calls of rustls, and what it relies on;
--   Session.Outgoing has the outbox, Session.Traffic the payloads and keepalives, Session.Push the
--   request for the configuration and the opening of the tunnel, Session.Keys the exchange of key
--   material, Session.Renegotiate the next generation, Session.Handle and Session.Transmit the
--   methods `handle`, `poll_transmit` and `next_wakeup`. A method takes as arguments what it would
--   draw at random: the connection and the key source of a generation that may begin, and the IV
--   of a keepalive. Session.Tunnel.Run has a step for each use, and runs of them.
-- - Openvpn.Crypto: HMAC-SHA-512 and AES-256-CBC, which the source takes from the hmac and aes
--   crates, as records of operations and of what the source relies on. Openvpn.Crypto.Sample fills
--   them with functions that can be evaluated.
-- - Smb.Path: rust/synology-filestation-smb/src/path.rs, `SmbPath::from_logical`, with strings as
--   lists of bytes. Smb.Handles: rust/synology-filestation-smb/src/handles.rs, `HandleCache`;
--   Smb.Handles.Spec states the cache as a list of entries in the order of their use. An `Arc` is
--   a number, and the order of a HashMap is that of a list, which nothing is said about.
-- - Smb.Framing: `send` and `receive` of rust/synology-filestation-smb/src/framing.rs, over the
--   bytes that a stream still has and the way it ends.
-- - Fuse.Inodes: `InodeCache` of rust/synology-filestation-fuse/src/cache.rs, over a function for
--   `to_lowercase`. Fuse.Inodes.Steps has the reachable caches as a relation, with the list of the
--   numbers given out. Fuse.Blocks: `ReadCache` of the same file, its block slots as numbers.
--
-- Numbers are natural numbers, and the arithmetic of u8, u32 and u64 is written out: an addition
-- that wraps is taken modulo 2 ^ 32, a shift is cut to the width, and `checked_add` is a test.
-- Instants and durations are natural numbers without a bound, so that the overflow panics of
-- `Instant` and `Duration` do not show. Some loops are given fuel: that of `claim_port`, as many
-- rounds as there are ports, which are enough while a port is free; the inner loop of
-- `poll_control`, one round more than there are messages in the window; that of `p_hash`, a round
-- for each byte of the output; and those of the session: a round for each byte in the outbox, and
-- one more than TLS has bytes to send or to be read, or than the windows hold messages. The loop
-- that feeds a record to TLS has a round for each byte and any number more, and its result, that
-- of `handle` and that of a run are `none` where it is still going on after them: a read may take
-- nothing of the bytes that are left. Each other loop runs over a list or a number that gets
-- smaller. Theorems about any use of a window count its steps where ids would wrap after 2 ^ 32 of
-- them.
--
-- Not modelled: random numbers (session ids, initialisation vectors), which are arguments where
-- the code draws them; the zeroing of keys in memory; the texts of error messages; sockets, timers
-- and tasks; the inside of the TLS engine; and the other parts of the repository.
pub mod Prelude
pub mod Openvpn
pub mod Smb
pub mod Fuse
