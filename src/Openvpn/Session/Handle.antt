-- ===== src/Openvpn/Session/Handle.antt =====
-- rust/synology-filestation-openvpn/src/session.rs: `handle`, which takes a datagram.
use mathlib.Core.Option
use synology_filestation.Prelude.{
  ℕ, zero, suc, ◌+◌, true, false, Option, some, none, List, [], ◌∷◌, length, drop,
}
use synology_filestation.Openvpn.Channel.{ControlChannel}
use synology_filestation.Openvpn.Channel.Fewer.{held}
use synology_filestation.Openvpn.Channel.Handle
use synology_filestation.Openvpn.Channel.Handle.{poll_control}
use synology_filestation.Openvpn.Error.{Error, Result, ok, err, panic}
use synology_filestation.Openvpn.KeyId.{KeyId}
use synology_filestation.Openvpn.Prf.{KeySource2}
use synology_filestation.Openvpn.Session.{Session, Suite, Stepped, Renegotiation, and_then}
use synology_filestation.Openvpn.Session.Tls.{Outcome, done, refused}
use synology_filestation.Openvpn.Session.Keys.{
  drain_plaintext, send_our_key_material, receive_their_key_material,
}
use synology_filestation.Openvpn.Session.Push.{receive_push_reply}
use synology_filestation.Openvpn.Session.Renegotiate.{
  is_negotiated, begin_renegotiation, advance_renegotiation,
}

module _ {Conn : Type 0} (suite : Suite Conn) where
  -- What a round's reading and its processing gave, and the loop after them.
  abbrev pub one_process :
      Conn × Outcome (Unit {0})
      → List ℕ
      → (Conn → List ℕ → Option (Conn × Result (Unit {0})))
      → Option (Conn × Result (Unit {0}))
  one_process (conn, refused text) remaining rest = some (conn, err (Error.tls text))
  one_process (conn, done _) remaining rest = rest conn remaining

  abbrev pub one_feed :
      Conn × Outcome ℕ
      → List ℕ
      → (Conn → List ℕ → Option (Conn × Result (Unit {0})))
      → Option (Conn × Result (Unit {0}))
  one_feed (conn, refused text) bytes rest = some (conn, err (Error.tls text))
  one_feed (conn, done n) bytes rest =
      one_process (suite.engine.process_new_packets conn) (drop n bytes) rest

  -- The loop that feeds a record to a connection, for a number of rounds; `none` is a loop that is
  -- still going on after them. A read may take nothing, so no number is enough for every connection.
  unfoldable pub feed_loop : ℕ → Conn → List ℕ → Option (Conn × Result (Unit {0}))
  feed_loop zero conn [] = some (conn, ok tt)
  feed_loop zero conn (b ∷ bytes) = none
  feed_loop (suc rounds) conn [] = some (conn, ok tt)
  feed_loop (suc rounds) conn (b ∷ bytes) =
      one_feed (suite.engine.read_tls conn (b ∷ bytes)) (b ∷ bytes)
        (λ conn' remaining. feed_loop rounds conn' remaining)

  -- A round for each byte, and some more.
  unfoldable pub feed : ℕ → Conn → List ℕ → Option (Conn × Result (Unit {0}))
  unfolding feed_loop
  feed more conn bytes = feed_loop (more + length bytes) conn bytes

  -- The connection that a record under a key id is for, and the session with it fed.
  abbrev pub pick : Option (Renegotiation Conn) → KeyId → Option (Renegotiation Conn)
  pick none key_id = none
  pick (some pending) key_id = elim (is_negotiated (some pending) key_id) [
    | true ↦ some pending
    | false ↦ none
  ]

  abbrev pub connection_of : Session Conn → Option (Renegotiation Conn) → Conn
  connection_of s none = s.tls
  connection_of s (some pending) = pending.tls

  abbrev pub put_fed :
      Session Conn
      → Option (Renegotiation Conn)
      → Conn × Result (Unit {0})
      → Stepped Conn (Unit {0})
  put_fed s none (conn, r) = (record s { tls = conn }, r)
  put_fed s (some pending) (conn, r) =
      (record s { renegotiation = some (record pending { tls = conn }) }, r)

  unfoldable pub feed_session : ℕ → Session Conn → KeyId → List ℕ → Option (Stepped Conn (Unit {0}))
  unfolding feed
  feed_session more s key_id bytes =
      Option.map (put_fed s (pick s.renegotiation key_id))
        (feed more (connection_of s (pick s.renegotiation key_id)) bytes)

  -- `?`, after a step that may be still going on.
  abbrev pub and_then_ended :
      Option (Stepped Conn (Unit {0}))
      → (Session Conn → Option (Stepped Conn (Unit {0})))
      → Option (Stepped Conn (Unit {0}))
  and_then_ended none rest = none
  and_then_ended (some (s, ok _)) rest = rest s
  and_then_ended (some (s, err e)) rest = some (s, err e)
  and_then_ended (some (s, panic)) rest = some (s, panic)

  -- What `poll_control` gave, and the loop after it.
  abbrev pub one_record :
      ℕ
      → Session Conn
      → ControlChannel × Option (KeyId × List ℕ)
      → (Session Conn → Option (Stepped Conn (Unit {0})))
      → Option (Stepped Conn (Unit {0}))
  one_record more s (channel, none) rest = some (record s { channel = channel }, ok tt)
  one_record more s (channel, some (key_id, bytes)) rest =
      and_then_ended (feed_session more (record s { channel = channel }) key_id bytes) rest

  -- The loop over the records, for a number of rounds of its own.
  unfoldable pub record_loop : ℕ → ℕ → Session Conn → Option (Stepped Conn (Unit {0}))
  unfolding feed_session
  record_loop more zero s = some (s, ok tt)
  record_loop more (suc rounds) s =
      one_record more s (poll_control s.channel) (λ s'. record_loop more rounds s')

  -- A round takes at least a message out of a window.
  unfoldable pub read_records : ℕ → Session Conn → Option (Stepped Conn (Unit {0}))
  unfolding record_loop
  read_records more s = record_loop more (suc (held s.channel)) s

  unfoldable pub hear : Session Conn → List ℕ → Stepped Conn (Unit {0})
  unfolding Handle.handle
  hear s datagram =
      let (channel, r) = Handle.handle suite.hmac s.channel datagram in
      (record s { channel = channel }, r)

  -- The steps of `handle` from the last to the first, given the connection and the random draws for
  -- a generation that may begin.
  unfoldable pub then_renegotiate :
      Result Conn → KeySource2 → Session Conn → Stepped Conn (Unit {0})
  unfolding begin_renegotiation advance_renegotiation
  then_renegotiate connection source s =
      and_then (begin_renegotiation s connection source) (λ s' _. advance_renegotiation suite s')

  unfoldable pub then_push : Result Conn → KeySource2 → Session Conn → Stepped Conn (Unit {0})
  unfolding receive_push_reply then_renegotiate
  then_push connection source s =
      and_then (receive_push_reply suite s) (λ s' _. then_renegotiate connection source s')

  unfoldable pub then_keys : Result Conn → KeySource2 → Session Conn → Stepped Conn (Unit {0})
  unfolding receive_their_key_material then_push
  then_keys connection source s =
      and_then (receive_their_key_material suite s) (λ s' _. then_push connection source s')

  unfoldable pub then_drain : Result Conn → KeySource2 → Session Conn → Stepped Conn (Unit {0})
  unfolding drain_plaintext then_keys
  then_drain connection source s =
      and_then (drain_plaintext suite s) (λ s' _. then_keys connection source s')

  unfoldable pub then_offer : Result Conn → KeySource2 → Session Conn → Stepped Conn (Unit {0})
  unfolding send_our_key_material then_drain
  then_offer connection source s =
      and_then (send_our_key_material suite s) (λ s' _. then_drain connection source s')

  unfoldable pub then_read :
      ℕ → Result Conn → KeySource2 → Session Conn → Option (Stepped Conn (Unit {0}))
  unfolding read_records then_offer
  then_read more connection source s =
      and_then_ended (read_records more s) (λ s'. some (then_offer connection source s'))

  -- `none` where a record is still being fed to a connection, after the rounds given.
  unfoldable pub handle :
      ℕ → Session Conn → List ℕ → Result Conn → KeySource2 → Option (Stepped Conn (Unit {0}))
  unfolding hear then_read
  handle more s datagram connection source = elim s.failure [
    | some error ↦ some (record s { failure = none }, err error)
    | none ↦ and_then_ended (some (hear s datagram)) (λ s'. then_read more connection source s')
  ]
