-- ===== src/Openvpn/Session/Tunnel/Run.antt =====
-- Any use of a session.
use synology_filestation.Prelude.{ℕ, refl, Option, some, none, List, [], ◌∷◌, All}
use synology_filestation.Prelude.Bytes.{IsByte}
use synology_filestation.Openvpn.Error.{Result, ok, err, panic, ◌>>=◌}
use synology_filestation.Openvpn.Error.Ensures.{Anything, Ensures, returns, fails}
use synology_filestation.Openvpn.Prf.{KeySource2}
use synology_filestation.Openvpn.Session.{Session, SessionConfig, Suite, Stepped, new}
use synology_filestation.Openvpn.Session.Handle.{handle}
use synology_filestation.Openvpn.Session.Rounds.Feeding.{Stalled}
use synology_filestation.Openvpn.Session.Traffic.{send_payload, receive_payload}
use synology_filestation.Openvpn.Session.Transmit.{poll_transmit}
use synology_filestation.Openvpn.Session.Tunnel.{IsConsistent, Kept}
use synology_filestation.Openvpn.Session.Tunnel.Carried.{send_payload-Kept, receive_payload-Kept}
use synology_filestation.Openvpn.Session.Tunnel.Heard.{handle-Kept}
use synology_filestation.Openvpn.Session.Tunnel.Moved.{KeptIfEnded}
use synology_filestation.Openvpn.Session.Tunnel.Sent.{poll_transmit-Kept}

-- A use of a session: a datagram of the control channel, with the connection and the random draws
-- for a generation that may begin; a poll, with the IV of a keepalive; a payload to send, with its
-- IV; and a datagram of the tunnel.
pub data SessionOp (Conn : Type 0) : Type 0 where
  hears : List ℕ → Result Conn → KeySource2 → SessionOp Conn
  polls : ℕ → ℕ → List ℕ → SessionOp Conn
  sends : ℕ → List ℕ → List ℕ → SessionOp Conn
  receives : List ℕ → SessionOp Conn

-- Datagrams consist of bytes, and a connection is made or refused.
abbrev pub IsHeard : {Conn : Type 0} → SessionOp Conn → Type 0
IsHeard (hears datagram connection source) = All IsByte datagram × Ensures Anything connection
IsHeard (polls now net_time iv) = Unit
IsHeard (sends now payload iv) = Unit
IsHeard (receives datagram) = All IsByte datagram

module _ {Conn : Type 0} (suite : Suite Conn) where
  -- The session after a use, and whether it panicked; `none` where feeding a record to a connection
  -- is still going on after a round for each byte and some more.
  unfoldable pub step : ℕ → Session Conn → SessionOp Conn → Option (Stepped Conn (Unit {0}))
  step more s (hears datagram connection source) = handle suite more s datagram connection source
  step more s (polls now net_time iv) =
      let (s', r) = poll_transmit suite s now net_time iv in some (s', r >>= λ _. ok tt)
  step more s (sends now payload iv) =
      let (s', r) = send_payload suite s now payload iv in some (s', r >>= λ _. ok tt)
  step more s (receives datagram) =
      let (s', r) = receive_payload suite s datagram in some (s', r >>= λ _. ok tt)

  -- An error leaves the session in use; a panic does not.
  abbrev pub go_on :
      Option (Stepped Conn (Unit {0}))
      → (Session Conn → Option (Result (Session Conn)))
      → Option (Result (Session Conn))
  go_on none rest = none
  go_on (some (s, ok _)) rest = rest s
  go_on (some (s, err _)) rest = rest s
  go_on (some (s, panic)) rest = some panic

  unfoldable pub run : ℕ → Session Conn → List (SessionOp Conn) → Option (Result (Session Conn))
  unfolding step
  run more s [] = some (ok s)
  run more s (op ∷ ops) = go_on (step more s op) (λ t. run more t ops)

  -- A new session, and its uses.
  abbrev pub use_new :
      ℕ → Result (Session Conn) → List (SessionOp Conn) → Option (Result (Session Conn))
  use_new more (ok s) ops = run more s ops
  use_new more (err e) ops = some (err e)
  use_new more panic ops = some panic

  discarded : {A : Type 0} (r : Stepped Conn A) → Kept r → Kept (r.0, r.1 >>= λ _. ok (tt {0}))
  discarded (s, ok a) (h, fine) = (h, returns tt)
  discarded (s, err e) (h, fine) = (h, fails)
  discarded (s, panic) (h, fine) = elim fine [ ]

  pub step-Kept :
      (more : ℕ) (s : Session Conn) (op : SessionOp Conn)
      → IsHeard op
      → IsConsistent s
      → KeptIfEnded suite (step more s op)
  unfolding step
  step-Kept more s (hears datagram connection source) (bytes, fine) h =
      handle-Kept suite more s datagram connection source bytes fine h
  step-Kept more s (polls now net_time iv) heard h =
      discarded (poll_transmit suite s now net_time iv)
        (poll_transmit-Kept suite s now net_time iv h)
  step-Kept more s (sends now payload iv) heard h =
      discarded (send_payload suite s now payload iv) (send_payload-Kept suite s now payload iv h)
  step-Kept more s (receives datagram) heard h =
      discarded (receive_payload suite s datagram) (receive_payload-Kept suite s datagram heard h)

  -- A run ended without a panic and left a consistent session, or an error at its start; or it is
  -- still going on, and feeding some bytes to some connection comes to a read that takes nothing of
  -- the bytes that are left.
  pub data EndsWell : Option (Result (Session Conn)) → Type 0 where
    ended : {r : Result (Session Conn)} → Ensures IsConsistent r → EndsWell (some r)
    going_on : Stalled suite → EndsWell none

  go_on-Ensures :
      (r : Option (Stepped Conn (Unit {0}))) (rest : Session Conn → Option (Result (Session Conn)))
      → KeptIfEnded suite r
      → ((s : Session Conn) → IsConsistent s → EndsWell (rest s))
      → EndsWell (go_on r rest)
  go_on-Ensures none rest h k = going_on h
  go_on-Ensures (some (s, ok _)) rest (h, fine) k = k s h
  go_on-Ensures (some (s, err _)) rest (h, fine) k = k s h
  go_on-Ensures (some (s, panic)) rest (h, fine) k = elim fine [ ]

  run-EndsWell :
      (more : ℕ) (ops : List (SessionOp Conn)) (s : Session Conn)
      → IsConsistent s
      → All IsHeard ops
      → EndsWell (run more s ops)
  unfolding run
  run-EndsWell more [] s h heard = ended (returns h)
  run-EndsWell more (op ∷ ops) s h (now, later) =
      go_on-Ensures (step more s op) (λ t. run more t ops) (step-Kept more s op now h)
        (λ t ht. run-EndsWell more ops t ht later)

  -- However a new session is used, whatever the bytes of the datagrams and whatever TLS gives, in
  -- any order, over any key rotations and after any errors, the uses end, unless feeding some bytes
  -- to some connection comes to a read that takes nothing of the bytes that are left. The session
  -- does not panic, and after the uses the tunnel stands exactly in the phase `Ready`, on the
  -- client's half of the keys that the session has, addressed to the peer id of the push reply, and
  -- under the key id of the generation that carries the channel's traffic; and in the phase before
  -- it, the session has keys to open it on.
  pub run-IsConsistent :
      (config : SessionConfig) (connection : Result Conn) (source : KeySource2) (more : ℕ)
      (ops : List (SessionOp Conn))
      → Ensures Anything connection
      → All IsHeard ops
      → EndsWell (use_new more (new config connection source) ops)
  unfolding new
  run-IsConsistent config (ok conn) source more ops fine heard = run-EndsWell more ops _ refl heard
  run-IsConsistent config (err e) source more ops fine heard = ended fails
  run-IsConsistent config panic source more ops fine heard = elim fine [ ]
