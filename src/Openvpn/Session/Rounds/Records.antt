-- ===== src/Openvpn/Session/Rounds/Records.antt =====
-- The rounds of the loop over the records that the channel gives.
use mathlib.Core.Option
use synology_filestation.Prelude.{
  ℕ, zero, suc, ◌+◌, ◌≤◌, ◌<◌, ◌≡◌, refl, ap, Option, some, none, List, arith,
}
use synology_filestation.Openvpn.Channel.{ControlChannel}
use synology_filestation.Openvpn.Channel.Fewer.{held, count, poll_control_fewer}
use synology_filestation.Openvpn.Channel.Handle.{poll_control}
use synology_filestation.Openvpn.Error.{Result, ok, err, panic}
use synology_filestation.Openvpn.KeyId.{KeyId}
use synology_filestation.Openvpn.Session.{Session, Suite, Stepped, Renegotiation}
use synology_filestation.Openvpn.Session.Handle.{
  feed, pick, connection_of, put_fed, feed_session, and_then_ended, one_record, record_loop,
}

module _ {Conn : Type 0} (suite : Suite Conn) where
  -- A record that has been fed left the channel as it was.
  FedIn : ControlChannel → Option (Stepped Conn (Unit {0})) → Type 0
  FedIn c none = Unit
  FedIn c (some r) = r.0.channel ≡ c

  put_fed-channel :
      (s : Session Conn) (p : Option (Renegotiation Conn)) (o : Option (Conn × Result (Unit {0})))
      → FedIn s.channel (Option.map (put_fed suite s p) o)
  unfolding FedIn
  put_fed-channel s p none = tt
  put_fed-channel s none (some (conn, r)) = refl
  put_fed-channel s (some pending) (some (conn, r)) = refl

  feed_session-channel :
      (more : ℕ) (s : Session Conn) (k : KeyId) (bytes : List ℕ)
      → FedIn s.channel (feed_session suite more s k bytes)
  unfolding feed_session
  feed_session-channel more s k bytes =
      put_fed-channel s (pick suite s.renegotiation k)
        (feed suite more (connection_of suite s (pick suite s.renegotiation k)) bytes)

  -- Two numbers of rounds that are both enough give the same.
  pub record_loop_rounds :
      (more n m : ℕ) (s : Session Conn)
      → held s.channel < n
      → held s.channel < m
      → record_loop suite more n s ≡ record_loop suite more m s
  unfolding record_loop FedIn
  record_loop_rounds more zero m s few few' = absurd (omega arith)
  record_loop_rounds more (suc n) zero s few few' = absurd (omega arith)
  record_loop_rounds more (suc n) (suc m) s few few' =
      by_record (poll_control s.channel) (poll_control_fewer s.channel)
        (λ t h h'. record_loop_rounds more n m t h h')
    where
      Later : Type 0
      Later =
          (t : Session Conn)
          → held t.channel < n
          → held t.channel < m
          → record_loop suite more n t ≡ record_loop suite more m t

      by_fed :
          (c : ControlChannel) (r : Option (Stepped Conn (Unit {0})))
          → FedIn c r
          → held c < n
          → held c < m
          → Later
          → and_then_ended suite r (λ t. record_loop suite more n t)
            ≡ and_then_ended suite r (λ t. record_loop suite more m t)
      by_fed c none same h h' later = refl
      by_fed c (some (t, ok _)) same h h' later =
          let left : held t.channel ≡ held c = ap held same in later t (omega arith) (omega arith)
      by_fed c (some (t, err _)) same h h' later = refl
      by_fed c (some (t, panic)) same h h' later = refl

      by_record :
          (r : ControlChannel × Option (KeyId × List ℕ))
          → held r.0 + count r.1 ≤ held s.channel
          → Later
          → one_record suite more s r (λ t. record_loop suite more n t)
            ≡ one_record suite more s r (λ t. record_loop suite more m t)
      by_record (c, none) fewer later = refl
      by_record (c, some (k, bytes)) fewer later =
          by_fed c (feed_session suite more (record s { channel = c }) k bytes)
            (feed_session-channel more (record s { channel = c }) k bytes) (omega arith)
            (omega arith) later
