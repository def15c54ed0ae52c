-- ===== src/Openvpn/Session/Rounds.antt =====
-- The rounds that the loops of a session are given.
pub mod Feeding
pub mod Records
use synology_filestation.Prelude.{
  ℕ, zero, suc, ◌⊎◌, ◌+◌, ◌-◌, ◌≤◌, ◌<◌, ◌≡◌, refl, sym, ap, ◌∙◌, Bool, true, false, Bool-cases,
  Option, some, none, inl, inr, List, [], ◌∷◌, ◌++◌, length, length-drop, drop, arith,
}
use synology_filestation.Openvpn.Channel.Fewer.{held}
use synology_filestation.Openvpn.Error
use synology_filestation.Openvpn.Error.{Error, Result, ok, err}
use synology_filestation.Openvpn.Session.{Session, Suite, Stepped}
use synology_filestation.Openvpn.Session.Keys.{one_read, read_loop, read_all}
use synology_filestation.Openvpn.Session.Outgoing
use synology_filestation.Openvpn.Session.Outgoing.{Outbox}
use synology_filestation.Openvpn.Session.Handle.{
  one_feed, feed_loop, feed, record_loop, read_records,
}
use synology_filestation.Openvpn.Session.Rounds.Feeding.{Settles, Stalls, feed_ends}
use synology_filestation.Openvpn.Session.Rounds.Records.{record_loop_rounds}
use synology_filestation.Openvpn.Session.Tls.{
  Plaintext, received, would_block, failed, Outcome, done, refused,
}
use synology_filestation.Openvpn.Session.Transmit.{one_write, write_loop, collect}

module _ {Conn : Type 0} (suite : Suite Conn) where
  -- Two numbers of rounds that are both enough give the same.
  write_loop_rounds :
      (n m : ℕ) (conn : Conn) (o : Outbox)
      → suite.engine.unsent conn < n
      → suite.engine.unsent conn < m
      → write_loop suite n conn o ≡ write_loop suite m conn o
  unfolding write_loop
  write_loop_rounds zero m conn o few few' = absurd (omega arith)
  write_loop_rounds (suc n) zero conn o few few' = absurd (omega arith)
  write_loop_rounds (suc n) (suc m) conn o few few' =
      elim (Bool-cases (suite.engine.wants_write conn)) [
        | inr e ↦ rw (e, write_loop) refl
        | inl e ↦
            rw (e, write_loop)
              (by_write (suite.engine.write_tls conn) refl
                (λ c' o' h h'. write_loop_rounds n m c' o' h h'))
      ]
    where
      by_write :
          (r : Conn × Option (List ℕ))
          → suite.engine.write_tls conn ≡ r
          → ((c' : Conn) (o' : Outbox)
              → suite.engine.unsent c' < n
              → suite.engine.unsent c' < m
              → write_loop suite n c' o' ≡ write_loop suite m c' o')
          → one_write suite r o (λ c' o'. write_loop suite n c' o')
            ≡ one_write suite r o (λ c' o'. write_loop suite m c' o')
      by_write (c', none) e later = refl
      by_write (c', some []) e later = refl
      by_write (c', some (b ∷ bytes)) e later =
          let less = suite.engine.write_tls_sends conn c' b bytes e in
          later c' (Outgoing.push o (b ∷ bytes)) (omega arith) (omega arith)

  read_loop_rounds :
      (n m : ℕ) (conn : Conn) (inbound : List ℕ)
      → suite.engine.unread conn < n
      → suite.engine.unread conn < m
      → read_loop suite n conn inbound ≡ read_loop suite m conn inbound
  unfolding read_loop
  read_loop_rounds zero m conn inbound few few' = absurd (omega arith)
  read_loop_rounds (suc n) zero conn inbound few few' = absurd (omega arith)
  read_loop_rounds (suc n) (suc m) conn inbound few few' =
      by_read (suite.engine.read conn) refl (λ c' i' h h'. read_loop_rounds n m c' i' h h')
    where
      by_read :
          (r : Conn × Plaintext)
          → suite.engine.read conn ≡ r
          → ((c' : Conn) (i' : List ℕ)
              → suite.engine.unread c' < n
              → suite.engine.unread c' < m
              → read_loop suite n c' i' ≡ read_loop suite m c' i')
          → one_read suite r inbound (λ c' i'. read_loop suite n c' i')
            ≡ one_read suite r inbound (λ c' i'. read_loop suite m c' i')
      by_read (c', received []) e later = refl
      by_read (c', received (b ∷ bytes)) e later =
          let less = suite.engine.read_takes conn c' b bytes e in
          later c' (inbound ++ (b ∷ bytes)) (omega arith) (omega arith)
      by_read (c', would_block) e later = refl
      by_read (c', failed text) e later = refl

  -- The loops over the TLS bytes to be sent, over the plaintext to be read and over the records of
  -- the channel end within the rounds that they are given: any more rounds give the same. Feeding a
  -- record to a connection ends within a round for each byte, and any more rounds give the same,
  -- unless a read takes nothing of the bytes that are left.
  pub enough_rounds :
      (s : Session Conn) (conn : Conn) (o : Outbox) (inbound bytes : List ℕ) (fed more : ℕ)
      → (write_loop suite (more + suc (suite.engine.unsent conn)) conn o ≡ collect suite conn o)
        × (read_loop suite (more + suc (suite.engine.unread conn)) conn inbound
            ≡ read_all suite conn inbound)
        × (Settles suite conn bytes ⊎ Stalls suite conn bytes)
        × (record_loop suite fed (more + suc (held s.channel)) s ≡ read_records suite fed s)
  unfolding collect read_all read_records
  enough_rounds s conn o inbound bytes fed more = (
    write_loop_rounds (more + suc (suite.engine.unsent conn)) (suc (suite.engine.unsent conn)) conn
        o (omega arith) (omega arith),
    read_loop_rounds (more + suc (suite.engine.unread conn)) (suc (suite.engine.unread conn)) conn
        inbound (omega arith) (omega arith),
    feed_ends suite conn bytes,
    record_loop_rounds suite fed (more + suc (held s.channel)) (suc (held s.channel)) s
        (omega arith) (omega arith),
  )
