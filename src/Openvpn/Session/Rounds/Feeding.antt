-- ===== src/Openvpn/Session/Rounds/Feeding.antt =====
-- Feeding a record to a TLS connection: when the loop ends, and when it never does.
use synology_filestation.Prelude.{
  ℕ, zero, suc, ◌⊎◌, ◌+◌, ◌≤◌, ◌≡◌, refl, Option, some, none, inl, inr, List, [], ◌∷◌, length,
  length-drop, drop, arith,
}
use synology_filestation.Openvpn.Error.{Error, Result, ok, err}
use synology_filestation.Openvpn.Session.{Suite}
use synology_filestation.Openvpn.Session.Handle.{one_feed, feed_loop, feed}
use synology_filestation.Openvpn.Session.Tls.{Outcome, done, refused}

module _ {Conn : Type 0} (suite : Suite Conn) where
  -- A feed in which, after some rounds, a read takes nothing of the bytes that are left.
  pub data Stalls : Conn → List ℕ → Type 0 where
    now :
        {conn c' : Conn} {b : ℕ} {bytes : List ℕ}
        → suite.engine.read_tls conn (b ∷ bytes) ≡ (c', done 0)
        → Stalls conn (b ∷ bytes)
    later :
        {conn c' c'' : Conn} {b : ℕ} {bytes : List ℕ} {n : ℕ}
        → suite.engine.read_tls conn (b ∷ bytes) ≡ (c', done n)
        → suite.engine.process_new_packets c' ≡ (c'', done tt)
        → Stalls c'' (drop n (b ∷ bytes))
        → Stalls conn (b ∷ bytes)

  -- A feed that ends, and gives the same for any number of further rounds.
  abbrev pub Settles : Conn → List ℕ → Type 0
  Settles conn bytes =
      (r : Conn × Result (Unit {0})) × ((more : ℕ) → feed suite more conn bytes ≡ some r)

  abbrev EndsWithin : ℕ → Conn → List ℕ → Type 0
  EndsWithin n conn bytes =
      (r : Conn × Result (Unit {0})) × ((m : ℕ) → n ≤ m → feed_loop suite m conn bytes ≡ some r)

  feed_loop_ends :
      (n : ℕ) (conn : Conn) (bytes : List ℕ)
      → length bytes ≤ n
      → EndsWithin n conn bytes ⊎ Stalls conn bytes
  unfolding feed_loop
  feed_loop_ends zero conn [] few = inl ((conn, ok tt), λ m _. at_end m)
    where
      at_end : (m : ℕ) → feed_loop suite m conn [] ≡ some (conn, ok tt)
      at_end zero = refl
      at_end (suc m) = refl
  feed_loop_ends (suc n) conn [] few = inl ((conn, ok tt), λ m _. at_end m)
    where
      at_end : (m : ℕ) → feed_loop suite m conn [] ≡ some (conn, ok tt)
      at_end zero = refl
      at_end (suc m) = refl
  feed_loop_ends zero conn (b ∷ bytes) few = absurd (omega arith)
  feed_loop_ends (suc n) conn (b ∷ bytes) few =
      elim (by_taken (suite.engine.read_tls conn (b ∷ bytes)) refl
        (λ c rest h. feed_loop_ends n c rest h)) [
          | inr stalled ↦ inr stalled
          | inl (r, same) ↦ inl (r, λ m h. from_round r same m h)
        ]
    where
      Round : Conn × Outcome ℕ → ℕ → Option (Conn × Result (Unit {0}))
      Round taken m = one_feed suite taken (b ∷ bytes) (λ c rest. feed_loop suite m c rest)

      Ends : Conn × Outcome ℕ → Type 0
      Ends taken =
          ((r : Conn × Result (Unit {0})) × ((m : ℕ) → n ≤ m → Round taken m ≡ some r))
          ⊎ Stalls conn (b ∷ bytes)

      from_round :
          (r : Conn × Result (Unit {0}))
          → ((m : ℕ) → n ≤ m → Round (suite.engine.read_tls conn (b ∷ bytes)) m ≡ some r)
          → (m : ℕ) → suc n ≤ m
          → feed_loop suite m conn (b ∷ bytes) ≡ some r
      from_round r same zero h = absurd (omega arith)
      from_round r same (suc m) h = same m (omega arith)

      by_rest :
          (c' c'' : Conn) (k : ℕ)
          → suite.engine.read_tls conn (b ∷ bytes) ≡ (c', done k)
          → suite.engine.process_new_packets c' ≡ (c'', done tt)
          → EndsWithin n c'' (drop k (b ∷ bytes)) ⊎ Stalls c'' (drop k (b ∷ bytes))
          → Ends (c', done k)
      by_rest c' c'' k e p (inl (r, same)) = inl (r, λ m h. rw p (same m h))
      by_rest c' c'' k e p (inr stalled) = inr (later e p stalled)

      by_processed :
          (c' : Conn) (k : ℕ) (r : Conn × Outcome (Unit {0}))
          → suite.engine.process_new_packets c' ≡ r
          → suite.engine.read_tls conn (b ∷ bytes) ≡ (c', done (suc k))
          → ((c : Conn) (rest : List ℕ) → length rest ≤ n → EndsWithin n c rest ⊎ Stalls c rest)
          → Ends (c', done (suc k))
      by_processed c' k (c'', refused text) p e go_on =
          inl ((c'', err (Error.tls text)), λ m h. rw p refl)
      by_processed c' k (c'', done u) p e go_on =
          by_rest c' c'' (suc k) e p (go_on c'' (drop k bytes) (omega (arith, length-drop k bytes)))

      by_taken :
          (taken : Conn × Outcome ℕ)
          → suite.engine.read_tls conn (b ∷ bytes) ≡ taken
          → ((c : Conn) (rest : List ℕ) → length rest ≤ n → EndsWithin n c rest ⊎ Stalls c rest)
          → Ends taken
      by_taken (c', refused text) e go_on = inl ((c', err (Error.tls text)), λ m h. refl)
      by_taken (c', done zero) e go_on = inr (now e)
      by_taken (c', done (suc k)) e go_on =
          by_processed c' k (suite.engine.process_new_packets c') refl e go_on

  pub feed_ends : (conn : Conn) (bytes : List ℕ) → Settles conn bytes ⊎ Stalls conn bytes
  unfolding feed
  feed_ends conn bytes = elim (feed_loop_ends (length bytes) conn bytes (omega arith)) [
    | inl (r, same) ↦ inl (r, λ more. same (more + length bytes) (omega arith))
    | inr stalled ↦ inr stalled
  ]

  -- Some feed stalls.
  abbrev pub Stalled : Type 0
  Stalled = (conn : Conn) × (bytes : List ℕ) × Stalls conn bytes

  -- A feed that is still going on after its rounds stalls.
  pub feed-Stalled :
      (more : ℕ) (conn : Conn) (bytes : List ℕ) → feed suite more conn bytes ≡ none → Stalled
  feed-Stalled more conn bytes e = elim (feed_ends conn bytes) [
    | inr stalled ↦ (conn, bytes, stalled)
    | inl (r, ends) ↦ absurd (going_on (feed suite more conn bytes) r e (ends more))
  ]
    where
      going_on :
          (o : Option (Conn × Result (Unit {0}))) (r : Conn × Result (Unit {0}))
          → o ≡ none
          → o ≡ some r
          → ⊥
      going_on o r e f = cc

  -- Feeding bytes to a connection that takes nothing of them, and that neither the read nor the
  -- processing changes, is never over.
  pub feed-stuck :
      (conn : Conn) (b : ℕ) (bytes : List ℕ)
      → suite.engine.read_tls conn (b ∷ bytes) ≡ (conn, done 0)
      → suite.engine.process_new_packets conn ≡ (conn, done tt)
      → (more : ℕ) → feed suite more conn (b ∷ bytes) ≡ none
  unfolding feed
  feed-stuck conn b bytes e p more = after (more + length (b ∷ bytes))
    where
      after : (rounds : ℕ) → feed_loop suite rounds conn (b ∷ bytes) ≡ none
      after zero = unfold feed_loop in refl
      after (suc rounds) = unfold feed_loop in rw (e, p, feed_loop) (after rounds)
