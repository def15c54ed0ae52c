-- ===== src/Openvpn/Session/Sample.antt =====
-- A TLS connection that can be evaluated and that keeps the interface, to run the code with: what is
-- written goes out as it is, and what comes in is plaintext.
use synology_filestation.Prelude.{
  ℕ, ◌<◌, ◌≡◌, sym, ap, Bool, true, false, Option, some, List, [], ◌∷◌, ◌++◌, length, arith,
}
use synology_filestation.Openvpn.Crypto.Sample.{sample_hmac, sample_cipher}
use synology_filestation.Openvpn.Prf.Sample.{sample_hashes}
use synology_filestation.Openvpn.Session.{Suite}
use synology_filestation.Openvpn.Session.Tls.{
  Engine, Plaintext, received, would_block, Outcome, done,
}

-- What is to go out, and what came in.
pub record Pipe : Type 0 where
  pub outgoing : List ℕ
  pub incoming : List ℕ

abbrev pub has_some : List ℕ → Bool
has_some [] = false
has_some (b ∷ bytes) = true

abbrev pub read_pipe : Pipe → List ℕ → Pipe × Plaintext
read_pipe pipe [] = (pipe, would_block)
read_pipe pipe (b ∷ bytes) = (record pipe { incoming = [] }, received (b ∷ bytes))

abbrev pub write_pipe : Pipe → Pipe × Option (List ℕ)
write_pipe pipe = (record pipe { outgoing = [] }, some pipe.outgoing)

pub write_shrinks :
    (c c' : Pipe) (b : ℕ) (bytes : List ℕ)
    → write_pipe c ≡ (c', some (b ∷ bytes))
    → length c'.outgoing < length c.outgoing
write_shrinks c c' b bytes e =
    let gone : [] ≡ c'.outgoing = ap (λ (r : Pipe × Option (List ℕ)). r.0.outgoing) e in
    let whole : some c.outgoing ≡ some (b ∷ bytes) = ap (λ (r : Pipe × Option (List ℕ)). r.1) e in
    let bytes_were : c.outgoing ≡ b ∷ bytes = cc in rw (sym gone, bytes_were) (omega arith)

pub read_shrinks :
    (c c' : Pipe) (b : ℕ) (bytes : List ℕ)
    → read_pipe c c.incoming ≡ (c', received (b ∷ bytes))
    → length c'.incoming < length c.incoming
read_shrinks c c' b bytes e = by_bytes c.incoming e
  where
    by_bytes :
        (xs : List ℕ) → read_pipe c xs ≡ (c', received (b ∷ bytes)) → length c'.incoming < length xs
    by_bytes [] e = absurd (
        let other : would_block ≡ received (b ∷ bytes) = ap (λ (r : Pipe × Plaintext). r.1) e in cc)
    by_bytes (x ∷ xs) e =
        let gone : [] ≡ c'.incoming = ap (λ (r : Pipe × Plaintext). r.0.incoming) e in
        rw (sym gone) (omega arith)

abbrev pub feed_pipe : Pipe → List ℕ → Pipe × Outcome ℕ
feed_pipe pipe bytes = (record pipe { incoming = pipe.incoming ++ bytes }, done (length bytes))

abbrev pub pipes : Engine Pipe
pipes = record {
  is_handshaking = λ c. false;
  wants_write = λ c. has_some c.outgoing;
  write_tls = write_pipe;
  read_tls = feed_pipe;
  process_new_packets = λ c. (c, done tt);
  read = λ c. read_pipe c c.incoming;
  write_all = λ c bytes. (record c { outgoing = c.outgoing ++ bytes }, done tt);
  unsent = λ c. length c.outgoing;
  unread = λ c. length c.incoming;
  write_tls_sends = write_shrinks;
  read_takes = read_shrinks;
}

abbrev pub sample_suite : Suite Pipe
sample_suite = record {
  engine = pipes;
  hmac = sample_hmac;
  cipher = sample_cipher;
  hashes = sample_hashes;
  lossy = λ bytes. bytes;
}
