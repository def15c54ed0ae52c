-- ===== src/Openvpn/Prf.antt =====
-- rust/synology-filestation-openvpn/src/prf.rs: the random material both ends contribute, and the
-- key material they derive from it. HMAC-MD5 and HMAC-SHA-1 are the `hmac`, `md-5` and `sha1`
-- crates', taken as functions of a key and a message.
pub mod Blocks
pub mod Derived
pub mod Sample
mod Runs
use Prim.Native.Nat.{bit_xor}
use synology_filestation.Prelude.{
  ℕ, zero, suc, ◌+◌, ◌-◌, ◌/◌, ◌≡◌, List, [], ◌∷◌, ◌++◌, length, take, drop, replicate, min, ltb,
  if◌then◌else◌,
}
use synology_filestation.Openvpn.Packet.{SessionId}

pub record KeySource2 : Type 0 where
  pub pre_master : List ℕ
  pub client_random1 : List ℕ
  pub client_random2 : List ℕ
  pub server_random1 : List ℕ
  pub server_random2 : List ℕ

-- A source with arrays of the declared lengths.
pub record IsKeySource (s : KeySource2) : Type 0 where
  pub pre_master : length s.pre_master ≡ 48
  pub client_random1 : length s.client_random1 ≡ 32
  pub client_random2 : length s.client_random2 ≡ 32
  pub server_random1 : length s.server_random1 ≡ 32
  pub server_random2 : length s.server_random2 ≡ 32

-- `KeySource2::new_client`, the three random draws given.
unfoldable pub new_client : List ℕ → List ℕ → List ℕ → KeySource2
new_client pre_master random1 random2 = record {
  pre_master = pre_master;
  client_random1 = random1;
  client_random2 = random2;
  server_random1 = replicate 32 0;
  server_random2 = replicate 32 0;
}

-- The bytes of `OpenVPN `, of `master secret` and of `key expansion`.
abbrev label_prefix : List ℕ
label_prefix = 79 ∷ 112 ∷ 101 ∷ 110 ∷ 86 ∷ 80 ∷ 78 ∷ 32 ∷ []

abbrev master_label : List ℕ
master_label = 109 ∷ 97 ∷ 115 ∷ 116 ∷ 101 ∷ 114 ∷ 32 ∷ 115 ∷ 101 ∷ 99 ∷ 114 ∷ 101 ∷ 116 ∷ []

abbrev expansion_label : List ℕ
expansion_label = 107 ∷ 101 ∷ 121 ∷ 32 ∷ 101 ∷ 120 ∷ 112 ∷ 97 ∷ 110 ∷ 115 ∷ 105 ∷ 111 ∷ 110 ∷ []

-- What is written, and `A(i)`, round by round until `len` bytes stand there. A round takes a turn
-- of the fuel.
unfoldable pub fill_rounds : (List ℕ → List ℕ) → List ℕ → ℕ → ℕ → List ℕ → List ℕ → List ℕ
fill_rounds mac seed len zero a written = written
fill_rounds mac seed len (suc fuel) a written =
    let block = mac (a ++ seed) in
    let fitting = min (length block) (len - length written) in
    let more = fill_rounds mac seed len fuel (mac a) (written ++ take fitting block) in
    if ltb (length written) len then more else written

-- `p_hash`, for an output of `len` bytes.
unfoldable pub p_hash : (List ℕ → List ℕ → List ℕ) → List ℕ → List ℕ → ℕ → List ℕ
unfolding fill_rounds
p_hash mac secret seed len = fill_rounds (mac secret) seed len len (mac secret seed) []

-- `*byte ^= sha1` over two slices side by side; the first keeps what the second does not reach.
unfoldable pub xor_into : List ℕ → List ℕ → List ℕ
xor_into [] ys = []
xor_into (x ∷ xs) [] = x ∷ xs
xor_into (x ∷ xs) (y ∷ ys) = bit_xor x y ∷ xor_into xs ys

-- The two keyed hashes.
pub record Hashes : Type 0 where
  pub md5 : List ℕ → List ℕ → List ℕ
  pub sha1 : List ℕ → List ℕ → List ℕ
  pub length-md5 : (key message : List ℕ) → length (md5 key message) ≡ 16
  pub length-sha1 : (key message : List ℕ) → length (sha1 key message) ≡ 20

module _ (hashes : Hashes) where
  unfoldable pub tls1_prf : List ℕ → List ℕ → ℕ → List ℕ
  unfolding p_hash xor_into
  tls1_prf secret seed len =
      let half = (length secret + 1) / 2 in
      let s1 = take half secret in
      let s2 = drop (length secret - half) secret in
      xor_into (p_hash hashes.md5 s1 seed len) (p_hash hashes.sha1 s2 seed len)

  unfoldable pub key_expansion : KeySource2 → SessionId → SessionId → List ℕ
  unfolding tls1_prf
  key_expansion source client_session server_session =
      let master_seed =
        label_prefix ++ (master_label ++ (source.client_random1 ++ source.server_random1)) in
      let master = tls1_prf source.pre_master master_seed 48 in
      let seed =
        label_prefix
        ++ (expansion_label
            ++ (source.client_random2
                ++ (source.server_random2 ++ (client_session ++ server_session)))) in
      tls1_prf master seed 256
