-- ===== src/Openvpn/Prf/Sample.antt =====
-- Hashes that can be evaluated and that keep the interface, to run the code with.
use synology_filestation.Prelude.{ℕ, refl, List, ◌++◌, replicate}
use synology_filestation.Openvpn.Crypto.Sample.{checksum}
use synology_filestation.Openvpn.Prf.{KeySource2, Hashes}

-- A hash of `n` equal bytes.
abbrev pub flat_hash : ℕ → List ℕ → List ℕ → List ℕ
flat_hash n key message = replicate n (checksum (key ++ message))

abbrev pub sample_hashes : Hashes
sample_hashes = record {
  md5 = flat_hash 16;
  sha1 = flat_hash 20;
  length-md5 = λ key message. refl;
  length-sha1 = λ key message. refl;
}

abbrev pub sample_source : KeySource2
sample_source = record {
  pre_master = replicate 48 3;
  client_random1 = replicate 32 5;
  client_random2 = replicate 32 7;
  server_random1 = replicate 32 11;
  server_random2 = replicate 32 13;
}
