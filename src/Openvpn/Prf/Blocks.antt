-- ===== src/Openvpn/Prf/Blocks.antt =====
-- The rounds of `p_hash` against the definition of RFC 2246.
use synology_filestation.Prelude.{
  ℕ, zero, suc, ◌+◌, ◌-◌, ◌*◌, ◌≤◌, ◌<◌, ◌≡◌, refl, sym, ap, ◌∙◌, inl, inr, List, [], ◌∷◌, ◌++◌,
  append-nil, append_assoc, length, length-append, length-take, take, min, ltb, Bool-cases, arith,
}
use synology_filestation.Openvpn.Packet.{SessionId}
use synology_filestation.Openvpn.Prf.{
  KeySource2, Hashes, fill_rounds, p_hash, xor_into, tls1_prf, key_expansion,
}

-- `A(i)`: the seed hashed `i` times.
unfoldable pub hashed : (List ℕ → List ℕ) → List ℕ → ℕ → List ℕ
hashed mac seed zero = seed
hashed mac seed (suc i) = mac (hashed mac seed i)

-- The concatenation of `mac (A(j) ++ seed)` for the `count` indices from `i`.
unfoldable pub blocks_from : (List ℕ → List ℕ) → List ℕ → ℕ → ℕ → List ℕ
unfolding hashed
blocks_from mac seed i zero = []
blocks_from mac seed i (suc count) =
    mac (hashed mac seed i ++ seed) ++ blocks_from mac seed (suc i) count

take-none : (m : ℕ) (xs : List ℕ) → m ≡ 0 → take m xs ≡ []
take-none zero xs h = refl
take-none (suc m) xs h = absurd (omega arith)

take-append_min :
    (m : ℕ) (xs ys : List ℕ)
    → take m (xs ++ ys) ≡ take (min (length xs) m) xs ++ take (m - length xs) ys
take-append_min m [] ys =
    rw (take-none (min 0 m) [] (omega arith))
      (ap (λ (k : ℕ). take k ys) {x = m} {y = m - 0} (omega arith))
take-append_min zero (x ∷ xs) ys =
    rw
      (
        take-none (min (suc (length xs)) 0) (x ∷ xs) (omega arith),
        take-none (0 - suc (length xs)) ys (omega arith),
      )
      refl
take-append_min (suc m) (x ∷ xs) ys =
    ap (◌∷◌ x) (take-append_min m xs ys)
    ∙ sym (
        cut (min (suc (length xs)) (suc m)) (suc (min (length xs) m)) (suc m - suc (length xs))
          (m - length xs) (omega arith) (omega arith))
  where
    cut :
        (a a' b b' : ℕ)
        → a ≡ a'
        → b ≡ b'
        → take a (x ∷ xs) ++ take b ys ≡ take a' (x ∷ xs) ++ take b' ys
    cut a a' b b' e f = rw (e, f) refl

module _ (mac : List ℕ → List ℕ) (seed : List ℕ) (n : ℕ) (len : ℕ) where
  whole :
      (written rest : List ℕ)
      → len ≤ length written
      → written ≡ written ++ take (len - length written) rest
  whole written rest full =
      sym (ap (λ (t : List ℕ). written ++ t) (take-none _ rest (omega arith)) ∙ append-nil written)

  -- A block that is appended as far as it fits.
  one_block :
      (written block more : List ℕ)
      → (written ++ take (min (length block) (len - length written)) block)
          ++ take
              (len - length (written ++ take (min (length block) (len - length written)) block))
              more
        ≡ written ++ take (len - length written) (block ++ more)
  one_block written block more =
      append_assoc written _ _
      ∙ ap (λ (t : List ℕ). written ++ t)
          (ap (λ (k : ℕ). take (min (length block) (len - length written)) block ++ take k more)
              {y = len - length written - length block}
              (omega (
                arith,
                length-append written (take (min (length block) (len - length written)) block),
                length-take (min (length block) (len - length written)) block,
              ))
            ∙ sym (take-append_min (len - length written) block more))

  abbrev block_of : ℕ → List ℕ
  block_of i = mac (hashed mac seed i ++ seed)

  size :
      (i : ℕ) (written : List ℕ)
      → length (written ++ take (min (length (block_of i)) (len - length written)) (block_of i))
        ≡ length written + min (length (block_of i)) (len - length written)
  size i written = omega (
    arith,
    length-append written (take (min (length (block_of i)) (len - length written)) (block_of i)),
    length-take (min (length (block_of i)) (len - length written)) (block_of i),
  )

  fill_rounds-blocks_from :
      (fuel i count : ℕ) (written : List ℕ)
      → ((m : List ℕ) → length (mac m) ≡ n)
      → 0 < n
      → length written ≤ len
      → len ≤ length written + fuel
      → len ≤ length written + n * count
      → fill_rounds mac seed len fuel (hashed mac seed i) written
        ≡ written ++ take (len - length written) (blocks_from mac seed i count)
  unfolding fill_rounds blocks_from hashed
  fill_rounds-blocks_from zero i count written block pos small fuel_left enough =
      whole written _ (omega arith)
  fill_rounds-blocks_from (suc fuel) i zero written block pos small fuel_left enough =
      elim (Bool-cases (ltb (length written) len)) [
        | inl more ↦ absurd (ground arith)
        | inr done ↦ rw (done) (whole written [] (omega arith))
      ]
  fill_rounds-blocks_from (suc fuel) i (suc count) written block pos small fuel_left enough =
      elim (Bool-cases (ltb (length written) len)) [
        | inl more ↦ rw more (
            fill_rounds-blocks_from fuel (suc i) count
              (written ++ take (min (length (block_of i)) (len - length written)) (block_of i))
              block pos (omega (arith, size i written))
              (omega (arith, size i written, block (hashed mac seed i ++ seed)))
              (omega (arith, size i written, block (hashed mac seed i ++ seed)))
            ∙ one_block written (block_of i) (blocks_from mac seed (suc i) count))
        | inr done ↦ rw done (whole written _ (ground arith))
      ]

-- If every output of `mac` has `n` bytes, `n` is positive and `n * count` is at least `len`, then
-- `p_hash` returns the first `len` bytes of the first `count` blocks that RFC 2246 defines: the
-- loop ends with the output full.
pub p_hash-blocks_from :
    (mac : List ℕ → List ℕ → List ℕ) (secret seed : List ℕ) (n len count : ℕ)
    → ((message : List ℕ) → length (mac secret message) ≡ n)
    → 0 < n
    → len ≤ n * count
    → p_hash mac secret seed len ≡ take len (blocks_from (mac secret) seed 1 count)
unfolding p_hash hashed
p_hash-blocks_from mac secret seed n len count size pos enough =
    fill_rounds-blocks_from (mac secret) seed n len len 1 count [] size pos (omega arith)
      (omega arith) (omega arith)
    ∙ ap (λ (k : ℕ). take k (blocks_from (mac secret) seed 1 count)) {x = len - 0} {y = len}
        (omega arith)

length-blocks_from :
    (mac : List ℕ → List ℕ) (seed : List ℕ) (n i count : ℕ)
    → ((message : List ℕ) → length (mac message) ≡ n)
    → length (blocks_from mac seed i count) ≡ n * count
unfolding blocks_from
length-blocks_from mac seed n i zero size = omega arith
length-blocks_from mac seed n i (suc count) size = omega (
  arith,
  length-append (mac (hashed mac seed i ++ seed)) (blocks_from mac seed (suc i) count),
  size (hashed mac seed i ++ seed),
  length-blocks_from mac seed n (suc i) count size,
)

le-mul : (n len : ℕ) → 0 < n → len ≤ n * len
le-mul zero len pos = absurd (omega arith)
le-mul (suc n) len pos = omega arith

length-p_hash :
    (mac : List ℕ → List ℕ → List ℕ) (secret seed : List ℕ) (n len : ℕ)
    → ((message : List ℕ) → length (mac secret message) ≡ n)
    → 0 < n
    → length (p_hash mac secret seed len) ≡ len
length-p_hash mac secret seed n len each pos =
    ap length (p_hash-blocks_from mac secret seed n len len each pos (le-mul n len pos))
    ∙ omega (
      arith,
      length-take len (blocks_from (mac secret) seed 1 len),
      length-blocks_from (mac secret) seed n 1 len each,
      le-mul n len pos,
    )

length-xor_into : (xs ys : List ℕ) → length (xor_into xs ys) ≡ length xs
unfolding xor_into
length-xor_into [] ys = refl
length-xor_into (x ∷ xs) [] = refl
length-xor_into (x ∷ xs) (y ∷ ys) = omega (arith, length-xor_into xs ys)

module _ (hashes : Hashes) where
  pub length-tls1_prf :
      (secret seed : List ℕ) (len : ℕ) → length (tls1_prf hashes secret seed len) ≡ len
  unfolding tls1_prf
  length-tls1_prf secret seed len =
      length-xor_into _ _
      ∙ length-p_hash hashes.md5 _ seed 16 len (hashes.length-md5 _) (omega arith)

  pub length-key_expansion :
      (source : KeySource2) (client server : SessionId)
      → length (key_expansion hashes source client server) ≡ 256
  unfolding key_expansion
  length-key_expansion source client server = length-tls1_prf _ _ 256
