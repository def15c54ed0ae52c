-- ===== src/Openvpn/StaticKey/Decoded.antt =====
-- The keys that decoding gives, and the texts that it gives them for.
use mathlib.Core.Path.{subst}
use synology_filestation.Prelude.{
  ℕ, ◌+◌, ◌*◌, ◌/◌, ◌%◌, ◌^◌, ◌<◌, ◌≡◌, ◌↔◌, refl, sym, not, Bool-cases, inl, inr, List, [], ◌∷◌,
  length, All, ◌==◌, ==_iff, if◌then◌else◌, bit_or, arith,
}
use synology_filestation.Prelude.Bytes.{IsByte}
use synology_filestation.Openvpn.Error.{
  Error, key_not_hex, key_length, Result, ok, err, panic, ◌>>=◌,
}
use synology_filestation.Openvpn.StaticKey.{
  static_key_len, hex_digit, digits_of, decode_pairs, from_hex,
}
use synology_filestation.Openvpn.StaticKey.Hex.{nibbles}
use synology_filestation.Openvpn.StaticKey.Spelled.{
  IsDigit, Spells, halves, Reads, hex_digit-IsDigit, IsDigit-hex_digit, IsDigit-lt, Spells-Reads,
  Reads-Spells, Reads-length, length-halves,
}

decode_pairs-Reads :
    (digits key : List ℕ)
    → All IsByte key
    → Reads digits (halves key)
    → decode_pairs digits ≡ ok key
unfolding Reads decode_pairs
decode_pairs-Reads [] [] bytes h = refl
decode_pairs-Reads [] (b ∷ key) bytes h = elim h [ ]
decode_pairs-Reads (x ∷ digits) [] bytes h = elim h [ ]
decode_pairs-Reads (x ∷ []) (b ∷ key) bytes (hi, h) = elim h [ ]
decode_pairs-Reads (x ∷ y ∷ digits) (b ∷ key) (byte, bytes) (hi, (lo, h)) = rw (
  hex_digit-IsDigit x (b / 16) hi,
  hex_digit-IsDigit y (b % 16) lo,
  decode_pairs-Reads digits key bytes h,
  nibbles b byte,
)

-- The byte of two halves.
join : (hi lo : ℕ) → hi < 16 → lo < 16 → bit_or (hi * 2 ^ 4 % 256) lo ≡ hi * 16 + lo
join hi lo h l =
    let high : (hi * 16 + lo) / 16 ≡ hi = omega arith in
    let low : (hi * 16 + lo) % 16 ≡ lo = omega arith in
    subst (λ (q : ℕ). bit_or (q * 2 ^ 4 % 256) lo ≡ hi * 16 + lo) high
      (subst (λ (r : ℕ). bit_or ((hi * 16 + lo) / 16 * 2 ^ 4 % 256) r ≡ hi * 16 + lo) low
        (nibbles (hi * 16 + lo) (omega arith)))

pair-Reads :
    (x y hi lo : ℕ) (digits rest : List ℕ)
    → hex_digit x ≡ ok hi
    → hex_digit y ≡ ok lo
    → All IsByte rest × Reads digits (halves rest)
    → All IsByte (bit_or (hi * 2 ^ 4 % 256) lo ∷ rest)
      × Reads (x ∷ y ∷ digits) (halves (bit_or (hi * 2 ^ 4 % 256) lo ∷ rest))
unfolding Reads
pair-Reads x y hi lo digits rest is_hi is_lo (bytes, reads) =
    let high = IsDigit-hex_digit x hi is_hi in
    let low = IsDigit-hex_digit y lo is_lo in
    let below = IsDigit-lt x hi high in
    let below' = IsDigit-lt y lo low in
    let upper : (hi * 16 + lo) / 16 ≡ hi = omega arith in
    let lower : (hi * 16 + lo) % 16 ≡ lo = omega arith in
    subst (λ (byte : ℕ). All IsByte (byte ∷ rest) × Reads (x ∷ y ∷ digits) (halves (byte ∷ rest)))
      (sym (join hi lo below below'))
      (
        (omega arith, bytes),
        (subst (IsDigit x) (sym upper) high, (subst (IsDigit y) (sym lower) low, reads)),
      )

-- A pair of digits and those behind it that were decoded.
decode_pair-inv :
    (x y : ℕ) (digits key : List ℕ) (rx ry : Result ℕ) (rest : Result (List ℕ))
    → hex_digit x ≡ rx
    → hex_digit y ≡ ry
    → decode_pairs digits ≡ rest
    → (rx >>= λ hi. ry >>= λ lo. rest >>= λ bytes. ok (bit_or (hi * 2 ^ 4 % 256) lo ∷ bytes))
      ≡ ok key
    → ((bytes : List ℕ)
        → decode_pairs digits ≡ ok bytes
        → All IsByte bytes × Reads digits (halves bytes))
    → All IsByte key × Reads (x ∷ y ∷ digits) (halves key)
decode_pair-inv x y digits key (ok hi) (ok lo) (ok bytes) is_hi is_lo is_rest e later =
    let whole : bit_or (hi * 2 ^ 4 % 256) lo ∷ bytes ≡ key = cc in
    subst (λ (k : List ℕ). All IsByte k × Reads (x ∷ y ∷ digits) (halves k)) whole
      (pair-Reads x y hi lo digits bytes is_hi is_lo (later bytes is_rest))
decode_pair-inv x y digits key (ok hi) (ok lo) (err _) is_hi is_lo is_rest e later = cc
decode_pair-inv x y digits key (ok hi) (ok lo) panic is_hi is_lo is_rest e later = cc
decode_pair-inv x y digits key (ok hi) (err _) rest is_hi is_lo is_rest e later = cc
decode_pair-inv x y digits key (ok hi) panic rest is_hi is_lo is_rest e later = cc
decode_pair-inv x y digits key (err _) ry rest is_hi is_lo is_rest e later = cc
decode_pair-inv x y digits key panic ry rest is_hi is_lo is_rest e later = cc

Reads-decode_pairs :
    (digits key : List ℕ)
    → length digits % 2 ≡ 0
    → decode_pairs digits ≡ ok key
    → All IsByte key × Reads digits (halves key)
unfolding Reads decode_pairs
Reads-decode_pairs [] key even h =
    let none : [] ≡ key = cc in
    subst (λ (k : List ℕ). All IsByte k × Reads [] (halves k)) none (tt, tt)
Reads-decode_pairs (x ∷ []) key even h = absurd (omega arith)
Reads-decode_pairs (x ∷ y ∷ digits) key even h =
    decode_pair-inv x y digits key (hex_digit x) (hex_digit y) (decode_pairs digits) refl refl refl
      h (λ bytes e. Reads-decode_pairs digits bytes (omega arith) e)

ne-ok : (e : Error) (key : List ℕ) → ◌≡◌ {A = Result (List ℕ)} (err e) (ok key) → ⊥
ne-ok e key h = cc

-- The guards of `from_hex`, passed.
guards_passed :
    (n : ℕ) (r : Result (List ℕ)) (key : List ℕ)
    → (if not (n % 2 == 0)
        then err key_not_hex
        else if not (n / 2 == static_key_len)
        then err (key_length (n / 2))
        else r)
      ≡ ok key
    → (n % 2 ≡ 0) × (n / 2 ≡ static_key_len) × (r ≡ ok key)
guards_passed n r key e = elim (Bool-cases (n % 2 == 0)) [
  | inr odd ↦ absurd (ne-ok key_not_hex key (rw odd at e))
  | inl even ↦ elim (Bool-cases (n / 2 == static_key_len)) [
    | inr other ↦ absurd (ne-ok (key_length (n / 2)) key (rw (even, other) at e))
    | inl full ↦ ((==_iff _ _).0 even, (==_iff _ _).0 full, rw (even, full) at e)
  ]
]

-- A text gives a key exactly if the key consists of 256 bytes and the text spells it: two
-- hexadecimal digits for each byte, the higher first, each a decimal digit or a letter of either
-- case, with whitespace anywhere before, between and after them, and nothing else.
pub from_hex_iff :
    (hex key : List ℕ)
    → (from_hex hex ≡ ok key)
      ↔ (length key ≡ static_key_len × All IsByte key × Spells hex (halves key))
unfolding from_hex
from_hex_iff hex key = (taken, given)
  where
    taken :
        from_hex hex ≡ ok key
        → length key ≡ static_key_len × All IsByte key × Spells hex (halves key)
    taken e =
        let (even, full, pairs) =
          guards_passed (length (digits_of hex)) (decode_pairs (digits_of hex)) key e in
        let (bytes, reads) = Reads-decode_pairs (digits_of hex) key even pairs in
        (
          omega (arith, Reads-length (digits_of hex) (halves key) reads, length-halves key),
          bytes,
          Reads-Spells hex (halves key) reads,
        )

    given :
        length key ≡ static_key_len × All IsByte key × Spells hex (halves key)
        → from_hex hex ≡ ok key
    given (len, bytes, spelled) =
        let reads = Spells-Reads spelled in
        let digits : length (digits_of hex) ≡ 512 =
          omega (arith, Reads-length (digits_of hex) (halves key) reads, length-halves key) in
        rw (digits, decode_pairs-Reads (digits_of hex) key bytes reads)
