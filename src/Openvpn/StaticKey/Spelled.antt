-- ===== src/Openvpn/StaticKey/Spelled.antt =====
-- The texts that spell a key in hexadecimal, said without the decoder, and what is left of them
-- when the whitespace is skipped.
use mathlib.Core.Path.{subst}
use synology_filestation.Prelude.{
  ℕ, suc, ◌+◌, ◌*◌, ◌/◌, ◌%◌, ◌≤◌, ◌<◌, ◌≡◌, ◌⊎◌, inl, inr, refl, sym, ap, true, false, Bool-cases,
  List, [], ◌∷◌, length, arith,
}
use synology_filestation.Openvpn.Error.{ok}
use synology_filestation.Openvpn.StaticKey.{is_ascii_whitespace, hex_digit, digits_of}

-- The space, the tab, the line feed, the form feed and the carriage return.
abbrev pub IsSpace : ℕ → Type 0
IsSpace b = (b ≡ 0x20) ⊎ (b ≡ 0x09) ⊎ (b ≡ 0x0A) ⊎ (b ≡ 0x0C) ⊎ (b ≡ 0x0D)

-- A character that stands for a number below sixteen: a decimal digit, or a letter of either case.
abbrev pub IsDigit : ℕ → ℕ → Type 0
IsDigit b d =
    (d < 10 × (b ≡ b'0' + d))
    ⊎ (10 ≤ d × d < 16 × (b + 10 ≡ b'a' + d))
    ⊎ (10 ≤ d × d < 16 × (b + 10 ≡ b'A' + d))

-- A text that spells numbers below sixteen, one digit for each, with whitespace anywhere.
pub data Spells : List ℕ → List ℕ → Type 0 where
  end : Spells [] []
  space : {b : ℕ} {text ds : List ℕ} → IsSpace b → Spells text ds → Spells (b ∷ text) ds
  digit : {b d : ℕ} {text ds : List ℕ} → IsDigit b d → Spells text ds → Spells (b ∷ text) (d ∷ ds)

-- The two digits of each byte, the higher first.
abbrev pub halves : List ℕ → List ℕ
halves [] = []
halves (b ∷ bytes) = b / 16 ∷ b % 16 ∷ halves bytes

pub hex_digit-IsDigit : (b d : ℕ) → IsDigit b d → hex_digit b ≡ ok d
unfolding hex_digit
hex_digit-IsDigit b d (inl h) = ground arith
hex_digit-IsDigit b d (inr (inl h)) = ground arith
hex_digit-IsDigit b d (inr (inr h)) = ground arith

pub IsDigit-hex_digit : (b d : ℕ) → hex_digit b ≡ ok d → IsDigit b d
unfolding hex_digit
IsDigit-hex_digit b d h = grind arith

whitespace-IsSpace : (b : ℕ) → IsSpace b → is_ascii_whitespace b ≡ true
unfolding is_ascii_whitespace
whitespace-IsSpace b (inl h) = ground arith
whitespace-IsSpace b (inr (inl h)) = ground arith
whitespace-IsSpace b (inr (inr (inl h))) = ground arith
whitespace-IsSpace b (inr (inr (inr (inl h)))) = ground arith
whitespace-IsSpace b (inr (inr (inr (inr h)))) = ground arith

IsSpace-whitespace : (b : ℕ) → is_ascii_whitespace b ≡ true → IsSpace b
unfolding is_ascii_whitespace
IsSpace-whitespace b h = grind arith

digit_not_whitespace : (b d : ℕ) → IsDigit b d → is_ascii_whitespace b ≡ false
unfolding is_ascii_whitespace
digit_not_whitespace b d (inl h) = ground arith
digit_not_whitespace b d (inr (inl h)) = ground arith
digit_not_whitespace b d (inr (inr h)) = ground arith

pub IsDigit-lt : (b d : ℕ) → IsDigit b d → d < 16
IsDigit-lt b d (inl h) = omega arith
IsDigit-lt b d (inr (inl h)) = h.1
IsDigit-lt b d (inr (inr h)) = h.1

-- Digits without whitespace.
unfoldable pub Reads : List ℕ → List ℕ → Type 0
Reads [] [] = Unit
Reads [] (d ∷ ds) = ⊥
Reads (b ∷ digits) [] = ⊥
Reads (b ∷ digits) (d ∷ ds) = IsDigit b d × Reads digits ds

digits_of-skip :
    (b : ℕ) (text : List ℕ) → is_ascii_whitespace b ≡ true → digits_of (b ∷ text) ≡ digits_of text
unfolding digits_of
digits_of-skip b text h = rw h

digits_of-keep :
    (b : ℕ) (text : List ℕ)
    → is_ascii_whitespace b ≡ false
    → digits_of (b ∷ text) ≡ b ∷ digits_of text
unfolding digits_of
digits_of-keep b text h = rw h

pub Spells-Reads : {text ds : List ℕ} → Spells text ds → Reads (digits_of text) ds
unfolding Reads
Spells-Reads end = unfold digits_of in tt
Spells-Reads (space {b} {text} {ds} h s) =
    subst (λ t. Reads t ds) (sym (digits_of-skip b text (whitespace-IsSpace b h))) (Spells-Reads s)
Spells-Reads (digit {b} {d} {text} {ds} h s) =
    subst (λ t. Reads t (d ∷ ds)) (sym (digits_of-keep b text (digit_not_whitespace b d h)))
      (h, Spells-Reads s)

no_digits : (d : ℕ) (ds : List ℕ) → Reads (digits_of []) (d ∷ ds) → ⊥
unfolding Reads digits_of
no_digits d ds h = h

pub Reads-Spells : (text ds : List ℕ) → Reads (digits_of text) ds → Spells text ds
unfolding Reads
Reads-Spells [] [] h = end
Reads-Spells [] (d ∷ ds) h = elim (no_digits d ds h) [ ]
Reads-Spells (b ∷ text) ds h = elim (Bool-cases (is_ascii_whitespace b)) [
  | inl blank ↦
      space (IsSpace-whitespace b blank)
        (Reads-Spells text ds (subst (λ t. Reads t ds) (digits_of-skip b text blank) h))
  | inr other ↦
      by_digit ds (λ rest. Reads-Spells text rest)
        (subst (λ t. Reads t ds) (digits_of-keep b text other) h)
]
  where
    by_digit :
        (ds : List ℕ)
        → ((rest : List ℕ) → Reads (digits_of text) rest → Spells text rest)
        → Reads (b ∷ digits_of text) ds
        → Spells (b ∷ text) ds
    by_digit [] later h = elim h [ ]
    by_digit (d ∷ ds) later (h, r) = digit h (later ds r)

pub Reads-length : (digits ds : List ℕ) → Reads digits ds → length digits ≡ length ds
unfolding Reads
Reads-length [] [] h = refl
Reads-length [] (d ∷ ds) h = elim h [ ]
Reads-length (b ∷ digits) [] h = elim h [ ]
Reads-length (b ∷ digits) (d ∷ ds) (h, r) = ap suc (Reads-length digits ds r)

pub length-halves : (key : List ℕ) → length (halves key) ≡ 2 * length key
length-halves [] = refl
length-halves (b ∷ key) = omega (arith, length-halves key)
