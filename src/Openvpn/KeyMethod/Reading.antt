-- ===== src/Openvpn/KeyMethod/Reading.antt =====
-- The reader over a part of its bytes and over all of them.
use Prim.Native.String.{String}
use synology_filestation.Prelude.{
  ℕ, ◌+◌, ◌-◌, ◌≤◌, ◌≡◌, refl, ap, ◌∙◌, false, inl, inr, List, [], ◌++◌, length, length-append,
  length-take, length-drop, take, take-append_short, drop-append_short, drop, range?, leb, ◌==◌,
  ==_refl, le→leb, if◌then◌else◌, Bool-cases, arith,
}
use synology_filestation.Prelude.Bytes.{from_be}
use synology_filestation.Openvpn.Error.{Error, Result, ok, err, panic, ◌>>=◌, truncated}
use synology_filestation.Openvpn.Packet.{take_bytes}
use synology_filestation.Openvpn.Packet.Reader.{cursor}
use synology_filestation.Openvpn.KeyMethod.{Reader, take_slice, read_array, string, strip_nul}

-- Two readings of which the second has more bytes: the first stops short, or both are refused alike,
-- or both give the same value, which meets a condition. Neither panics unless the first stops short.
pub data Settled {A : Type 0} (P : A → Type 0) : Result A → Result A → Type 0 where
  not_yet : {context : String} {r : Result A} → Settled P (err (truncated context)) r
  refused : {e : Error} → Settled P (err e) (err e)
  read : {a : A} → P a → Settled P (ok a) (ok a)

-- The same slice where the bytes reach, and `truncated` where they do not.
take_slice_fits :
    (bytes : List ℕ) (at n : ℕ) (context : String)
    → at + n ≤ length bytes
    → take_slice (cursor bytes at) n context ≡ ok (take n (drop at bytes), cursor bytes (at + n))
unfolding take_slice take_bytes range?
take_slice_fits bytes at n context fits = rw (le→leb (at + n) (length bytes) fits) (
    ap (λ (k : ℕ). ok (take k (drop at bytes), cursor bytes (at + n))) {x = at + n - at} {y = n}
      (omega arith))

take_slice_short :
    (bytes : List ℕ) (at n : ℕ) (context : String)
    → leb (at + n) (length bytes) ≡ false
    → take_slice (cursor bytes at) n context ≡ err (truncated context)
unfolding take_slice take_bytes range?
take_slice_short bytes at n context past = rw past refl

length-slice :
    (bytes : List ℕ) (at n : ℕ) → at + n ≤ length bytes → length (take n (drop at bytes)) ≡ n
length-slice bytes at n fits = omega (arith, length-take n (drop at bytes), length-drop at bytes)

slice-append :
    (bytes more : List ℕ) (at n : ℕ)
    → at + n ≤ length bytes
    → take n (drop at (bytes ++ more)) ≡ take n (drop at bytes)
slice-append bytes more at n fits =
    ap (take n) (drop-append_short at bytes more (omega arith))
    ∙ take-append_short n (drop at bytes) more (omega (arith, length-drop at bytes))

-- A slice that was taken is as long as its array.
pub read_array-take_slice :
    (bytes : List ℕ) (at n : ℕ) (context : String)
    → read_array n (cursor bytes at) context ≡ take_slice (cursor bytes at) n context
unfolding read_array
read_array-take_slice bytes at n context = elim (Bool-cases (leb (at + n) (length bytes))) [
  | inl reached ↦
      let fits : at + n ≤ length bytes = ground arith in
      rw (take_slice_fits bytes at n context fits, length-slice bytes at n fits, ==_refl n) refl
  | inr past ↦ rw (take_slice_short bytes at n context past) refl
]

bind_assoc :
    {A B C : Type 0} (m : Result A) (f : A → Result B) (g : B → Result C)
    → (m >>= f) >>= g ≡ m >>= λ a. f a >>= g
bind_assoc (ok a) f g = refl
bind_assoc (err e) f g = refl
bind_assoc panic f g = refl

module _ {A : Type 0} {P : A → Type 0} (bytes more : List ℕ) where
  pub take_slice_step :
      (at n : ℕ) (context : String) (f g : List ℕ × Reader → Result A)
      → ((s : List ℕ)
          → length s ≡ n
          → at + n ≤ length bytes
          → Settled P (f (s, cursor bytes (at + n))) (g (s, cursor (bytes ++ more) (at + n))))
      → Settled P
          (take_slice (cursor bytes at) n context >>= f)
          (take_slice (cursor (bytes ++ more) at) n context >>= g)
  take_slice_step at n context f g k = elim (Bool-cases (leb (at + n) (length bytes))) [
    | inl reached ↦
        let fits : at + n ≤ length bytes = ground arith in
        rw
          (
            take_slice_fits bytes at n context fits,
            take_slice_fits (bytes ++ more) at n context (omega (arith, length-append bytes more)),
            slice-append bytes more at n fits,
          )
          (k (take n (drop at bytes)) (length-slice bytes at n fits) fits)
    | inr past ↦ rw (take_slice_short bytes at n context past) not_yet
  ]

  pub read_array_step :
      (at n : ℕ) (context : String) (f g : List ℕ × Reader → Result A)
      → ((s : List ℕ)
          → length s ≡ n
          → at + n ≤ length bytes
          → Settled P (f (s, cursor bytes (at + n))) (g (s, cursor (bytes ++ more) (at + n))))
      → Settled P
          (read_array n (cursor bytes at) context >>= f)
          (read_array n (cursor (bytes ++ more) at) context >>= g)
  unfolding read_array
  read_array_step at n context f g k =
      rw
        (
          read_array-take_slice bytes at n context,
          read_array-take_slice (bytes ++ more) at n context,
        )
        (take_slice_step at n context f g k)

module _ (lossy : List ℕ → List ℕ) where
  abbrev text_of : List ℕ × Reader → Result (List ℕ × Reader)
  text_of (bytes, r) = ok (lossy (strip_nul bytes), r)

  -- What `string` does behind the length.
  text_behind : String → List ℕ × Reader → Result (List ℕ × Reader)
  unfolding take_slice strip_nul
  text_behind context (header, r) =
      if from_be header == 0 then ok ([], r) else take_slice r (from_be header) context >>= text_of

  string-text_behind :
      (r : Reader) (context : String)
      → string lossy r context ≡ read_array 2 r context >>= text_behind context
  unfolding string text_behind
  string-text_behind r context = refl

  pub string_step :
      {A : Type 0} {P : A → Type 0} (bytes more : List ℕ) (at : ℕ) (context : String)
      (f g : List ℕ × Reader → Result A)
      → ((text : List ℕ) (end : ℕ)
          → at + 2 ≤ end
          → end ≤ length bytes
          → Settled P (f (text, cursor bytes end)) (g (text, cursor (bytes ++ more) end)))
      → Settled P
          (string lossy (cursor bytes at) context >>= f)
          (string lossy (cursor (bytes ++ more) at) context >>= g)
  unfolding text_behind
  string_step bytes more at context f g k =
      rw
        (
          string-text_behind (cursor bytes at) context,
          string-text_behind (cursor (bytes ++ more) at) context,
          bind_assoc (read_array 2 (cursor bytes at) context) (text_behind context) f,
          bind_assoc (read_array 2 (cursor (bytes ++ more) at) context) (text_behind context) g,
        )
        (read_array_step bytes more at 2 context (λ x. text_behind context x >>= f)
          (λ x. text_behind context x >>= g)
          λ s two fits. elim (Bool-cases (from_be s == 0)) [
            | inl empty ↦ rw empty (k [] (at + 2) (omega arith) fits)
            | inr full ↦
                rw
                  (
                    full,
                    bind_assoc (take_slice (cursor bytes (at + 2)) (from_be s) context) (text_of) f,
                    bind_assoc (take_slice (cursor (bytes ++ more) (at + 2)) (from_be s) context)
                        text_of g,
                  )
                  (take_slice_step bytes more (at + 2) (from_be s) context (λ x. text_of x >>= f)
                    (λ x. text_of x >>= g)
                    (λ slice long reached.
                      k (lossy (strip_nul slice)) (at + 2 + from_be s) (omega arith) reached))
          ])
