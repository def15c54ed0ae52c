-- ===== src/Smb/Framing/Cut.antt =====
-- What is received of a stream of messages that was cut anywhere.
use synology_filestation.Prelude.{
  ℕ, zero, suc, ◌+◌, ◌-◌, ◌*◌, ◌/◌, ◌%◌, ◌^◌, ◌≤◌, ◌<◌, ◌≡◌, refl, sym, ap, ◌∙◌, false, Bool-cases,
  inl, inr, List, [], ◌∷◌, ◌++◌, append-nil, append_assoc, length, length-append, length-take, take,
  take-append, take-append_le, take-append_short, drop-append, All, leb, ltb, le→leb, if◌then◌else◌,
  bit_or, arith,
}
use synology_filestation.Prelude.Bits.{bit_or-shift}
use synology_filestation.Smb.Framing.{
  Reader, Result, ok, err, ended, End, max_frame_size, send, read_exact, frame_len, after_header,
  receive,
}

abbrev header : List ℕ → List ℕ
header message =
    let len = length message in 0 ∷ (len / 2 ^ 16 % 256) ∷ (len / 2 ^ 8 % 256) ∷ (len % 256) ∷ []

frame_len-header :
    (message : List ℕ)
    → length message ≤ max_frame_size
    → frame_len (header message) ≡ ok (length message)
unfolding frame_len
frame_len-header message fits =
    let len = length message in
    let upper : bit_or (len / 2 ^ 16 % 256 * 2 ^ 16) (len / 2 ^ 8 % 256 * 2 ^ 8)
        ≡ len / 2 ^ 16 % 256 * 2 ^ 16 + len / 2 ^ 8 % 256 * 2 ^ 8 =
      bit_or-shift 16 (len / 2 ^ 16 % 256) (len / 2 ^ 8 % 256 * 2 ^ 8) (omega arith) in
    let high = len / 2 ^ 16 % 256 * 2 ^ 8 + len / 2 ^ 8 % 256 in
    let whole : bit_or (high * 2 ^ 8) (len % 256) ≡ high * 2 ^ 8 + len % 256 =
      bit_or-shift 8 high (len % 256) (omega arith) in
    ap ok (
      rw upper (ap (λ (h : ℕ). bit_or h (len % 256)) {y = high * 2 ^ 8} (omega arith))
      ∙ whole
      ∙ omega arith)

abbrev pub at : List ℕ → End → Reader
at bytes end = record { bytes = bytes; end = end }

read_enough :
    (bytes rest : List ℕ) (end : End) (n : ℕ)
    → length bytes ≡ n
    → read_exact (at (bytes ++ rest) end) n ≡ (at rest end, ok bytes)
unfolding read_exact
read_enough bytes rest end n e =
    rw
      (
        le→leb n (length (bytes ++ rest)) (omega (arith, length-append bytes rest)),
        drop-append n bytes rest e,
        take-append n bytes rest e,
      )
      refl

read_short :
    (bytes : List ℕ) (end : End) (n : ℕ)
    → length bytes < n
    → read_exact (at bytes end) n ≡ (at [] end, err (ended end))
unfolding read_exact
read_short bytes end n short =
    let no_more : leb n (length bytes) ≡ false = ground arith in rw no_more refl

-- The messages one after another, framed.
abbrev framed : List ℕ → List ℕ
framed message = header message ++ message

abbrev frames : List (List ℕ) → List ℕ
frames [] = []
frames (message ∷ messages) = framed message ++ frames messages

after_header_ok :
    (reader : Reader) (bytes : List ℕ) (len : ℕ)
    → frame_len bytes ≡ ok len
    → after_header (reader, ok bytes) ≡ read_exact reader len
after_header_ok reader bytes len e = rw (e, after_header) refl

receive_whole :
    (message rest : List ℕ) (end : End)
    → length message ≤ max_frame_size
    → receive (at (framed message ++ rest) end) ≡ (at rest end, ok message)
unfolding receive
receive_whole message rest end fits =
    rw (read_enough (header message) (message ++ rest) end 4 refl) (
      after_header_ok (at (message ++ rest) end) (header message) (length message)
        (frame_len-header message fits)
      ∙ read_enough message rest end (length message) refl)

receive_cut :
    (message : List ℕ) (end : End) (n : ℕ)
    → length message ≤ max_frame_size
    → n < 4 + length message
    → receive (at (take n (framed message)) end) ≡ (at [] end, err (ended end))
unfolding receive
receive_cut message end n fits short = elim (Bool-cases (ltb n 4)) [
  | inl early ↦
      rw
        (read_short (take n (framed message)) end 4
          (ground (arith, length-take n (framed message))))
        refl
  | inr late ↦
      let got : take n (framed message) ≡ header message ++ take (n - 4) message =
        take-append_le n (header message) message (ground arith) in
      rw (got, read_enough (header message) (take (n - 4) message) end 4 refl)
        (after_header_ok (at (take (n - 4) message) end) (header message) (length message)
            (frame_len-header message fits)
          ∙ read_short (take (n - 4) message) end (length message)
              (ground (arith, length-take (n - 4) message)))
]

-- What is sent, message after message.
unfoldable pub send_all : List ℕ → List (List ℕ) → List ℕ
send_all written [] = written
send_all written (message ∷ messages) = send_all (send written message).0 messages

-- The messages that are received until there is an error, in a number of rounds.
abbrev pub then_receive :
    Reader × Result (List ℕ)
    → (Reader → List (List ℕ) × Result (Unit {0}))
    → List (List ℕ) × Result (Unit {0})
then_receive (reader, err e) rest = ([], err e)
then_receive (reader, ok message) rest = let (messages, r) = rest reader in (message ∷ messages, r)

unfoldable pub receive_all : ℕ → Reader → List (List ℕ) × Result (Unit {0})
receive_all zero reader = ([], ok tt)
receive_all (suc rounds) reader =
    then_receive (receive reader) (λ reader'. receive_all rounds reader')

-- How many messages lie within the first bytes.
abbrev pub whole_within : ℕ → List (List ℕ) → ℕ
whole_within n [] = 0
whole_within n (message ∷ messages) =
    let rest = whole_within (n - (4 + length message)) messages in
    if leb (4 + length message) n then suc rest else 0

abbrev pub Fits : List ℕ → Type 0
Fits message = length message ≤ max_frame_size

send_all-frames :
    (written : List ℕ) (messages : List (List ℕ))
    → All Fits messages
    → send_all written messages ≡ written ++ frames messages
unfolding send_all send
send_all-frames written [] fit = sym (append-nil written)
send_all-frames written (message ∷ messages) (fits, fit) =
    let small : ltb max_frame_size (length message) ≡ false = ground arith in
    rw small (
      send_all-frames ((written ++ header message) ++ message) messages fit
      ∙ append_assoc (written ++ header message) message (frames messages)
      ∙ append_assoc written (header message) (message ++ frames messages))

take-nil : (n : ℕ) → take {A = ℕ} n [] ≡ []
take-nil zero = refl
take-nil (suc n) = refl

receive_nothing : (end : End) → receive (at [] end) ≡ (at [] end, err (ended end))
unfolding receive
receive_nothing end = rw (read_short [] end 4 (omega arith)) refl

receive_all-frames :
    (messages : List (List ℕ)) (n : ℕ) (end : End)
    → All Fits messages
    → receive_all (suc (length messages)) (at (take n (frames messages)) end)
      ≡ (take (whole_within n messages) messages, err (ended end))
unfolding receive_all
receive_all-frames [] n end fit = rw (take-nil n, receive_nothing end) refl
receive_all-frames (message ∷ messages) n end (fits, fit) =
    elim (Bool-cases (leb (4 + length message) n)) [
      | inl all_there ↦
          let more = n - (4 + length message) in
          let got : take n (framed message ++ frames messages)
              ≡ framed message ++ take more (frames messages) =
            take-append_le n (framed message) (frames messages) (ground arith)
            ∙ ap (λ (k : ℕ). framed message ++ take k (frames messages)) {y = more} (omega arith) in
          rw
            (
              all_there,
              got,
              receive_whole message (take more (frames messages)) end fits,
              receive_all-frames messages more end fit,
            )
            refl
      | inr cut ↦
          let got : take n (framed message ++ frames messages) ≡ take n (framed message) =
            take-append_short n (framed message) (frames messages) (ground arith) in
          rw (cut, got, receive_cut message end n fits (ground arith)) refl
    ]

-- Of messages that were sent one after another, none longer than three bytes can say, over a stream
-- that was cut behind any number of bytes, exactly the messages are received that lie whole within
-- those bytes, each as it was sent and in order, and then the error that the stream ended with: no
-- message is received in part.
pub receive_all-send_all :
    (messages : List (List ℕ)) (n : ℕ) (end : End)
    → All Fits messages
    → receive_all (suc (length messages)) (at (take n (send_all [] messages)) end)
      ≡ (take (whole_within n messages) messages, err (ended end))
receive_all-send_all messages n end fit =
    rw (send_all-frames [] messages fit) (receive_all-frames messages n end fit)
