-- ===== src/Openvpn/Push/Safe.antt =====
-- A push reply is read or refused.
use synology_filestation.Prelude.{
  ◌*◌, ◌^◌, ◌-◌, Option, none, some, Bool, List, [], ◌∷◌, ◌++◌, if◌then◌else◌,
}
use synology_filestation.Prelude.Text.{
  Text, strip_prefix, trim, split_on, split_whitespace, parse_unsigned, parse_ipv4,
}
use synology_filestation.Openvpn.Error.{
  Error, Result, ok, ◌>>=◌, ok_or, bad_push_directive, unexpected_control_message,
}
use synology_filestation.Openvpn.Error.Ensures.{
  Anything, Ensures, returns, fails, Ensures-bind, Ensures-if,
}
use synology_filestation.Openvpn.Push.{
  PushReply, seconds_from, read_peer_id, read_ifconfig, read_ping, read_ping_restart,
  read_directive, read_words, read_directives, parse, nothing_pushed, after_comma,
}
use synology_filestation.Openvpn.Push.Words.{push_reply}
use synology_filestation.Openvpn.Data
use synology_filestation.Openvpn.Data.{PeerId}
use synology_filestation.Openvpn.Ip.{Ipv4Addr}

abbrev IsSafe : {A : Type 0} → Result A → Type 0
IsSafe r = Ensures Anything r

-- `o.ok_or(e)?`, and what comes behind it.
required :
    {A B : Type 0} (o : Option A) (e : Error) (f : A → Result B)
    → ((a : A) → IsSafe (f a))
    → IsSafe (ok_or o e >>= f)
required none e f h = fails
required (some a) e f h = h a

seconds_from-IsSafe : (value directive : Text) → IsSafe (seconds_from value directive)
unfolding seconds_from
seconds_from-IsSafe value directive =
    required (parse_unsigned (2 ^ 64 - 1) value) (bad_push_directive directive)
      (λ seconds. ok (seconds * 1000000000)) (λ _. returns tt)

read_peer_id-IsSafe :
    (parsed : PushReply) (id directive : Text) → IsSafe (read_peer_id parsed id directive)
unfolding read_peer_id
read_peer_id-IsSafe parsed id directive =
    let assigned : PeerId → Result PushReply = λ p. ok (record parsed { peer_id = some p }) in
    let refused = bad_push_directive directive in
    required (parse_unsigned (2 ^ 32 - 1) id) refused
      (λ value. ok_or (Data.peer_id value) refused >>= assigned)
      (λ value. required (Data.peer_id value) refused assigned (λ _. returns tt))

read_ifconfig-IsSafe :
    (parsed : PushReply) (address mask directive : Text)
    → IsSafe (read_ifconfig parsed address mask directive)
unfolding read_ifconfig
read_ifconfig-IsSafe parsed address mask directive =
    let refused = bad_push_directive directive in
    let assigned : Ipv4Addr → Ipv4Addr → Result PushReply =
      λ a m. ok (record parsed { ifconfig = some (a, m) }) in
    required (parse_ipv4 address) refused (λ a. ok_or (parse_ipv4 mask) refused >>= assigned a)
      (λ a. required (parse_ipv4 mask) refused (assigned a) (λ _. returns tt))

read_ping-IsSafe :
    (parsed : PushReply) (seconds directive : Text) → IsSafe (read_ping parsed seconds directive)
unfolding read_ping
read_ping-IsSafe parsed seconds directive =
    Ensures-bind _ (seconds_from-IsSafe seconds directive) (λ _ _. returns tt)

read_ping_restart-IsSafe :
    (parsed : PushReply) (seconds directive : Text)
    → IsSafe (read_ping_restart parsed seconds directive)
unfolding read_ping_restart
read_ping_restart-IsSafe parsed seconds directive =
    Ensures-bind _ (seconds_from-IsSafe seconds directive) (λ _ _. returns tt)

-- The first of two branches, or the second.
pub either :
    {A : Type 0} (b : Bool) {x y : Result A} → IsSafe x → IsSafe y → IsSafe (if b then x else y)
either b {x} {y} hx hy = Ensures-if b x y (λ _. hx) (λ _. hy)

read_directive-IsSafe :
    (parsed : PushReply) (name : Text) (rest : List Text) (directive : Text)
    → IsSafe (read_directive parsed name rest directive)
unfolding read_directive
read_directive-IsSafe parsed name [] directive = returns tt
read_directive-IsSafe parsed name (a ∷ []) directive =
    either _ (read_peer_id-IsSafe parsed a directive) (
      either _ (returns tt) (
        either _ (read_ping-IsSafe parsed a directive)
          (either _ (read_ping_restart-IsSafe parsed a directive) (returns tt))))
read_directive-IsSafe parsed name (a ∷ b ∷ []) directive =
    either _ (read_ifconfig-IsSafe parsed a b directive) (returns tt)
read_directive-IsSafe parsed name (a ∷ b ∷ c ∷ rest) directive = returns tt

read_words-IsSafe :
    (parsed : PushReply) (words : List Text) (directive : Text)
    → IsSafe (read_words parsed words directive)
unfolding read_words
read_words-IsSafe parsed [] directive = returns tt
read_words-IsSafe parsed (name ∷ rest) directive = read_directive-IsSafe parsed name rest directive

read_directives-IsSafe :
    (parsed : PushReply) (pieces : List Text) → IsSafe (read_directives parsed pieces)
unfolding read_directives
read_directives-IsSafe parsed [] = returns tt
read_directives-IsSafe parsed (piece ∷ pieces) =
    by_piece (trim piece) (λ p. read_directives-IsSafe p pieces)
  where
    by_piece :
        (text : Text)
        → ((p : PushReply) → IsSafe (read_directives p pieces))
        → IsSafe (elim text as (λ _. Result PushReply) [
          | [] ↦ read_directives parsed pieces
          | b ∷ text ↦
              read_words
                (record parsed { directives = parsed.directives ++ ((b ∷ text) ∷ []) })
                (split_whitespace (b ∷ text))
                (b ∷ text)
              >>= λ parsed'. read_directives parsed' pieces
        ])
    by_piece [] later = later parsed
    by_piece (b ∷ text) later =
        Ensures-bind _ (read_words-IsSafe _ (split_whitespace (b ∷ text)) (b ∷ text))
          (λ parsed' _. later parsed')

pub parse-IsSafe : (reply : Text) → Ensures Anything (parse reply)
unfolding parse
parse-IsSafe reply =
    required (strip_prefix reply push_reply) (unexpected_control_message reply)
      (λ body. read_directives nothing_pushed (split_on b',' (after_comma body)))
      (λ body. read_directives-IsSafe nothing_pushed (split_on b',' (after_comma body)))
