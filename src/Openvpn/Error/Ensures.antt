-- ===== src/Openvpn/Error/Ensures.antt =====
-- Results that are no panic, and whose value, if there is one, meets a condition.
use synology_filestation.Prelude.{
  ◌≡◌, ◌≢◌, refl, Bool, true, false, Option, some, none, if◌then◌else◌,
}
use mathlib.Core.Path.{subst}
use synology_filestation.Openvpn.Error.{Error, Result, ok, err, panic, ◌>>=◌, ok_or}

pub data Ensures {A : Type 0} (P : A → Type 0) : Result A → Type 0 where
  returns : {a : A} → P a → Ensures P (ok a)
  fails : {e : Error} → Ensures P (err e)

-- No condition on the value.
abbrev pub Anything : {A : Type 0} → A → Type 0
Anything a = Unit {0}

module _ {A : Type 0} {P : A → Type 0} where
  pub Ensures-ne-panic : {r : Result A} → Ensures P r → r ≢ panic
  Ensures-ne-panic (returns h) = λ e. cc
  Ensures-ne-panic fails = λ e. cc

  holds_at : {r : Result A} → Ensures P r → (a : A) → r ≡ ok a → P a
  holds_at (returns h) a e = subst P (cc) h
  holds_at fails a e = cc

  pub Ensures-ok : {r : Result A} → Ensures P r → {a : A} → r ≡ ok a → P a
  Ensures-ok h {a} e = holds_at h a e

  pub Ensures-ok_or :
      (o : Option A) (e : Error) → ((a : A) → o ≡ some a → P a) → Ensures P (ok_or o e)
  Ensures-ok_or none e h = fails
  Ensures-ok_or (some a) e h = returns (h a refl)

  pub Ensures-if :
      (b : Bool) (x y : Result A)
      → (b ≡ true → Ensures P x)
      → (b ≡ false → Ensures P y)
      → Ensures P (if b then x else y)
  Ensures-if true x y hx hy = hx refl
  Ensures-if false x y hx hy = hy refl

module _ {A B : Type 0} {P : A → Type 0} {Q : B → Type 0} where
  pub Ensures-bind :
      {m : Result A} (f : A → Result B)
      → Ensures P m
      → ((a : A) → P a → Ensures Q (f a))
      → Ensures Q (m >>= f)
  Ensures-bind f (returns h) k = k _ h
  Ensures-bind f fails k = fails
