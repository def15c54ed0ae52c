-- ===== src/Prelude/Tree.antt =====
-- `BTreeMap<u32, V>`: an association list, its keys ascending.
use Prim.Native.Nat.{ℕ, ◌+◌, ◌≤◌, ◌<◌}
use mathlib.Core.Path.{◌≡◌, refl, subst}
use mathlib.Core.Logic.{◌≢◌, inl, inr}
use mathlib.Core.List.{List, [], ◌∷◌}
use mathlib.Core.Option.{Option, none, some}
use native.Mathlib.Omega.{arith}
use synology_filestation.Prelude.Tests.{ltb, ◌==◌, if◌then◌else◌, Bool-cases, if_cases, ltb→lt}
use synology_filestation.Prelude.Lists.{length}

abbrev pub Tree {ℓ} : Type ℓ → Type ℓ
Tree V = List (ℕ × V)

module _ {ℓ} {V : Type ℓ} where
  -- `get`
  unfoldable pub lookup : ℕ → Tree V → Option V
  lookup key [] = none
  lookup key ((at, value) ∷ tree) = if at == key then some value else lookup key tree

  unfoldable pub insert : ℕ → V → Tree V → Tree V
  insert key value [] = (key, value) ∷ []
  insert key value ((at, old) ∷ tree) =
      let later = insert key value tree in
      if ltb key at
      then (key, value) ∷ (at, old) ∷ tree
      else if key == at
      then (key, value) ∷ tree
      else (at, old) ∷ later

  unfoldable pub remove : ℕ → Tree V → Tree V
  remove k [] = []
  remove k ((j, v) ∷ m) = let later = remove k m in if j == k then m else (j, v) ∷ later

  -- A condition on every entry.
  abbrev pub Every {κ} : (ℕ → V → Type κ) → Tree V → Type κ
  Every P [] = Unit {κ}
  Every P ((k, v) ∷ m) = P k v × Every P m

module _ {ℓ} {V : Type ℓ} where
  abbrev pub IsSorted : Tree V → Type 0
  IsSorted [] = Unit
  IsSorted ((k, v) ∷ m) = Every (λ j _. k < j) m × IsSorted m

  pub lookup-insert :
      (key at : ℕ) (value : V) (tree : Tree V)
      → lookup at (insert key value tree) ≡ (if key == at then some value else lookup at tree)
  unfolding insert lookup
  lookup-insert key at value [] = refl
  lookup-insert key at value (entry ∷ tree) = ground (arith, lookup-insert key at value tree)

  pub Every-lookup {κ} :
      (P : ℕ → V → Type κ) (m : Tree V) (k : ℕ) (v : V) → Every P m → lookup k m ≡ some v → P k v
  unfolding lookup
  Every-lookup P [] k v h e = cc
  Every-lookup P ((j, w) ∷ m) k v h e = elim (Bool-cases (j == k)) [
    | inl same ↦ subst (λ (i : ℕ). P i v) (ground arith) (subst (P j) (ground arith) h.0)
    | inr other ↦ Every-lookup P m k v h.1 (ground arith)
  ]

  pub Every-insert {κ} :
      (P : ℕ → V → Type κ) (k : ℕ) (v : V) (m : Tree V) → P k v → Every P m → Every P (insert k v m)
  unfolding insert
  Every-insert P k v [] p h = (p, h)
  Every-insert P k v ((j, w) ∷ m) p h =
      let later = Every-insert P k v m p h.1 in
      if_cases (Every P) (ltb k j) _ _ (λ _. (p, h))
        λ _. if_cases (Every P) (k == j) _ _ (λ _. (p, h.1)) (λ _. (h.0, later))

  pub Every-remove {κ} :
      (P : ℕ → V → Type κ) (k : ℕ) (m : Tree V) → Every P m → Every P (remove k m)
  unfolding remove
  Every-remove P k [] h = h
  Every-remove P k ((j, w) ∷ m) h =
      let later = Every-remove P k m h.1 in
      if_cases (Every P) (j == k) _ _ (λ _. h.1) (λ _. (h.0, later))

  pub Every-mono {κ μ} :
      (P : ℕ → V → Type κ) (Q : ℕ → V → Type μ) (m : Tree V)
      → ((k : ℕ) (v : V) → P k v → Q k v)
      → Every P m
      → Every Q m
  Every-mono P Q [] f h = tt
  Every-mono P Q ((k, v) ∷ m) f h = (f k v h.0, Every-mono P Q m f h.1)

  pub Every-zip {κ μ} :
      (P : ℕ → V → Type κ) (Q : ℕ → V → Type μ) (m : Tree V)
      → Every P m
      → Every Q m
      → Every (λ k v. P k v × Q k v) m
  Every-zip P Q [] p q = tt
  Every-zip P Q ((k, v) ∷ m) p q = ((p.0, q.0), Every-zip P Q m p.1 q.1)

module _ {ℓ} {V : Type ℓ} where
  pub insert-IsSorted : (k : ℕ) (v : V) (m : Tree V) → IsSorted m → IsSorted (insert k v m)
  unfolding insert
  insert-IsSorted k v [] s = (tt, tt)
  insert-IsSorted k v ((j, w) ∷ m) s =
      let later = insert-IsSorted k v m s.1 in
      if_cases IsSorted (ltb k j) _ _
        (λ lt.
          let below : k < j = ltb→lt k j lt in
          ((below, Every-mono (λ i _. j < i) (λ i _. k < i) m (λ i u h. omega arith) s.0), s))
        λ ge.
          if_cases IsSorted (k == j) _ _
            (λ e. (Every-mono (λ i _. j < i) (λ i _. k < i) m (λ i u h. ground arith) s.0, s.1))
            (λ ne. (Every-insert (λ i _. j < i) k v m (ground arith) s.0, later))

  pub remove-IsSorted : (k : ℕ) (m : Tree V) → IsSorted m → IsSorted (remove k m)
  unfolding remove
  remove-IsSorted k [] s = s
  remove-IsSorted k ((j, w) ∷ m) s =
      let later = remove-IsSorted k m s.1 in
      if_cases IsSorted (j == k) _ _ (λ _. s.1) (λ _. (Every-remove (λ i _. j < i) k m s.0, later))

  pub remove-ne : (k : ℕ) (m : Tree V) → IsSorted m → Every (λ j _. j ≢ k) (remove k m)
  unfolding remove
  remove-ne k [] s = tt
  remove-ne k ((j, w) ∷ m) s =
      let later = remove-ne k m s.1 in
      if_cases (Every (λ i _. i ≢ k)) (j == k) _ _
        (λ e. Every-mono (λ i _. j < i) (λ i _. i ≢ k) m (λ i u h. ground arith) s.0)
        (λ ne. (ground arith, later))

  lookup-below : (k : ℕ) (m : Tree V) → Every (λ j _. k < j) m → lookup k m ≡ none
  unfolding lookup
  lookup-below k [] h = refl
  lookup-below k ((j, w) ∷ m) h = ground (arith, lookup-below k m h.1)

  pub lookup-remove :
      (k j : ℕ) (m : Tree V)
      → IsSorted m
      → lookup j (remove k m) ≡ (if k == j then none else lookup j m)
  unfolding lookup remove
  lookup-remove k j [] s = ground arith
  lookup-remove k j ((i, w) ∷ m) s = ground (arith, lookup-remove k j m s.1, lookup-below i m s.0)

  pub length-insert-le : (k : ℕ) (v : V) (m : Tree V) → length (insert k v m) ≤ length m + 1
  unfolding insert
  length-insert-le k v [] = omega arith
  length-insert-le k v ((j, w) ∷ m) = ground (arith, length-insert-le k v m)

  pub length-remove-le : (k : ℕ) (m : Tree V) → length (remove k m) ≤ length m
  unfolding remove
  length-remove-le k [] = omega arith
  length-remove-le k ((j, w) ∷ m) = ground (arith, length-remove-le k m)
