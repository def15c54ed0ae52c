-- ===== src/Fuse/Blocks/Awake.antt =====
-- The claims, and the slots that their waiters sleep on.
use synology_filestation.Prelude.{
  ℕ, ◌<◌, ◌≡◌, refl, sym, ◌∙◌, Bool, true, false, ◌&&◌, ◌||◌, inl, inr, some, none, List, [], ◌∷◌,
  contains, ◌==◌, Bool-cases, Option-cases, arith,
}
use mathlib.Core.Path.{subst}
use synology_filestation.Fuse.Blocks.Tables.{at_block-here, at_block-other, without_block_absent}
use synology_filestation.Fuse.Blocks.{
  Table, ReadCache, at_block, without_block, resolve, drop_blocks, resolve_all, claim_inflight,
}

-- Whether a slot stands in the table of claims.
unfoldable pub has_slot : ℕ → Table ℕ → Bool
has_slot s [] = false
has_slot s ((i, j, slot) ∷ table) = slot == s || has_slot s table

-- No block is claimed twice.
abbrev pub AreApart : Table ℕ → Type 0
AreApart [] = Unit
AreApart ((i, j, s) ∷ table) = (at_block i j table ≡ none) × AreApart table

-- Each slot that was made is that of a claim, or it is resolved.
pub record IsAwake (c : ReadCache) : Type 0 where
  pub apart : AreApart c.in_flight
  pub woken : (s : ℕ) → s < c.next_slot → has_slot s c.in_flight || contains c.resolved s ≡ true

at_block-without_block :
    (ino idx i j : ℕ) (t : Table ℕ)
    → at_block i j t ≡ none
    → at_block i j (without_block ino idx t) ≡ none
unfolding at_block without_block
at_block-without_block ino idx i j [] e = refl
at_block-without_block ino idx i j ((a, b, s) ∷ t) e =
    ground (arith, at_block-without_block ino idx i j t)

without_block-AreApart :
    (ino idx : ℕ) (t : Table ℕ) → AreApart t → AreApart (without_block ino idx t)
unfolding without_block
without_block-AreApart ino idx [] h = tt
without_block-AreApart ino idx ((i, j, s) ∷ t) h = elim (Bool-cases (i == ino && j == idx)) [
  | inl here ↦ rw here (without_block-AreApart ino idx t h.1)
  | inr other ↦
      rw other (at_block-without_block ino idx i j t h.0, without_block-AreApart ino idx t h.1)
]

-- Only the slot of the block goes.
has_slot-without_block :
    (s ino idx slot : ℕ) (t : Table ℕ)
    → AreApart t
    → at_block ino idx t ≡ some slot
    → has_slot s t ≡ true
    → has_slot s (without_block ino idx t) || slot == s ≡ true
unfolding at_block without_block has_slot
has_slot-without_block s ino idx slot [] d e h = cc
has_slot-without_block s ino idx slot ((i, j, v) ∷ t) d e h =
    elim (Bool-cases (i == ino && j == idx)) [
      | inl here ↦
          let same_ino : i ≡ ino = ground arith in
          let same_idx : j ≡ idx = ground arith in
          let nothing : at_block ino idx t ≡ none =
            subst (λ (b : ℕ). at_block ino b t ≡ none) same_idx
              (subst (λ (a : ℕ). at_block a j t ≡ none) same_ino d.0) in
          let got : some v ≡ some slot = sym (at_block-here ino idx i j v t here) ∙ e in
          let same_slot : v ≡ slot = cc in
          rw (here, without_block_absent ino idx t nothing) (ground (arith, h, same_slot))
      | inr other ↦
          let later =
            has_slot-without_block s ino idx slot t d.1
              (sym (at_block-other ino idx i j v t other) ∙ e) in
          rw other (elim (Bool-cases (has_slot s t)) [
            | inl there ↦ ground (arith, later there)
            | inr missing ↦ ground (arith, h)
          ])
    ]

pub resolve-IsAwake : (ino idx : ℕ) (c : ReadCache) → IsAwake c → IsAwake (resolve ino idx c)
unfolding resolve contains
resolve-IsAwake ino idx c h = elim (Option-cases (at_block ino idx c.in_flight)) [
  | inl e ↦ rw (e, resolve) h
  | inr (slot, e) ↦
      rw (e, resolve)
        (record {
          apart = without_block-AreApart ino idx c.in_flight h.apart;
          woken = λ s lt. woken_after slot e s (h.woken s lt);
        })
]
  where
    woken_after :
        (slot : ℕ)
        → at_block ino idx c.in_flight ≡ some slot
        → (s : ℕ) → has_slot s c.in_flight || contains c.resolved s ≡ true
        → has_slot s (without_block ino idx c.in_flight) || contains (slot ∷ c.resolved) s ≡ true
    woken_after slot e s w = elim (Bool-cases (has_slot s c.in_flight)) [
      | inl there ↦
          ground (arith, has_slot-without_block s ino idx slot c.in_flight h.apart e there)
      | inr missing ↦ ground (arith, w)
    ]

-- A change of the other tables.
pub same-IsAwake :
    (c c' : ReadCache)
    → c'.in_flight ≡ c.in_flight
    → c'.next_slot ≡ c.next_slot
    → c'.resolved ≡ c.resolved
    → IsAwake c
    → IsAwake c'
same-IsAwake c c' e f g h = record {
  apart = rw e (h.apart);
  woken = λ s lt. rw (e, g) (h.woken s (omega (arith, f)));
}

pub resolve_all-IsAwake :
    (ino : ℕ) (idxs : List ℕ) (c : ReadCache) → IsAwake c → IsAwake (resolve_all ino idxs c)
unfolding resolve_all
resolve_all-IsAwake ino [] c h = h
resolve_all-IsAwake ino (idx ∷ idxs) c h =
    resolve_all-IsAwake ino idxs (resolve ino idx c) (resolve-IsAwake ino idx c h)

pub drop_blocks-IsAwake :
    (ino : ℕ) (set : List ℕ) (c : ReadCache) → IsAwake c → IsAwake (drop_blocks ino set c)
unfolding drop_blocks
drop_blocks-IsAwake ino [] c h = h
drop_blocks-IsAwake ino (idx ∷ set) c h =
    let dropped : ReadCache = record c { blocks = without_block ino idx c.blocks } in
    drop_blocks-IsAwake ino set (resolve ino idx dropped)
      (resolve-IsAwake ino idx dropped (same-IsAwake c dropped refl refl refl h))

pub claim_inflight-IsAwake :
    (ino idx : ℕ) (c : ReadCache) → IsAwake c → IsAwake (claim_inflight ino idx c).1
unfolding claim_inflight has_slot
claim_inflight-IsAwake ino idx c h = elim (Option-cases (at_block ino idx c.in_flight)) [
  | inr (slot, e) ↦ rw (e, claim_inflight) h
  | inl e ↦
      rw (e, claim_inflight)
        (record {
          apart = (e, h.apart);
          woken = λ s lt. elim (Bool-cases (c.next_slot == s)) [
            | inl newest ↦ ground arith
            | inr older ↦ ground (arith, h.woken s (ground arith))
          ];
        })
]
