-- ===== src/Openvpn/Replay/Refine.antt =====
-- The window refines the history of accepted packets.
use synology_filestation.Prelude.{
  ℕ, ◌-◌, ◌*◌, ◌%◌, ◌^◌, ◌≤◌, ◌<◌, ◌≡◌, refl, Bool, false, leb, if◌then◌else◌, List, [], ◌∷◌, arith,
  bit_or,
}
use synology_filestation.Prelude.Bits.{
  bit, bit-zero, bit-one, bit-bit_or, bit-mul-pow, bit-pow, bit-mod, bit_and-pow_eq_zero_iff,
}
use synology_filestation.Openvpn.Replay.{window, ReplayWindow, new, accept}
use synology_filestation.Openvpn.Replay.History.{
  Stamp, accepted, latest, top, fresh, Distinct, accepted-le-latest, accepted-le-top, top-eq-zero,
}

-- Bit `b` of `seen` says whether the id `b` below the highest was accepted at the window's clock.
pub record Refines (w : ReplayWindow) (h : List Stamp) : Type 0 where
  pub time : w.time ≡ latest h
  pub highest : w.highest ≡ top w.time h
  pub nonzero : (s : ℕ) → accepted h 0 s ≡ false
  pub bits :
      (b : ℕ) → b < window → bit b w.seen ≡ (if accepted h (w.highest - b) w.time then 1 else 0)

pub Refines-new : Refines new []
unfolding accepted latest top
Refines-new = record { time = refl; highest = refl; nonzero = λ s. refl; bits = λ b lt. bit-zero b }

-- The history after a packet with this verdict.
unfoldable pub remember : Bool → ℕ → ℕ → List Stamp → List Stamp
remember verdict id time h = if verdict then (id, time) ∷ h else h

-- The verdict is what the history demands, and the window goes on refining it.
pub accept-fresh :
    (w : ReplayWindow) (h : List Stamp) (id time : ℕ)
    → Refines w h
    → (accept w id time).1 ≡ fresh h id time
unfolding accept fresh
accept-fresh w h id time r = ground (
  arith,
  r.time,
  r.highest,
  r.bits (w.highest - id),
  bit_and-pow_eq_zero_iff w.seen (w.highest - id),
  accepted-le-top h id time,
)

-- One lemma for each way in which a packet is accepted.
module _ (w : ReplayWindow) (h : List Stamp) (id time : ℕ) (r : Refines w h) (pos : 0 < id) where
  later_clock :
      w.time < time → Refines (record { time = time; highest = id; seen = 1 }) ((id, time) ∷ h)
  unfolding accepted latest top
  later_clock lt = record {
    time = omega (arith, r.time);
    highest = ground (arith, r.time, top-eq-zero h time);
    nonzero = λ s. ground (arith, r.nonzero s);
    bits = λ b small. ground (arith, bit-one b, r.time, accepted-le-latest h (id - b) time);
  }

  higher_id :
      time ≡ w.time
      → w.highest < id
      → Refines
          (record w {
            seen =
                if leb 64 (id - w.highest)
                then 1
                else bit_or (w.seen * 2 ^ (id - w.highest) % 2 ^ 64) 1;
            highest = id;
          })
          ((id, time) ∷ h)
  unfolding accepted latest top
  higher_id same lt = record {
    time = omega (arith, r.time);
    highest = ground (arith, r.highest);
    nonzero = λ s. ground (arith, r.nonzero s);
    bits = λ b small. ground (
      arith,
      bit-one b,
      r.highest,
      accepted-le-top h (id - b) w.time,
      bit-bit_or b (w.seen * 2 ^ (id - w.highest) % 2 ^ 64) 1,
      bit-mod b (w.seen * 2 ^ (id - w.highest)) 64,
      bit-mul-pow b w.seen (id - w.highest),
      r.bits (b - (id - w.highest)),
    );
  }

  within_window :
      time ≡ w.time
      → id ≤ w.highest
      → w.highest - id < window
      → Refines (record w { seen = bit_or w.seen (2 ^ (w.highest - id)) }) ((id, time) ∷ h)
  unfolding accepted latest top
  within_window same le lt = record {
    time = omega (arith, r.time);
    highest = ground (arith, r.highest);
    nonzero = λ s. ground (arith, r.nonzero s);
    bits = λ b small. ground (
      arith,
      bit-bit_or b w.seen (2 ^ (w.highest - id)),
      bit-pow b (w.highest - id),
      r.bits b,
      r.nonzero w.time,
    );
  }

-- A step keeps the refinement, on every branch.
pub accept-Refines :
    (w : ReplayWindow) (h : List Stamp) (id time : ℕ)
    → Refines w h
    → Refines (accept w id time).0 (remember (accept w id time).1 id time h)
unfolding accept remember
accept-Refines w h id time r =
    ground (arith, later_clock w h id time r, higher_id w h id time r, within_window w h id time r)

-- The window offered a sequence of packets, with the packets it accepted, the latest first.
unfoldable pub offer_all : ReplayWindow → List Stamp → List Stamp → ReplayWindow × List Stamp
offer_all w h [] = (w, h)
offer_all w h ((id, time) ∷ rest) =
    let (w', verdict) = accept w id time in offer_all w' (remember verdict id time h) rest

pub offer_all-Refines :
    (w : ReplayWindow) (h packets : List Stamp)
    → Refines w h
    → Refines (offer_all w h packets).0 (offer_all w h packets).1
unfolding offer_all
offer_all-Refines w h [] r = r
offer_all-Refines w h ((id, time) ∷ rest) r =
    offer_all-Refines (accept w id time).0 (remember (accept w id time).1 id time h) rest
      (accept-Refines w h id time r)

remember-Distinct :
    (w : ReplayWindow) (h : List Stamp) (id time : ℕ)
    → Refines w h
    → Distinct h
    → Distinct (remember (accept w id time).1 id time h)
unfolding remember Distinct fresh
remember-Distinct w h id time r d =
    rw (accept-fresh w h id time r)
      (ground (arith, accepted-le-latest h id time, accepted-le-top h id time))

pub offer_all-Distinct :
    (w : ReplayWindow) (h packets : List Stamp)
    → Refines w h
    → Distinct h
    → Distinct (offer_all w h packets).1
unfolding offer_all
offer_all-Distinct w h [] r d = d
offer_all-Distinct w h ((id, time) ∷ rest) r d =
    offer_all-Distinct (accept w id time).0 (remember (accept w id time).1 id time h) rest
      (accept-Refines w h id time r) (remember-Distinct w h id time r d)

-- A new replay window, offered any sequence of packets, gives to the next packet the verdict that
-- the history of accepted packets demands: accept a clock that moved on, an id above all others of
-- its clock, and an id less than 64 below the highest that was not accepted before; never the id
-- 0.
pub verdict_after :
    (packets : List Stamp) (id time : ℕ)
    → (accept (offer_all new [] packets).0 id time).1 ≡ fresh (offer_all new [] packets).1 id time
verdict_after packets id time =
    accept-fresh (offer_all new [] packets).0 (offer_all new [] packets).1 id time
      (offer_all-Refines new [] packets Refines-new)

-- A new replay window, offered any sequence of packets, accepts no packet id twice at one clock.
pub no_replay : (packets : List Stamp) → Distinct (offer_all new [] packets).1
no_replay packets = offer_all-Distinct new [] packets Refines-new (unfold Distinct in tt)
