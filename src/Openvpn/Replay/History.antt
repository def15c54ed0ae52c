-- ===== src/Openvpn/Replay/History.antt =====
-- What a replay window promises, over the list of the packets accepted so far.
use synology_filestation.Prelude.{
  ℕ, ◌-◌, ◌≤◌, ◌<◌, ◌≡◌, refl, Bool, true, false, ltb, ◌==◌, if◌then◌else◌, ◌&&◌, ◌||◌, not, List,
  [], ◌∷◌, max, arith,
}
use synology_filestation.Openvpn.Replay.{window}

-- A packet's id and the sender's clock.
abbrev pub Stamp : Type 0
Stamp = ℕ × ℕ

unfoldable pub accepted : List Stamp → ℕ → ℕ → Bool
accepted [] id time = false
accepted ((i, s) ∷ h) id time = (i == id && s == time) || accepted h id time

-- The latest clock among the accepted packets.
unfoldable pub latest : List Stamp → ℕ
latest [] = 0
latest ((i, s) ∷ h) = max s (latest h)

-- The highest id accepted at a clock.
unfoldable pub top : ℕ → List Stamp → ℕ
top time [] = 0
top time ((i, s) ∷ h) = max (if s == time then i else 0) (top time h)

-- Whether a packet is to be accepted: by a clock that moved on, by an id above all others of its
-- clock, or by an id at most 63 below the highest that has not been accepted.
unfoldable pub fresh : List Stamp → ℕ → ℕ → Bool
fresh h id time =
    not (id == 0)
    && (ltb (latest h) time
        || (time == latest h
            && (ltb (top time h) id || (ltb (top time h - id) window && not (accepted h id time)))))

unfoldable pub Distinct : List Stamp → Type 0
Distinct [] = Unit
Distinct ((i, s) ∷ h) = (accepted h i s ≡ false) × Distinct h

pub accepted-le-latest :
    (h : List Stamp) (id time : ℕ) → accepted h id time ≡ true → time ≤ latest h
unfolding accepted latest
accepted-le-latest [] id time e = absurd (ground arith)
accepted-le-latest ((i, s) ∷ h) id time e = ground (arith, accepted-le-latest h id time)

pub accepted-le-top : (h : List Stamp) (id time : ℕ) → accepted h id time ≡ true → id ≤ top time h
unfolding accepted top
accepted-le-top [] id time e = absurd (ground arith)
accepted-le-top ((i, s) ∷ h) id time e = ground (arith, accepted-le-top h id time)

pub top-eq-zero : (h : List Stamp) (time : ℕ) → latest h < time → top time h ≡ 0
unfolding latest top
top-eq-zero [] time lt = refl
top-eq-zero ((i, s) ∷ h) time lt = ground (arith, top-eq-zero h time (omega arith))

-- What was accepted is not fresh again.
pub fresh_once :
    (h : List Stamp) (id time : ℕ) → accepted h id time ≡ true → fresh h id time ≡ false
unfolding fresh
fresh_once h id time e = ground (arith, accepted-le-latest h id time e, accepted-le-top h id time e)
