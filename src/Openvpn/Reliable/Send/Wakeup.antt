-- ===== src/Openvpn/Reliable/Send/Wakeup.antt =====
-- The time that `next_wakeup` gives is the time from which `next_due` has something.
use synology_filestation.Prelude.{
  ℕ, ◌≤◌, ◌≡◌, refl, ap, ◌∙◌, Bool, true, false, Option, some, none, [], ◌∷◌, leb, arith,
  Option-cases, inl, inr,
}
use synology_filestation.Prelude.Tree.{Tree}
use synology_filestation.Openvpn.Reliable.Send.{
  InFlight, SendWindow, is_due, wake, soonest, next_wakeup, send_first, next_due,
}

abbrev pub is_some {ℓ} : {A : Type ℓ} → Option A → Bool
is_some none = false
is_some (some a) = true

is_due-wake : (e : InFlight) (now u : ℕ) → now ≤ u → is_due e u ≡ leb (wake e now) u
unfolding is_due wake
is_due-wake e now u h = ground arith

wake-le : (e : InFlight) (now : ℕ) → now ≤ wake e now
unfolding wake is_due
wake-le e now = ground arith

-- Whether anything is due, in terms of the soonest time.
abbrev pub reached : Option ℕ → ℕ → Bool
reached none u = false
reached (some t) u = leb t u

due-reached :
    (now u : ℕ) (m : Tree InFlight)
    → now ≤ u
    → is_some (send_first u m).0 ≡ reached (soonest now m) u
unfolding send_first soonest
due-reached now u [] h = refl
due-reached now u ((id, e) ∷ m) h = ground (arith, is_due-wake e now u, due-reached now u m h)

soonest-le : (now : ℕ) (m : Tree InFlight) (t : ℕ) → soonest now m ≡ some t → now ≤ t
unfolding soonest
soonest-le now [] t e = cc
soonest-le now ((id, e) ∷ m) t eq = elim (Option-cases (soonest now m)) [
  | inl n ↦ ground (arith, wake-le e now)
  | inr (t', s) ↦ ground (arith, wake-le e now, soonest-le now m t' s)
]

pub next_due-reached :
    (w : SendWindow) (now u : ℕ)
    → now ≤ u
    → is_some (next_due w u).1 ≡ reached (next_wakeup w now) u
unfolding next_wakeup next_due
next_due-reached w now u h = due-reached now u w.in_flight h

-- If `next_wakeup` gives a time, that time is not before `now`, and at every time from `now` on
-- `next_due` has a message exactly if the time given has come.
pub next_wakeup-next_due :
    (w : SendWindow) (now t : ℕ)
    → next_wakeup w now ≡ some t
    → (now ≤ t) × ((u : ℕ) → now ≤ u → is_some (next_due w u).1 ≡ leb t u)
unfolding next_wakeup next_due
next_wakeup-next_due w now t e = (
  soonest-le now w.in_flight t e,
  λ u h. due-reached now u w.in_flight h ∙ ap (λ o. reached o u) e,
)

-- `next_wakeup` gives no time exactly when nothing is in flight.
pub next_wakeup-none :
    (w : SendWindow) (now : ℕ)
    → (next_wakeup w now ≡ none → w.in_flight ≡ []) × (w.in_flight ≡ [] → next_wakeup w now ≡ none)
unfolding next_wakeup soonest
next_wakeup-none w now = ground arith
