-- ===== src/Clipboard/Service/Bursts.antt =====
-- Bursts of notifications in crates/cled-clipboard/src/service.rs.
use cled.Common.{List, [], ap, arith, min, refl, ℕ, ◌+◌, ◌∷◌, ◌≡◌, ◌≤◌}
use cled.Clipboard.Service.{Schedule, notified, notify_debounce}

abbrev notified_all : Schedule → List ℕ → Schedule
notified_all s [] = s
notified_all s (t ∷ ts) = notified_all (notified s t) ts

abbrev AreAfter : ℕ → List ℕ → Type 0
AreAfter t [] = Unit {0}
AreAfter t (u ∷ us) = (t ≤ u) × AreAfter t us

notified_same : (s : Schedule) (t : ℕ) → s.next ≤ t + notify_debounce → notified s t ≡ s
unfolding notified
notified_same s t h =
    let same : min s.next (t + notify_debounce) ≡ s.next = omega arith in
    ap (λ n. record s { next = n }) same

notified_all_same :
    (ts : List ℕ) (s : Schedule) (t : ℕ)
    → s.next ≤ t + notify_debounce
    → AreAfter t ts
    → notified_all s ts ≡ s
notified_all_same [] s t h after = refl
notified_all_same (u ∷ us) s t h (le, after) =
    rw (notified_same s u (omega arith)) (notified_all_same us s t h after)

-- A burst of notifications is one: those after the first change nothing of when the next check comes,
-- so it comes 25 ms after the first at the latest, and no notification puts it off.
notified_all-burst :
    (s : Schedule) (t : ℕ) (ts : List ℕ)
    → AreAfter t ts
    → (notified_all s (t ∷ ts) ≡ notified s t)
      × ((notified_all s (t ∷ ts)).next ≤ t + notify_debounce)
      × ((notified_all s (t ∷ ts)).next ≤ s.next)
unfolding notified
notified_all-burst s t ts after =
    let same = notified_all_same ts (notified s t) t (omega arith) after in
    (same, rw same (omega arith), rw same (omega arith))
