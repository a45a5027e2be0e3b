-- ===== src/Sync/Recent.antt =====
-- crates/cled-sync/src/recent.rs: a set of the most recent values. The `VecDeque` is a list, its
-- front first; the `HashSet` is the list of its members.
pub mod Window
pub mod Memory
use cled.Common.{
  Bool, Eq, List, [], contains, false, if◌then◌else◌, length, ltb, not, retain, true, ℕ, ◌++◌, ◌==◌,
  ◌∷◌,
}

pub record RecentSet {ℓ} (A : Type ℓ) : Type ℓ where
  pub order : List A
  pub members : List A
  pub capacity : ℕ

unfoldable pub new {ℓ} : {A : Type ℓ} → ℕ → RecentSet A
new capacity = record { order = []; members = []; capacity = capacity }

module _ {ℓ} {A : Type ℓ} ⦃e : Eq A⦄ where
  -- `HashSet::remove`.
  unfoldable pub remove : List A → A → List A
  remove members a = retain (λ x. not (x == a)) members

  -- `pop_front`, and the removal of what it popped from the members.
  unfoldable pub forget_oldest : RecentSet A → RecentSet A
  forget_oldest s = elim s.order [
    | [] ↦ s
    | oldest ∷ rest ↦ record s { order = rest; members = remove s.members oldest }
  ]

  -- The set after the call, and whether the value was new.
  unfoldable pub insert : RecentSet A → A → RecentSet A × Bool
  insert s value =
      let pushed : RecentSet A = record s {
        order = s.order ++ value ∷ [];
        members = value ∷ s.members;
      } in
      if contains s.members value
      then (s, false)
      else if ltb s.capacity (length pushed.order)
      then (forget_oldest pushed, true)
      else (pushed, true)
