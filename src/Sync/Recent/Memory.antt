-- ===== src/Sync/Recent/Memory.antt =====
-- How long the recent set remembers a value.
use mathlib.Core.Bool.{false≢true}
use mathlib.Core.List.{append_assoc}
use cled.Common.{
  Bool-cases, Eq, List, [], ap, arith, beq_refl, contains, contains-append, false, inl, inr, length,
  length-append, refl, sym, true, ℕ, ◌++◌, ◌+◌, ◌-◌, ◌<◌, ◌∙◌, ◌∷◌, ◌≡◌, ◌≤◌,
}
use cled.Sync.Recent.{RecentSet, insert, new, forget_oldest}
use cled.Sync.Recent.Window.{
  IsValid, insert-IsValid, room-or-full, insert_old, insert_room, pushed, insert_full,
}

pub new-IsValid {ℓ} : {A : Type ℓ} ⦃e : Eq A⦄ (capacity : ℕ) → IsValid {A = A} (new capacity)
unfolding new
new-IsValid capacity = record { agree = λ a. refl; distinct = tt; bounded = omega arith }

module _ {ℓ} {A : Type ℓ} ⦃e : Eq A⦄ where
  -- The set after a list of insertions.
  unfoldable pub insert_all : RecentSet A → List A → RecentSet A
  insert_all s [] = s
  insert_all s (v ∷ vs) = insert_all (insert s v).0 vs

  -- The value stands in the queue, with at most `k` values behind it.
  record HoldsAt (s : RecentSet A) (v : A) (k : ℕ) : Type ℓ where
    before : List A
    behind : List A
    place : s.order ≡ before ++ v ∷ behind
    few : length behind ≤ k

  holds_member :
      (s : RecentSet A) (v : A) (k : ℕ) → IsValid s → HoldsAt s v k → contains s.members v ≡ true
  holds_member s v k h at = ground (
    arith,
    h.agree v,
    ap (λ l. contains l v) at.place,
    contains-append at.before (v ∷ at.behind) v,
    beq_refl v,
  )

  HoldsAt-full :
      (s : RecentSet A) (v : A) (k : ℕ) (before behind : List A) (y : A) (ys members : List A)
      → before ++ v ∷ behind ≡ y ∷ ys
      → length behind ≤ k
      → k ≤ length ys - 1
      → 0 < length ys
      → HoldsAt (record s { order = ys; members = members }) v k
  HoldsAt-full s v k [] behind y ys members e' few lt pos = absurd (omega (arith, ap length e'))
  HoldsAt-full s v k (b ∷ before) behind y ys members e' few lt pos = record {
    before = before;
    behind = behind;
    place = cc;
    few = few;
  }

  HoldsAt-insert :
      (s : RecentSet A) (v w : A) (k : ℕ)
      → IsValid s
      → HoldsAt s v k
      → k + 1 < s.capacity
      → HoldsAt (insert s w).0 v (k + 1)
  HoldsAt-insert s v w k h at lt = elim (Bool-cases (contains s.members w)) [
    | inl old ↦
        rw (insert_old s w old)
          (record { before = at.before; behind = at.behind; place = at.place; few = omega arith })
    | inr fresh ↦
        let grown : s.order ++ w ∷ [] ≡ at.before ++ v ∷ (at.behind ++ w ∷ []) =
          ap (λ l. l ++ w ∷ []) at.place ∙ append_assoc at.before (v ∷ at.behind) (w ∷ []) in
        let few : length (at.behind ++ w ∷ []) ≤ k + 1 =
          omega (arith, at.few, length-append at.behind (w ∷ [])) in
        elim (room-or-full s) [
          | inl room ↦ rw (insert_room s w fresh room) (record {
            before = at.before;
            behind = at.behind ++ w ∷ [];
            place = grown;
            few = few;
          })
          | inr full ↦
              let (y, ys, p) = pushed s w h fresh in
              rw (insert_full s w y ys fresh p.cases full) (
                HoldsAt-full s v (k + 1) at.before (at.behind ++ w ∷ []) y ys _
                  (sym grown ∙ p.cases) few (omega (arith, p.count)) (omega (arith, p.count)))
        ]
  ]

  capacity-insert : (s : RecentSet A) (w : A) → (insert s w).0.capacity ≡ s.capacity
  unfolding insert forget_oldest
  capacity-insert s w = ground arith

  insert_all-holds :
      (vs : List A) (s : RecentSet A) (v : A) (k : ℕ)
      → IsValid s
      → HoldsAt s v k
      → k + length vs < s.capacity
      → contains (insert_all s vs).members v ≡ true
  unfolding insert_all
  insert_all-holds [] s v k h at lt = holds_member s v k h at
  insert_all-holds (w ∷ vs) s v k h at lt =
      insert_all-holds vs (insert s w).0 v (k + 1) (insert-IsValid s w h)
        (HoldsAt-insert s v w k h at (omega arith)) (omega (arith, capacity-insert s w))

  HoldsAt-insert_self :
      (s : RecentSet A) (v : A)
      → IsValid s
      → contains s.members v ≡ false
      → 0 < s.capacity
      → HoldsAt (insert s v).0 v 0
  HoldsAt-insert_self s v h fresh pos = elim (room-or-full s) [
    | inl room ↦
        rw (insert_room s v fresh room)
          (record { before = s.order; behind = []; place = refl; few = omega arith })
    | inr full ↦
        let (y, ys, p) = pushed s v h fresh in
        rw (insert_full s v y ys fresh p.cases full) (
          HoldsAt-full s v 0 s.order [] y ys _ p.cases (omega arith) (omega arith)
            (omega (arith, p.count)))
  ]

  -- After a new value come fewer insertions than the capacity, of any values: the value is still
  -- reported as present.
  pub insert-insert_all :
      (s : RecentSet A) (v : A) (vs : List A)
      → IsValid s
      → (insert s v).1 ≡ true
      → length vs < s.capacity
      → (insert (insert_all (insert s v).0 vs) v).1 ≡ false
  insert-insert_all s v vs h fresh few = elim (Bool-cases (contains s.members v)) [
    | inl old ↦ absurd (false≢true (sym (ap (λ r. r.1) (insert_old s v old)) ∙ fresh))
    | inr absent ↦
        ap (λ r. r.1)
          (insert_old (insert_all (insert s v).0 vs) v (
            insert_all-holds vs (insert s v).0 v 0 (insert-IsValid s v h)
              (HoldsAt-insert_self s v h absent (omega arith))
              (omega (arith, capacity-insert s v))))
  ]

  pub insert_all-append :
      (us vs : List A) (s : RecentSet A) → insert_all s (us ++ vs) ≡ insert_all (insert_all s us) vs
  unfolding insert_all
  insert_all-append [] vs s = refl
  insert_all-append (u ∷ us) vs s = insert_all-append us vs (insert s u).0
