-- ===== src/Sync/Recent/Window.antt =====
-- The recent set against its specification: the last values inserted, in order.
use cled.Common.{
  Bool-cases, Distinct, Eq, List, [], ap, arith, contains, contains-append, drop, false,
  if◌then◌else◌, inl, inr, length, length-append, not, refl, subst, sym, true, ℕ, ◌++◌, ◌+◌, ◌-◌,
  ◌<◌, ◌==◌, ◌∙◌, ◌∷◌, ◌≡◌, ◌≤◌, ◌⊎◌,
}
use cled.Sync.Recent.{RecentSet, remove, insert, forget_oldest}

module _ {ℓ} {A : Type ℓ} ⦃e : Eq A⦄ where
  -- The queue and the set hold the same values, none twice, and no more than the capacity.
  pub record IsValid (s : RecentSet A) : Type ℓ where
    pub agree : (a : A) → contains s.members a ≡ contains s.order a
    pub distinct : Distinct s.order
    pub bounded : length s.order ≤ s.capacity

  contains-remove :
      (xs : List A) (x a : A) → contains (remove xs x) a ≡ (if x == a then false else contains xs a)
  unfolding remove
  contains-remove [] x a = ground arith
  contains-remove (y ∷ ys) x a =
      ground (arith, e.eq_iff y x, e.eq_iff y a, e.eq_iff x a, contains-remove ys x a)

  Distinct-snoc :
      (xs : List A) (a : A) → Distinct xs → contains xs a ≡ false → Distinct (xs ++ a ∷ [])
  Distinct-snoc [] a d h = (refl, tt)
  Distinct-snoc (x ∷ xs) a d h = (
    ground (arith, contains-append xs (a ∷ []) x, e.eq_iff x a, e.eq_iff a x),
    Distinct-snoc xs a d.1 (ground arith),
  )

  push_cases : (xs : List A) (a : A) → (y : A) × (ys : List A) × (xs ++ a ∷ [] ≡ y ∷ ys)
  push_cases [] a = (a, [], refl)
  push_cases (x ∷ xs) a = (x, xs ++ a ∷ [], refl)

  -- What is known of the queue after a new value is pushed.
  pub record Pushed (s : RecentSet A) (v : A) (y : A) (ys : List A) : Type ℓ where
    pub cases : s.order ++ v ∷ [] ≡ y ∷ ys
    pub fresh : contains s.order v ≡ false
    pub distinct : Distinct (y ∷ ys)
    pub count : length s.order + 1 ≡ length ys + 1

  pub pushed :
      (s : RecentSet A) (v : A)
      → IsValid s
      → contains s.members v ≡ false
      → (y : A) × (ys : List A) × Pushed s v y ys
  pushed s v h new =
      let (y, ys, e') = push_cases s.order v in
      let fresh = sym (h.agree v) ∙ new in
      (
        y,
        ys,
        record {
          cases = e';
          fresh = fresh;
          distinct = subst Distinct e' (Distinct-snoc s.order v h.distinct fresh);
          count = omega (arith, ap length e', length-append s.order (v ∷ []));
        },
      )

  pub insert_old : (s : RecentSet A) (v : A) → contains s.members v ≡ true → insert s v ≡ (s, false)
  unfolding insert
  insert_old s v old = rw old

  pub insert_room :
      (s : RecentSet A) (v : A)
      → contains s.members v ≡ false
      → length s.order + 1 ≤ s.capacity
      → insert s v ≡ (record s { order = s.order ++ v ∷ []; members = v ∷ s.members }, true)
  unfolding insert
  insert_room s v new room = ground (arith, length-append s.order (v ∷ []))

  pub insert_full :
      (s : RecentSet A) (v y : A) (ys : List A)
      → contains s.members v ≡ false
      → s.order ++ v ∷ [] ≡ y ∷ ys
      → s.capacity < length s.order + 1
      → insert s v ≡ (record s { order = ys; members = remove (v ∷ s.members) y }, true)
  unfolding insert forget_oldest
  insert_full s v y ys new e' full =
      rw (new, e') (ground (arith, ap length e', length-append s.order (v ∷ [])))

  room-IsValid :
      (s : RecentSet A) (v : A)
      → IsValid s
      → contains s.members v ≡ false
      → length s.order + 1 ≤ s.capacity
      → IsValid (record s { order = s.order ++ v ∷ []; members = v ∷ s.members })
  room-IsValid s v h new room = record {
    agree = λ a. ground (arith, contains-append s.order (v ∷ []) a, h.agree a);
    distinct = Distinct-snoc s.order v h.distinct (sym (h.agree v) ∙ new);
    bounded = omega (arith, length-append s.order (v ∷ []));
  }

  full-IsValid :
      (s : RecentSet A) (v y : A) (ys : List A)
      → IsValid s
      → Pushed s v y ys
      → s.capacity < length s.order + 1
      → IsValid (record s { order = ys; members = remove (v ∷ s.members) y })
  full-IsValid s v y ys h p full = record {
    agree = λ a.
        contains-remove (v ∷ s.members) y a
        ∙ ground (
          arith,
          contains-append s.order (v ∷ []) a,
          ap (λ l. contains l a) p.cases,
          h.agree a,
          p.distinct,
          e.eq_iff y a,
        );
    distinct = p.distinct.1;
    bounded = omega (arith, p.count, h.bounded);
  }

  pub room-or-full :
      (s : RecentSet A) → (length s.order + 1 ≤ s.capacity) ⊎ (s.capacity < length s.order + 1)
  room-or-full s = grind arith

  -- The set stays valid, whichever value comes.
  pub insert-IsValid : (s : RecentSet A) (v : A) → IsValid s → IsValid (insert s v).0
  insert-IsValid s v h = elim (Bool-cases (contains s.members v)) [
    | inl old ↦ rw (insert_old s v old) h
    | inr new ↦ elim (room-or-full s) [
      | inl room ↦ rw (insert_room s v new room) (room-IsValid s v h new room)
      | inr full ↦
          let (y, ys, p) = pushed s v h new in
          rw (insert_full s v y ys new p.cases full) (full-IsValid s v y ys h p full)
    ]
  ]

  -- A value that is missing stays missing while others are inserted.
  pub insert_absent :
      (s : RecentSet A) (v a : A)
      → contains s.members a ≡ false
      → (v == a) ≡ false
      → contains (insert s v).0.members a ≡ false
  unfolding insert forget_oldest
  insert_absent s v a absent other =
      let (y, ys, e') = push_cases s.order v in
      rw (e', insert, forget_oldest)
        (ground (arith, contains-remove (v ∷ s.members) y a, absent, other))

  pub insert_fresh : (s : RecentSet A) (v : A) → (insert s v).1 ≡ not (contains s.members v)
  unfolding insert
  insert_fresh s v = ground arith

  -- The last `n` values of a list.
  abbrev pub last : ℕ → List A → List A
  last n xs = drop (length xs - n) xs

  -- The specification: a new value is noted, and the newest `capacity` are kept.
  abbrev pub note : ℕ → List A → A → List A
  note capacity xs v = if contains xs v then xs else last capacity (xs ++ v ∷ [])

  last_all : (n : ℕ) (xs : List A) → length xs ≤ n → last n xs ≡ xs
  last_all n xs h = let none_over : length xs - n ≡ 0 = omega arith in ap (λ k. drop k xs) none_over

  last_tail : (n : ℕ) (x : A) (xs : List A) → length xs ≡ n → last n (x ∷ xs) ≡ xs
  last_tail n x xs h =
      let one_over : length (x ∷ xs) - n ≡ 1 = omega arith in ap (λ k. drop k (x ∷ xs)) one_over

  -- An insertion reports whether the value was missing, and leaves the window of the newest values.
  pub insert-note :
      (s : RecentSet A) (v : A)
      → IsValid s
      → ((insert s v).0.order ≡ note s.capacity s.order v)
        × ((insert s v).1 ≡ not (contains s.order v))
  insert-note s v h = elim (Bool-cases (contains s.members v)) [
    | inl old ↦ rw (insert_old s v old) (ground (arith, h.agree v))
    | inr new ↦ elim (room-or-full s) [
      | inl room ↦ rw (insert_room s v new room) (
          ground (
            arith,
            h.agree v,
            last_all s.capacity (s.order ++ v ∷ []),
            length-append s.order (v ∷ []),
          ))
      | inr full ↦
          let (y, ys, p) = pushed s v h new in
          rw (insert_full s v y ys new p.cases full) (
            ground (
              arith,
              h.agree v,
              p.cases,
              h.bounded,
              p.count,
              ap (last s.capacity) p.cases,
              last_tail s.capacity y ys,
            ))
    ]
  ]
