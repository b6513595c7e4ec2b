-- ===== src/Common/Rows.antt =====
-- Membership in the rows that WHERE, ORDER BY and UPDATE give, and predicates on all rows.
use mathlib.Core.Path.{◌≡◌, refl, sym, subst}
use mathlib.Core.Logic.{◌⊎◌, inl, inr, ◌≢◌}
use mathlib.Core.Bool.{Bool, true, false}
use mathlib.Core.List.{List, [], ◌∷◌}
use mathlib.Core.Option.{none, some}
use native.Mathlib.Omega.{arith}
use taskflow.Common.Tests.{Bool-cases}
use taskflow.Common.Lists.{In, here, there, first, rows_where, exists_where, insert_by, order_by}

module _ {ℓ} {A : Type ℓ} where
  pub In-cons : {a x : A} {xs : List A} → In a (x ∷ xs) → (a ≡ x) ⊎ In a xs
  In-cons (here e) = inl e
  In-cons (there m) = inr m

  pub not-In-nil : {a : A} → ¬ In a []
  not-In-nil m = elim m [ ]

  pub mem-rows_where :
      (p : A → Bool) {a : A} (xs : List A) → In a (rows_where p xs) → In a xs × (p a ≡ true)
  unfolding rows_where
  mem-rows_where p [] m = absurd (not-In-nil m)
  mem-rows_where p {a} (x ∷ xs) m = elim (Bool-cases (p x)) [
    | inl e ↦ elim (In-cons (rw e at m)) [
      | inl h ↦ (here h, subst (λ y. p y ≡ true) (sym h) e)
      | inr t ↦ let r = mem-rows_where p xs t in (there r.0, r.1)
    ]
    | inr e ↦ let r = mem-rows_where p xs (rw e at m) in (there r.0, r.1)
  ]

  pub rows_where-mem :
      (p : A → Bool) {a : A} {xs : List A} → In a xs → p a ≡ true → In a (rows_where p xs)
  unfolding rows_where
  rows_where-mem p (here {xs = xs} e) h = rw (← e, h) (here refl)
  rows_where-mem p (there {x = x} {xs = xs} m) h = elim (Bool-cases (p x)) [
    | inl e ↦ rw e (there (rows_where-mem p m h))
    | inr e ↦ rw e (rows_where-mem p m h)
  ]

  pub exists_where-mem :
      (p : A → Bool) {a : A} {xs : List A} → In a xs → p a ≡ true → exists_where p xs ≡ true
  unfolding exists_where
  exists_where-mem p (here {x = x} {xs = xs} e) h = rw (← e, h)
  exists_where-mem p (there {x = x} {xs = xs} m) h = ground (arith, exists_where-mem p m h)

  pub mem-exists_where :
      (p : A → Bool) (xs : List A) → exists_where p xs ≡ true → (a : A) × In a xs × (p a ≡ true)
  unfolding exists_where
  mem-exists_where p [] h = cc
  mem-exists_where p (x ∷ xs) h = elim (Bool-cases (p x)) [
    | inl e ↦ (x, here refl, e)
    | inr e ↦ let r = mem-exists_where p xs (ground arith) in (r.0, there r.1, r.2)
  ]

  pub mem-insert_by :
      (before : A → A → Bool) {a : A} (x : A) (ys : List A)
      → In a (insert_by before x ys)
      → (a ≡ x) ⊎ In a ys
  unfolding insert_by
  mem-insert_by before x [] m = In-cons m
  mem-insert_by before x (y ∷ ys) m = elim (Bool-cases (before y x)) [
    | inl e ↦ elim (In-cons (rw e at m)) [
      | inl h ↦ inr (here h)
      | inr t ↦ elim (mem-insert_by before x ys t) [ inl h ↦ inl h | inr t' ↦ inr (there t') ]
    ]
    | inr e ↦ In-cons (rw e at m)
  ]

  pub insert_by-mem :
      (before : A → A → Bool) {a : A} (x : A) (ys : List A)
      → (a ≡ x) ⊎ In a ys
      → In a (insert_by before x ys)
  unfolding insert_by
  insert_by-mem before x [] (inl h) = here h
  insert_by-mem before x [] (inr m) = absurd (not-In-nil m)
  insert_by-mem before {a} x (y ∷ ys) m = elim (Bool-cases (before y x)) [
    | inl e ↦ rw e (elim m [
      | inl h ↦ there (insert_by-mem before x ys (inl h))
      | inr t ↦ elim (In-cons t) [
        | inl h ↦ here h
        | inr t' ↦ there (insert_by-mem before x ys (inr t'))
      ]
    ])
    | inr e ↦ rw e (elim m [ inl h ↦ here h | inr t ↦ there t ])
  ]

  pub mem-order_by :
      (before : A → A → Bool) {a : A} (xs : List A) → In a (order_by before xs) → In a xs
  unfolding order_by
  mem-order_by before [] m = m
  mem-order_by before (x ∷ xs) m = elim (mem-insert_by before x (order_by before xs) m) [
    | inl h ↦ here h
    | inr t ↦ there (mem-order_by before xs t)
  ]

  pub order_by-mem :
      (before : A → A → Bool) {a : A} {xs : List A} → In a xs → In a (order_by before xs)
  unfolding order_by
  order_by-mem before (here {x = x} {xs = xs} h) = insert_by-mem before x _ (inl h)
  order_by-mem before (there {x = x} {xs = xs} m) =
      insert_by-mem before x _ (inr (order_by-mem before m))

  pub first-mem : (xs : List A) {a : A} → first xs ≡ some a → In a xs
  first-mem [] h = cc
  first-mem (x ∷ xs) h = here (ground arith)

  nonempty-insert_by :
      (before : A → A → Bool) (x : A) (ys : List A) → first (insert_by before x ys) ≢ none
  unfolding insert_by
  nonempty-insert_by before x [] = λ e. cc
  nonempty-insert_by before x (y ∷ ys) = ground arith

  pub first-order_by-none :
      (before : A → A → Bool) (xs : List A) → first (order_by before xs) ≡ none → xs ≡ []
  unfolding order_by
  first-order_by-none before [] e = refl
  first-order_by-none before (x ∷ xs) e = absurd (nonempty-insert_by before x _ e)

  -- No row of `xs` comes strictly before `b`.
  abbrev pub Least : (A → A → Bool) → A → List A → Type ℓ
  Least before b xs = (a : A) → In a xs → before a b ≡ false

module _ {ℓ} {A : Type ℓ} (before : A → A → Bool) where
  -- A strict weak order, as the comparisons of an ORDER BY are.
  pub record IsStrictWeak : Type ℓ where
    pub irrefl : (a : A) → before a a ≡ false
    pub asymm : (a b : A) → before a b ≡ true → before b a ≡ false
    pub cotrans : (a b c : A) → before a b ≡ false → before b c ≡ false → before a c ≡ false

module _ {ℓ} {A : Type ℓ} (before : A → A → Bool) (w : IsStrictWeak before) where
  first-insert_by :
      (x : A) (ys : List A)
      → ((b : A) → first ys ≡ some b → Least before b ys)
      → (b : A) → first (insert_by before x ys) ≡ some b
      → Least before b (insert_by before x ys)
  unfolding insert_by
  first-insert_by x [] h b e a m = elim (In-cons m) [
    | inl p ↦ rw p (subst (λ y. before x y ≡ false) (ground arith) (w.irrefl x))
    | inr t ↦ absurd (not-In-nil t)
  ]
  first-insert_by x (y ∷ ys) h b e a m = elim (Bool-cases (before y x)) [
    | inl yx ↦
        let by : y ≡ b = ground arith in
        elim (mem-insert_by before x (y ∷ ys) m) [
          | inl p ↦ rw (p, ← by) (w.asymm y x yx)
          | inr t ↦ rw (← by) (h y refl a t)
        ]
    | inr yx ↦
        let bx : x ≡ b = ground arith in
        elim (mem-insert_by before x (y ∷ ys) m) [
          | inl p ↦ rw (p, ← bx) (w.irrefl x)
          | inr t ↦ rw (← bx) (w.cotrans a y x (h y refl a t) yx)
        ]
  ]

  first-order_by_sorted :
      (xs : List A) (b : A)
      → first (order_by before xs) ≡ some b
      → Least before b (order_by before xs)
  unfolding order_by
  first-order_by_sorted [] b e = cc
  first-order_by_sorted (x ∷ xs) b e =
      first-insert_by x (order_by before xs) (first-order_by_sorted xs) b e

  -- ORDER BY … LIMIT 1 takes a row that no other comes before.
  pub first-order_by :
      (xs : List A) (b : A) → first (order_by before xs) ≡ some b → Least before b xs
  first-order_by xs b e a m = first-order_by_sorted xs b e a (order_by-mem before m)
