-- ===== src/Common/Lists.antt =====
-- Tables as lists of rows: what WHERE, ORDER BY, LIMIT and OFFSET select, and what an UPDATE
-- with a WHERE clause changes; predicates on all rows.
use Prim.Native.Nat.{ℕ, zero, suc, ◌+◌, ◌≤◌}
use mathlib.Core.Path.{◌≡◌, refl}
use mathlib.Core.Bool.{Bool, false, ◌||◌}
use mathlib.Core.List.{List, [], ◌∷◌, ◌++◌}
use mathlib.Core.Option.{Option, none, some}
use native.Mathlib.Omega.{arith}
use taskflow.Common.Tests.{if◌then◌else◌}

module _ {ℓ} {A : Type ℓ} where
  abbrev pub length : List A → ℕ
  length [] = 0
  length (x ∷ xs) = suc (length xs)

  abbrev pub take : ℕ → List A → List A
  take zero xs = []
  take (suc n) [] = []
  take (suc n) (x ∷ xs) = x ∷ take n xs

  abbrev pub drop : ℕ → List A → List A
  drop zero xs = xs
  drop (suc n) [] = []
  drop (suc n) (x ∷ xs) = drop n xs

  abbrev pub first : List A → Option A
  first [] = none
  first (x ∷ xs) = some x

  -- The rows that pass a WHERE clause.
  unfoldable pub rows_where : (A → Bool) → List A → List A
  rows_where p [] = []
  rows_where p (x ∷ xs) = if p x then x ∷ rows_where p xs else rows_where p xs

  unfoldable pub count_where : (A → Bool) → List A → ℕ
  count_where p [] = 0
  count_where p (x ∷ xs) = (if p x then 1 else 0) + count_where p xs

  unfoldable pub exists_where : (A → Bool) → List A → Bool
  exists_where p [] = false
  exists_where p (x ∷ xs) = p x || exists_where p xs

  -- UPDATE … SET … WHERE.
  unfoldable pub update_where : (A → Bool) → (A → A) → List A → List A
  update_where p f [] = []
  update_where p f (x ∷ xs) = (if p x then f x else x) ∷ update_where p f xs

  -- ORDER BY: `before x y` says that x comes strictly before y. Equal rows keep their order.
  unfoldable pub insert_by : (A → A → Bool) → A → List A → List A
  insert_by before x [] = x ∷ []
  insert_by before x (y ∷ ys) =
      let rest = insert_by before x ys in if before y x then y ∷ rest else x ∷ y ∷ ys

  unfoldable pub order_by : (A → A → Bool) → List A → List A
  unfolding insert_by
  order_by before [] = []
  order_by before (x ∷ xs) = insert_by before x (order_by before xs)

abbrev pub All {ℓ κ} : {A : Type ℓ} → (A → Type κ) → List A → Type κ
All P [] = Unit
All P (x ∷ xs) = P x × All P xs

-- Membership with its position, so that it can be matched.
pub data In {ℓ} {A : Type ℓ} (a : A) : List A → Type ℓ where
  here : {x : A} {xs : List A} → a ≡ x → In a (x ∷ xs)
  there : {x : A} {xs : List A} → In a xs → In a (x ∷ xs)

module _ {ℓ} {A : Type ℓ} where
  pub length-append : (xs ys : List A) → length (xs ++ ys) ≡ length xs + length ys
  length-append [] ys = omega arith
  length-append (x ∷ xs) ys = omega (arith, length-append xs ys)

  pub length-take-le : (n : ℕ) (xs : List A) → length (take n xs) ≤ n
  length-take-le zero xs = omega arith
  length-take-le (suc n) [] = omega arith
  length-take-le (suc n) (x ∷ xs) = omega (arith, length-take-le n xs)

  pub count_where-append :
      (p : A → Bool) (xs ys : List A)
      → count_where p (xs ++ ys) ≡ count_where p xs + count_where p ys
  unfolding count_where
  count_where-append p [] ys = omega arith
  count_where-append p (x ∷ xs) ys = ground (arith, count_where-append p xs ys)

  pub exists_where-append :
      (p : A → Bool) (xs ys : List A)
      → exists_where p (xs ++ ys) ≡ (exists_where p xs || exists_where p ys)
  unfolding exists_where
  exists_where-append p [] ys = refl
  exists_where-append p (x ∷ xs) ys = ground (arith, exists_where-append p xs ys)

  pub count_where-eq-zero_iff :
      (p : A → Bool) (xs : List A) → exists_where p xs ≡ false → count_where p xs ≡ 0
  unfolding count_where exists_where
  count_where-eq-zero_iff p [] h = refl
  count_where-eq-zero_iff p (x ∷ xs) h = ground (arith, count_where-eq-zero_iff p xs)

  -- Rows that an UPDATE's WHERE clause does not pass stay.
  pub update_where_absent :
      (p : A → Bool) (f : A → A) (xs : List A)
      → exists_where p xs ≡ false
      → update_where p f xs ≡ xs
  unfolding update_where exists_where
  update_where_absent p f [] h = refl
  update_where_absent p f (x ∷ xs) h = ground (arith, update_where_absent p f xs)

  pub mem-append_left : {a : A} {xs : List A} (ys : List A) → In a xs → In a (xs ++ ys)
  mem-append_left ys (here e) = here e
  mem-append_left ys (there m) = there (mem-append_left ys m)

  pub mem-append_right : {a : A} (xs : List A) {ys : List A} → In a ys → In a (xs ++ ys)
  mem-append_right [] m = m
  mem-append_right (x ∷ xs) m = there (mem-append_right xs m)
