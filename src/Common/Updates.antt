-- ===== src/Common/Updates.antt =====
-- What an UPDATE keeps of the rows of a table, and keys that are distinct.
use Prim.Native.Nat.{ℕ}
use mathlib.Core.Path.{◌≡◌, refl, sym, ap, ap₂, subst}
use mathlib.Core.Logic.{◌⊎◌, inl, inr}
use mathlib.Core.Bool.{Bool, true, false}
use mathlib.Core.List.{List, [], ◌∷◌, ◌++◌, map}
use native.Mathlib.Omega.{arith}
use taskflow.Common.Tests.{◌==◌, ==_iff, Bool-cases}
use taskflow.Common.Lists.{All, In, here, there, exists_where, update_where}
use taskflow.Common.Rows.{In-cons, not-In-nil, mem-exists_where}

module _ {ℓ κ} {A : Type ℓ} (P : A → Type κ) where
  pub All-append : (xs ys : List A) → All P xs → All P ys → All P (xs ++ ys)
  All-append [] ys hx hy = hy
  All-append (x ∷ xs) ys hx hy = (hx.0, All-append xs ys hx.1 hy)

  pub All-mem : {a : A} (xs : List A) → All P xs → In a xs → P a
  All-mem [] h m = absurd (not-In-nil m)
  All-mem (x ∷ xs) h m = elim (In-cons m) [ inl e ↦ subst P (sym e) h.0 | inr t ↦ All-mem xs h.1 t ]

  pub All-update_where :
      (p : A → Bool) (f : A → A) (xs : List A)
      → ((x : A) → In x xs → p x ≡ true → P x → P (f x))
      → All P xs
      → All P (update_where p f xs)
  unfolding update_where
  All-update_where p f [] h a = tt
  All-update_where p f (x ∷ xs) h a = elim (Bool-cases (p x)) [
    | inl e ↦ rw e (h x (here refl) e a.0, All-update_where p f xs (λ y m. h y (there m)) a.1)
    | inr e ↦ rw e (a.0, All-update_where p f xs (λ y m. h y (there m)) a.1)
  ]

  -- Where the rows that the UPDATE leaves alone hold already.
  pub All-updated :
      (p : A → Bool) (f : A → A) (xs : List A)
      → ((x : A) → In x xs → p x ≡ true → P (f x))
      → ((x : A) → In x xs → p x ≡ false → P x)
      → All P (update_where p f xs)
  unfolding update_where
  All-updated p f [] h g = tt
  All-updated p f (x ∷ xs) h g =
      let rest = All-updated p f xs (λ y m. h y (there m)) (λ y m. g y (there m)) in
      elim (Bool-cases (p x)) [
        | inl e ↦ rw e (h x (here refl) e, rest)
        | inr e ↦ rw e (g x (here refl) e, rest)
      ]

  pub All-mono {μ} : {Q : A → Type μ} (xs : List A) → ((x : A) → P x → Q x) → All P xs → All Q xs
  All-mono [] h a = tt
  All-mono (x ∷ xs) h a = (h x a.0, All-mono xs h a.1)

module _ {ℓ κ} {A : Type ℓ} {B : Type κ} (key : A → B) where
  -- An UPDATE that sets no key column leaves the keys as they are.
  pub map-update_where :
      (p : A → Bool) (f : A → A) (xs : List A)
      → ((x : A) → key (f x) ≡ key x)
      → map key (update_where p f xs) ≡ map key xs
  unfolding update_where
  map-update_where p f [] h = refl
  map-update_where p f (x ∷ xs) h = elim (Bool-cases (p x)) [
    | inl e ↦ rw e (ap₂ ◌∷◌ (h x) (map-update_where p f xs h))
    | inr e ↦ rw e (ap (◌∷◌ (key x)) (map-update_where p f xs h))
  ]

  pub mem-map : {a : A} {xs : List A} → In a xs → In (key a) (map key xs)
  mem-map (here e) = here (ap key e)
  mem-map (there m) = there (mem-map m)

-- A PRIMARY KEY or UNIQUE column: no value stands in two rows.
abbrev pub Distinct {ℓ} : {A : Type ℓ} → List A → Type ℓ
Distinct [] = Unit
Distinct (x ∷ xs) = (¬ In x xs) × Distinct xs

module _ {ℓ} {A : Type ℓ} where
  mem-append : {a : A} (xs ys : List A) → In a (xs ++ ys) → In a xs ⊎ In a ys
  mem-append [] ys m = inr m
  mem-append (x ∷ xs) ys m = elim (In-cons m) [
    | inl e ↦ inl (here e)
    | inr t ↦ elim (mem-append xs ys t) [ inl l ↦ inl (there l) | inr r ↦ inr r ]
  ]

  pub Distinct-append : (xs : List A) (y : A) → ¬ In y xs → Distinct xs → Distinct (xs ++ y ∷ [])
  Distinct-append [] y n d = (not-In-nil, tt)
  Distinct-append (x ∷ xs) y n d = (
    λ m. elim (mem-append xs (y ∷ []) m) [
      | inl l ↦ d.0 l
      | inr r ↦ elim (In-cons r) [ inl e ↦ n (here (sym e)) | inr t ↦ not-In-nil t ]
    ],
    Distinct-append xs y (λ m. n (there m)) d.1,
  )

module _ {ℓ} {A : Type ℓ} (key : A → ℕ) where
  -- `EXISTS (… WHERE key = id)` and membership of the key.
  pub mem_of_exists_where :
      (id : ℕ) (xs : List A) → exists_where (λ x. key x == id) xs ≡ true → In id (map key xs)
  mem_of_exists_where id xs h =
      let (a, m, e) = mem-exists_where (λ x. key x == id) xs h in
      subst (λ k. In k (map key xs)) ((==_iff (key a) id).0 e) (mem-map key m)

  pub not-mem_of_exists_where :
      (id : ℕ) (xs : List A) → exists_where (λ x. key x == id) xs ≡ false → ¬ In id (map key xs)
  unfolding exists_where
  not-mem_of_exists_where id [] h m = not-In-nil m
  not-mem_of_exists_where id (x ∷ xs) h m = elim (In-cons m) [
    | inl e ↦ ground arith
    | inr t ↦ not-mem_of_exists_where id xs (ground arith) t
  ]

pub map-append_one {ℓ κ} :
    {A : Type ℓ} {B : Type κ} (f : A → B) (xs : List A) (x : A)
    → map f (xs ++ x ∷ []) ≡ map f xs ++ f x ∷ []
map-append_one f [] x = refl
map-append_one f (y ∷ ys) x = ap (◌∷◌ (f y)) (map-append_one f ys x)

-- A row that an UPDATE does not meet is there as it was.
module _ {ℓ} {A : Type ℓ} where
  pub mem-update_where :
      (p : A → Bool) (f : A → A) {a : A} {xs : List A}
      → In a xs
      → p a ≡ false
      → In a (update_where p f xs)
  unfolding update_where
  mem-update_where p f (here {x = x} {xs = xs} e) h = rw (subst (λ y. p y ≡ false) e h) (here e)
  mem-update_where p f (there m) h = there (mem-update_where p f m h)
