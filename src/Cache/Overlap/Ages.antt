-- ===== src/Cache/Overlap/Ages.antt =====
-- Ages of answers, and the flights of a table of flights.
use taskflow.Common.{
  ℕ, ◌+◌, ◌≤◌, ◌≡◌, refl, ap, ◌∙◌, ◌⊎◌, inl, inr, ◌&&◌, ◌==◌, ==_iff, Bool-cases, List, ◌∷◌, Option,
  none, some, In, here, there, arith,
}
use taskflow.Model.{Job}
use taskflow.Store.Query.{Result, ok}
use taskflow.Cache.Overlap.{Flight, answered, with_flight, joined}

pub with_flight-cases :
    (i id j k : ℕ) (f : Option Flight) (flights : ℕ → ℕ → Option Flight) (x : Flight)
    → with_flight i id f flights j k ≡ some x
    → ((f ≡ some x) × (i ≡ j) × (id ≡ k)) ⊎ (flights j k ≡ some x)
with_flight-cases i id j k f flights x e = elim (Bool-cases ((i == j) && (id == k))) [
  | inl same ↦ inl (rw same at e, (==_iff i j).0 (ground arith), (==_iff id k).0 (ground arith))
  | inr other ↦ inr (rw other at e)
]

pub answered-inj :
    (a b : Result Job) (t u : ℕ) → some (answered a t) ≡ some (answered b u) → (a ≡ b) × (t ≡ u)
answered-inj a b t u e = (cc, cc)

pub joined-answered :
    (o : Option Flight) (a : Result Job) (t : ℕ) → joined o ≡ answered a t → o ≡ some (answered a t)
joined-answered none a t e = cc
joined-answered (some f) a t e = ap some e

module _ {W : Type 0} (job : W → ℕ → Result Job) where
  -- The store answers `j`, or did until some time of which `n` is at most `k` later.
  abbrev pub Until : W → List (W × ℕ) → ℕ → Job → (n k : ℕ) → Type 0
  Until w past id j n k =
      (job w id ≡ ok j) ⊎ ((v : W) × (u : ℕ) × In (v, u) past × (job v id ≡ ok j) × (n ≤ u + k))

  pub replaced-Until :
      (w w' : W) (past : List (W × ℕ)) (id : ℕ) (j : Job) (n k now : ℕ)
      → n ≤ now + k
      → Until w past id j n k
      → Until w' ((w, now) ∷ past) id j n k
  replaced-Until w w' past id j n k now le (inl e) = inr (w, now, here refl, e, le)
  replaced-Until w w' past id j n k now le (inr (v, u, m, e, h)) = inr (v, u, there m, e, h)

  pub moved-Until :
      (w w' : W) (past : List (W × ℕ)) (id : ℕ) (j : Job) (n k : ℕ)
      → job w' id ≡ job w id
      → Until w past id j n k
      → Until w' past id j n k
  moved-Until w w' past id j n k same (inl e) = inl (same ∙ e)
  moved-Until w w' past id j n k same (inr seen) = inr seen

  pub aged-Until :
      (w : W) (past : List (W × ℕ)) (id : ℕ) (j : Job) (t e n : ℕ)
      → e ≤ t + n
      → Until w past id j t 0
      → Until w past id j e n
  aged-Until w past id j t e n le (inl x) = inl x
  aged-Until w past id j t e n le (inr (v, u, m, x, h)) = inr (v, u, m, x, omega (arith, le, h))

  pub sooner-Until :
      (w : W) (past : List (W × ℕ)) (id : ℕ) (j : Job) (m n k : ℕ)
      → m ≤ n
      → Until w past id j n k
      → Until w past id j m k
  sooner-Until w past id j m n k le (inl x) = inl x
  sooner-Until w past id j m n k le (inr (v, u, at, x, h)) = inr (v, u, at, x, omega (arith, le, h))
