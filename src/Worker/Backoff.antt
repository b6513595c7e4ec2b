-- ===== src/Worker/Backoff.antt =====
-- internal/worker/pool.go: the delay before a retry, in Go's 64-bit arithmetic.
use native.Mathlib.Nat.{two-pow-succ}
use taskflow.Common.{
  ℕ, zero, suc, ◌+◌, ◌-◌, ◌*◌, ◌%◌, ◌^◌, ◌≤◌, ◌<◌, ℤ, pos, negsuc, ◌≤ℤ◌, ltb_ℤ, ltb, ◌≡◌, refl, sym,
  ap, subst, ◌∙◌, Bool, true, ◌&&◌, ◌==◌, ==_iff, Bool-cases, inl, inr, leb_ℤ, eq_of_parts,
  if◌then◌else◌, arith,
}

-- time.Second, in nanoseconds.
abbrev pub second : ℕ
second = 1000000000

-- maxBackoff
abbrev pub max_backoff : ℤ
max_backoff = pos (300 * second)

-- The int64 that a sum or product taken modulo 2^64 stands for.
abbrev pub int64 : ℕ → ℤ
int64 n = if ltb n (2 ^ 63) then pos n else negsuc (2 ^ 64 - 1 - n)

-- `time.Duration(1<<uint(run.Attempt)) * time.Second`: both the shift and the product wrap.
unfoldable pub scaled : ℕ → ℤ
scaled attempt = int64 (((2 ^ attempt) % 2 ^ 64 * second) % 2 ^ 64)

unfoldable pub backoff : ℕ → ℤ
unfolding scaled
backoff attempt = if ltb_ℤ max_backoff (scaled attempt) then max_backoff else scaled attempt

-- What the code means to wait: 2^attempt seconds, but at most five minutes.
abbrev pub intended : ℕ → ℤ
intended attempt = pos ((if ltb (2 ^ attempt) 300 then 2 ^ attempt else 300) * second)

abbrev same_ℤ : ℤ → ℤ → Bool
same_ℤ a b = leb_ℤ a b && leb_ℤ b a

same_ℤ-eq : (a b : ℤ) → same_ℤ a b ≡ true → a ≡ b
same_ℤ-eq a b h = eq_of_parts a b (ground arith)

abbrev all_below : ℕ → (ℕ → Bool) → Bool
all_below zero p = true
all_below (suc n) p = p n && all_below n p

all_below-lt : (n : ℕ) (p : ℕ → Bool) → all_below n p ≡ true → (k : ℕ) → k < n → p k ≡ true
all_below-lt zero p h k l = absurd (omega (arith, l))
all_below-lt (suc n) p h k l = elim (Bool-cases (k == n)) [
  | inl e ↦ subst (λ x. p x ≡ true) (sym ((==_iff k n).0 e)) (ground arith)
  | inr e ↦ all_below-lt n p (ground arith) k (ground (arith, e, l))
]

-- Up to the 33rd attempt the delay is exactly 2^attempt seconds, capped at five minutes.
pub backoff_exact : (attempt : ℕ) → attempt ≤ 33 → backoff attempt ≡ intended attempt
unfolding backoff
backoff_exact attempt h =
    same_ℤ-eq _ _
      (all_below-lt 34 (λ k. same_ℤ (backoff k) (intended k)) refl attempt (omega arith))

-- 2^55 divides these powers.
high_power : (k : ℕ) → (m : ℕ) × (2 ^ (k + 55) ≡ 36028797018963968 * m)
high_power zero = (1, refl)
high_power (suc k) =
    let (m, e) = high_power k in
    let step : suc k + 55 ≡ suc (k + 55) = omega arith in
    let double : 2 ^ (k + 55) + 2 ^ (k + 55) ≡ 36028797018963968 * (m + m) = omega (arith, e) in
    (m + m, ap (λ x. 2 ^ x) step ∙ two-pow-succ (k + 55) ∙ double)

high_power_of : (attempt : ℕ) → 55 ≤ attempt → (m : ℕ) × (2 ^ attempt ≡ 36028797018963968 * m)
high_power_of attempt h =
    let whole : attempt - 55 + 55 ≡ attempt = omega (arith, h) in
    subst (λ a. (m : ℕ) × (2 ^ a ≡ 36028797018963968 * m)) whole (high_power (attempt - 55))

wraps_to_zero :
    (m : ℕ) → (36028797018963968 * m % 18446744073709551616 * 1000000000) % 18446744073709551616 ≡ 0
wraps_to_zero m = omega arith

-- Never more than five minutes.
pub backoff-le : (attempt : ℕ) → backoff attempt ≤ℤ max_backoff
unfolding backoff
backoff-le attempt = ground arith

-- From the 55th attempt on the product wraps to 0: the retry is due at once.
pub backoff_wraps : (attempt : ℕ) → 55 ≤ attempt → backoff attempt ≡ pos 0
unfolding backoff
backoff_wraps attempt h = let (m, e) = high_power_of attempt h in rw (e, wraps_to_zero m) refl
