-- ===== src/Scheduler/Due.antt =====
-- When NextRunDue answers that a job is due.
use mathlib.Core.Option.{some-injective}
use taskflow.Common.{
  ℤ, ◌≤ℤ◌, String, ◌≡◌, refl, sym, ap, subst, ◌↔◌, inl, inr, ◌≢◌, true, false, not, ltb_ℤ, Option,
  none, some, arith, Option-cases,
}
use taskflow.Store.Query.{ok}
use taskflow.Scheduler.Schedule.{Cron, next_run_due, zero_time, or_else}

passes-le : (a b : ℤ) → not (ltb_ℤ b a) ≡ true → a ≤ℤ b
passes-le a b h = ground arith

le-passes : (a b : ℤ) → a ≤ℤ b → not (ltb_ℤ b a) ≡ true
le-passes a b h = ground arith

module _ (c : Cron) where
  -- A job without a cron expression is due until it has its first run, whatever the time.
  abbrev pub DueAt : Option String → Option ℤ → (created_at now : ℤ) → Type 0
  DueAt none last created_at now = last ≡ none
  DueAt (some expr) last created_at now =
      (s : c.Schedule) × (c.parse_standard expr ≡ some s)
      × (c.next s (or_else last created_at) ≤ℤ now)

  -- NextRunDue answers true exactly for a job without a cron expression that has never run, and
  -- for one whose expression parses, where the time that cron's Next gives after its latest run or
  -- else its creation, or the zero time, which it gives for a schedule that never fires, is at or
  -- before now.
  pub next_run_due-true_iff :
      (expr : Option String) (last : Option ℤ) (created_at now : ℤ)
      → (next_run_due c expr last created_at now ≡ ok true) ↔ DueAt expr last created_at now
  unfolding next_run_due
  next_run_due-true_iff none none created_at now = ground arith
  next_run_due-true_iff none (some t) created_at now = ground arith
  next_run_due-true_iff (some expr) last created_at now =
      elim (Option-cases (c.parse_standard expr)) [
        | inl e ↦ rw e (λ h. cc, λ (s, p, h). cc)
        | inr (s, e) ↦ rw e (
          (λ h. (s, refl, passes-le _ now (cc h))),
          (λ (s', p, h). ap ok (
              le-passes _ now (
                subst (λ x. c.next x (or_else last created_at) ≤ℤ now) (sym (some-injective s s' p))
                  h))),
        )
      ]

  -- A cron job is not due again at the time of its latest run or before, if its schedule fires
  -- at all: `next` found a time and not the zero time.
  pub next_run_due-after_run :
      (expr : String) (last created_at now : ℤ) (s : c.Schedule)
      → c.parse_standard expr ≡ some s
      → c.next s last ≢ zero_time
      → now ≤ℤ last
      → next_run_due c (some expr) (some last) created_at now ≡ ok false
  unfolding next_run_due
  next_run_due-after_run expr last created_at now s p n h =
      rw p (elim (c.next_later s last) [ inl l ↦ ground arith | inr z ↦ absurd (n z) ])

  -- A schedule that finds no next time, for which cron's Next gives the zero time, is due at
  -- every time from the zero time on.
  pub next_run_due-never_fires :
      (expr : String) (last : Option ℤ) (created_at now : ℤ) (s : c.Schedule)
      → c.parse_standard expr ≡ some s
      → c.next s (or_else last created_at) ≡ zero_time
      → zero_time ≤ℤ now
      → next_run_due c (some expr) last created_at now ≡ ok true
  unfolding next_run_due
  next_run_due-never_fires expr last created_at now s p e h = rw (p, e) (ground arith)
