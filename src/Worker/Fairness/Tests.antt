-- ===== src/Worker/Fairness/Tests.antt =====
-- Two runs of a job of which each attempt fails: the one that is ranked lower has to wait.
use taskflow.Common.{
  suc, pos, ◌≡◌, refl, true, [], ◌∷◌, none, here, there, arith, exists_where, rows_where,
}
use taskflow.Store.Query.{World, delivered}
use taskflow.Worker.Attempts.Budget.{budget}
use taskflow.Worker.Samples.{lower, tables, tables-IsValid, pool}
use taskflow.Worker.Fairness.{leased_within}
use taskflow.Worker.Fairness.Rounds.{leased_within-budget}

-- While the reply to the first BEGIN is under way, another transaction holds the higher run.
abbrev queued : World
queued = record {
  db = tables;
  replica = none;
  now = pos 3;
  script = record { reply = delivered; elapsed = 2; fresh_id = 0; locked = 9 ∷ [] } ∷ [];
}

leased_within-budget_example : leased_within (suc (budget tables)) 11 pool queued ≡ true
unfolding exists_where rows_where
leased_within-budget_example =
    leased_within-budget pool lower queued
      (record { alone = refl; replies = ((refl, tt), tt); rest = tt }) (refl, tt) tables-IsValid
      (omega arith, (omega arith, tt)) (there (here refl)) refl refl
