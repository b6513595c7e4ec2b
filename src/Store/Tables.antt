-- ===== src/Store/Tables.antt =====
-- The tables of migrations/0001_init.sql, rows in the order of insertion. job_dependencies keeps
-- DependsOn apart from its job.
use taskflow.Common.{ℕ, ℤ, String, List, Option}
use taskflow.Model.{JobStatus, JobRun, Worker, DeadLetter, Fields}

pub record JobRow : Type 0 where
  pub id : ℕ
  pub name : String
  pub payload : Fields
  pub cron_expr : Option String
  pub priority : ℤ
  pub max_attempts : ℤ
  pub timeout_seconds : ℤ
  pub status : JobStatus
  pub idempotency_key : Option String
  pub created_at : ℤ
  pub updated_at : ℤ

pub record Dependency : Type 0 where
  pub job_id : ℕ
  pub depends_on_id : ℕ

pub record Database : Type 0 where
  pub jobs : List JobRow
  pub job_dependencies : List Dependency
  pub job_runs : List JobRun
  pub workers : List Worker
  pub dead_letters : List DeadLetter
