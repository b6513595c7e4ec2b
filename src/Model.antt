-- ===== src/Model.antt =====
-- internal/model/model.go: the domain types that api, scheduler, worker and store share.
--
-- A UUID is a number, a `time.Time` or `time.Duration` an integer count of nanoseconds, a nil
-- pointer `none`. int16 and int32 fields are integers, but `Attempt`, which starts at 0 and is
-- only ever incremented, is a number; the range of its SMALLINT column is checked by the UPDATE
-- that increments it. A `map[string]any` is the list of its fields.
use taskflow.Common.{ℕ, ℤ, String, List, Option, Bool}

pub data JobStatus : Type 0 where
  active paused archived : JobStatus

pub data RunStatus : Type 0 where
  pending leased running succeeded failed dead : RunStatus

-- A Go `any` that came from JSON or goes into it. `number` holds the literal of a float64.
mutual
  pub data Value : Type 0 where
    null : Value
    boolean : Bool → Value
    number : String → Value
    text : String → Value
    array : Values → Value
    object : Fields → Value

  pub data Values : Type 0 where
    end : Values
    item : Value → Values → Values

  pub data Fields : Type 0 where
    empty : Fields
    field : String → Value → Fields → Fields

pub record Job : Type 0 where
  pub id : ℕ
  pub name : String
  pub payload : Fields
  pub cron_expr : Option String
  pub priority : ℤ
  pub max_attempts : ℤ
  pub timeout_seconds : ℤ
  pub status : JobStatus
  pub idempotency_key : Option String
  pub depends_on : List ℕ
  pub created_at : ℤ
  pub updated_at : ℤ

pub record JobRun : Type 0 where
  pub id : ℕ
  pub job_id : ℕ
  pub status : RunStatus
  pub attempt : ℕ
  pub priority : ℤ
  pub scheduled_at : ℤ
  pub leased_by : Option String
  pub leased_at : Option ℤ
  pub lease_expires_at : Option ℤ
  pub started_at : Option ℤ
  pub finished_at : Option ℤ
  pub result : Option Fields
  pub error : Option String
  pub created_at : ℤ

pub data WorkerStatus : Type 0 where
  alive dead : WorkerStatus

pub record Worker : Type 0 where
  pub id : String
  pub hostname : String
  pub status : WorkerStatus
  pub last_heartbeat : ℤ
  pub started_at : ℤ

pub record DeadLetter : Type 0 where
  pub id : ℕ
  pub job_run_id : ℕ
  pub reason : String
  pub payload : Fields
  pub created_at : ℤ

pub record NewJobInput : Type 0 where
  pub name : String
  pub payload : Fields
  pub cron_expr : Option String
  pub priority : ℤ
  pub max_attempts : ℤ
  pub timeout_seconds : ℤ
  pub idempotency_key : Option String
  pub depends_on : List ℕ

abbrev pub status_eq : RunStatus → RunStatus → Bool
status_eq pending pending = Bool.true
status_eq leased leased = Bool.true
status_eq running running = Bool.true
status_eq succeeded succeeded = Bool.true
status_eq failed failed = Bool.true
status_eq dead dead = Bool.true
status_eq _ _ = Bool.false

abbrev pub job_status_eq : JobStatus → JobStatus → Bool
job_status_eq active active = Bool.true
job_status_eq paused paused = Bool.true
job_status_eq archived archived = Bool.true
job_status_eq _ _ = Bool.false

-- status IN ('pending', 'leased', 'running')
abbrev pub is_active : RunStatus → Bool
is_active pending = Bool.true
is_active leased = Bool.true
is_active running = Bool.true
is_active _ = Bool.false
