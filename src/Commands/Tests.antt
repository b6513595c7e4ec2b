-- ===== src/Commands/Tests.antt =====
-- Commands on a host with one migration, whose database answers.
use taskflow.Common.{
  ℕ, ℤ, pos, str_eq, true, false, refl, inr, [], ◌∷◌, none, some, if◌then◌else◌, order_by,
  rows_where, exists_where,
}
use taskflow.Store.Query.{delivered}
use taskflow.Store.Tables.{Database}
use taskflow.Store.History.{empty_database}
use taskflow.Migrations.{has_suffix}
use taskflow.Config.{Env}
use taskflow.Lock.{Attempt, new_elector, try_acquire}
use taskflow.Scheduler.Schedule.{Cron, zero_time}
use taskflow.Commands.Process.{Host, Process}
use taskflow.Commands.Mains.{Scheduling, Life, scheduler_start, scheduler_main, replica_of}
use taskflow.Worker.Handlers.{Clock, Client, unanswered}
use taskflow.Commands.Shutdown.{Stops, scheduler_main-Stops}

abbrev env : Env ℤ
env = record {
  get = λ key. if str_eq key "JWT_SECRET" then "s" else "";
  hostname = "host";
  pid = "1";
  parse_duration = λ text. none;
  parse_float = λ text. none;
  twenty = pos 20;
}

abbrev host : Host ℤ Database
host = record {
  env = env;
  pgx = record { parses = λ url. true; makes = λ url. true; answers = λ url. true };
  exports = λ endpoint. true;
  directory = record {
    entries = some (record { name = "1.sql"; is_dir = false } ∷ []);
    read = λ name. some "CREATE";
  };
  apply = λ body d. some d;
}

abbrev fresh : Process Database
fresh = record {
  pools = record { live = []; made = 0 };
  exporting = false;
  session = record { schema = record { versions = []; tables = empty_database }; script = [] };
}

abbrev started : Process Database
started = record {
  pools = record { live = 0 ∷ []; made = 1 };
  exporting = false;
  session = record {
    schema = record { versions = "1.sql" ∷ []; tables = empty_database };
    script = [];
  };
}

abbrev scheduling : Scheduling
scheduling = record {
  interval = pos 1000000000;
  store = record { pool = 0; replica_pool = none };
  elector = new_elector;
}

abbrev never_fires : Cron
never_fires = record {
  Schedule = ℕ;
  parse_standard = λ text. none;
  next = λ s t. zero_time;
  next_later = λ s t. inr refl;
}

-- The lock is another's.
abbrev follower : Attempt
follower = record { dial = some 7; reachable = true; redial = none; reply = delivered }

abbrev life : Life Database
life = record {
  cron = never_fires;
  tables = λ d. d;
  now = pos 0;
  script = [];
  sessions = record { holder = some (3, 1); live = λ s. true; opened = 9 };
  ticks = follower ∷ [];
  release = delivered;
}

-- The replica that follows never ends.
scheduler_main-Stops_example : Stops fresh false (scheduler_main host life fresh)
unfolding scheduler_start try_acquire replica_of order_by rows_where has_suffix exists_where
scheduler_main-Stops_example =
    scheduler_main-Stops host life fresh tt [] follower false scheduling started refl refl refl refl

abbrev clock : Clock
clock = record {
  lasts = λ text. pos 1;
  one = "1";
  cancelled_after = λ begun. none;
  picks_timer = λ begun. true;
}

abbrev client : Client
client = record {
  exchange = λ method url begun. unanswered "refused";
  elapsed = λ method url begun. 5;
  cancelled = λ method url begun. false;
  text_of = λ bytes. "";
}
