-- ===== src/Config/Tests.antt =====
-- An environment that sets the worker's id and the burst.
use taskflow.Common.{String, str_eq, ℤ, pos, none, if◌then◌else◌}
use taskflow.Config.{Env, load}
use taskflow.Config.Loading.{Outcome, load-Outcome}

abbrev variables : String → String
variables key =
    if str_eq key "WORKER_ID" then "w1" else if str_eq key "RATE_LIMIT_BURST" then "7" else ""

abbrev env : Env ℤ
env = record {
  get = variables;
  hostname = "host";
  pid = "1";
  parse_duration = λ text. none;
  parse_float = λ text. none;
  twenty = pos 20;
}

load-Outcome_example : Outcome env (load env)
load-Outcome_example = load-Outcome env
