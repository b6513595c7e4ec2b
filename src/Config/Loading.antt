-- ===== src/Config/Loading.antt =====
-- What Load makes of an environment.
use Prim.Native.String.{◌++◌}
use Prim.Native.String.append
use taskflow.Common.{
  ℤ, pos, String, ◌≡◌, refl, ap, ◌∙◌, ◌⊎◌, inl, inr, true, false, Bool-cases, Option, none, some,
}
use taskflow.Api.Text.{is_empty, atoi}
use taskflow.Config.{
  Config, Env, parsed, get_env, get_env_duration, get_env_float, get_env_int, or_host, assembled,
  load,
}

-- A setting that is left to its default, or read from its variable.
abbrev pub Reads : {A : Type 0} → (String → Option A) → A → String → A → Type 0
Reads parse default v a =
    ((is_empty v ≡ true) × (a ≡ default)) ⊎ ((is_empty v ≡ false) × (parse v ≡ some a))

-- A variable that is set to a text which does not parse.
abbrev pub Unreadable : {A : Type 0} → (String → Option A) → String → Type 0
Unreadable parse v = (is_empty v ≡ false) × (parse v ≡ none)

module _ {F : Type 0} (env : Env F) where
  pub record IsLoaded (cfg : Config F) : Type 0 where
    pub lease_duration :
        Reads env.parse_duration (pos 30000000000) (env.get "LEASE_DURATION") cfg.lease_duration
    pub poll_interval :
        Reads env.parse_duration (pos 1000000000) (env.get "POLL_INTERVAL") cfg.poll_interval
    pub rate_limit_rps :
        Reads env.parse_float env.twenty (env.get "RATE_LIMIT_RPS") cfg.rate_limit_rps
    pub rate_limit_burst : Reads atoi (pos 40) (env.get "RATE_LIMIT_BURST") cfg.rate_limit_burst
    pub concurrency : Reads atoi (pos 4) (env.get "WORKER_CONCURRENCY") cfg.concurrency
    pub worker_named : is_empty cfg.worker_id ≡ false

  -- The first variable that Load cannot read is one of five.
  abbrev pub Outcome : Option (Config F) → Type 0
  Outcome (some cfg) = IsLoaded cfg
  Outcome none =
      Unreadable env.parse_duration (env.get "LEASE_DURATION")
      ⊎ Unreadable env.parse_duration (env.get "POLL_INTERVAL")
      ⊎ Unreadable env.parse_float (env.get "RATE_LIMIT_RPS")
      ⊎ Unreadable atoi (env.get "RATE_LIMIT_BURST")
      ⊎ Unreadable atoi (env.get "WORKER_CONCURRENCY")

parsed-Reads :
    {A : Type 0} (parse : String → Option A) (default a : A) (v : String)
    → parsed parse default v ≡ some a
    → Reads parse default v a
parsed-Reads parse default a v e = elim (Bool-cases (is_empty v)) [
  | inl h ↦ inl (h, cc (rw h at e))
  | inr h ↦ inr (h, rw h at e)
]

parsed-Unreadable :
    {A : Type 0} (parse : String → Option A) (default : A) (v : String)
    → parsed parse default v ≡ none
    → Unreadable parse v
parsed-Unreadable parse default v e = elim (Bool-cases (is_empty v)) [
  | inl h ↦ absurd (cc (rw h at e))
  | inr h ↦ (h, rw h at e)
]

is_empty-append_right : (s t : String) → is_empty t ≡ false → is_empty (s ++ t) ≡ false
is_empty-append_right String.[] t h = ap is_empty (append.nil t) ∙ h
is_empty-append_right (String.◌∷◌ c s) t h = ap is_empty (append.cons c s t)

is_empty-append_left : (s t : String) → is_empty s ≡ false → is_empty (s ++ t) ≡ false
is_empty-append_left String.[] t h = cc
is_empty-append_left (String.◌∷◌ c s) t h = ap is_empty (append.cons c s t)

module _ {F : Type 0} (env : Env F) where
  is_empty-or_host : (id : String) → is_empty (or_host env id) ≡ false
  is_empty-or_host id = elim (Bool-cases (is_empty id)) [
    | inl e ↦ rw e (
        is_empty-append_right env.hostname ("-" ++ env.pid) (is_empty-append_left "-" env.pid refl))
    | inr e ↦ rw e e
  ]

  assembled-Outcome :
      (lease poll : Option ℤ) (rps : Option F) (burst workers : Option ℤ)
      → parsed env.parse_duration (pos 30000000000) (env.get "LEASE_DURATION") ≡ lease
      → parsed env.parse_duration (pos 1000000000) (env.get "POLL_INTERVAL") ≡ poll
      → parsed env.parse_float env.twenty (env.get "RATE_LIMIT_RPS") ≡ rps
      → parsed atoi (pos 40) (env.get "RATE_LIMIT_BURST") ≡ burst
      → parsed atoi (pos 4) (env.get "WORKER_CONCURRENCY") ≡ workers
      → Outcome env (assembled env lease poll rps burst workers)
  assembled-Outcome none p r b w el ep er eb ew =
      inl (parsed-Unreadable env.parse_duration (pos 30000000000) (env.get "LEASE_DURATION") el)
  assembled-Outcome (some l) none r b w el ep er eb ew =
      inr (inl (parsed-Unreadable env.parse_duration (pos 1000000000) (env.get "POLL_INTERVAL") ep))
  assembled-Outcome (some l) (some p) none b w el ep er eb ew =
      inr (inr (inl (parsed-Unreadable env.parse_float env.twenty (env.get "RATE_LIMIT_RPS") er)))
  assembled-Outcome (some l) (some p) (some r) none w el ep er eb ew =
      inr (inr (inr (inl (parsed-Unreadable atoi (pos 40) (env.get "RATE_LIMIT_BURST") eb))))
  assembled-Outcome (some l) (some p) (some r) (some b) none el ep er eb ew =
      inr (inr (inr (inr (parsed-Unreadable atoi (pos 4) (env.get "WORKER_CONCURRENCY") ew))))
  assembled-Outcome (some l) (some p) (some r) (some b) (some w) el ep er eb ew = record {
    lease_duration =
        parsed-Reads env.parse_duration (pos 30000000000) l (env.get "LEASE_DURATION") el;
    poll_interval = parsed-Reads env.parse_duration (pos 1000000000) p (env.get "POLL_INTERVAL") ep;
    rate_limit_rps = parsed-Reads env.parse_float env.twenty r (env.get "RATE_LIMIT_RPS") er;
    rate_limit_burst = parsed-Reads atoi (pos 40) b (env.get "RATE_LIMIT_BURST") eb;
    concurrency = parsed-Reads atoi (pos 4) w (env.get "WORKER_CONCURRENCY") ew;
    worker_named = is_empty-or_host (get_env env "WORKER_ID" "");
  }

  -- Load fails only if one of the five variables that it parses is set to a text that does not
  -- parse. Otherwise each of the five settings is its default, if the variable is empty, or what the
  -- variable parses to, and the worker's id is not empty.
  pub load-Outcome : Outcome env (load env)
  unfolding load get_env_duration get_env_float get_env_int
  load-Outcome = assembled-Outcome _ _ _ _ _ refl refl refl refl refl
