-- ===== src/Worker/Handlers/Calling.antt =====
-- What HTTPCallHandler answers, for every payload and every reply.
use taskflow.Common.{
  ℕ, ℤ, leb, true, false, Bool-cases, length, take, List, arith, Option, none, some, String, ◌≡◌,
  refl, ◌≢◌, ◌⊎◌, inl, inr, ◌≤◌, ◌<◌,
}
use taskflow.Model.{
  Job, JobRun, Fields, Value, null, boolean, number, text, array, object, empty, field,
}
use taskflow.Api.Text.{is_empty}
use taskflow.Worker.Pool.{Outcome, returns, fails}
use taskflow.Worker.Handlers.{
  lookup, method_of, Exchange, malformed, unanswered, answered, Rest, ends, cut_off, breaks,
  error_of, read_outcome, Client, max_body, outcome_of, call, call_url, http_call_handler,
}

-- The payload's url is a text that is not empty.
abbrev pub Names : Option Value → String → Type 0
Names v url = (v ≡ some (text url)) × (is_empty url ≡ false)

-- A reply whose body could be read up to its end, to where it was cut off, or up to its first 4096
-- bytes, and what is stored of it.
pub record IsStored (text_of : List ℕ → String) (e : Exchange) (result : Option Fields)
    : Type 0 where
  pub status_code : String
  pub body : List ℕ
  pub rest : Rest
  pub replied : e ≡ answered status_code body rest
  pub whole : (max_body ≤ length body) ⊎ ((rest ≡ ends) ⊎ (rest ≡ cut_off))
  pub stored :
      result
      ≡ some (
          field "status_code"
            (number status_code)
            (field "body" (text (text_of (take max_body body))) empty))

-- No reply, or one whose body could not be read within its first 4096 bytes, for another reason than
-- that it ended or was cut off.
abbrev pub IsBroken : Exchange → Type 0
IsBroken (malformed e) = Unit
IsBroken (unanswered e) = Unit
IsBroken (answered status body rest) = (length body < max_body) × (rest ≢ ends) × (rest ≢ cut_off)

module _ (client : Client) (method : String) (start : ℤ) where
  abbrev pub Called : Option Value → Outcome → Type 0
  Called v (returns result) =
      (url : String) × Names v url
      × IsStored client.text_of (client.exchange method url start) result
  Called v (fails message) =
      ((url : String) → ¬ Names v url)
      ⊎ ((url : String) × Names v url × IsBroken (client.exchange method url start))

abbrev Replied : (List ℕ → String) → Exchange → Outcome → Type 0
Replied text_of e (returns result) = IsStored text_of e result
Replied text_of e (fails message) = IsBroken e

long_enough : (n m : ℕ) → leb n m ≡ true → n ≤ m
long_enough n m h = ground arith

too_short : (n m : ℕ) → leb n m ≡ false → m < n
too_short n m h = ground arith

outcome_of-Replied :
    (text_of : List ℕ → String) (e : Exchange) → Replied text_of e (outcome_of text_of e)
unfolding outcome_of
outcome_of-Replied text_of (malformed e) = tt
outcome_of-Replied text_of (unanswered e) = tt
outcome_of-Replied text_of (answered status body rest) =
    elim (Bool-cases (leb max_body (length body))) [
      | inl h ↦ rw h (kept status body rest (inl (long_enough max_body (length body) h)))
      | inr h ↦ rw h (unread-Replied status body rest (too_short max_body (length body) h))
    ]
  where
    kept :
        (status : String) (body : List ℕ) (rest : Rest)
        → (max_body ≤ length body) ⊎ ((rest ≡ ends) ⊎ (rest ≡ cut_off))
        → Replied text_of (answered status body rest) (read_outcome text_of status body none)
    kept status body rest h = record {
      status_code = status;
      body = body;
      rest = rest;
      replied = refl;
      whole = h;
      stored = refl;
    }

    unread-Replied :
        (status : String) (body : List ℕ) (rest : Rest)
        → length body < max_body
        → Replied text_of
            (answered status body rest)
            (read_outcome text_of status body (error_of rest))
    unread-Replied status body ends h = kept status body ends (inr (inl refl))
    unread-Replied status body cut_off h = kept status body cut_off (inr (inr refl))
    unread-Replied status body (breaks e) h = (h, λ q. cc, λ q. cc)

Replied-Called :
    (client : Client) (method url : String) (start : ℤ) (o : Outcome)
    → is_empty url ≡ false
    → Replied client.text_of (client.exchange method url start) o
    → Called client method start (some (text url)) o
Replied-Called client method url start (returns r) h p = (url, (refl, h), p)
Replied-Called client method url start (fails m) h p = inr (url, (refl, h), p)

call_url-Called :
    (client : Client) (job : Job) (start : ℤ) (v : Option Value)
    → Called client (method_of job) start v (call_url client job start v).outcome
unfolding call call_url
call_url-Called client job start none = inl (λ url. λ (e, f). cc)
call_url-Called client job start (some (text url)) = elim (Bool-cases (is_empty url)) [
  | inl h ↦ rw h (inl (λ url'. λ (e, f). cc))
  | inr h ↦ rw h (
      Replied-Called client (method_of job) url start
        (call client (method_of job) url start).outcome h
        (outcome_of-Replied client.text_of (client.exchange (method_of job) url start)))
]
call_url-Called client job start (some null) = inl (λ url. λ (e, f). cc)
call_url-Called client job start (some (boolean b)) = inl (λ url. λ (e, f). cc)
call_url-Called client job start (some (number n)) = inl (λ url. λ (e, f). cc)
call_url-Called client job start (some (array vs)) = inl (λ url. λ (e, f). cc)
call_url-Called client job start (some (object fs)) = inl (λ url. λ (e, f). cc)

-- HTTPCallHandler returns a result only if the payload's url is a text that is not empty and the
-- reply to the payload's method, or GET, at that url has a body that ends, is cut off or fills 4096
-- bytes; the result is the reply's status and the first 4096 bytes of its body. It fails only if
-- there is no such url, or the request has no reply, or reading its body fails before that for
-- another reason.
pub http_call_handler-Called :
    (client : Client) (job : Job) (run : JobRun) (start : ℤ)
    → Called client
        (method_of job)
        start
        (lookup "url" job.payload)
        (http_call_handler client job run start).outcome
unfolding http_call_handler
http_call_handler-Called client job run start =
    call_url-Called client job start (lookup "url" job.payload)
