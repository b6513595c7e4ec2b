-- ===== src/Api/Limiter/Quota.antt =====
-- How many requests of one client pass in a span of time.
use taskflow.Common.{
  ℕ, ◌+◌, ◌-◌, ◌*◌, ◌≤◌, String, str_eq, str_eq_iff, ◌≡◌, refl, sym, subst, Bool, true, false,
  if◌then◌else◌, List, [], ◌∷◌, Option, none, some, arith, Bool-cases, inl, inr,
}
use taskflow.Api.Limiter.{
  token, Bucket, RateLimiter, bucket_of, set_bucket, or_full, refilled, take_token, allow,
}

-- A request: its client and the time at which the limiter is asked.
abbrev pub Arrival : Type 0
Arrival = String × ℕ

-- The clock is monotonic, and the limiter is asked under its mutex.
abbrev pub InOrder : (start end : ℕ) → List Arrival → Type 0
InOrder start end [] = start ≤ end
InOrder start end ((key, now) ∷ rest) = (start ≤ now) × InOrder now end rest

-- The number of the client's requests that pass.
unfoldable pub admitted : String → List Arrival → RateLimiter → ℕ
admitted client [] rl = 0
admitted client ((key, now) ∷ rest) rl =
    let (passes, rl') = allow key now rl in
    (if passes then (if str_eq key client then 1 else 0) else 0) + admitted client rest rl'

-- The client's bucket was last touched at `now` or before.
abbrev pub TouchedBy : ℕ → Option Bucket → Type 0
TouchedBy now none = Unit
TouchedBy now (some b) = b.last_refill ≤ now

pub bucket_of-set_bucket :
    (j k : String) (b : Bucket) (bs : List (String × Bucket))
    → bucket_of j (set_bucket k b bs) ≡ (if str_eq k j then some b else bucket_of j bs)
unfolding bucket_of set_bucket
bucket_of-set_bucket j k b [] = refl
bucket_of-set_bucket j k b ((i, c) ∷ bs) =
    ground (arith, str_eq_iff i k, str_eq_iff i j, str_eq_iff k j, bucket_of-set_bucket j k b bs)

refilled-le : (rps burst now : ℕ) (b : Bucket) → refilled rps burst now b ≤ burst * token
unfolding refilled
refilled-le rps burst now b = ground arith

refilled-full :
    (rps burst now : ℕ) → refilled rps burst now (or_full burst now none) ≡ burst * token
unfolding refilled
refilled-full rps burst now = ground arith

sub_mul : (a b c r : ℕ) → a ≤ b → b ≤ c → (c - a) * r ≡ (b - a) * r + (c - b) * r
sub_mul a b c r h k = grind arith

refilled-later :
    (rps burst start now : ℕ) (b : Bucket)
    → b.last_refill ≤ start
    → start ≤ now
    → refilled rps burst now b ≤ refilled rps burst start b + (now - start) * rps
unfolding refilled
refilled-later rps burst start now b h k = ground (arith, sub_mul b.last_refill start now rps)

-- What a client whose bucket is `b` could draw on at `now`.
balance : (rps burst now : ℕ) → Option Bucket → ℕ
balance rps burst now b = refilled rps burst now (or_full burst now b)

balance_le : (rps burst now : ℕ) (b : Option Bucket) → balance rps burst now b ≤ burst * token
unfolding balance
balance_le rps burst now b = refilled-le rps burst now (or_full burst now b)

balance-later :
    (rps burst start now : ℕ) (b : Option Bucket)
    → TouchedBy start b
    → start ≤ now
    → balance rps burst now b ≤ balance rps burst start b + (now - start) * rps
unfolding balance
balance-later rps burst start now none touched h =
    ground (arith, refilled-full rps burst now, refilled-full rps burst start)
balance-later rps burst start now (some b) touched h =
    refilled-later rps burst start now b touched h

-- The bucket that `allow` stores, at the time it does.
balance-take_token :
    (rps burst now tokens : ℕ)
    → tokens ≤ burst * token
    → let (b, passes) = take_token now tokens in
      (if passes then 1 else 0) * token + balance rps burst now (some b) ≤ tokens
unfolding balance take_token refilled
balance-take_token rps burst now tokens h = ground arith

take_token-TouchedBy : (now tokens : ℕ) → (take_token now tokens).0.last_refill ≤ now
unfolding take_token
take_token-TouchedBy now tokens = ground arith

-- Whether a request of `key` is one of the client's that has passed.
abbrev counted : String → String → Bool → ℕ
counted client key passes = if passes then (if str_eq key client then 1 else 0) else 0

-- A client pays for its own request, and no other's bucket is touched.
pays :
    (client key : String) (rps burst now : ℕ) (bs : List (String × Bucket))
    → let (b, passes) = take_token now (balance rps burst now (bucket_of key bs)) in
      counted client key passes * token
        + balance rps burst now (if str_eq key client then some b else bucket_of client bs)
      ≤ balance rps burst now (bucket_of client bs)
pays client key rps burst now bs =
    let key≡client = str_eq_iff key client in
    let t = balance rps burst now (bucket_of key bs) in
    let cost = balance-take_token rps burst now t (balance_le rps burst now (bucket_of key bs)) in
    elim (Bool-cases (str_eq key client)) [
      | inl e ↦ ground (arith, e, cost, key≡client)
      | inr e ↦ grind (arith, e)
    ]

TouchedBy-later :
    (start now : ℕ) (b : Option Bucket) → TouchedBy start b → start ≤ now → TouchedBy now b
TouchedBy-later start now none t h = t
TouchedBy-later start now (some b) t h = omega arith

TouchedBy-if :
    (now : ℕ) (c : Bool) (a b : Option Bucket)
    → TouchedBy now a
    → TouchedBy now b
    → TouchedBy now (if c then a else b)
TouchedBy-if now true a b t u = t
TouchedBy-if now false a b t u = u

-- What `allow` does to the client's bucket.
bucket_of-allow :
    (client key : String) (now : ℕ) (rl : RateLimiter)
    → bucket_of client (allow key now rl).1.buckets ≡ (
        if str_eq key client
        then some (take_token now (balance rl.rps rl.burst now (bucket_of key rl.buckets))).0
        else bucket_of client rl.buckets)
unfolding allow balance
bucket_of-allow client key now rl = bucket_of-set_bucket client key _ rl.buckets

TouchedBy-allow :
    (client key : String) (start now : ℕ) (rl : RateLimiter)
    → TouchedBy start (bucket_of client rl.buckets)
    → start ≤ now
    → TouchedBy now (bucket_of client (allow key now rl).1.buckets)
TouchedBy-allow client key start now rl t h =
    subst (TouchedBy now) (sym (bucket_of-allow client key now rl)) (
      TouchedBy-if now (str_eq key client) (some _) (bucket_of client rl.buckets)
        (take_token-TouchedBy now _) (TouchedBy-later start now (bucket_of client rl.buckets) t h))

allow-pays :
    (client key : String) (now : ℕ) (rl : RateLimiter)
    → counted client key (allow key now rl).0 * token
        + balance rl.rps rl.burst now (bucket_of client (allow key now rl).1.buckets)
      ≤ balance rl.rps rl.burst now (bucket_of client rl.buckets)
unfolding allow balance
allow-pays client key now rl =
    rw (bucket_of-allow client key now rl) (pays client key rl.rps rl.burst now rl.buckets)

InOrder-le : (start end : ℕ) (reqs : List Arrival) → InOrder start end reqs → start ≤ end
InOrder-le start end [] o = o
InOrder-le start end ((key, now) ∷ rest) (h, o) =
    let later = InOrder-le now end rest o in omega arith

admitted-balance :
    (client : String) (start end : ℕ) (reqs : List Arrival) (rl : RateLimiter)
    → InOrder start end reqs
    → TouchedBy start (bucket_of client rl.buckets)
    → admitted client reqs rl * token
      ≤ balance rl.rps rl.burst start (bucket_of client rl.buckets) + (end - start) * rl.rps
unfolding admitted allow
admitted-balance client start end [] rl o t = omega arith
admitted-balance client start end ((key, now) ∷ rest) rl (h, o) t =
    let rl' = (allow key now rl).1 in
    let ih =
      admitted-balance client now end rest rl' o (TouchedBy-allow client key start now rl t h) in
    let paid = allow-pays client key now rl in
    let grown = balance-later rl.rps rl.burst start now (bucket_of client rl.buckets) t h in
    let span = sub_mul start now end rl.rps h (InOrder-le now end rest o) in omega arith

-- Of requests that the limiter sees in the order of their times, those of one client that pass
-- between `start` and `end` are no more than the burst and what the rate yields in that time, if the
-- client was last seen at `start` or before.
pub admitted-le :
    (client : String) (start end : ℕ) (reqs : List Arrival) (rl : RateLimiter)
    → InOrder start end reqs
    → TouchedBy start (bucket_of client rl.buckets)
    → admitted client reqs rl * token ≤ rl.burst * token + (end - start) * rl.rps
admitted-le client start end reqs rl o t =
    let own = balance_le rl.rps rl.burst start (bucket_of client rl.buckets) in
    let most = admitted-balance client start end reqs rl o t in omega arith

sub_mul_le : (a b c r : ℕ) → a ≤ b → (c - b) * r ≤ (c - a) * r
sub_mul_le a b c r h = grind arith

balance-waited :
    (rps burst start now : ℕ) (b : Option Bucket)
    → 1 ≤ burst
    → TouchedBy start b
    → token ≤ (now - start) * rps
    → token ≤ balance rps burst now b
unfolding balance refilled
balance-waited rps burst start now none h t k = ground arith
balance-waited rps burst start now (some b) h t k =
    let longer = sub_mul_le b.last_refill start now rps t in ground arith

take_token-passes : (now tokens : ℕ) → token ≤ tokens → (take_token now tokens).1 ≡ true
unfolding take_token
take_token-passes now tokens h = ground arith

-- With a burst of at least one, a client that was last seen at `start` or before, or never, passes
-- once as much time has gone by since `start` as a token takes to come.
pub allow-waited :
    (client : String) (start now : ℕ) (rl : RateLimiter)
    → 1 ≤ rl.burst
    → TouchedBy start (bucket_of client rl.buckets)
    → token ≤ (now - start) * rl.rps
    → (allow client now rl).0 ≡ true
unfolding allow balance
allow-waited client start now rl h t k =
    take_token-passes now _
      (balance-waited rl.rps rl.burst start now (bucket_of client rl.buckets) h t k)
