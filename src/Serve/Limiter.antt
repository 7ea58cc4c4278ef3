-- ===== src/Serve/Limiter.antt =====
-- serve/ratelimit.py: a token bucket for each identity. Time is in milliseconds and tokens are in
-- sixty-thousandths, where the program has floats: a rate of r requests per minute refills r of
-- these units each millisecond.
use lottie_orchestrator.Prelude.{
  ℕ, ◌+◌, ◌-◌, ◌*◌, min, Option, none, some, Bool, true, false, List, [], ◌∷◌, ◌++◌, ◌==◌, ltb,
  drop, take, if◌then◌else◌,
}
use lottie_orchestrator.Prelude.Texts.{Text, codes}
use lottie_orchestrator.Prelude.Walks.{text_eq, lower, strip}

abbrev pub one_token : ℕ
one_token = 60000

-- what `_identity` reads of a request
pub record Request : Type 0 where
  pub authorization : Option Text
  pub x_api_key : Option Text
  pub client_host : Option Text

abbrev bearer : Text
bearer = codes "bearer "

abbrev by_host : Option Text → Text
by_host none = codes "h:unknown"
by_host (some host) = codes "h:" ++ host

abbrev by_key : Option Text → Option Text → Text
by_key none host = by_host host
by_key (some []) host = by_host host
by_key (some (c ∷ key)) host = codes "k:" ++ c ∷ key

-- `_identity`
unfoldable pub identity : Request → Text
identity r = elim r.authorization [
  | none ↦ by_key r.x_api_key r.client_host
  | some auth ↦
      if text_eq (take 7 (lower auth)) bearer
      then codes "k:" ++ strip (drop 7 auth)
      else by_key r.x_api_key r.client_host
]

pub record Bucket : Type 0 where
  pub tokens : ℕ
  pub last : ℕ

abbrev pub Buckets : Type 0
Buckets = List (Text × Bucket)

-- `_buckets.get(ident, (float(rate), now))`
unfoldable pub get : ℕ → ℕ → Text → Buckets → Bucket
get rate now ident [] = record { tokens = rate * one_token; last = now }
get rate now ident ((k, b) ∷ bs) = if text_eq k ident then b else get rate now ident bs

-- `_buckets[ident] = b`
unfoldable pub put : Text → Bucket → Buckets → Buckets
put ident b [] = (ident, b) ∷ []
put ident b ((k, old) ∷ bs) = if text_eq k ident then (ident, b) ∷ bs else (k, old) ∷ put ident b bs

unfoldable pub refill : ℕ → ℕ → Bucket → ℕ
refill rate now b = min (rate * one_token) (b.tokens + (now - b.last) * rate)

-- the test on the refilled tokens: whether the request goes on, and the bucket that is stored
unfoldable pub spend : ℕ → ℕ → Bool × Bucket
spend now tokens =
    if ltb tokens one_token
    then (false, record { tokens = tokens; last = now })
    else (true, record { tokens = tokens - one_token; last = now })

-- `RateLimitMiddleware.dispatch`, on the rate, the clock and the identity of the request
unfoldable pub dispatch : ℕ → ℕ → Text → Buckets → Bool × Buckets
unfolding get put refill spend
dispatch rate now ident buckets =
    if rate == 0
    then (true, buckets)
    else (let (admitted, b) = spend now (refill rate now (get rate now ident buckets)) in
        (admitted, put ident b buckets))
