-- ===== src/Serve/Buckets.antt =====
-- serve/ratelimit.py: how many requests of one identity a window of time lets through.
use lottie_orchestrator.Prelude.{
  ℕ, ◌+◌, ◌-◌, ◌*◌, ◌≤◌, ◌<◌, ◌≡◌, refl, sym, ap, inl, inr, ◌⊎◌, true, false, List, [], ◌∷◌, ◌==◌,
  ltb, arith, Bool-cases, if◌then◌else◌, suc,
}
use lottie_orchestrator.Prelude.Texts.{Text}
use lottie_orchestrator.Prelude.Walks.{text_eq, text_eq_iff}
use lottie_orchestrator.Serve.Limiter.{
  one_token, Bucket, Buckets, get, put, refill, spend, dispatch,
}

-- the requests of a window, by time and identity, and how many of one identity go on
unfoldable pub admitted : ℕ → Text → List (ℕ × Text) → Buckets → ℕ
admitted rate who [] buckets = 0
admitted rate who ((now, ident) ∷ requests) buckets =
    let (goes_on, buckets') = dispatch rate now ident buckets in
    let rest = admitted rate who requests buckets' in
    if text_eq ident who then (if goes_on then suc rest else rest) else rest

-- The times do not go back, and end by `stop`.
abbrev pub InOrder : ℕ → List (ℕ × Text) → ℕ → Type 0
InOrder from [] stop = from ≤ stop
InOrder from ((now, ident) ∷ requests) stop = (from ≤ now) × InOrder now requests stop

get-put_same :
    (rate now : ℕ) (who : Text) (b : Bucket) (bs : Buckets) → get rate now who (put who b bs) ≡ b
unfolding get put
get-put_same rate now who b [] = rw ((text_eq_iff who who).1 refl) refl
get-put_same rate now who b ((k, old) ∷ bs) = elim (Bool-cases (text_eq k who)) [
  | inl e ↦ rw (e, (text_eq_iff who who).1 refl) refl
  | inr e ↦ rw (e, e) (get-put_same rate now who b bs)
]

get-put_other :
    (rate now : ℕ) (who ident : Text) (b : Bucket) (bs : Buckets)
    → text_eq ident who ≡ false
    → get rate now who (put ident b bs) ≡ get rate now who bs
unfolding get put
get-put_other rate now who ident b [] h = rw h refl
get-put_other rate now who ident b ((k, old) ∷ bs) h = elim (Bool-cases (text_eq k ident)) [
  | inl e ↦
      let differs : text_eq k who ≡ false = rw (sym ((text_eq_iff k ident).0 e)) at h in
      rw (e, differs, h) refl
  | inr e ↦
      rw e (ap (λ x. if text_eq k who then old else x) (get-put_other rate now who ident b bs h))
]

span_split : (rate a b c : ℕ) → a ≤ b → b ≤ c → (c - a) * rate ≡ (b - a) * rate + (c - b) * rate
span_split rate a b c h k =
    let whole : c - a ≡ (b - a) + (c - b) = omega arith in rw whole (omega arith)

-- the two cases of `get`: a stored bucket, or a full one of now
get-cases :
    (rate : ℕ) (who : Text) (bs : Buckets)
    → ((b : Bucket) × ((now : ℕ) → get rate now who bs ≡ b))
      ⊎ ((now : ℕ) → get rate now who bs ≡ record { tokens = rate * one_token; last = now })
unfolding get
get-cases rate who [] = inr (λ now. refl)
get-cases rate who ((k, b) ∷ bs) = elim (Bool-cases (text_eq k who)) [
  | inl e ↦ rw e (inl (b, λ now. refl))
  | inr e ↦ rw e (get-cases rate who bs)
]

module _ (rate : ℕ) (who : Text) where
  -- what the identity could spend at a time
  potential : ℕ → Buckets → ℕ
  unfolding refill
  potential t bs = refill rate t (get rate t who bs)

  refill_later :
      (t u : ℕ) (b : Bucket)
      → b.last ≤ t
      → t ≤ u
      → refill rate u b ≤ refill rate t b + (u - t) * rate
  unfolding refill
  refill_later t u b h k = omega (arith, span_split rate b.last t u h k)

  potential_later :
      (t u : ℕ) (bs : Buckets)
      → (get rate t who bs).last ≤ t
      → t ≤ u
      → potential u bs ≤ potential t bs + (u - t) * rate
  unfolding potential refill
  potential_later t u bs h k = elim (get-cases rate who bs) [
    | inl (b, same) ↦ rw (same u, same t) (refill_later t u b (rw (same t) at h) k)
    | inr fresh ↦ rw (fresh u, fresh t) (omega arith)
  ]

  potential-le : (t : ℕ) (bs : Buckets) → potential t bs ≤ rate * one_token
  unfolding potential refill
  potential-le t bs = omega arith

  InOrder-le :
      (from stop : ℕ) (requests : List (ℕ × Text)) → InOrder from requests stop → from ≤ stop
  InOrder-le from stop [] h = h
  InOrder-le from stop ((now, ident) ∷ requests) h = omega (arith, InOrder-le now stop requests h.1)

  -- the bucket that `spend` leaves, at the same time
  spent :
      (now tokens : ℕ)
      → refill rate now (spend now tokens).1 + (if (spend now tokens).0 then one_token else 0)
        ≤ tokens
  unfolding refill spend
  spent now tokens = elim (Bool-cases (ltb tokens one_token)) [
    | inl e ↦ rw e (ground arith)
    | inr e ↦ rw e (ground arith)
  ]

  spend-last : (now tokens : ℕ) → (spend now tokens).1.last ≡ now
  unfolding spend
  spend-last now tokens = elim (Bool-cases (ltb tokens one_token)) [
    | inl e ↦ rw e refl
    | inr e ↦ rw e refl
  ]

  -- one request of the identity: what it takes, and that its bucket is of now
  own_request :
      (now : ℕ) (ident : Text) (bs : Buckets)
      → (rate == 0) ≡ false
      → text_eq ident who ≡ true
      → let out = dispatch rate now ident bs in
        (potential now out.1 + (if out.0 then one_token else 0) ≤ potential now bs)
        × ((get rate now who out.1).last ≡ now)
  unfolding dispatch potential spend
  own_request now ident bs z e =
      let same : ident ≡ who = (text_eq_iff ident who).0 e in
      let tokens = refill rate now (get rate now who bs) in
      let kept = get-put_same rate now who (spend now tokens).1 bs in
      rw (z, same, kept) (spent now tokens, spend-last now tokens)

  other_request :
      (now : ℕ) (ident : Text) (bs : Buckets)
      → (rate == 0) ≡ false
      → text_eq ident who ≡ false
      → get rate now who (dispatch rate now ident bs).1 ≡ get rate now who bs
  unfolding dispatch
  other_request now ident bs z e = rw z (get-put_other rate now who ident _ bs e)

  last_later :
      (t u : ℕ) (bs : Buckets) → (get rate t who bs).last ≤ t → t ≤ u → (get rate u who bs).last ≤ u
  last_later t u bs h k = elim (get-cases rate who bs) [
    | inl (b, same) ↦ let stored : b.last ≤ t = rw (same t) at h in rw (same u) (omega arith)
    | inr fresh ↦ rw (fresh u) (omega arith)
  ]

  other_potential :
      (now : ℕ) (ident : Text) (bs : Buckets)
      → (rate == 0) ≡ false
      → text_eq ident who ≡ false
      → potential now (dispatch rate now ident bs).1 ≡ potential now bs
  unfolding potential
  other_potential now ident bs z e = ap (λ b. refill rate now b) (other_request now ident bs z e)

  admitted-le :
      (from stop : ℕ) (requests : List (ℕ × Text)) (bs : Buckets)
      → (rate == 0) ≡ false
      → (get rate from who bs).last ≤ from
      → InOrder from requests stop
      → admitted rate who requests bs * one_token ≤ potential from bs + (stop - from) * rate
  unfolding admitted
  admitted-le from stop [] bs z h o = omega arith
  admitted-le from stop ((now, ident) ∷ requests) bs z h o =
      let later = potential_later from now bs h o.0 in
      let within = span_split rate from now stop o.0 (InOrder-le now stop requests o.1) in
      let out = dispatch rate now ident bs in
      elim (Bool-cases (text_eq ident who)) [
        | inl e ↦
            let (cost, dated) = own_request now ident bs z e in
            let ih = admitted-le now stop requests out.1 z (omega (arith, dated)) o.1 in
            rw e (ground (arith, cost, ih, later, within))
        | inr e ↦
            let same = other_request now ident bs z e in
            let ih =
              admitted-le now stop requests out.1 z (rw same (last_later from now bs h o.0)) o.1 in
            rw e (omega (arith, ih, later, within, other_potential now ident bs z e))
      ]

-- In a window of time no identity gets more requests through than the rate, for the bucket that may
-- be full at its start, and the rate for each minute of the window, whatever other identities ask
-- for meanwhile. The rate is not 0, which turns the limiter off, the clock does not go back, and the
-- identity's bucket was last written before the window.
pub window_bound :
    (rate : ℕ) (who : Text) (from stop : ℕ) (requests : List (ℕ × Text)) (buckets : Buckets)
    → 0 < rate
    → (get rate from who buckets).last ≤ from
    → InOrder from requests stop
    → admitted rate who requests buckets * one_token ≤ rate * one_token + (stop - from) * rate
window_bound rate who from stop requests buckets z h o = omega (
  arith,
  admitted-le rate who from stop requests buckets (ground arith) h o,
  potential-le rate who from buckets,
)
