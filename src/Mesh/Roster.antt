-- ===== src/Mesh/Roster.antt =====
-- mesh/router.py: which decisions the supervisor's reply can lead to.
use lottie_orchestrator.Prelude.{
  ◌≡◌, refl, sym, ap, subst, ◌∙◌, suc, length, ◌||◌, ◌⊎◌, inl, inr, Option, none, some, Bool, true,
  false, List, [], ◌∷◌, All, any, Bool-cases, arith, Option-cases,
}
use lottie_orchestrator.Prelude.Texts.{Text}
use lottie_orchestrator.Prelude.Walks.{text_eq, text_eq_iff, upper, lower, strip}
use lottie_orchestrator.Exec.{Result, ok, err, Exec}
use lottie_orchestrator.Mesh.Schema.{MeshError, finish_name, MeshState, RouteDecision}
use lottie_orchestrator.Mesh.Router.{
  lowered, found, cons_result, fan_out, single, decide_by, answered, resolve, resolve_all, decide,
  route,
}

-- a declared worker, or the end of the run
abbrev pub IsKnown : List Text → Text → Type 0
IsKnown workers n = (n ≡ finish_name) ⊎ (any (λ w. text_eq w n) workers ≡ true)

-- one known name, or a fan-out to several
pub data IsRouted (workers : List Text) : RouteDecision → Type 0 where
  to_one : (n : Text) → IsKnown workers n → IsRouted workers (record { next = n; parallel = [] })
  to_many :
      (a b : Text) (ns : List Text)
      → All (IsKnown workers) (a ∷ b ∷ ns)
      → IsRouted workers (record { next = finish_name; parallel = a ∷ b ∷ ns })

text_eq_refl : (s : Text) → text_eq s s ≡ true
text_eq_refl s = (text_eq_iff s s).1 refl

or_right : (a b : Bool) → b ≡ true → (a || b) ≡ true
or_right true b h = refl
or_right false b h = h

or_left : (a b : Bool) → a ≡ true → (a || b) ≡ true
or_left true b h = refl
or_left false b h = cc

some-injective : {a b : Text} → some a ≡ some b → a ≡ b
some-injective h = cc

ok-injective : {A : Type 0} (a b : A) → ◌≡◌ {A = Result MeshError A} (ok a) (ok b) → a ≡ b
ok-injective a b h = cc

lowered-declared :
    (workers : List Text) (key n : Text)
    → lowered workers key ≡ some n
    → any (λ w. text_eq w n) workers ≡ true
unfolding lowered
lowered-declared [] key n h = cc
lowered-declared (w ∷ ws) key n h = elim (Option-cases (lowered ws key)) [
  | inr (m, e) ↦ or_right (text_eq w n) _ (lowered-declared ws key n (e ∙ (rw e at h)))
  | inl e ↦ elim (Bool-cases (text_eq (lower w) key)) [
    | inl q ↦ or_left (text_eq w n) _ ((text_eq_iff w n).1 (some-injective (rw (e, q) at h)))
    | inr q ↦ cc (rw (e, q) at h)
  ]
]

found-IsKnown :
    (workers : List Text) (raw n : Text) (o : Option Text)
    → lowered workers (lower raw) ≡ o
    → found raw o ≡ ok n
    → IsKnown workers n
found-IsKnown workers raw n none e h = cc
found-IsKnown workers raw n (some m) e h =
    inr (lowered-declared workers (lower raw) n (e ∙ ap some (ok-injective m n h)))

resolve-IsKnown :
    (workers : List Text) (raw n : Text) → resolve workers raw ≡ ok n → IsKnown workers n
unfolding resolve
resolve-IsKnown workers raw n h = elim (Bool-cases (text_eq (upper raw) finish_name)) [
  | inl q ↦ inl (sym (ok-injective _ n (rw q at h)))
  | inr q ↦ found-IsKnown workers raw n _ refl (rw q at h)
]

resolve_all-IsKnown :
    (workers names ns : List Text)
    → resolve_all workers names ≡ ok ns
    → All (IsKnown workers) ns × (length ns ≡ length names)
unfolding resolve_all
resolve_all-IsKnown workers [] ns h =
    subst (λ l. All (IsKnown workers) l × (length l ≡ 0)) (ok-injective _ ns h) (tt, refl)
resolve_all-IsKnown workers (a ∷ names) ns h =
    go (resolve workers a) (resolve_all workers names) refl refl
      (λ ms. resolve_all-IsKnown workers names ms) h
  where
    go :
        (r : Result MeshError Text) (rs : Result MeshError (List Text))
        → resolve workers a ≡ r
        → resolve_all workers names ≡ rs
        → ((ms : List Text)
            → resolve_all workers names ≡ ok ms
            → All (IsKnown workers) ms × (length ms ≡ length names))
        → cons_result r rs ≡ ok ns
        → All (IsKnown workers) ns × (length ns ≡ length (a ∷ names))
    go (err e) rs p q ih h = cc
    go (ok m) (err e) p q ih h = cc
    go (ok m) (ok ms) p q ih h =
        let (known, same) = ih ms q in
        subst (λ l. All (IsKnown workers) l × (length l ≡ suc (length names))) (ok-injective _ ns h)
          ((resolve-IsKnown workers a m p, known), ap suc same)

fan_out-IsRouted :
    (workers names : List Text) (a b : Text) (d : RouteDecision) (r : Result MeshError (List Text))
    → resolve_all workers (a ∷ b ∷ names) ≡ r
    → fan_out r ≡ ok d
    → IsRouted workers d
fan_out-IsRouted workers names a b d (err e) p h = cc
fan_out-IsRouted workers names a b d (ok []) p h =
    let (known, same) = resolve_all-IsKnown workers (a ∷ b ∷ names) [] p in ground arith
fan_out-IsRouted workers names a b d (ok (m ∷ [])) p h =
    let (known, same) = resolve_all-IsKnown workers (a ∷ b ∷ names) (m ∷ []) p in ground arith
fan_out-IsRouted workers names a b d (ok (m ∷ n ∷ ns)) p h =
    subst (IsRouted workers) (ok-injective _ d h)
      (to_many m n ns (resolve_all-IsKnown workers (a ∷ b ∷ names) (m ∷ n ∷ ns) p).0)

single-IsRouted :
    (workers : List Text) (raw : Text) (d : RouteDecision) (r : Result MeshError Text)
    → resolve workers raw ≡ r
    → single r ≡ ok d
    → IsRouted workers d
single-IsRouted workers raw d (err e) p h = cc
single-IsRouted workers raw d (ok n) p h =
    subst (IsRouted workers) (ok-injective _ d h) (to_one n (resolve-IsKnown workers raw n p))

decide_by-IsRouted :
    (workers : List Text) (raw : Text) (names : List Text) (d : RouteDecision)
    → decide_by workers raw names ≡ ok d
    → IsRouted workers d
decide_by-IsRouted workers raw [] d h = single-IsRouted workers raw d _ refl h
decide_by-IsRouted workers raw (a ∷ []) d h = single-IsRouted workers raw d _ refl h
decide_by-IsRouted workers raw (a ∷ b ∷ names) d h = fan_out-IsRouted workers names a b d _ refl h

answered-IsRouted :
    {S : Type 0} (workers : List Text) (x : Result MeshError Text × S) (s' : S) (d : RouteDecision)
    → answered workers x ≡ (ok d, s')
    → IsRouted workers d
unfolding decide
answered-IsRouted workers (err e, t) s' d h = cc
answered-IsRouted workers (ok reply, t) s' d h =
    decide_by-IsRouted workers (strip reply) _ d (ap (λ x. x.0) h)

-- Whatever the model replies, a decision that the router returns is the end of the run, a declared
-- worker, or a fan-out to two or more of these.
pub route_fails_closed :
    {S : Type 0} (ask : MeshState → Exec MeshError S Text) (workers : List Text) (state : MeshState)
    (s s' : S) (d : RouteDecision)
    → route ask workers state s ≡ (ok d, s')
    → IsRouted workers d
unfolding route decide
route_fails_closed ask workers state s s' d h = answered-IsRouted workers (ask state s) s' d h
