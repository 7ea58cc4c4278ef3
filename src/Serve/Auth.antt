-- ===== src/Serve/Auth.antt =====
-- serve/auth.py: the API keys of the HTTP transport. The environment variable and the two headers
-- are arguments; the rest of the application is a function on `W`.
use lottie_orchestrator.Prelude.{
  Option, none, some, Bool, true, false, not, ◌&&◌, List, [], ◌∷◌, map, ◌==◌, ltb, all, any, keep,
  drop, if◌then◌else◌,
}
use lottie_orchestrator.Prelude.Texts.{Text, codes}
use lottie_orchestrator.Prelude.Walks.{text_eq, lower, strip, split_on, is_empty}
use lottie_orchestrator.Exec.{Exc, raised, Result, ok, err, Exec}

-- `_configured_keys`
unfoldable pub configured_keys : Text → List Text
unfolding split_on strip
configured_keys raw = keep (λ k. not (is_empty k)) (map strip (split_on b',' raw))

unfoldable pub starts_with : Text → Text → Bool
starts_with [] s = true
starts_with (c ∷ prefix) [] = false
starts_with (c ∷ prefix) (d ∷ s) = c == d && starts_with prefix s

abbrev pub bearer_token : Option Text → Option Text → Option Text
bearer_token none api_key = api_key
bearer_token (some auth) api_key =
    if starts_with (codes "bearer ") (lower auth) then some (strip (drop 7 auth)) else api_key

-- `_presented_token`, from the headers `authorization` and `x-api-key`
unfoldable pub presented_token : Option Text → Option Text → Option Text
unfolding starts_with lower strip
presented_token authorization api_key = bearer_token authorization api_key

-- `hmac.compare_digest` on strings, which raises unless both are ASCII
unfoldable pub compare_digest : Text → Text → Result Exc Bool
compare_digest a b =
    if all (λ c. ltb c 128) a && all (λ c. ltb c 128) b
    then ok (text_eq a b)
    else err (raised "TypeError" "comparing strings with non-ASCII characters is not supported")

abbrev pub with_match : Result Exc Bool → Result Exc (List Bool) → Result Exc (List Bool)
with_match (err e) rest = err e
with_match (ok m) (err e) = err e
with_match (ok m) (ok ms) = ok (m ∷ ms)

-- the list of all comparisons
unfoldable pub matches : Text → List Text → Result Exc (List Bool)
unfolding compare_digest
matches token [] = ok []
matches token (k ∷ keys) = with_match (compare_digest token k) (matches token keys)

module _ {W R : Type 0} (unauthorized : R) (call_next : Exec Exc W R) where
  abbrev pub decided : Result Exc (List Bool) → Exec Exc W R
  decided (err e) w = (err e, w)
  decided (ok ms) w =
      let passed = call_next w in if any (λ m. m) ms then passed else (ok unauthorized, w)

  abbrev pub with_token : List Text → Option Text → Exec Exc W R
  with_token keys none w = (ok unauthorized, w)
  with_token keys (some token) w = decided (matches token keys) w

  abbrev pub with_keys : List Text → Option Text → Exec Exc W R
  with_keys [] token w = call_next w
  with_keys (k ∷ keys) token w = with_token (k ∷ keys) token w

  -- `ApiKeyAuthMiddleware.dispatch`
  unfoldable pub dispatch : Text → Option Text → Option Text → Exec Exc W R
  unfolding configured_keys presented_token matches
  dispatch raw authorization api_key =
      with_keys (configured_keys raw) (presented_token authorization api_key)
