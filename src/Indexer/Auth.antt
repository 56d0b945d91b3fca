-- ===== src/Indexer/Auth.antt =====
-- indexer/src/auth.rs: the older middleware, with its own list of public paths, its own reading of the key
-- and its own test of the routes of the admin.
pub mod Agreement
use stellar_escrow.Prelude.{
  ℕ, Bool, true, false, ◌||◌, Option, none, some, List, [], ◌∷◌, ◌++◌, if◌then◌else◌,
}
use stellar_escrow.Indexer.Gateway.{
  codes, AuthConfig, Request, same, strip_prefix, starts_with, holds,
}

abbrev pub auth_public_paths : List (List ℕ)
auth_public_paths =
    codes "/"
    ∷ codes "/health"
    ∷ codes "/health/live"
    ∷ codes "/health/ready"
    ∷ codes "/health/metrics"
    ∷ codes "/health/alerts"
    ∷ codes "/status"
    ∷ codes "/help"
    ∷ codes "/ws"
    ∷ codes "/api/v1/docs"
    ∷ []

-- the `any` at the head of auth_middleware
abbrev pub any_passes : List (List ℕ) → List ℕ → Bool
any_passes [] path = false
any_passes (p ∷ ps) path =
    if same path p
    then true
    else if starts_with path (p ++ codes "/")
    then true
    else any_passes ps path

unfoldable pub and_then : {A B : Type 0} → Option A → (A → Option B) → Option B
and_then none f = none
and_then (some x) f = f x

unfoldable pub or_else : {A : Type 0} → Option A → Option A → Option A
or_else none rest = rest
or_else (some x) rest = some x

abbrev pub normalized : List ℕ → Option (List ℕ) → Option (List ℕ)
normalized value (some stripped) = some stripped
normalized value none = some value

unfoldable pub normalize_api_key : List ℕ → Option (List ℕ)
normalize_api_key value = normalized value (strip_prefix (codes "Bearer ") value)

-- the chain that ends in `or_else`; the argument of the first `and_then` is `to_str().ok()`
unfoldable pub request_key : Request → Option (List ℕ)
unfolding and_then or_else normalize_api_key
request_key req =
    or_else (and_then (and_then req.authorization (λ hv. hv)) normalize_api_key)
      (and_then req.x_api_key (λ hv. hv))

pub data Answer : Type 0 where
  handled : Answer
  unauthorized : Answer
  forbidden : Answer

-- the end of auth_middleware, after the tests of the key and of the route
abbrev pub answer_for : AuthConfig → Bool → List ℕ → Answer
answer_for auth true key = if holds auth.admin_keys key then handled else forbidden
answer_for auth false key =
    if holds auth.api_keys key || holds auth.admin_keys key then handled else unauthorized

-- The empty key is refused like a missing one.
abbrev pub answer_key : AuthConfig → List ℕ → Option (List ℕ) → Answer
answer_key auth path none = unauthorized
answer_key auth path (some []) = unauthorized
answer_key auth path (some (k ∷ ks)) =
    answer_for auth (starts_with path (codes "/admin") || starts_with path (codes "/api/v1/admin"))
      (k ∷ ks)

unfoldable pub auth_middleware : AuthConfig → Request → Answer
unfolding request_key
auth_middleware auth req =
    if any_passes auth_public_paths req.path
    then handled
    else answer_key auth req.path (request_key req)
