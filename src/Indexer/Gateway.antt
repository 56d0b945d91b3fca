-- ===== src/Indexer/Gateway.antt =====
-- indexer/src/gateway.rs: which requests the gateway lets through, and the round robin over the
-- instances. A text is the list of its bytes. A header is
-- `none` where it is missing and `some none` where it is no readable text.
pub mod Access
pub mod RoundRobin
use Prim.Native.Char.{code}
use Prim.Native.String.{String}
use stellar_escrow.Prelude.{
  ℕ, ◌+◌, ◌-◌, ◌%◌, Bool, true, false, not, ◌&&◌, ◌||◌, Option, none, some, List, [], ◌∷◌, ◌++◌,
  length, ◌==◌, if◌then◌else◌,
}
use stellar_escrow.Soroban.{u64_mod}

abbrev pub codes : String → List ℕ
codes String.[] = []
codes (String.◌∷◌ c s) = code c ∷ codes s

pub record AuthConfig : Type 0 where
  pub api_keys : List (List ℕ)
  pub admin_keys : List (List ℕ)

pub record Request : Type 0 where
  pub path : List ℕ
  pub authorization : Option (Option (List ℕ))
  pub x_api_key : Option (Option (List ℕ))

abbrev pub same : List ℕ → List ℕ → Bool
same [] [] = true
same [] (b ∷ r) = false
same (a ∷ s) [] = false
same (a ∷ s) (b ∷ r) = a == b && same s r

-- the rest of a text after a prefix
abbrev pub strip_prefix : List ℕ → List ℕ → Option (List ℕ)
strip_prefix [] s = some s
strip_prefix (p ∷ ps) [] = none
strip_prefix (p ∷ ps) (c ∷ cs) = if p == c then strip_prefix ps cs else none

abbrev pub is_some : {A : Type 0} → Option A → Bool
is_some none = false
is_some (some _) = true

abbrev pub starts_with : List ℕ → List ℕ → Bool
starts_with s p = is_some (strip_prefix p s)

abbrev pub public_paths : List (List ℕ)
public_paths =
    codes "/"
    ∷ codes "/health"
    ∷ codes "/health/live"
    ∷ codes "/health/ready"
    ∷ codes "/health/metrics"
    ∷ codes "/health/alerts"
    ∷ codes "/status"
    ∷ codes "/help"
    ∷ codes "/ws"
    ∷ codes "/api/v1/docs"
    ∷ []

-- `PUBLIC_PATHS.iter().any(…)`
abbrev pub any_covers : List (List ℕ) → List ℕ → Bool
any_covers [] path = false
any_covers (p ∷ ps) path = (same path p || starts_with path (p ++ codes "/")) || any_covers ps path

unfoldable pub is_public_path : List ℕ → Bool
is_public_path path = any_covers public_paths path

abbrev pub is_admin_route : List ℕ → Bool
is_admin_route path = starts_with path (codes "/admin") || starts_with path (codes "/api/v1/admin")

unfoldable pub holds : List (List ℕ) → List ℕ → Bool
holds [] key = false
holds (k ∷ ks) key = same k key || holds ks key

abbrev pub without_bearer : List ℕ → Option (List ℕ) → List ℕ
without_bearer value none = value
without_bearer value (some key) = key

-- the first `if let` of extract_api_key, with the text of the header
abbrev pub authorization_key : Option (Option (List ℕ)) → Option (List ℕ)
authorization_key none = none
authorization_key (some none) = none
authorization_key (some (some value)) =
    some (without_bearer value (strip_prefix (codes "Bearer ") value))

-- the second `if let`
abbrev pub header_key : Option (Option (List ℕ)) → Option (List ℕ)
header_key none = none
header_key (some none) = none
header_key (some (some key)) = some key

abbrev pub returned_or : Option (List ℕ) → Option (List ℕ) → Option (List ℕ)
returned_or none rest = rest
returned_or (some key) rest = some key

-- `none` is the error `Unauthorized`.
unfoldable pub extract_api_key : Request → Option (List ℕ)
extract_api_key req = returned_or (authorization_key req.authorization) (header_key req.x_api_key)

abbrev pub key_admits : AuthConfig → List ℕ → Option (List ℕ) → Bool
key_admits auth path none = false
key_admits auth path (some key) =
    if is_admin_route path
    then holds auth.admin_keys key
    else holds auth.api_keys key || holds auth.admin_keys key

-- `Ok` of validate_api_key
unfoldable pub validate_api_key : Request → AuthConfig → Bool
unfolding extract_api_key
validate_api_key req auth = key_admits auth req.path (extract_api_key req)

-- Whether gateway_middleware runs the handler. A route is counted in either case.
unfoldable pub gateway_admits : AuthConfig → Request → Bool
unfolding is_public_path validate_api_key
gateway_admits auth req = if is_public_path req.path then true else validate_api_key req auth

unfoldable pub get_elem? {ℓ} : {A : Type ℓ} → List A → ℕ → Option A
get_elem? [] n = none
get_elem? (x ∷ xs) n = if n == 0 then some x else get_elem? xs (n - 1)

-- the counter, which wraps like `fetch_add`, and the instance
unfoldable pub get_next_instance : List (List ℕ) → ℕ → ℕ × Option (List ℕ)
unfolding get_elem?
get_next_instance instances counter =
    if length instances == 0
    then (counter, none)
    else ((counter + 1) % u64_mod, get_elem? instances (counter % length instances))
