-- ===== src/Indexer/Auth/Agreement.antt =====
-- How the gateway compares with the older middleware.
use stellar_escrow.Prelude.{
  ℕ, ◌≡◌, ◌≢◌, refl, arith, true, Option, none, some, List, [], ◌∷◌, ◌++◌, Bool-cases, Option-cases,
  inl, inr, ◌↔◌, ◌⊎◌,
}
use stellar_escrow.Indexer.Gateway.{
  codes, AuthConfig, Request, same, strip_prefix, starts_with, any_covers, public_paths,
  is_public_path, authorization_key, header_key, returned_or, extract_api_key, key_admits,
  validate_api_key, gateway_admits,
}
use stellar_escrow.Indexer.Auth.{
  auth_public_paths, any_passes, and_then, or_else, normalize_api_key, request_key, handled,
  answer_key, auth_middleware,
}

any_passes-covers : (ps : List (List ℕ)) (path : List ℕ) → any_passes ps path ≡ any_covers ps path
any_passes-covers [] path = refl
any_passes-covers (p ∷ ps) path =
    let rest = any_passes-covers ps path in
    elim (Bool-cases (same path p)) [
      | inl e ↦ rw e refl
      | inr e ↦ elim (Bool-cases (starts_with path (p ++ codes "/"))) [
        | inl f ↦ rw (e, f) refl
        | inr f ↦ rw (e, f) rest
      ]
    ]

-- The two lists of public paths open the same routes.
public_paths_agree : (path : List ℕ) → any_passes auth_public_paths path ≡ is_public_path path
unfolding is_public_path
public_paths_agree path = any_passes-covers public_paths path

module _ (value : List ℕ) (x : Option (Option (List ℕ))) where
  keys_bearer :
      or_else (normalize_api_key value) (and_then x (λ hv. hv))
      ≡ returned_or (authorization_key (some (some value))) (header_key x)
  unfolding or_else normalize_api_key
  keys_bearer = elim (Option-cases (strip_prefix (codes "Bearer ") value)) [
    | inl e ↦ rw e refl
    | inr (rest, e) ↦ rw e refl
  ]

header_keys : (x : Option (Option (List ℕ))) → and_then x (λ hv. hv) ≡ header_key x
unfolding and_then
header_keys none = refl
header_keys (some none) = refl
header_keys (some (some key)) = refl

chains_agree :
    (a x : Option (Option (List ℕ)))
    → or_else (and_then (and_then a (λ hv. hv)) normalize_api_key) (and_then x (λ hv. hv))
      ≡ returned_or (authorization_key a) (header_key x)
unfolding and_then or_else
chains_agree none x = header_keys x
chains_agree (some none) x = header_keys x
chains_agree (some (some value)) x = keys_bearer value x

-- Both read the same key off a request.
keys_agree : (req : Request) → request_key req ≡ extract_api_key req
unfolding request_key extract_api_key
keys_agree req = chains_agree req.authorization req.x_api_key

module _ (auth : AuthConfig) (path : List ℕ) where
  answer_key-admits :
      (key : Option (List ℕ))
      → (answer_key auth path key ≡ handled) ↔ ((key_admits auth path key ≡ true) × (key ≢ some []))
  answer_key-admits none = ((λ e. absurd (ground (arith, e))), λ (e, _). absurd (ground (arith, e)))
  answer_key-admits (some []) = ((λ e. absurd (ground (arith, e))), λ (_, ne). absurd (ne refl))
  answer_key-admits (some (k ∷ ks)) =
      (λ e. (ground (arith, e), λ f. absurd (ground (arith, f))), λ (e, _). ground (arith, e))

-- The older middleware hands a request on exactly if the gateway lets it through and the route is public
-- or the key that the request carries is not the empty one.
pub auth_middleware-gateway_admits :
    (auth : AuthConfig) (req : Request)
    → (auth_middleware auth req ≡ handled) ↔ (
        (gateway_admits auth req ≡ true)
        × ((is_public_path req.path ≡ true) ⊎ (extract_api_key req ≢ some [])))
unfolding gateway_admits validate_api_key auth_middleware
auth_middleware-gateway_admits auth req =
    rw (public_paths_agree req.path, keys_agree req)
      (elim (Bool-cases (is_public_path req.path)) [
        | inl e ↦ rw e ((λ _. (refl, inl refl)), λ _. refl)
        | inr e ↦
            let (there, back) = answer_key-admits auth req.path (extract_api_key req) in
            rw e (
              (λ h. ((there h).0, inr (there h).1)),
              λ (h, open_). elim open_ [
                | inl bad ↦ absurd (ground (arith, bad))
                | inr filled ↦ back (h, filled)
              ],
            )
      ])
