-- ===== src/Indexer/Gateway/Access.antt =====
-- Who gets past the gateway to a route of the admin.
use stellar_escrow.Prelude.{
  ℕ, ◌≡◌, refl, arith, true, false, some, List, [], ◌∷◌, ◌++◌, ◌==◌, ==→eq, Bool-cases,
  Option-cases, inl, inr, ◌↔◌,
}
use stellar_escrow.Indexer.Gateway.{
  codes, AuthConfig, Request, starts_with, is_public_path, is_admin_route, holds, extract_api_key,
  validate_api_key, gateway_admits,
}

strip_prefix-rest : (p s : List ℕ) → starts_with s p ≡ true → (rest : List ℕ) × (s ≡ p ++ rest)
strip_prefix-rest [] s h = (s, refl)
strip_prefix-rest (p ∷ ps) [] h = absurd (ground arith)
strip_prefix-rest (p ∷ ps) (c ∷ cs) h = elim (Bool-cases (p == c)) [
  | inl e ↦
      let more : starts_with cs ps ≡ true = rw e at h in
      let (rest, is) = strip_prefix-rest ps cs more in
      let head = ==→eq p c e in (rest, ground arith)
  | inr e ↦ let bad : false ≡ true = rw e at h in absurd (ground arith)
]

-- No route of the admin is public.
admin_not_public : (path : List ℕ) → is_admin_route path ≡ true → is_public_path path ≡ false
unfolding is_public_path
admin_not_public path h = elim (Bool-cases (starts_with path (codes "/admin"))) [
  | inl e ↦ let (rest, is) = strip_prefix-rest (codes "/admin") path e in rw is refl
  | inr e ↦
      let later : starts_with path (codes "/api/v1/admin") ≡ true = rw e at h in
      let (rest, is) = strip_prefix-rest (codes "/api/v1/admin") path later in rw is refl
]

-- A request to a route of the admin gets past the gateway exactly if it carries a key and that key is
-- one of the admin's.
pub gateway_admits-admin :
    (auth : AuthConfig) (req : Request)
    → is_admin_route req.path ≡ true
    → (gateway_admits auth req ≡ true)
      ↔ ((key : List ℕ) × (extract_api_key req ≡ some key) × (holds auth.admin_keys key ≡ true))
unfolding gateway_admits validate_api_key
gateway_admits-admin auth req h =
    let hidden = admin_not_public req.path h in
    elim (Option-cases (extract_api_key req)) [
      | inl e ↦
          rw (hidden, e) ((λ bad. absurd (ground arith)), λ (key, f, _). absurd (ground arith))
      | inr (key, e) ↦
          rw (hidden, e, h)
            ((λ k. (key, refl, k)), λ (other, f, k). let is : key ≡ other = ground arith in rw is k)
    ]
