-- ===== src/Tests/Contracts.antt =====
-- Subscriptions, templates, ratings, follows, disclosures and bridge trades on small inputs.
use stellar_escrow.Prelude.{
  ℕ, ◌≤◌, ◌≡◌, ◌≢◌, refl, arith, true, none, some, [], ◌∷◌, get_or, if◌then◌else◌, ◌==◌,
}
use stellar_escrow.Soroban.{ok, fail_if, ok_or, within_or_trap, checked_add, transfer, require_auth}
use stellar_escrow.Subscription.{pro, Plans, Subscription, Subscriptions, renew}
use stellar_escrow.Subscription.Renewal.{Running, renew-Running}
use stellar_escrow.Templates.{
  TradeTemplate, Templates, get_template, increment_template_counter, create_template,
  update_template, resolve_terms,
}
use stellar_escrow.Templates.Versions.{AllValid, Call, Call-AllValid}
use stellar_escrow.Templates.Resolution.{update_template-resolve_terms}
use stellar_escrow.Social.{Social, no_rating, submit_review}
use stellar_escrow.Social.Ratings.{Trace, Rated, trace-Rated}
use stellar_escrow.Tests.Ledger.{Ledger, token, token_laws, the, ctx, move}

abbrev plans : Plans
plans = record { price = λ _. 40; discount_bps = λ _. 500; duration = 1000 }

-- It ran out ten ledgers ago.
abbrev lapsed : Subscription
lapsed = record { subscriber = 3; tier = pro; expires_at = 90; renewed_at = 0 }

abbrev subscriptions : Subscriptions Ledger
subscriptions = record {
  usdc_token = some 7;
  entries = λ u. if u == 3 then some lapsed else none;
  ledger = λ k h. 500;
}

abbrev renewed : Subscriptions Ledger
renewed = the (renew token plans ctx 3 5 subscriptions) subscriptions

renewing_runs : renew token plans ctx 3 5 subscriptions ≡ ok renewed
unfolding renew ok_or transfer move checked_add
renewing_runs = refl

renew-Running_example :
    (until : ℕ) × Running token plans ctx 3 5 pro until subscriptions renewed
    × (1090 ≤ until)
    × (1100 ≤ until)
renew-Running_example =
    renew-Running token token_laws plans ctx 3 5 lapsed subscriptions renewed (λ e. ground arith)
      refl renewing_runs

abbrev no_templates : Templates ℕ
no_templates = record { counter = none; entries = λ _. none }

abbrev one_template : Templates ℕ
one_template = (the (create_template 2 8 ctx 3 (65 ∷ []) 11 no_templates) (no_templates, 0)).0

creating_runs : create_template 2 8 ctx 3 (65 ∷ []) 11 no_templates ≡ ok (one_template, 1)
unfolding create_template fail_if increment_template_counter checked_add
creating_runs = refl

abbrev template : TradeTemplate ℕ
template = record {
  id = 1;
  owner = 3;
  name = 65 ∷ [];
  current_version = 1;
  versions = record { version = 1; terms = 11; created_at = 100 } ∷ [];
  active = true;
  created_at = 100;
  updated_at = 100;
}

abbrev template_again : Templates ℕ
template_again = the (update_template 2 8 ctx 3 1 (66 ∷ []) 12 one_template) no_templates

updating_runs : update_template 2 8 ctx 3 1 (66 ∷ []) 12 one_template ≡ ok template_again
unfolding update_template fail_if get_template ok_or create_template increment_template_counter
    checked_add
updating_runs = refl

update_template-resolve_terms_example :
    (resolve_terms 1 template_again ≡ ok (12, 2))
    × (template.owner ≡ 3)
    × ((j : ℕ) → j ≢ 1 → template_again.entries j ≡ one_template.entries j)
unfolding create_template fail_if increment_template_counter checked_add
update_template-resolve_terms_example =
    update_template-resolve_terms 2 8 ctx 3 1 (66 ∷ []) 12 one_template template_again template refl
      refl updating_runs

no_templates-AllValid : AllValid 2 no_templates
no_templates-AllValid id x e = absurd (ground (arith, e))

Call-AllValid_example : AllValid 2 one_template
Call-AllValid_example =
    Call-AllValid 2 8 no_templates one_template (omega arith) no_templates-AllValid
      (Call.creating ctx 3 (65 ∷ []) 11 1 creating_runs)

abbrev nobody : Social
nobody = record {
  ratings = λ _. none;
  reviews = λ _. none;
  review_counter = none;
  follows = λ _ _. none;
  profiles = λ _. none;
}

abbrev reviewed_once : Social
reviewed_once = (the (submit_review ctx 2 3 1 4 0 nobody) (nobody, 0)).0

first_review_runs : submit_review ctx 2 3 1 4 0 nobody ≡ ok (reviewed_once, 1)
unfolding submit_review require_auth fail_if within_or_trap
first_review_runs = refl

abbrev reviewed_twice : Social
reviewed_twice = (the (submit_review ctx 4 3 2 5 0 reviewed_once) (nobody, 0)).0

second_review_runs : submit_review ctx 4 3 2 5 0 reviewed_once ≡ ok (reviewed_twice, 2)
unfolding submit_review require_auth fail_if within_or_trap
second_review_runs = refl

trace-Rated_example : Rated (5 ∷ 4 ∷ []) (get_or (reviewed_twice.ratings 3) (no_rating 3))
trace-Rated_example = trace-Rated {user = 3} {s = nobody} refl (
    Trace.reviewed ctx 4 2 5 0 2 (Trace.reviewed ctx 2 1 4 0 1 Trace.start first_review_runs)
      second_review_runs)
