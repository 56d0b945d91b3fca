-- ===== src/Templates.antt =====
-- contract/src/templates.rs and the template entries of contract/src/storage.rs. What the terms of a
-- template are is left open, since types.rs does not define them; `TEMPLATE_MAX_VERSIONS` and
-- `TEMPLATE_NAME_MAX_LEN`, which it does not define either, are parameters. A name is a list of bytes.
pub mod Versions
pub mod Resolution
use stellar_escrow.Prelude.{
  ℕ, ◌-◌, Bool, true, false, not, Option, none, some, List, [], ◌∷◌, ◌++◌, length, drop, ltb, leb,
  ◌==◌, update, if◌then◌else◌, get_or,
}
use stellar_escrow.Errors.{
  unauthorized, template_not_found, template_inactive, template_name_too_long,
}
use stellar_escrow.Soroban.{
  Result, ok, err, ◌>>=◌, ◌>>◌, fail_if, ok_or, u32_mod, u64_mod, checked_add, Ctx,
}

pub record TemplateVersion (T : Type 0) : Type 0 where
  pub version : ℕ
  pub terms : T
  pub created_at : ℕ

pub record TradeTemplate (T : Type 0) : Type 0 where
  pub id : ℕ
  pub owner : ℕ
  pub name : List ℕ
  pub current_version : ℕ
  pub versions : List (TemplateVersion T)
  pub active : Bool
  pub created_at : ℕ
  pub updated_at : ℕ

pub record Templates (T : Type 0) : Type 0 where
  pub counter : Option ℕ
  pub entries : ℕ → Option (TradeTemplate T)

unfoldable pub last {ℓ} : {A : Type ℓ} → List A → Option A
last [] = none
last (x ∷ []) = some x
last (x ∷ y ∷ xs) = last (y ∷ xs)

module _ {T : Type 0} where
  abbrev pub save_template : ℕ → TradeTemplate T → Templates T → Templates T
  save_template id template s = record s { entries = update s.entries id (some template) }

  unfoldable pub get_template : ℕ → Templates T → Result (TradeTemplate T)
  get_template id s = ok_or (s.entries id) template_not_found

  -- the new counter and the state with it
  unfoldable pub increment_template_counter : Templates T → Result (Templates T × ℕ)
  increment_template_counter s = do
    next ← checked_add u64_mod (get_or s.counter 0) 1
    ok (record s { counter = some next }, next)

unfoldable pub validate_name : ℕ → List ℕ → Result (Unit {0})
validate_name name_max_len name = fail_if (ltb name_max_len (length name)) template_name_too_long

-- the rebuilding of a full list of versions from index 1
unfoldable pub trimmed : {T : Type 0} → ℕ → List (TemplateVersion T) → List (TemplateVersion T)
trimmed max_versions versions =
    if leb max_versions (length versions) then drop 1 versions else versions

module _ {T : Type 0} (max_versions name_max_len : ℕ) (c : Ctx) where
  -- the new state and the id of the template
  unfoldable pub create_template : ℕ → List ℕ → T → Templates T → Result (Templates T × ℕ)
  unfolding validate_name
  create_template owner name terms s = do
    validate_name name_max_len name
    (counted, template_id) ← increment_template_counter s
    ok (
      save_template template_id
          (record {
            id = template_id;
            owner = owner;
            name = name;
            current_version = 1;
            versions = record { version = 1; terms = terms; created_at = c.sequence } ∷ [];
            active = true;
            created_at = c.sequence;
            updated_at = c.sequence;
          })
          counted,
      template_id,
    )

  unfoldable pub update_template : ℕ → ℕ → List ℕ → T → Templates T → Result (Templates T)
  unfolding validate_name trimmed
  update_template caller template_id name terms s = do
    validate_name name_max_len name
    template ← get_template template_id s
    fail_if (not (template.owner == caller)) unauthorized
    new_version ← checked_add u32_mod template.current_version 1
    ok (
        save_template template_id
          (record template {
            versions =
                trimmed max_versions template.versions
                ++ record { version = new_version; terms = terms; created_at = c.sequence } ∷ [];
            current_version = new_version;
            name = name;
            updated_at = c.sequence;
          })
          s)

  unfoldable pub deactivate_template : ℕ → ℕ → Templates T → Result (Templates T)
  deactivate_template caller template_id s = do
    template ← get_template template_id s
    fail_if (not (template.owner == caller)) unauthorized
    ok (save_template template_id (record template { active = false; updated_at = c.sequence }) s)

module _ {T : Type 0} where
  unfoldable pub resolve_terms : ℕ → Templates T → Result (T × ℕ)
  unfolding last
  resolve_terms template_id s = do
    template ← get_template template_id s
    fail_if (not template.active) template_inactive
    version ← ok_or (last template.versions) template_not_found
    ok (version.terms, version.version)
