-- ===== src/Templates/Versions.antt =====
-- The versions of a template: how many are kept, how they are numbered, and what is resolved.
use mathlib.Core.Path.{subst}
use stellar_escrow.Prelude.{
  ℕ, ◌+◌, ◌≤◌, ◌<◌, ◌≡◌, refl, arith, true, false, not, some, List, [], ◌∷◌, ◌++◌, length,
  length-append, drop, leb, ◌==◌, Bool-cases, inl, inr, get_or,
}
use stellar_escrow.Errors.{unauthorized}
use stellar_escrow.Soroban.{
  ok, Ctx, Ensures, step, returned, at_ok, fail_if, ok_or-ok, checked_add, checked_add-ok, u32_mod,
  u64_mod,
}
use stellar_escrow.Templates.{
  TemplateVersion, TradeTemplate, Templates, last, get_template, save_template,
  increment_template_counter, validate_name, create_template, trimmed, update_template,
  deactivate_template,
}

module _ {T : Type 0} where
  -- Every version is numbered one above the version before it.
  abbrev pub Consecutive : List (TemplateVersion T) → Type 0
  Consecutive [] = Unit
  Consecutive (v ∷ []) = Unit
  Consecutive (v ∷ w ∷ vs) = (w.version ≡ v.version + 1) × Consecutive (w ∷ vs)

  -- At most `max_versions` versions are kept, numbered one by one, and the last of them is the current
  -- one.
  pub record IsValid (max_versions : ℕ) (x : TradeTemplate T) : Type 0 where
    pub bounded : length x.versions ≤ max_versions
    pub consecutive : Consecutive x.versions
    pub current : TemplateVersion T
    pub is_last : last x.versions ≡ some current
    pub is_current : current.version ≡ x.current_version

  abbrev pub AllValid : ℕ → Templates T → Type 0
  AllValid max_versions s =
      (id : ℕ) (x : TradeTemplate T) → s.entries id ≡ some x → IsValid max_versions x

  drop-Consecutive : (vs : List (TemplateVersion T)) → Consecutive vs → Consecutive (drop 1 vs)
  drop-Consecutive [] h = tt
  drop-Consecutive (v ∷ []) h = tt
  drop-Consecutive (v ∷ w ∷ vs) h = h.1

  last-drop :
      (vs : List (TemplateVersion T)) (v : TemplateVersion T)
      → last (drop 1 vs) ≡ some v
      → last vs ≡ some v
  unfolding last
  last-drop [] v h = h
  last-drop (w ∷ []) v h = cc
  last-drop (w ∷ u ∷ vs) v h = h

  pub last-append :
      (vs : List (TemplateVersion T)) (w : TemplateVersion T) → last (vs ++ w ∷ []) ≡ some w
  unfolding last
  last-append [] w = refl
  last-append (v ∷ []) w = refl
  last-append (v ∷ u ∷ vs) w = last-append (u ∷ vs) w

  append-Consecutive :
      (vs : List (TemplateVersion T)) (w : TemplateVersion T)
      → Consecutive vs
      → ((v : TemplateVersion T) → last vs ≡ some v → w.version ≡ v.version + 1)
      → Consecutive (vs ++ w ∷ [])
  unfolding last
  append-Consecutive [] w h next = tt
  append-Consecutive (v ∷ []) w h next = (next v refl, tt)
  append-Consecutive (v ∷ u ∷ vs) w h next = (h.0, append-Consecutive (u ∷ vs) w h.1 next)

  length-drop-lt :
      (n : ℕ) (vs : List (TemplateVersion T))
      → 1 ≤ n
      → length vs ≤ n
      → leb n (length vs) ≡ true
      → length (drop 1 vs) < n
  length-drop-lt n [] pos le e = ground arith
  length-drop-lt n (v ∷ vs) pos le e = ground arith

module _ {T : Type 0} (max_versions name_max_len : ℕ) (c : Ctx) (pos : 1 ≤ max_versions) where
  updated-IsValid :
      (x : TradeTemplate T) (terms : T) (name : List ℕ) (at : ℕ)
      → IsValid max_versions x
      → IsValid max_versions (record x {
        versions =
            trimmed max_versions x.versions
            ++ record { version = x.current_version + 1; terms = terms; created_at = c.sequence }
              ∷ [];
        current_version = x.current_version + 1;
        name = name;
        updated_at = at;
      })
  unfolding trimmed
  updated-IsValid x terms name at v =
      let new : TemplateVersion T = record {
        version = x.current_version + 1;
        terms = terms;
        created_at = c.sequence;
      } in
      let next = λ (u : TemplateVersion T) (e : last x.versions ≡ some u).
        let same : v.current ≡ u = ground (arith, v.is_last) in
        let n = v.is_current in
        let m : u.version ≡ x.current_version = ground (arith, same) in
        let goal : x.current_version + 1 ≡ u.version + 1 = omega (arith, m) in goal in
      elim (Bool-cases (leb max_versions (length x.versions))) [
        | inl e ↦ rw e (record {
          bounded = omega (
            arith,
            length-append (drop 1 x.versions) (new ∷ []),
            length-drop-lt max_versions x.versions pos v.bounded e,
          );
          consecutive =
              append-Consecutive (drop 1 x.versions) new (drop-Consecutive x.versions v.consecutive)
                λ u h. next u (last-drop x.versions u h);
          current = new;
          is_last = last-append (drop 1 x.versions) new;
          is_current = refl;
        })
        | inr e ↦ rw e (record {
          bounded =
              let short : length x.versions < max_versions = ground arith in
              omega (arith, length-append x.versions (new ∷ []), short);
          consecutive = append-Consecutive x.versions new v.consecutive next;
          current = new;
          is_last = last-append x.versions new;
          is_current = refl;
        })
      ]

  saved-AllValid :
      (i : ℕ) (x : TradeTemplate T) (s : Templates T)
      → IsValid max_versions x
      → AllValid max_versions s
      → AllValid max_versions (save_template i x s)
  saved-AllValid i x s v all id y f = elim (Bool-cases (id == i)) [
    | inl e ↦
        let found : some x ≡ some y = rw e at f in
        let same : x ≡ y = ground (arith, found) in subst (IsValid max_versions) same v
    | inr e ↦ all id y (rw e at f)
  ]

  increment_entries :
      (s : Templates T)
      → Ensures (λ (r : Templates T × ℕ). r.0.entries ≡ s.entries) (increment_template_counter s)
  unfolding increment_template_counter
  increment_entries s = step (checked_add u64_mod (get_or s.counter 0) 1) λ next e. returned refl

  create_template-AllValid :
      (owner : ℕ) (name : List ℕ) (terms : T) (s : Templates T)
      → AllValid max_versions s
      → Ensures
          (λ (r : Templates T × ℕ). AllValid max_versions r.0)
          (create_template max_versions name_max_len c owner name terms s)
  unfolding create_template last
  create_template-AllValid owner name terms s all = step (validate_name name_max_len name) λ _ _.
      step (increment_template_counter s) λ r e.
        let same = at_ok (increment_entries s) e in
        let kept : AllValid max_versions r.0 = λ id x f. all id x (rw same at f) in
        let new : TradeTemplate T = record {
          id = r.1;
          owner = owner;
          name = name;
          current_version = 1;
          versions = record { version = 1; terms = terms; created_at = c.sequence } ∷ [];
          active = true;
          created_at = c.sequence;
          updated_at = c.sequence;
        } in
        returned (
          saved-AllValid r.1 new r.0
            (record {
              bounded = pos;
              consecutive = tt;
              current = record { version = 1; terms = terms; created_at = c.sequence };
              is_last = refl;
              is_current = refl;
            })
            kept)

  deactivate_template-AllValid :
      (caller template_id : ℕ) (s : Templates T)
      → AllValid max_versions s
      → Ensures
          (AllValid max_versions)
          (deactivate_template max_versions name_max_len c caller template_id s)
  unfolding deactivate_template get_template
  deactivate_template-AllValid caller template_id s all = step (get_template template_id s) λ x e.
      step (fail_if (not (x.owner == caller)) unauthorized) λ _ _.
        let v = all template_id x (ok_or-ok (s.entries template_id) _ e) in
        returned (
          saved-AllValid template_id (record x { active = false; updated_at = c.sequence }) s
            (record {
              bounded = v.bounded;
              consecutive = v.consecutive;
              current = v.current;
              is_last = v.is_last;
              is_current = v.is_current;
            })
            all)

  update_template-AllValid :
      (caller template_id : ℕ) (name : List ℕ) (terms : T) (s : Templates T)
      → AllValid max_versions s
      → Ensures
          (AllValid max_versions)
          (update_template max_versions name_max_len c caller template_id name terms s)
  unfolding update_template get_template
  update_template-AllValid caller template_id name terms s all =
      step (validate_name name_max_len name) λ _ _. step (get_template template_id s) λ x e.
        step (fail_if (not (x.owner == caller)) unauthorized) λ _ _.
          step (checked_add u32_mod x.current_version 1) λ new_version sum.
            let is = (checked_add-ok u32_mod x.current_version 1 sum).1 in
            let v = all template_id x (ok_or-ok (s.entries template_id) _ e) in
            returned (
              rw is
                (saved-AllValid template_id _ s (updated-IsValid x terms name c.sequence v) all))

-- One successful call of the module.
pub data Call {T : Type 0} (max_versions name_max_len : ℕ) (s s' : Templates T) : Type 0 where
  creating :
      (c : Ctx) (owner : ℕ) (name : List ℕ) (terms : T) (id : ℕ)
      → create_template max_versions name_max_len c owner name terms s ≡ ok (s', id)
      → Call max_versions name_max_len s s'
  updating :
      (c : Ctx) (caller id : ℕ) (name : List ℕ) (terms : T)
      → update_template max_versions name_max_len c caller id name terms s ≡ ok s'
      → Call max_versions name_max_len s s'
  deactivating :
      (c : Ctx) (caller id : ℕ)
      → deactivate_template max_versions name_max_len c caller id s ≡ ok s'
      → Call max_versions name_max_len s s'

module _ {T : Type 0} (max_versions name_max_len : ℕ) where
  -- Where at least one version may be kept, every successful call keeps every template well formed: it
  -- has between one version and the most that may be kept, they are numbered one by one, and the last
  -- is the current one.
  pub Call-AllValid :
      (s s' : Templates T)
      → 1 ≤ max_versions
      → AllValid max_versions s
      → Call max_versions name_max_len s s'
      → AllValid max_versions s'
  Call-AllValid s s' pos all (creating c owner name terms id h) =
      at_ok (create_template-AllValid max_versions name_max_len c pos owner name terms s all) h
  Call-AllValid s s' pos all (updating c caller id name terms h) =
      at_ok (update_template-AllValid max_versions name_max_len c pos caller id name terms s all) h
  Call-AllValid s s' pos all (deactivating c caller id h) =
      at_ok (deactivate_template-AllValid max_versions name_max_len c pos caller id s all) h
