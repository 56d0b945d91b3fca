-- ===== src/Queries/Matching.antt =====
-- Which trades a filter asks for, stated on the fields of the trade, and the trades that are collected.
use stellar_escrow.Prelude.{
  ℕ, zero, suc, ◌≤◌, ◌≡◌, refl, arith, Bool, true, not, ◌&&◌, Option, none, some, List, [], ◌∷◌,
  ◌++◌, ltb, ◌==◌, ==→eq, ==-refl, Bool-cases, Option-cases, inl, inr, ◌⊎◌,
}
use stellar_escrow.Escrow.State.{
  TradeStatus, created, funded, completed, disputed, cancelled, awaiting_bridge, bridge_failed,
  triggered, is, Trade, Escrow,
}
use stellar_escrow.Queries.{TradeFilter, meets, matches_filter, add_matching, collect}

-- The trade has the status, the party, and the amount and id within the bounds that the filter names.
pub record Matches (f : TradeFilter) (t : Trade) : Type 0 where
  pub of_status : (s : TradeStatus) → f.status ≡ some s → t.status ≡ s
  pub of_party : (p : ℕ) → f.participant ≡ some p → (t.buyer ≡ p) ⊎ (t.seller ≡ p)
  pub large : (m : ℕ) → f.min_amount ≡ some m → m ≤ t.amount
  pub small : (m : ℕ) → f.max_amount ≡ some m → t.amount ≤ m
  pub late : (id : ℕ) → f.from_trade_id ≡ some id → id ≤ t.id
  pub early : (id : ℕ) → f.to_trade_id ≡ some id → t.id ≤ id

meets-holds :
    {A : Type 0} (o : Option A) (holds : A → Bool)
    → meets o holds ≡ true
    → (x : A) → o ≡ some x
    → holds x ≡ true
meets-holds o holds h x e = rw e at h

meets_all :
    {A : Type 0} (o : Option A) (holds : A → Bool)
    → ((x : A) → o ≡ some x → holds x ≡ true)
    → meets o holds ≡ true
meets_all none holds h = refl
meets_all (some x) holds h = h x refl

both_true : (a b : Bool) → a && b ≡ true → (a ≡ true) × (b ≡ true)
both_true a b h = (ground arith, ground arith)

all_six :
    (a b c d e f : Bool)
    → a ≡ true
    → b ≡ true
    → c ≡ true
    → d ≡ true
    → e ≡ true
    → f ≡ true
    → a && b && c && d && e && f ≡ true
all_six a b c d e f p q r s t u = rw (p, q, r, s, t, u) refl

is-same : (a b : TradeStatus) → is a b ≡ true → a ≡ b
is-same a b h = ground arith

is_refl : (a : TradeStatus) → is a a ≡ true
is_refl created = refl
is_refl funded = refl
is_refl completed = refl
is_refl disputed = refl
is_refl cancelled = refl
is_refl awaiting_bridge = refl
is_refl bridge_failed = refl
is_refl triggered = refl

party_test : (b s p : ℕ) → not (not (b == p) && not (s == p)) ≡ true → (b ≡ p) ⊎ (s ≡ p)
party_test b s p h = elim (Bool-cases (b == p)) [
  | inl e ↦ inl (==→eq b p e)
  | inr e ↦ inr (ground arith)
]

party_holds : (b s p : ℕ) → (b ≡ p) ⊎ (s ≡ p) → not (not (b == p) && not (s == p)) ≡ true
party_holds b s p (inl e) = rw (e, ==-refl p) refl
party_holds b s p (inr e) = ground arith

not-ltb : (a b : ℕ) → not (ltb a b) ≡ true → b ≤ a
not-ltb a b h = ground arith

module _ (t : Trade) (f : TradeFilter) where
  matched-Matches : matches_filter t f ≡ true → Matches f t
  unfolding matches_filter
  matched-Matches h =
      let (h₁, g) = both_true _ _ h in
      let (h₂, e) = both_true _ _ h₁ in
      let (h₃, d) = both_true _ _ h₂ in
      let (h₄, c) = both_true _ _ h₃ in
      let (a, b) =
        both_true (meets f.status (λ x. is t.status x))
          (meets f.participant (λ x. not (not (t.buyer == x) && not (t.seller == x)))) h₄ in
      record {
        of_status =
            λ s is_s. is-same t.status s (meets-holds f.status (λ x. is t.status x) a s is_s);
        of_party = λ p is_p. party_test t.buyer t.seller p (
            meets-holds f.participant (λ x. not (not (t.buyer == x) && not (t.seller == x))) b p
              is_p);
        large = λ m is_m.
            not-ltb t.amount m (meets-holds f.min_amount (λ x. not (ltb t.amount x)) c m is_m);
        small = λ m is_m.
            not-ltb m t.amount (meets-holds f.max_amount (λ x. not (ltb x t.amount)) d m is_m);
        late = λ id is_id.
            not-ltb t.id id (meets-holds f.from_trade_id (λ x. not (ltb t.id x)) e id is_id);
        early = λ id is_id.
            not-ltb id t.id (meets-holds f.to_trade_id (λ x. not (ltb x t.id)) g id is_id);
      }

  Matches-matched : Matches f t → matches_filter t f ≡ true
  unfolding matches_filter
  Matches-matched m =
      all_six _ _ _ _ _ _ (meets_all f.status _ λ s e. rw (m.of_status s e) (is_refl s))
        (meets_all f.participant _ λ p e. party_holds t.buyer t.seller p (m.of_party p e))
        (meets_all f.min_amount _ λ x e. let le = m.large x e in ground arith)
        (meets_all f.max_amount _ λ x e. let le = m.small x e in ground arith)
        (meets_all f.from_trade_id _ λ x e. let le = m.late x e in ground arith)
        (meets_all f.to_trade_id _ λ x e. let le = m.early x e in ground arith)

-- The list holds the trades that are stored under the ids from 1 to `total` and match, each once and in
-- the order of the ids.
pub data Matching {L : Type 0} (s : Escrow L) (f : TradeFilter) : ℕ → List Trade → Type 0 where
  no_ids : Matching s f 0 []
  missing :
      {id : ℕ} {l : List Trade}
      → s.trades (suc id) ≡ none
      → Matching s f id l
      → Matching s f (suc id) l
  passed_over :
      {id : ℕ} {l : List Trade} (t : Trade)
      → s.trades (suc id) ≡ some t
      → ¬ (Matches f t)
      → Matching s f id l
      → Matching s f (suc id) l
  taken :
      {id : ℕ} {l : List Trade} (t : Trade)
      → s.trades (suc id) ≡ some t
      → Matches f t
      → Matching s f id l
      → Matching s f (suc id) (l ++ (t ∷ []))

pub collect-Matching :
    {L : Type 0} (s : Escrow L) (f : TradeFilter) (total : ℕ)
    → Matching s f total (collect s f total)
unfolding collect add_matching
collect-Matching s f zero = Matching.no_ids
collect-Matching s f (suc id) =
    let before = collect-Matching s f id in
    elim (Option-cases (s.trades (suc id))) [
      | inl e ↦ rw e (Matching.missing e before)
      | inr (t, e) ↦ elim (Bool-cases (matches_filter t f)) [
        | inl y ↦ rw (e, y) (Matching.taken t e (matched-Matches t f y) before)
        | inr n ↦
            rw (e, n)
              (Matching.passed_over t e
                (λ m. let y = Matches-matched t f m in absurd (ground (arith, n, y))) before)
      ]
    ]
