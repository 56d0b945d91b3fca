-- ===== src/Amm/Swap/Invariant.antt =====
-- The constant-product invariant of `swap`, its bounds, and its agreement with `quote_swap`.
use mathlib.Core.Path.{subst}
use native.Mathlib.Nat.{div-mul-le_self, mul-le-mul, mul-le-mul_left, mul-le-mul_right, le_trans}
use stellar_escrow.Prelude.{
  ℕ, ◌+◌, ◌-◌, ◌*◌, ◌/◌, ◌%◌, ◌≤◌, ◌<◌, ◌≡◌, ◌≢◌, sym, ◌∙◌, ap, ltb, ltb→lt, Bool-cases, Bool, true,
  false, Option, some, none, arith, ◌==◌, if◌then◌else◌, inl, inr,
}
use stellar_escrow.Soroban.{ok, Ctx, Token, TokenLaws, u64_mod, checked_add, checked_sub}
use stellar_escrow.Amm.Pool.{Pool, SwapResult, Amm}
use stellar_escrow.Amm.Swap.{swap, quote_swap, sides, quote_sides, bps_of, price_impact, settle}
use stellar_escrow.Amm.Swap.Facts.{swap-Swapped}

product_grows_sub :
    (rin k x n out : ℕ)
    → x ≤ n
    → out * (rin + x) ≤ (out + k) * x
    → (rin * (out + k) ≤ (rin + n) * k) × ((out + k) * rin ≤ k * (rin + n))
product_grows_sub rin k x n out le small =
    let h : k * x ≤ k * n = mul-le-mul_left k le in (omega arith, omega arith)

-- What is paid out leaves the product of the reserves no smaller, when the price is kept; in either
-- order of the factors.
product_grows :
    (rin rout x n out : ℕ)
    → out ≤ rout
    → x ≤ n
    → out * (rin + x) ≤ rout * x
    → (rin * rout ≤ (rin + n) * (rout - out)) × (rout * rin ≤ (rout - out) * (rin + n))
product_grows rin rout x n out h le small =
    let e : out + (rout - out) ≡ rout = omega arith in
    let lemma = product_grows_sub rin (rout - out) x n out le in
    subst
      (λ (t : ℕ).
        out * (rin + x) ≤ t * x
        → (rin * t ≤ (rin + n) * (rout - out)) × (t * rin ≤ (rout - out) * (rin + n)))
      e lemma small

-- The price that `swap` pays out is at most the constant-product price.
paid_le : (rin rout x : ℕ) → rout * x / (rin + x) % u64_mod * (rin + x) ≤ rout * x
paid_le rin rout x =
    let q : ℕ = rout * x / (rin + x) in
    let small : q % u64_mod ≤ q = omega arith in
    le_trans (mul-le-mul_right (rin + x) small) (div-mul-le_self (rout * x) (rin + x))

quote_sides-ok :
    (p : Pool) (token_in : ℕ) {side : ℕ × ℕ × Bool}
    → sides p token_in ≡ ok side
    → quote_sides p token_in ≡ ok (side.0, side.1)
unfolding sides quote_sides
quote_sides-ok p token_in h = ground arith

-- The quote repeats the fee, the price and the impact of the swap.
quoted :
    {L : Type 0} (t : Token L) (c : Ctx) (pool_id caller token_in n min_out : ℕ) (s s' : Amm L)
    (r : SwapResult)
    → swap t c pool_id caller token_in n min_out s ≡ ok (s', r)
    → quote_swap s pool_id token_in n ≡ ok r
unfolding swap quote_swap bps_of price_impact sides quote_sides
quoted t c pool_id caller token_in n min_out s s' r h = ground arith

abbrev pub GrewFrom : Pool → Option Pool → Type 0
GrewFrom p none = ⊥
GrewFrom p (some q) = p.reserve_a * p.reserve_b ≤ q.reserve_a * q.reserve_b

settle_grows :
    (p q : Pool) (token_in rin rout x n out fee : ℕ) (a_in : Bool)
    → sides p token_in ≡ ok (rin, rout, a_in)
    → x ≤ n
    → out * (rin + x) ≤ rout * x
    → settle a_in n out fee p ≡ ok q
    → (p.reserve_a * p.reserve_b ≤ q.reserve_a * q.reserve_b) × (q.id ≡ p.id)
unfolding sides settle checked_add checked_sub
settle_grows p q token_in rin rout x n out fee true side le small e =
    ground (arith, product_grows rin rout x n out)
settle_grows p q token_in rin rout x n out fee false side le small e =
    ground (arith, product_grows rin rout x n out)

-- No swap, in either direction, lowers the product of the reserves of its pool.
pub swap-GrewFrom :
    {L : Type 0} (t : Token L) (c : Ctx) (pool_id caller token_in n min_out : ℕ) (s s' : Amm L)
    (r : SwapResult) (p : Pool)
    → s.pools pool_id ≡ some p
    → p.id ≡ pool_id
    → swap t c pool_id caller token_in n min_out s ≡ ok (s', r)
    → GrewFrom p (s'.pools pool_id)
swap-GrewFrom t c pool_id caller token_in n min_out s s' r p found named h =
    let f = swap-Swapped t c pool_id caller token_in n min_out s s' r h in
    let e : f.pool ≡ p = ground (arith, f.found) in
    let price : r.amount_out * (f.rin + (n - r.fee_charged)) ≤ f.rout * (n - r.fee_charged) =
      rw f.out_is (paid_le f.rin f.rout (n - r.fee_charged)) in
    let (grows, same) =
      settle_grows f.pool f.settled token_in f.rin f.rout (n - r.fee_charged) n r.amount_out
        r.fee_charged f.a_in f.side (omega arith) price f.settle_is in
    let kept : s'.pools pool_id ≡ some (record f.settled { last_swap_at = c.timestamp }) =
      ground (arith, ap (λ (m : ℕ → Option Pool). m pool_id) f.kept) in
    rw kept (rw e at grows)

-- What the direction of a swap says of the pool.
sides_facts :
    (p : Pool) (token_in rin rout : ℕ) (a_in : Bool)
    → sides p token_in ≡ ok (rin, rout, a_in)
    → (rout ≡ (if token_in == p.token_a then p.reserve_b else p.reserve_a))
      × (rin ≡ (if token_in == p.token_a then p.reserve_a else p.reserve_b))
      × ((if a_in then p.token_b else p.token_a)
          ≡ (if token_in == p.token_a then p.token_b else p.token_a))
      × (token_in ≡ (if token_in == p.token_a then p.token_a else p.token_b))
unfolding sides
sides_facts p token_in rin rout a_in h = ground arith

out_lt : (rin rout x out : ℕ) → 0 < rin → 0 < rout → out * (rin + x) ≤ rout * x → out < rout
out_lt rin rout x out hin hout h = elim (Bool-cases (ltb out rout)) [
  | inl e ↦ ltb→lt out rout e
  | inr e ↦
      let le : rout ≤ out = ground arith in
      let big : rout * (rin + x) ≤ out * (rin + x) = mul-le-mul_right (rin + x) le in
      let pos : 1 * 1 ≤ rout * rin = mul-le-mul hout hin in absurd (omega arith)
]

-- On a pool whose reserves are positive a swap never pays out the whole reserve, never less than the
-- caller's minimum, and charges a fee of at most the input.
pub swap_bounds :
    {L : Type 0} (t : Token L) (c : Ctx) (pool_id caller token_in n min_out : ℕ) (s s' : Amm L)
    (r : SwapResult) (p : Pool)
    → s.pools pool_id ≡ some p
    → 0 < p.reserve_a
    → 0 < p.reserve_b
    → swap t c pool_id caller token_in n min_out s ≡ ok (s', r)
    → (min_out ≤ r.amount_out)
      × (r.amount_out < (if token_in == p.token_a then p.reserve_b else p.reserve_a))
      × (r.fee_charged ≤ n)
swap_bounds t c pool_id caller token_in n min_out s s' r p found pos_a pos_b h =
    let f = swap-Swapped t c pool_id caller token_in n min_out s s' r h in
    let e : f.pool ≡ p = ground (arith, f.found) in
    let price : r.amount_out * (f.rin + (n - r.fee_charged)) ≤ f.rout * (n - r.fee_charged) =
      rw f.out_is (paid_le f.rin f.rout (n - r.fee_charged)) in
    let (e_out, e_in, _, _) = sides_facts f.pool token_in f.rin f.rout f.a_in f.side in
    let lt : r.amount_out < f.rout =
      out_lt f.rin f.rout (n - r.fee_charged) r.amount_out (ground arith) (ground arith) price in
    (f.min_le, ground arith, f.fee_le)

swap_balances :
    {L : Type 0} (t : Token L) (laws : TokenLaws t) (contract caller j k n out : ℕ)
    (l paid sent : L)
    → j ≢ k
    → caller ≢ contract
    → t.move j caller contract n l ≡ some paid
    → t.move k contract caller out paid ≡ some sent
    → (t.balance j caller sent + n ≡ t.balance j caller l)
      × (t.balance j contract sent ≡ t.balance j contract l + n)
      × (t.balance k contract sent + out ≡ t.balance k contract l)
      × (t.balance k caller sent ≡ t.balance k caller l + out)
swap_balances t laws contract caller j k n out l paid sent ne other e1 e2 =
    let ne' : k ≢ j = λ e. ne (sym e) in
    let other' : contract ≢ caller = λ e. other (sym e) in
    let a = laws.credit j caller contract n l paid other e1 in
    let b = laws.other_tokens k contract caller out paid sent j contract e2 ne in
    let d = laws.debit k contract caller out paid sent other' e2 in
    let f = laws.other_tokens j caller contract n l paid k contract e1 ne' in
    let g = laws.credit k contract caller out paid sent other' e2 in
    let h = laws.other_tokens j caller contract n l paid k caller e1 ne' in
    let paid_in = laws.debit j caller contract n l paid other e1 in
    let kept = laws.other_tokens k contract caller out paid sent j caller e2 ne in
    (rw kept paid_in, b ∙ a, d ∙ f, rw (g, h))

swap_moves :
    {L : Type 0} (t : Token L) (laws : TokenLaws t) (c : Ctx)
    (pool_id caller token_in n min_out : ℕ) (s s' : Amm L) (r : SwapResult) (p : Pool)
    → s.pools pool_id ≡ some p
    → p.token_a ≢ p.token_b
    → caller ≢ c.contract
    → swap t c pool_id caller token_in n min_out s ≡ ok (s', r)
    → let token_out = if token_in == p.token_a then p.token_b else p.token_a in
      (t.balance token_in caller s'.ledger + n ≡ t.balance token_in caller s.ledger)
      × (t.balance token_in c.contract s'.ledger ≡ t.balance token_in c.contract s.ledger + n)
      × (t.balance token_out c.contract s'.ledger + r.amount_out
          ≡ t.balance token_out c.contract s.ledger)
      × (t.balance token_out caller s'.ledger ≡ t.balance token_out caller s.ledger + r.amount_out)
swap_moves t laws c pool_id caller token_in n min_out s s' r p found diff other h =
    let f = swap-Swapped t c pool_id caller token_in n min_out s s' r h in
    let e : f.pool ≡ p = ground (arith, f.found) in
    let (_, _, e_out, e_in) = sides_facts f.pool token_in f.rin f.rout f.a_in f.side in
    let k : ℕ = if token_in == p.token_a then p.token_b else p.token_a in
    let e_k : (if f.a_in then f.pool.token_b else f.pool.token_a) ≡ k = ground arith in
    let ne : token_in ≢ k = ground arith in
    let sends : t.move k c.contract caller r.amount_out f.paid ≡ some s'.ledger =
      rw e_k at f.sends in
    swap_balances t laws c.contract caller token_in k n r.amount_out s.ledger f.paid s'.ledger ne
      other f.pays sends

-- Where the two tokens of the pool and the two parties differ, a swap that returns moves exactly what
-- `quote_swap` announces on the same state: the amount in goes from the caller to the contract, and the
-- announced amount of the other token from the contract to the caller.
pub swap-quote :
    {L : Type 0} (t : Token L) (laws : TokenLaws t) (c : Ctx)
    (pool_id caller token_in n min_out : ℕ) (s s' : Amm L) (r : SwapResult) (p : Pool)
    → s.pools pool_id ≡ some p
    → p.token_a ≢ p.token_b
    → caller ≢ c.contract
    → swap t c pool_id caller token_in n min_out s ≡ ok (s', r)
    → (quote_swap s pool_id token_in n ≡ ok r)
      × (let token_out = if token_in == p.token_a then p.token_b else p.token_a in
          (t.balance token_in caller s'.ledger + n ≡ t.balance token_in caller s.ledger)
          × (t.balance token_in c.contract s'.ledger ≡ t.balance token_in c.contract s.ledger + n)
          × (t.balance token_out c.contract s'.ledger + r.amount_out
              ≡ t.balance token_out c.contract s.ledger)
          × (t.balance token_out caller s'.ledger
              ≡ t.balance token_out caller s.ledger + r.amount_out))
swap-quote t laws c pool_id caller token_in n min_out s s' r p found diff other h = (
  quoted t c pool_id caller token_in n min_out s s' r h,
  swap_moves t laws c pool_id caller token_in n min_out s s' r p found diff other h,
)
