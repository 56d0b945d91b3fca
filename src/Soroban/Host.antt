-- ===== src/Soroban/Host.antt =====
-- The context of one invocation, and the token contracts that the contract calls.
use stellar_escrow.Prelude.{ℕ, ◌+◌, ◌≡◌, ◌≢◌, arith, Bool, true, false, Option, some}
use stellar_escrow.Soroban.Outcome.{Result, ok, trap, or_trap, or_trap-ok}

-- `auth a` says that the address `a` has authorised the invocation; `timestamp` and `sequence` are
-- those of the ledger, `contract` is `current_contract_address()`.
pub record Ctx : Type 0 where
  pub auth : ℕ → Bool
  pub contract : ℕ
  pub timestamp : ℕ
  pub sequence : ℕ

unfoldable pub trap_unless : Bool → Result (Unit {0})
trap_unless true = ok tt
trap_unless false = trap

-- `a.require_auth()`
unfoldable pub require_auth : Ctx → ℕ → Result (Unit {0})
unfolding trap_unless
require_auth c a = trap_unless (c.auth a)

-- The token contracts, over a type of ledgers that is left open: `none` is a transfer that panics.
pub record Token (L : Type 0) : Type 0 where
  pub move : ℕ → ℕ → ℕ → ℕ → L → Option L
  pub balance : ℕ → ℕ → L → ℕ

-- What the contract relies on: a transfer between two holders takes the amount from the one, gives
-- it to the other, and leaves every other balance, of that token or of another, as it was.
pub record TokenLaws {L : Type 0} (t : Token L) : Type 0 where
  pub debit :
      (k from to n : ℕ) (l l' : L)
      → from ≢ to
      → t.move k from to n l ≡ some l'
      → t.balance k from l' + n ≡ t.balance k from l
  pub credit :
      (k from to n : ℕ) (l l' : L)
      → from ≢ to
      → t.move k from to n l ≡ some l'
      → t.balance k to l' ≡ t.balance k to l + n
  pub others :
      (k from to n : ℕ) (l l' : L) (j h : ℕ)
      → t.move k from to n l ≡ some l'
      → h ≢ from
      → h ≢ to
      → t.balance j h l' ≡ t.balance j h l
  pub other_tokens :
      (k from to n : ℕ) (l l' : L) (j h : ℕ)
      → t.move k from to n l ≡ some l'
      → j ≢ k
      → t.balance j h l' ≡ t.balance j h l

-- `token::Client::new(env, &k).transfer(&from, &to, &n)`
unfoldable pub transfer : {L : Type 0} → Token L → ℕ → ℕ → ℕ → ℕ → L → Result L
unfolding or_trap
transfer t k from to n l = or_trap (t.move k from to n l)

pub require_auth-ok : (c : Ctx) (a : ℕ) {u : Unit {0}} → require_auth c a ≡ ok u → c.auth a ≡ true
unfolding require_auth
require_auth-ok c a h = ground arith

pub transfer-ok :
    {L : Type 0} (t : Token L) (k from to n : ℕ) (l : L) {l' : L}
    → transfer t k from to n l ≡ ok l'
    → t.move k from to n l ≡ some l'
unfolding transfer
transfer-ok t k from to n l h = or_trap-ok (t.move k from to n l) h
