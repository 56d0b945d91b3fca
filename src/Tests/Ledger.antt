-- ===== src/Tests/Ledger.antt =====
-- A ledger of token balances on which the operations run, with the laws that it satisfies.

use stellar_escrow.Prelude.{
  ℕ, ◌+◌, ◌-◌, ◌≤◌, ◌≡◌, sym, ap, get_or, arith, Bool, true, false, Option, none, some, ltb, ◌==◌,
  if◌then◌else◌, Bool-cases, inl, inr,
}
use stellar_escrow.Soroban.{Result, ok, err, trap, Ctx, Token, TokenLaws}

abbrev pub Ledger : Type 0
Ledger = ℕ → ℕ → ℕ

unfoldable pub moved : ℕ → ℕ → ℕ → ℕ → Ledger → Ledger
moved k from to n l j h =
    if j == k then if h == to then l j h + n else if h == from then l j h - n else l j h else l j h

unfoldable pub move : ℕ → ℕ → ℕ → ℕ → Ledger → Option Ledger
unfolding moved
move k from to n l = if ltb (l k from) n then none else some (moved k from to n l)

abbrev pub token : Token Ledger
token = record { move = move; balance = λ k h l. l k h }

abbrev is_some : Option Ledger → Bool
is_some none = false
is_some (some _) = true

move-moved :
    (k from to n : ℕ) (l l' : Ledger)
    → move k from to n l ≡ some l'
    → (n ≤ l k from) × ((j h : ℕ) → l' j h ≡ moved k from to n l j h)
unfolding move
move-moved k from to n l l' e = elim (Bool-cases (ltb (l k from) n)) [
  | inl y ↦
      let bad : Path (Option Ledger) none (some l') = rw y at e in
      (let b : false ≡ true = ap is_some bad in absurd (ground arith))
  | inr y ↦
      let q : Path (Option Ledger) (some (moved k from to n l)) (some l') = rw y at e in
      (ground arith, λ j h. ap (λ (o : Option Ledger). get_or o l j h) (sym q))
]

pub token_laws : TokenLaws token
unfolding moved
token_laws = record {
  debit = λ k from to n l l' ne e.
      let (le, q) = move-moved k from to n l l' e in let r = q k from in ground arith;
  credit = λ k from to n l l' ne e.
      let (le, q) = move-moved k from to n l l' e in let r = q k to in ground arith;
  others = λ k from to n l l' j h e nf nt.
      let (le, q) = move-moved k from to n l l' e in let r = q j h in ground arith;
  other_tokens = λ k from to n l l' j h e ne.
      let (le, q) = move-moved k from to n l l' e in let r = q j h in ground arith;
}

abbrev pub the : {A : Type 0} → Result A → A → A
the (ok a) d = a
the (err e) d = d
the trap d = d

-- An invocation that everybody has authorised, by the contract 9 at time 1000 and ledger 100.
abbrev pub ctx : Ctx
ctx = record { auth = λ a. true; contract = 9; timestamp = 1000; sequence = 100 }
