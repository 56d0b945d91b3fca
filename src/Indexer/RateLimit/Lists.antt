-- ===== src/Indexer/RateLimit/Lists.antt =====
-- The blacklist and the whitelist.
use stellar_escrow.Prelude.{
  ℕ, ◌≡◌, ◌≢◌, ◌-◌, refl, arith, true, false, List, [], ◌∷◌, ◌++◌, Bool-cases, inl, inr,
}
use stellar_escrow.Soroban.{u64_mod}
use stellar_escrow.Indexer.RateLimit.{
  RateLimiter, allowed, blacklisted, contains, without, with_ip, check, add_whitelist,
  add_blacklist,
}

contains-append : (ip : ℕ) (xs : List ℕ) → contains ip (xs ++ ip ∷ []) ≡ true
unfolding contains
contains-append ip [] = ground arith
contains-append ip (x ∷ xs) = ground (arith, contains-append ip xs)

pub contains-with_ip : (ip : ℕ) (xs : List ℕ) → contains ip (with_ip ip xs) ≡ true
unfolding with_ip
contains-with_ip ip xs = elim (Bool-cases (contains ip xs)) [
  | inl e ↦ rw (e, e) refl
  | inr e ↦ rw e (contains-append ip xs)
]

pub contains-without : (ip : ℕ) (xs : List ℕ) → contains ip (without ip xs) ≡ false
unfolding contains without
contains-without ip [] = refl
contains-without ip (x ∷ xs) = ground (arith, contains-without ip xs)

pub unlisted-without :
    (ip j : ℕ) (xs : List ℕ) → contains ip xs ≡ false → contains ip (without j xs) ≡ false
unfolding contains without
unlisted-without ip j [] h = refl
unlisted-without ip j (x ∷ xs) h = ground (arith, unlisted-without ip j xs)

other-append : (ip j : ℕ) (xs : List ℕ) → ip ≢ j → contains ip (xs ++ j ∷ []) ≡ contains ip xs
unfolding contains
other-append ip j [] ne = ground arith
other-append ip j (x ∷ xs) ne = ground (arith, other-append ip j xs)

pub other-with_ip : (ip j : ℕ) (xs : List ℕ) → ip ≢ j → contains ip (with_ip j xs) ≡ contains ip xs
unfolding with_ip
other-with_ip ip j xs ne = elim (Bool-cases (contains j xs)) [
  | inl e ↦ rw e refl
  | inr e ↦ rw e (other-append ip j xs ne)
]

-- An address that is put on the blacklist is blocked at every later time, also where it was on the
-- whitelist before, and no bucket is touched. Put on the whitelist afterwards it is let through
-- without a limit, although it stays on the blacklist.
pub add_blacklist-check :
    (ip now : ℕ) (s : RateLimiter)
    → ((check ip now (add_blacklist ip s)).1 ≡ blacklisted)
      × ((check ip now (add_blacklist ip s)).0.buckets ≡ s.buckets)
      × ((check ip now (add_whitelist ip (add_blacklist ip s))).1
          ≡ allowed (u64_mod - 1) (u64_mod - 1) 0)
      × (contains ip (add_whitelist ip (add_blacklist ip s)).blacklist ≡ true)
unfolding check add_blacklist add_whitelist
add_blacklist-check ip now s =
    let off = contains-without ip s.whitelist in
    let on = contains-with_ip ip s.blacklist in
    let white = contains-with_ip ip (without ip s.whitelist) in
    (rw (off, on) refl, rw (off, on) refl, rw white refl, on)
