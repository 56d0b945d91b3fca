-- ===== src/Indexer/RateLimit.antt =====
-- indexer/src/rate_limit.rs: the token buckets of the service, with the whitelist and the blacklist. An
-- address is a number, an instant a number of milliseconds, and one check reads the clock once.
-- `elapsed` is 0 where the clock is behind the last refill. The counters wrap like `fetch_add`.
pub mod Window
pub mod Lists
use stellar_escrow.Prelude.{
  ℕ, ◌+◌, ◌-◌, ◌/◌, ◌%◌, Bool, true, false, not, Option, none, some, List, [], ◌∷◌, ◌++◌, ltb, leb,
  ◌==◌, update, get_or, if◌then◌else◌,
}
use stellar_escrow.Soroban.{u64_mod}

pub data RateTier : Type 0 where
  default : RateTier
  elevated : RateTier
  admin : RateTier

pub record RateLimitConfig : Type 0 where
  pub default_rpm : ℕ
  pub elevated_rpm : ℕ
  pub admin_rpm : ℕ

abbrev pub capacity : RateTier → RateLimitConfig → ℕ
capacity default cfg = cfg.default_rpm
capacity elevated cfg = cfg.elevated_rpm
capacity admin cfg = cfg.admin_rpm

pub record Bucket : Type 0 where
  pub tokens : ℕ
  pub last_refill : ℕ
  pub tier : RateTier

pub record RateLimiter : Type 0 where
  pub cfg : RateLimitConfig
  pub buckets : ℕ → Option Bucket
  pub tier_overrides : ℕ → Option RateTier
  pub whitelist : List ℕ
  pub blacklist : List ℕ
  pub total_allowed : ℕ
  pub total_blocked : ℕ
  pub total_blacklisted : ℕ

pub data Verdict : Type 0 where
  allowed : (limit remaining reset_secs : ℕ) → Verdict
  limit_exceeded : (limit reset_secs : ℕ) → Verdict
  blacklisted : Verdict

abbrev pub minute : ℕ
minute = 60000

abbrev pub new_bucket : RateTier → ℕ → ℕ → Bucket
new_bucket tier cap now = record { tokens = cap; last_refill = now; tier = tier }

-- the bucket after a refill that is due
abbrev pub refilled : ℕ → ℕ → Bucket → Bucket
refilled now cap b =
    if leb minute (now - b.last_refill) then record b { tokens = cap; last_refill = now } else b

-- the bucket after taking a token, and whether there was one
unfoldable pub consume : ℕ → ℕ → Bucket → Bucket × Bool
consume now cap b =
    let r = refilled now cap b in
    if ltb 0 r.tokens then (record r { tokens = r.tokens - 1 }, true) else (r, false)

unfoldable pub remaining : ℕ → ℕ → Bucket → ℕ
remaining now cap b = if leb minute (now - b.last_refill) then cap else b.tokens

unfoldable pub reset_secs : ℕ → Bucket → ℕ
reset_secs now b = 60 - (now - b.last_refill) / 1000

unfoldable pub contains : ℕ → List ℕ → Bool
contains ip [] = false
contains ip (x ∷ xs) = if x == ip then true else contains ip xs

-- `retain(|x| *x != ip)`
unfoldable pub without : ℕ → List ℕ → List ℕ
without ip [] = []
without ip (x ∷ xs) = let rest = without ip xs in if x == ip then rest else x ∷ rest

-- `if !list.contains(&ip) { list.push(ip) }`
unfoldable pub with_ip : ℕ → List ℕ → List ℕ
unfolding contains
with_ip ip xs = if contains ip xs then xs else xs ++ ip ∷ []

abbrev pub next : ℕ → ℕ
next n = (n + 1) % u64_mod

-- the end of `check`, for a bucket that is there or was just made
unfoldable pub draw : ℕ → ℕ → ℕ → Bucket → RateLimiter → RateLimiter × Verdict
unfolding consume remaining reset_secs
draw ip now cap b s =
    let (after, taken) = consume now cap b in
    if taken
    then (
      record s { buckets = update s.buckets ip (some after); total_allowed = next s.total_allowed },
      allowed cap (remaining now cap b - 1) (reset_secs now b),
    )
    else (
      record s { buckets = update s.buckets ip (some after); total_blocked = next s.total_blocked },
      limit_exceeded cap (reset_secs now b),
    )

-- the new state and the answer
unfoldable pub check : ℕ → ℕ → RateLimiter → RateLimiter × Verdict
unfolding draw contains
check ip now s =
    if contains ip s.whitelist
    then (record s { total_allowed = next s.total_allowed }, allowed (u64_mod - 1) (u64_mod - 1) 0)
    else if contains ip s.blacklist
    then (record s { total_blacklisted = next s.total_blacklisted }, blacklisted)
    else (let tier = get_or (s.tier_overrides ip) default in
        let cap = capacity tier s.cfg in
        draw ip now cap (get_or (s.buckets ip) (new_bucket tier cap now)) s)

unfoldable pub add_whitelist : ℕ → RateLimiter → RateLimiter
unfolding with_ip
add_whitelist ip s = record s { whitelist = with_ip ip s.whitelist }

unfoldable pub remove_whitelist : ℕ → RateLimiter → RateLimiter
unfolding without
remove_whitelist ip s = record s { whitelist = without ip s.whitelist }

unfoldable pub add_blacklist : ℕ → RateLimiter → RateLimiter
unfolding with_ip without
add_blacklist ip s = record s {
  blacklist = with_ip ip s.blacklist;
  whitelist = without ip s.whitelist;
}

unfoldable pub remove_blacklist : ℕ → RateLimiter → RateLimiter
unfolding without
remove_blacklist ip s = record s { blacklist = without ip s.blacklist }

unfoldable pub set_tier : ℕ → RateTier → RateLimiter → RateLimiter
set_tier ip tier s = record s {
  tier_overrides = update s.tier_overrides ip (some tier);
  buckets = update s.buckets ip none;
}
