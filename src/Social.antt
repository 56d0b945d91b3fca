-- ===== src/Social.antt =====
-- contract/src/social.rs: reviews and ratings of users, and who follows whom. A comment is a number.
-- The sums are plain `+`, which trap where they do not fit.
pub mod Ratings
pub mod Follows
use stellar_escrow.Prelude.{
  ℕ, ◌+◌, ◌-◌, ◌/◌, Bool, true, false, Option, none, some, ltb, ◌==◌, update, get_or, if◌then◌else◌,
}
use stellar_escrow.Errors.{invalid_rating, cannot_follow_self, not_following}
use stellar_escrow.Soroban.{
  Result, ok, ◌>>=◌, ◌>>◌, fail_if, u64_mod, within_or_trap, Ctx, require_auth,
}

pub record UserRating : Type 0 where
  pub user : ℕ
  pub total_score : ℕ
  pub review_count : ℕ
  pub reputation_score : ℕ

pub record Review : Type 0 where
  pub id : ℕ
  pub reviewer : ℕ
  pub reviewee : ℕ
  pub trade_id : ℕ
  pub rating : ℕ
  pub comment : ℕ
  pub timestamp : ℕ

pub record UserProfile : Type 0 where
  pub address : ℕ
  pub followers : ℕ
  pub following : ℕ
  pub reputation : ℕ

-- `follows u f` is the entry that says that `f` follows `u`.
pub record Social : Type 0 where
  pub ratings : ℕ → Option UserRating
  pub reviews : ℕ → Option Review
  pub review_counter : Option ℕ
  pub follows : ℕ → ℕ → Option Bool
  pub profiles : ℕ → Option UserProfile

abbrev pub no_rating : ℕ → UserRating
no_rating user = record { user = user; total_score = 0; review_count = 0; reputation_score = 0 }

unfoldable pub update_rating : ℕ → ℕ → Social → Result Social
update_rating user new_rating s = do
  let rating = get_or (s.ratings user) (no_rating user)
  total ← within_or_trap u64_mod (rating.total_score + new_rating)
  count ← within_or_trap u64_mod (rating.review_count + 1)
  ok (record s {
    ratings = update s.ratings user (
        some (record rating {
          total_score = total;
          review_count = count;
          reputation_score = if ltb 0 count then total / count else 0;
        }));
  })

-- the entries that submit_review writes before the rating
abbrev pub with_review : Ctx → ℕ → ℕ → ℕ → ℕ → ℕ → ℕ → Social → Social
with_review c reviewer reviewee trade_id rating comment id s = record s {
  reviews = update s.reviews id (
      some (record {
        id = id;
        reviewer = reviewer;
        reviewee = reviewee;
        trade_id = trade_id;
        rating = rating;
        comment = comment;
        timestamp = c.timestamp;
      }));
  review_counter = some id;
}

-- the new state and the id of the review
unfoldable pub submit_review : Ctx → ℕ → ℕ → ℕ → ℕ → ℕ → Social → Result (Social × ℕ)
unfolding update_rating
submit_review c reviewer reviewee trade_id rating comment s = do
  require_auth c reviewer
  fail_if (ltb 5 rating) invalid_rating
  new_review_id ← within_or_trap u64_mod (get_or s.review_counter 0 + 1)
  rated ←
      update_rating reviewee rating
        (with_review c reviewer reviewee trade_id rating comment new_review_id s)
  ok (rated, new_review_id)

unfoldable pub get_or_create_profile : Social → ℕ → UserProfile
get_or_create_profile s user =
    get_or (s.profiles user)
      (record { address = user; followers = 0; following = 0; reputation = 0 })

abbrev pub save_profile : ℕ → UserProfile → Social → Social
save_profile user profile s = record s { profiles = update s.profiles user (some profile) }

abbrev pub set_follow : ℕ → ℕ → Option Bool → Social → Social
set_follow user follower entry s = record s {
  follows = update s.follows user (update (s.follows user) follower entry);
}

unfoldable pub is_following : ℕ → ℕ → Social → Bool
is_following follower user s = get_or (s.follows user follower) false

unfoldable pub follow_user : Ctx → ℕ → ℕ → Social → Result Social
unfolding get_or_create_profile
follow_user c follower user s = do
  require_auth c follower
  fail_if (follower == user) cannot_follow_self
  let followed = set_follow user follower (some true) s
  let user_profile = get_or_create_profile followed user
  followers ← within_or_trap u64_mod (user_profile.followers + 1)
  let counted = save_profile user (record user_profile { followers = followers }) followed
  let follower_profile = get_or_create_profile counted follower
  following ← within_or_trap u64_mod (follower_profile.following + 1)
  ok (save_profile follower (record follower_profile { following = following }) counted)

abbrev pub is_none : Option Bool → Bool
is_none none = true
is_none (some _) = false

-- a counter that stops at 0
abbrev pub lowered : ℕ → ℕ
lowered n = if ltb 0 n then n - 1 else n

unfoldable pub unfollow_user : Ctx → ℕ → ℕ → Social → Result Social
unfolding get_or_create_profile
unfollow_user c follower user s = do
  require_auth c follower
  fail_if (is_none (s.follows user follower)) not_following
  let removed = set_follow user follower none s
  let user_profile = get_or_create_profile removed user
  let counted =
      save_profile user (record user_profile { followers = lowered user_profile.followers }) removed
  let follower_profile = get_or_create_profile counted follower
  ok (
      save_profile follower
        (record follower_profile { following = lowered follower_profile.following }) counted)
