-- ===== src/Social/Ratings.antt =====
-- The rating of a user against the reviews that the user was given.
use stellar_escrow.Prelude.{
  ℕ, ◌+◌, ◌*◌, ◌/◌, ◌≤◌, ◌<◌, ◌≡◌, ◌≢◌, refl, arith, true, none, some, List, [], ◌∷◌, length, All,
  ltb, ◌==◌, ==-refl, ==→eq, get_or, if◌then◌else◌, Bool-cases, inl, inr,
}
use native.Mathlib.Nat.{div-mul-le_self, lt-div-mul-add, div-lt_iff_lt-mul}
use stellar_escrow.Errors.{invalid_rating, cannot_follow_self, not_following}
use stellar_escrow.Soroban.{
  ok, Ctx, Ensures, step, returned, at_ok, fail_if, fail_if-ok, require_auth, within_or_trap,
  within_or_trap-ok, u64_mod,
}
use stellar_escrow.Social.{
  UserRating, Social, no_rating, update_rating, with_review, submit_review, follow_user,
  unfollow_user, set_follow, get_or_create_profile, save_profile, is_none,
}

pub sum : List ℕ → ℕ
sum [] = 0
sum (n ∷ ns) = n + sum ns

-- Sequences of calls, with the stars that the user was given, the last first.
pub data Trace (user : ℕ) (s : Social) : List ℕ → Social → Type 0 where
  start : Trace user s [] s
  reviewed :
      {stars : List ℕ} {s' s'' : Social} (c : Ctx) (reviewer trade_id rating comment id : ℕ)
      → Trace user s stars s'
      → submit_review c reviewer user trade_id rating comment s' ≡ ok (s'', id)
      → Trace user s (rating ∷ stars) s''
  reviewed_other :
      {stars : List ℕ} {s' s'' : Social} (c : Ctx)
      (reviewer reviewee trade_id rating comment id : ℕ)
      → Trace user s stars s'
      → user ≢ reviewee
      → submit_review c reviewer reviewee trade_id rating comment s' ≡ ok (s'', id)
      → Trace user s stars s''
  followed :
      {stars : List ℕ} {s' s'' : Social} (c : Ctx) (follower followee : ℕ)
      → Trace user s stars s'
      → follow_user c follower followee s' ≡ ok s''
      → Trace user s stars s''
  unfollowed :
      {stars : List ℕ} {s' s'' : Social} (c : Ctx) (follower followee : ℕ)
      → Trace user s stars s'
      → unfollow_user c follower followee s' ≡ ok s''
      → Trace user s stars s''

abbrev rating_of : Social → ℕ → UserRating
rating_of s user = get_or (s.ratings user) (no_rating user)

-- The rating is the sum, the number and the floor of the mean of the stars, each of which is at most
-- five.
pub record Rated (stars : List ℕ) (r : UserRating) : Type 0 where
  pub total : r.total_score ≡ sum stars
  pub count : r.review_count ≡ length stars
  pub mean_le : r.reputation_score * length stars ≤ sum stars
  pub mean_gt : 0 < length stars → sum stars < (r.reputation_score + 1) * length stars
  pub at_most_five : r.reputation_score ≤ 5
  pub stars_le : All (λ (n : ℕ). n ≤ 5) stars

sum_le : (stars : List ℕ) → All (λ (n : ℕ). n ≤ 5) stars → sum stars ≤ 5 * length stars
unfolding sum
sum_le [] h = omega arith
sum_le (n ∷ ns) h = omega (arith, sum_le ns h.1, h.0)

-- The entry that one more review leaves behind.
Rated-more :
    (stars : List ℕ) (rating user total count : ℕ)
    → rating ≤ 5
    → total ≡ sum (rating ∷ stars)
    → count ≡ length (rating ∷ stars)
    → All (λ (n : ℕ). n ≤ 5) stars
    → Rated (rating ∷ stars) (record {
      user = user;
      total_score = total;
      review_count = count;
      reputation_score = if ltb 0 count then total / count else 0;
    })
Rated-more stars rating user total count le t n all =
    let pos : 0 < count = omega (arith, n) in
    let test : ltb 0 count ≡ true = ground arith in
    let below = div-mul-le_self total count in
    let above = lt-div-mul-add {a = total} pos in
    let most : total ≤ 5 * count = omega (arith, t, n, sum_le (rating ∷ stars) (le, all)) in
    let small : total / count < 6 = (div-lt_iff_lt-mul {x = total} {y = 6} pos).1 (omega arith) in
    rw test (record {
      total = t;
      count = n;
      mean_le = rw (← t) (rw (← n) below);
      mean_gt = λ _. rw (← t) (rw (← n) (omega (arith, above)));
      at_most_five = omega (arith, small);
      stars_le = (le, all);
    })

module _ (user : ℕ) (stars : List ℕ) (s : Social) (r : Rated stars (rating_of s user)) where
  update_rating-Rated :
      (rating : ℕ)
      → rating ≤ 5
      → Ensures
          (λ (s' : Social). Rated (rating ∷ stars) (rating_of s' user))
          (update_rating user rating s)
  unfolding update_rating sum
  update_rating-Rated rating le =
      let old = rating_of s user in
      step (within_or_trap u64_mod (old.total_score + rating)) λ total e.
        step (within_or_trap u64_mod (old.review_count + 1)) λ count f.
          let total_is = (within_or_trap-ok u64_mod (old.total_score + rating) e).1 in
          let count_is = (within_or_trap-ok u64_mod (old.review_count + 1) f).1 in
          let t = r.total in
          let n = r.count in
          returned (
            rw (==-refl user) (
              Rated-more stars rating old.user total count le (omega arith) (omega arith)
                r.stars_le))

module _ (user : ℕ) (s : Social) where
  -- A review raises no other rating than the reviewee's.
  update_rating-other :
      (other rating : ℕ)
      → user ≢ other
      → Ensures
          (λ (s' : Social). rating_of s' user ≡ rating_of s user)
          (update_rating other rating s)
  unfolding update_rating
  update_rating-other other rating ne =
      let old = rating_of s other in
      step (within_or_trap u64_mod (old.total_score + rating)) λ total _.
        step (within_or_trap u64_mod (old.review_count + 1)) λ count _.
          elim (Bool-cases (user == other)) [
            | inl e ↦ absurd (ne (==→eq user other e))
            | inr e ↦ returned (rw e refl)
          ]

submit_review-Rated :
    (c : Ctx) (reviewer user trade_id rating comment : ℕ) (stars : List ℕ) (s : Social)
    → Rated stars (rating_of s user)
    → Ensures
        (λ (r : Social × ℕ). Rated (rating ∷ stars) (rating_of r.0 user))
        (submit_review c reviewer user trade_id rating comment s)
unfolding submit_review
submit_review-Rated c reviewer user trade_id rating comment stars s r =
    step (require_auth c reviewer) λ _ _. step (fail_if (ltb 5 rating) invalid_rating) λ _ few.
      step (within_or_trap u64_mod (get_or s.review_counter 0 + 1)) λ id _.
        let noted = with_review c reviewer user trade_id rating comment id s in
        step (update_rating user rating noted) λ rated e.
          let few' = fail_if-ok _ _ few in
          let le : rating ≤ 5 = ground arith in
          returned (at_ok (update_rating-Rated user stars noted r rating le) e)

submit_review-other :
    (c : Ctx) (reviewer user other trade_id rating comment : ℕ) (s : Social)
    → user ≢ other
    → Ensures
        (λ (r : Social × ℕ). rating_of r.0 user ≡ rating_of s user)
        (submit_review c reviewer other trade_id rating comment s)
unfolding submit_review
submit_review-other c reviewer user other trade_id rating comment s ne =
    step (require_auth c reviewer) λ _ _. step (fail_if (ltb 5 rating) invalid_rating) λ _ _.
      step (within_or_trap u64_mod (get_or s.review_counter 0 + 1)) λ id _.
        let noted = with_review c reviewer other trade_id rating comment id s in
        step (update_rating other rating noted)
          λ rated e. returned (at_ok (update_rating-other user noted other rating ne) e)

follow_user-ratings :
    (c : Ctx) (follower user : ℕ) (s : Social)
    → Ensures (λ (s' : Social). s'.ratings ≡ s.ratings) (follow_user c follower user s)
unfolding follow_user
follow_user-ratings c follower user s = step (require_auth c follower) λ _ _.
    step (fail_if (follower == user) cannot_follow_self) λ _ _.
      let followed = set_follow user follower (some true) s in
      let profile = get_or_create_profile followed user in
      step (within_or_trap u64_mod (profile.followers + 1)) λ followers _.
        let counted = save_profile user (record profile { followers = followers }) followed in
        step (within_or_trap u64_mod ((get_or_create_profile counted follower).following + 1))
          λ _ _. returned refl

unfollow_user-ratings :
    (c : Ctx) (follower user : ℕ) (s : Social)
    → Ensures (λ (s' : Social). s'.ratings ≡ s.ratings) (unfollow_user c follower user s)
unfolding unfollow_user
unfollow_user-ratings c follower user s =
    step (require_auth c follower)
      λ _ _. step (fail_if (is_none (s.follows user follower)) not_following) λ _ _. returned refl

-- Along every sequence of reviews, followings and unfollowings, the rating of a user who had none at the
-- start holds the sum, the number and the floor of the mean of the stars that the user was given;
-- every one of them, and so the mean, is at most five.
pub trace-Rated :
    {user : ℕ} {s : Social} {stars : List ℕ} {s' : Social}
    → s.ratings user ≡ none
    → Trace user s stars s'
    → Rated stars (rating_of s' user)
unfolding sum
trace-Rated e start = rw e (record {
  total = refl;
  count = refl;
  mean_le = omega arith;
  mean_gt = λ h. absurd (omega arith);
  at_most_five = omega arith;
  stars_le = tt;
})
trace-Rated {user} e
      (reviewed {stars = stars} {s' = s'} {s'' = s''} c reviewer trade_id rating comment id calls
        h) =
    at_ok
      (submit_review-Rated c reviewer user trade_id rating comment stars s' (trace-Rated e calls)) h
trace-Rated {user} e
      (reviewed_other {stars = stars} {s' = s'} {s'' = s''} c reviewer reviewee trade_id rating
        comment id calls ne h) =
    let same =
      at_ok (submit_review-other c reviewer user reviewee trade_id rating comment s' ne) h in
    rw same (trace-Rated e calls)
trace-Rated {user} e (followed {s' = s'} {s'' = s''} c follower followee calls h) =
    rw (at_ok (follow_user-ratings c follower followee s') h) (trace-Rated e calls)
trace-Rated {user} e (unfollowed {s' = s'} {s'' = s''} c follower followee calls h) =
    rw (at_ok (unfollow_user-ratings c follower followee s') h) (trace-Rated e calls)
