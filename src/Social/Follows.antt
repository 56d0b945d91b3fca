-- ===== src/Social/Follows.antt =====
-- The counters of followers after following and unfollowing.
use stellar_escrow.Prelude.{
  ℕ, ◌+◌, ◌≡◌, ◌≢◌, refl, ◌∙◌, arith, Bool, true, false, not, some, ◌==◌, ==-refl,
}
use stellar_escrow.Errors.{cannot_follow_self, not_following}
use stellar_escrow.Soroban.{
  ok, err, trap_unless, Ctx, Ensures, step, returned, at_ok, fail_if, fail_if-ok, require_auth,
  within_or_trap, within_or_trap-ok, u64_mod,
}
use stellar_escrow.Social.{
  Social, get_or_create_profile, save_profile, set_follow, is_following, follow_user, is_none,
  lowered, unfollow_user,
}

-- The follower is recorded as following or not, and both counters have the given values.
pub record Stands (follower user : ℕ) (b : Bool) (followers following : ℕ) (s : Social)
    : Type 0 where
  pub entry : is_following follower user s ≡ b
  pub stored : is_none (s.follows user follower) ≡ not b
  pub followers_are : (get_or_create_profile s user).followers ≡ followers
  pub following_are : (get_or_create_profile s follower).following ≡ following

module _ (c : Ctx) (follower user : ℕ) (s : Social) where
  follow_user-Stands :
      Ensures
        (λ (s' : Social).
          (follower ≢ user)
          × Stands follower user true
              ((get_or_create_profile s user).followers + 1)
              ((get_or_create_profile s follower).following + 1)
              s')
        (follow_user c follower user s)
  unfolding follow_user get_or_create_profile is_following
  follow_user-Stands = step (require_auth c follower) λ _ _.
      step (fail_if (follower == user) cannot_follow_self) λ _ differ.
        let apart = fail_if-ok _ _ differ in
        let ne : follower ≢ user = λ e. ground arith in
        let followed = set_follow user follower (some true) s in
        let user_profile = get_or_create_profile followed user in
        step (within_or_trap u64_mod (user_profile.followers + 1)) λ followers e.
          let counted =
            save_profile user (record user_profile { followers = followers }) followed in
          let follower_profile = get_or_create_profile counted follower in
          step (within_or_trap u64_mod (follower_profile.following + 1)) λ following f.
            let more = (within_or_trap-ok u64_mod (user_profile.followers + 1) e).1 in
            let most = (within_or_trap-ok u64_mod (follower_profile.following + 1) f).1 in
            returned (
              ne,
              record {
                entry = rw (==-refl user, ==-refl follower) refl;
                stored = rw (==-refl user, ==-refl follower) refl;
                followers_are = ground (arith, more);
                following_are = rw (==-refl follower) (most ∙ rw apart refl);
              },
            )

  unfollow_user-Stands :
      follower ≢ user
      → Ensures
          (λ (s' : Social).
            Stands follower user false
              (lowered (get_or_create_profile s user).followers)
              (lowered (get_or_create_profile s follower).following)
              s')
          (unfollow_user c follower user s)
  unfolding unfollow_user get_or_create_profile is_following
  unfollow_user-Stands ne = step (require_auth c follower) λ _ _.
      step (fail_if (is_none (s.follows user follower)) not_following) λ _ _.
        let apart : (follower == user) ≡ false = ground arith in
        let apart' : (user == follower) ≡ false = ground arith in
        returned (record {
          entry = rw (==-refl user, ==-refl follower) refl;
          stored = rw (==-refl user, ==-refl follower) refl;
          followers_are = rw (apart', ==-refl user) refl;
          following_are = rw (==-refl follower, apart) refl;
        })

-- Following a user and unfollowing again leaves the user unfollowed, with both counters as they were.
pub unfollow-follow_user :
    (c d : Ctx) (follower user : ℕ) (s s₁ s₂ : Social)
    → follow_user c follower user s ≡ ok s₁
    → unfollow_user d follower user s₁ ≡ ok s₂
    → Stands follower user false
        (get_or_create_profile s user).followers
        (get_or_create_profile s follower).following
        s₂
unfollow-follow_user c d follower user s s₁ s₂ h k =
    let (ne, up) = at_ok (follow_user-Stands c follower user s) h in
    let down = at_ok (unfollow_user-Stands d follower user s₁ ne) k in
    let a = up.followers_are in
    let b = up.following_are in
    record {
      entry = down.entry;
      stored = down.stored;
      followers_are = down.followers_are ∙ ground arith;
      following_are = down.following_are ∙ ground arith;
    }

-- A user who follows another twice in a row and then unfollows is no longer recorded as following, but
-- stays counted once in both counters, and a second unfollowing is refused.
pub follow_user_twice :
    (c : Ctx) (follower user : ℕ) (s s₁ s₂ s₃ : Social)
    → c.auth follower ≡ true
    → follow_user c follower user s ≡ ok s₁
    → follow_user c follower user s₁ ≡ ok s₂
    → unfollow_user c follower user s₂ ≡ ok s₃
    → Stands follower user false
        ((get_or_create_profile s user).followers + 1)
        ((get_or_create_profile s follower).following + 1)
        s₃
      × (unfollow_user c follower user s₃ ≡ err not_following)
unfolding unfollow_user require_auth trap_unless fail_if
follow_user_twice c follower user s s₁ s₂ s₃ auth h₁ h₂ h₃ =
    let (ne, once) = at_ok (follow_user-Stands c follower user s) h₁ in
    let (_, twice) = at_ok (follow_user-Stands c follower user s₁) h₂ in
    let down = at_ok (unfollow_user-Stands c follower user s₂ ne) h₃ in
    let a = once.followers_are in
    let b = once.following_are in
    let a' = twice.followers_are in
    let b' = twice.following_are in
    let gone = down.stored in
    (
      record {
        entry = down.entry;
        stored = down.stored;
        followers_are = down.followers_are ∙ ground arith;
        following_are = down.following_are ∙ ground arith;
      },
      rw auth (rw gone refl),
    )
