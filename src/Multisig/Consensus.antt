-- ===== src/Multisig/Consensus.antt =====
-- What consensus means: the tally against the votes themselves.
use stellar_escrow.Prelude.{
  ℕ, ◌+◌, ◌≤◌, ◌<◌, ◌≡◌, refl, arith, Bool, true, false, Option, none, some, List, [], ◌∷◌, All,
  leb, ◌==◌, ==-refl, ==→eq, leb→le, if◌then◌else◌, Bool-cases, inl, inr,
}
use stellar_escrow.Soroban.{ok, Ctx, ok_or}
use stellar_escrow.Escrow.State.{DisputeResolution, release_to_buyer, release_to_seller, partial}
use stellar_escrow.Multisig.{
  ArbitratorVote, MultiSigConfig, PanelTrade, Multisig, VotingSummary, Tally, bump, tally_vote,
  tally, find_partial, consensus, no_votes, get_all_votes_for_trade, voting_summary,
}

abbrev pub same : DisputeResolution → DisputeResolution → Bool
same release_to_buyer release_to_buyer = true
same release_to_seller release_to_seller = true
same (partial a) (partial b) = a == b
same _ _ = false

-- How many of the votes are for a resolution.
pub votes_for : DisputeResolution → List ArbitratorVote → ℕ
votes_for r [] = 0
votes_for r (v ∷ votes) = (if same v.resolution r then 1 else 0) + votes_for r votes

-- What the tally has counted for a resolution.
abbrev lookup : ℕ → List (ℕ × ℕ) → ℕ
lookup bps [] = 0
lookup bps ((b, n) ∷ rest) = if b == bps then n else lookup bps rest

abbrev counted : DisputeResolution → Tally → ℕ
counted release_to_buyer t = t.to_buyer
counted release_to_seller t = t.to_seller
counted (partial bps) t = lookup bps t.partials

bump-lookup :
    (bps b : ℕ) (l : List (ℕ × ℕ))
    → lookup b (bump bps l) ≡ (if bps == b then 1 else 0) + lookup b l
unfolding bump
bump-lookup bps b [] = ground arith
bump-lookup bps b ((x, n) ∷ rest) = ground (arith, bump-lookup bps b rest)

tally_vote-counted :
    (r v : DisputeResolution) (t : Tally)
    → counted r (tally_vote v t) ≡ (if same v r then 1 else 0) + counted r t
unfolding tally_vote
tally_vote-counted release_to_buyer release_to_buyer t = omega arith
tally_vote-counted release_to_buyer release_to_seller t = omega arith
tally_vote-counted release_to_buyer (partial b) t = omega arith
tally_vote-counted release_to_seller release_to_buyer t = omega arith
tally_vote-counted release_to_seller release_to_seller t = omega arith
tally_vote-counted release_to_seller (partial b) t = omega arith
tally_vote-counted (partial a) release_to_buyer t = omega arith
tally_vote-counted (partial a) release_to_seller t = omega arith
tally_vote-counted (partial a) (partial b) t = bump-lookup b a t.partials

-- The tally counts every resolution exactly as often as it was voted for.
tally-counted :
    (r : DisputeResolution) (votes : List ArbitratorVote) (t : Tally)
    → counted r (tally t votes) ≡ votes_for r votes + counted r t
unfolding tally votes_for
tally-counted r [] t = omega arith
tally-counted r (v ∷ votes) t =
    omega (
      arith,
      tally-counted r votes (tally_vote v.resolution t),
      tally_vote-counted r v.resolution t,
    )

-- No basis points stand twice in the list of counts.
abbrev Absent : ℕ → List (ℕ × ℕ) → Type 0
Absent bps l = All (λ (e : ℕ × ℕ). (e.0 == bps) ≡ false) l

abbrev Distinct : List (ℕ × ℕ) → Type 0
Distinct [] = Unit
Distinct (e ∷ rest) = Absent e.0 rest × Distinct rest

bump-Absent :
    (bps b : ℕ) (l : List (ℕ × ℕ)) → (bps == b) ≡ false → Absent b l → Absent b (bump bps l)
unfolding bump
bump-Absent bps b [] ne h = (ne, tt)
bump-Absent bps b ((x, n) ∷ rest) ne (h, hs) = elim (Bool-cases (x == bps)) [
  | inl e ↦ rw e (h, hs)
  | inr e ↦ rw e (h, bump-Absent bps b rest ne hs)
]

bump-Distinct : (bps : ℕ) (l : List (ℕ × ℕ)) → Distinct l → Distinct (bump bps l)
unfolding bump
bump-Distinct bps [] d = (tt, tt)
bump-Distinct bps ((x, n) ∷ rest) (d, ds) = elim (Bool-cases (x == bps)) [
  | inl e ↦ rw e (d, ds)
  | inr e ↦ rw e (bump-Absent bps x rest (ground arith) d, bump-Distinct bps rest ds)
]

tally-Distinct :
    (votes : List ArbitratorVote) (t : Tally)
    → Distinct t.partials
    → Distinct (tally t votes).partials
unfolding tally tally_vote
tally-Distinct [] t d = d
tally-Distinct (v ∷ votes) t d = tally-Distinct votes (tally_vote v.resolution t) (one v.resolution)
  where
    one : (r : DisputeResolution) → Distinct (tally_vote r t).partials
    one release_to_buyer = d
    one release_to_seller = d
    one (partial b) = bump-Distinct b t.partials d

Absent-lookup : (bps : ℕ) (l : List (ℕ × ℕ)) → Absent bps l → lookup bps l ≡ 0
Absent-lookup bps [] h = refl
Absent-lookup bps ((x, n) ∷ rest) (h, hs) = rw h (Absent-lookup bps rest hs)

-- A split that the search returns has a count that reaches the threshold, and no split has when it
-- returns none.
abbrev Reached : ℕ → List (ℕ × ℕ) → Option DisputeResolution → Type 0
Reached threshold l none = (bps : ℕ) → lookup bps l < threshold
Reached threshold l (some (partial bps)) = threshold ≤ lookup bps l
Reached threshold l (some release_to_buyer) = ⊥
Reached threshold l (some release_to_seller) = ⊥

Reached-later :
    (threshold x n : ℕ) (rest : List (ℕ × ℕ)) (o : Option DisputeResolution)
    → 0 < threshold
    → n < threshold
    → lookup x rest ≡ 0
    → Reached threshold rest o
    → Reached threshold ((x, n) ∷ rest) o
Reached-later threshold x n rest none pos lt z r = λ bps. let h = r bps in ground arith
Reached-later threshold x n rest (some (partial bps)) pos lt z r = elim (Bool-cases (x == bps)) [
  | inl e ↦ let zero_votes : lookup bps rest ≡ 0 = rw (==→eq x bps e) at z in absurd (omega arith)
  | inr e ↦ rw e r
]
Reached-later threshold x n rest (some release_to_buyer) pos lt z r = r
Reached-later threshold x n rest (some release_to_seller) pos lt z r = r

find_partial-Reached :
    (threshold : ℕ) (l : List (ℕ × ℕ))
    → 0 < threshold
    → Distinct l
    → Reached threshold l (find_partial threshold l)
unfolding find_partial
find_partial-Reached threshold [] pos d = λ bps. pos
find_partial-Reached threshold ((x, n) ∷ rest) pos (d, ds) = elim (Bool-cases (leb threshold n)) [
  | inl e ↦ rw (e, ==-refl x) (leb→le threshold n e)
  | inr e ↦ rw e (
      Reached-later threshold x n rest (find_partial threshold rest) pos (ground arith)
        (Absent-lookup x rest d) (find_partial-Reached threshold rest pos ds))
]

-- What a consensus says of the votes: a resolution that is agreed on has at least the threshold of
-- votes, and without one every resolution has fewer.
abbrev pub Agreed : ℕ → List ArbitratorVote → Option DisputeResolution → Type 0
Agreed threshold votes none = (r : DisputeResolution) → votes_for r votes < threshold
Agreed threshold votes (some r) = threshold ≤ votes_for r votes

votes_counted :
    (r : DisputeResolution) (votes : List ArbitratorVote)
    → counted r (tally no_votes votes) ≡ votes_for r votes
votes_counted release_to_buyer votes = omega (arith, tally-counted release_to_buyer votes no_votes)
votes_counted release_to_seller votes =
    omega (arith, tally-counted release_to_seller votes no_votes)
votes_counted (partial b) votes = omega (arith, tally-counted (partial b) votes no_votes)

partial-Agreed :
    (threshold : ℕ) (votes : List ArbitratorVote) (o : Option DisputeResolution)
    → votes_for release_to_buyer votes < threshold
    → votes_for release_to_seller votes < threshold
    → Reached threshold (tally no_votes votes).partials o
    → Agreed threshold votes o
partial-Agreed threshold votes none b s r = every
  where
    every : (res : DisputeResolution) → votes_for res votes < threshold
    every release_to_buyer = b
    every release_to_seller = s
    every (partial x) = omega (arith, r x, votes_counted (partial x) votes)
partial-Agreed threshold votes (some (partial x)) b s r =
    omega (arith, r, votes_counted (partial x) votes)
partial-Agreed threshold votes (some release_to_buyer) b s r = absurd r
partial-Agreed threshold votes (some release_to_seller) b s r = absurd r

consensus-Agreed :
    (threshold : ℕ) (votes : List ArbitratorVote)
    → 0 < threshold
    → Agreed threshold votes (consensus threshold (tally no_votes votes))
unfolding consensus
consensus-Agreed threshold votes pos =
    let t = tally no_votes votes in
    let buyers = votes_counted release_to_buyer votes in
    let sellers = votes_counted release_to_seller votes in
    elim (Bool-cases (leb threshold t.to_buyer)) [
      | inl e ↦ let le = leb→le threshold t.to_buyer e in rw e (omega (arith, le, buyers))
      | inr e ↦ elim (Bool-cases (leb threshold t.to_seller)) [
        | inl e' ↦
            let le = leb→le threshold t.to_seller e' in rw (e, e') (omega (arith, le, sellers))
        | inr e' ↦
            rw (e, e')
              (partial-Agreed threshold votes (find_partial threshold t.partials)
                (ground (arith, buyers, e)) (ground (arith, sellers, e'))
                (find_partial-Reached threshold t.partials pos (tally-Distinct votes no_votes tt)))
      ]
    ]

-- The summary of a panel's votes agrees with the votes themselves, for a threshold above zero: it
-- names a resolution only if at least the threshold of the panel's votes are for it, and it names
-- none only if every resolution has fewer.
pub voting_summary-Agreed :
    (c : Ctx) (trade_id : ℕ) (s : Multisig) (trade : PanelTrade) (config : MultiSigConfig)
    (r : VotingSummary)
    → s.trades trade_id ≡ some trade
    → trade.config ≡ some config
    → 0 < config.threshold
    → voting_summary c trade_id s ≡ ok r
    → Agreed config.threshold
        (get_all_votes_for_trade s trade_id config.arbitrators)
        r.consensus_resolution
unfolding voting_summary ok_or
voting_summary-Agreed c trade_id s trade config r found panel pos h =
    let votes = get_all_votes_for_trade s trade_id config.arbitrators in
    let e : r.consensus_resolution ≡ consensus config.threshold (tally no_votes votes) =
      ground arith in
    rw e (consensus-Agreed config.threshold votes pos)
