-- ===== src/Events/Decision.antt =====
-- What a decision of backend/src/newsintel/domain/events/assignment.py says of the candidates.
use native.Mathlib.Nat.{le_trans}
use newzyfy.Prelude.{
  ℕ, ◌+◌, ◌*◌, ◌≤◌, ◌<◌, ◌≡◌, refl, not, ◌&&◌, leb, leb→le, ◌⊎◌, inl, inr, true, false, none, some,
  List, [], ◌∷◌, Perm, arith, ltb, ltb→lt, if◌then◌else◌, Bool-cases, All, All-map, IsSorted,
  sort_by-IsSorted, sort_by-perm,
}
use newzyfy.Events.Assignment.{
  provisional, candidate, confirmed, EventCandidate, one, values, any_above-All, is_valid_candidate,
  score, EventAssignmentDecision, rank_candidates, is_ambiguous, decide_ranked,
  decide_event_assignment,
}

-- A candidate whose features are in range has a score of at most 1.
pub score-le_one : (c : EventCandidate) → is_valid_candidate c ≡ true → score c ≤ 100 * one
unfolding is_valid_candidate score
score-le_one c h = let bounds = any_above-All one (values c) (ground arith) in omega (arith, bounds)

abbrev pub NotBelow : EventCandidate → EventCandidate → Type 0
NotBelow a b = score b ≤ score a

pub rank_candidates-IsSorted :
    (candidates : List EventCandidate) → IsSorted NotBelow (rank_candidates candidates)
unfolding rank_candidates
rank_candidates-IsSorted candidates =
    sort_by-IsSorted NotBelow (λ a b. ltb (score b) (score a)) (λ a b c p q. le_trans q p)
      (λ x y e. ground arith) (λ x y e. ground arith) candidates

pub rank_candidates-perm :
    (candidates : List EventCandidate) → Perm (rank_candidates candidates) candidates
unfolding rank_candidates
rank_candidates-perm candidates = sort_by-perm (λ a b. ltb (score b) (score a)) candidates

decide_ranked-candidates :
    (high low margin : ℕ) (ranked : List EventCandidate)
    → (decide_ranked high low margin ranked).candidates ≡ ranked
decide_ranked-candidates high low margin [] = refl
decide_ranked-candidates high low margin (best ∷ rest) = ground arith

-- The shape of a decision: the ranked candidates are a reordering of the given ones by falling score.
-- Nothing is selected exactly when every score is below the candidate threshold, and then the state
-- is provisional; otherwise the first is selected with its score, and the state is confirmed exactly when
-- it reaches the confirmed threshold and leads all others by the margin.
abbrev pub Decides : ℕ → ℕ → ℕ → EventAssignmentDecision → Type 0
Decides confirmed_threshold candidate_threshold ambiguity_margin d =
    (d.selected_event_id ≡ none)
      × (d.selected_score ≡ none)
      × (d.state ≡ provisional)
      × All (λ c. score c < candidate_threshold) d.candidates
    ⊎ ((best : EventCandidate) × (rest : List EventCandidate) × (d.candidates ≡ best ∷ rest)
        × (d.selected_event_id ≡ some best.event_id)
        × (d.selected_score ≡ some (score best))
        × (candidate_threshold ≤ score best)
        × All (λ c. score c ≤ score best) rest
        × ((d.state ≡ confirmed)
              × (confirmed_threshold ≤ score best)
              × All (λ c. score c + ambiguity_margin ≤ score best) rest
            ⊎ (d.state ≡ candidate)
              × ¬ (
                  (confirmed_threshold ≤ score best)
                  × All (λ c. score c + ambiguity_margin ≤ score best) rest)))

-- In a falling list the second element decides whether the first leads by a margin.
leads_iff :
    (margin : ℕ) (best : EventCandidate) (rest : List EventCandidate)
    → All (λ c. score c ≤ score best) rest
    → IsSorted NotBelow rest
    → is_ambiguous margin best rest ≡ false
    → All (λ c. score c + margin ≤ score best) rest
leads_iff margin best [] h sorted e = tt
leads_iff margin best (second ∷ rest) h sorted e =
    let lead : score second + margin ≤ score best = ground arith in
    (
      lead,
      All-map (NotBelow second) (λ c. score c + margin ≤ score best) (λ c p. omega arith) rest
          sorted.0,
    )

not_leads :
    (margin : ℕ) (best : EventCandidate) (rest : List EventCandidate)
    → is_ambiguous margin best rest ≡ true
    → ¬ All (λ c. score c + margin ≤ score best) rest
not_leads margin best [] e all = cc
not_leads margin best (second ∷ rest) e all = ground arith

decide_ranked-Decides :
    (confirmed_threshold candidate_threshold margin : ℕ) (ranked : List EventCandidate)
    → IsSorted NotBelow ranked
    → Decides confirmed_threshold candidate_threshold margin
        (decide_ranked confirmed_threshold candidate_threshold margin ranked)
decide_ranked-Decides high low margin [] sorted = inl (refl, refl, refl, tt)
decide_ranked-Decides high low margin (best ∷ rest) sorted =
    elim (Bool-cases (ltb (score best) low)) [
      | inl e ↦
          let below : score best < low = ltb→lt _ _ e in
          rw e (
            inl (
              refl,
              refl,
              refl,
              (
                below,
                All-map (NotBelow best) (λ c. score c < low) (λ c p. omega arith) rest sorted.0,
              ),
            ))
      | inr e ↦
          let reaches : low ≤ score best = ground arith in
          rw e (inr (best, rest, refl, refl, refl, reaches, sorted.0, chosen))
    ]
  where
    chosen :
        let state =
          if leb high (score best) && not (is_ambiguous margin best rest)
          then confirmed
          else candidate in
        (state ≡ confirmed) × (high ≤ score best) × All (λ c. score c + margin ≤ score best) rest
        ⊎ (state ≡ candidate)
          × ¬ ((high ≤ score best) × All (λ c. score c + margin ≤ score best) rest)
    chosen = elim (Bool-cases (is_ambiguous margin best rest)) [
      | inl e ↦ rw e (inr (ground arith, λ p. not_leads margin best rest e p.1))
      | inr e ↦ elim (Bool-cases (leb high (score best))) [
        | inl f ↦
            rw (e, f) (inl (refl, leb→le _ _ f, leads_iff margin best rest sorted.0 sorted.1 e))
        | inr f ↦ rw (e, f) (inr (refl, λ p. ground arith))
      ]
    ]

-- For any thresholds and candidates, the decision's candidates are the given ones, reordered so that no
-- score rises. Nothing is selected, and the state is provisional, exactly when every score is below the
-- candidate threshold. Otherwise the first candidate is selected with its score, and the state is confirmed
-- exactly when the score reaches the confirmed threshold and leads all others by the margin, else candidate.
pub decide_event_assignment-Decides :
    (confirmed_threshold candidate_threshold ambiguity_margin : ℕ)
    (candidates : List EventCandidate)
    → let d =
        decide_event_assignment confirmed_threshold candidate_threshold ambiguity_margin
          candidates in
      Decides confirmed_threshold candidate_threshold ambiguity_margin d
      × Perm d.candidates candidates
      × IsSorted NotBelow d.candidates
unfolding decide_event_assignment
decide_event_assignment-Decides high low margin candidates = (
  decide_ranked-Decides high low margin (rank_candidates candidates)
      (rank_candidates-IsSorted candidates),
  rw (decide_ranked-candidates high low margin (rank_candidates candidates))
      (rank_candidates-perm candidates),
  rw (decide_ranked-candidates high low margin (rank_candidates candidates))
      (rank_candidates-IsSorted candidates),
)
