-- ===== src/Events/Assignment.antt =====
-- backend/src/newsintel/domain/events/assignment.py.
-- A feature between 0 and 1 is a whole number of millionths, and a score a whole number of
-- hundred-millionths, so that the weights of two decimals multiply exactly; the source has floats.
use newzyfy.Prelude.{
  ℕ, ◌+◌, ◌-◌, ◌*◌, ◌≤◌, Bool, false, not, ◌&&◌, ◌||◌, Option, none, some, List, [], ◌∷◌, ltb, leb,
  if◌then◌else◌, sort_by, All, ◌≡◌, arith,
}
use newzyfy.Outbox.{Uuid}

pub data EventAssignmentState : Type 0 where
  provisional candidate confirmed : EventAssignmentState

pub record EventCandidate : Type 0 where
  pub event_id : Uuid
  pub semantic_similarity : ℕ
  pub title_similarity : ℕ
  pub entity_overlap : ℕ
  pub identifier_overlap : ℕ
  pub claim_overlap : ℕ
  pub temporal_compatibility : ℕ
  pub geographic_compatibility : ℕ
  pub event_type_compatibility : ℕ

abbrev pub one : ℕ
one = 1000000

abbrev pub values : EventCandidate → List ℕ
values c =
    c.semantic_similarity ∷ c.title_similarity ∷ c.entity_overlap ∷ c.identifier_overlap
    ∷ c.claim_overlap ∷ c.temporal_compatibility ∷ c.geographic_compatibility
    ∷ c.event_type_compatibility ∷ []

unfoldable pub any_above : ℕ → List ℕ → Bool
any_above bound [] = false
any_above bound (value ∷ rest) = ltb bound value || any_above bound rest

-- __post_init__: false is the ValueError. No value is below 0 here.
unfoldable pub is_valid_candidate : EventCandidate → Bool
is_valid_candidate c = not (any_above one (values c))

pub any_above-All : (bound : ℕ) (xs : List ℕ) → any_above bound xs ≡ false → All (λ v. v ≤ bound) xs
unfolding any_above
any_above-All bound [] h = tt
any_above-All bound (x ∷ xs) h = (ground arith, any_above-All bound xs (ground arith))

unfoldable pub score : EventCandidate → ℕ
score c =
    35 * c.semantic_similarity
    + 10 * c.title_similarity
    + 15 * c.entity_overlap
    + 15 * c.identifier_overlap
    + 10 * c.claim_overlap
    + 7 * c.temporal_compatibility
    + 5 * c.geographic_compatibility
    + 3 * c.event_type_compatibility

pub record EventAssignmentDecision : Type 0 where
  pub state : EventAssignmentState
  pub selected_event_id : Option Uuid
  pub selected_score : Option ℕ
  pub candidates : List EventCandidate

-- sorted(candidates, key=score, reverse=True), which keeps the order of equal scores.
unfoldable pub rank_candidates : List EventCandidate → List EventCandidate
rank_candidates candidates = sort_by (λ a b. ltb (score b) (score a)) candidates

abbrev pub is_ambiguous : ℕ → EventCandidate → List EventCandidate → Bool
is_ambiguous ambiguity_margin best [] = false
is_ambiguous ambiguity_margin best (second ∷ _) = ltb (score best - score second) ambiguity_margin

abbrev pub decide_ranked : ℕ → ℕ → ℕ → List EventCandidate → EventAssignmentDecision
decide_ranked confirmed_threshold candidate_threshold ambiguity_margin [] = record {
  state = provisional;
  selected_event_id = none;
  selected_score = none;
  candidates = [];
}
decide_ranked confirmed_threshold candidate_threshold ambiguity_margin (best ∷ rest) =
    if ltb (score best) candidate_threshold
    then record {
      state = provisional;
      selected_event_id = none;
      selected_score = none;
      candidates = best ∷ rest;
    }
    else record {
      state =
          if leb confirmed_threshold (score best) && not (is_ambiguous ambiguity_margin best rest)
          then confirmed
          else candidate;
      selected_event_id = some best.event_id;
      selected_score = some (score best);
      candidates = best ∷ rest;
    }

unfoldable pub decide_event_assignment : ℕ → ℕ → ℕ → List EventCandidate → EventAssignmentDecision
decide_event_assignment confirmed_threshold candidate_threshold ambiguity_margin candidates =
    decide_ranked confirmed_threshold candidate_threshold ambiguity_margin
      (rank_candidates candidates)

abbrev pub default_confirmed_threshold : ℕ
default_confirmed_threshold = 78000000

abbrev pub default_candidate_threshold : ℕ
default_candidate_threshold = 62000000

abbrev pub default_ambiguity_margin : ℕ
default_ambiguity_margin = 5000000
