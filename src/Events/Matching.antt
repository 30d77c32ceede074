-- ===== src/Events/Matching.antt =====
-- The candidate events of an article: backend/src/newsintel/domain/events/matching.py. A feature is a whole
-- number of millionths, and a quotient is taken down to one; the source has floats. A frozenset is a
-- list in which no text stands twice.
use newzyfy.Prelude.{
  ℕ, ◌+◌, ◌-◌, ◌*◌, ◌/◌, min, String, Option, none, some, List, [], ◌∷◌, map, length, take, leb,
  or_else, or_option, if◌then◌else◌,
}
use newzyfy.Time.{Instant, Datetime, normalize_datetime, days}
use newzyfy.Outbox.{Uuid}
use newzyfy.Text.{concat, as_set, intersection, difference}
use newzyfy.Events.Assignment.{EventCandidate, one, rank_candidates}
use newzyfy.Events.Terms.{Patterns, tokens, shingles, entities, identifiers, locations}

pub record ArticleEventProfile : Type 0 where
  pub published_at : Option Datetime
  pub observed_at : Option Datetime
  pub title_tokens : List String
  pub content_tokens : List String
  pub title_shingles : List String
  pub content_shingles : List String
  pub entities : List String
  pub identifiers : List String
  pub locations : List String

pub record EventReference : Type 0 where
  pub event_id : Uuid
  pub title : String
  pub text : String
  pub first_detected_at : Datetime
  pub latest_observed_at : Option Datetime

-- __post_init__; the title and the text themselves are not read again.
unfoldable pub article_event_profile :
    Patterns → String → String → Option Datetime → Option Datetime → ArticleEventProfile
article_event_profile patterns title body published_at observed_at =
    let text = concat title (concat "\n" body) in
    record {
      published_at = published_at;
      observed_at = observed_at;
      title_tokens = as_set (tokens patterns title);
      content_tokens = as_set (tokens patterns text);
      title_shingles = shingles (tokens patterns title) 2;
      content_shingles = shingles (tokens patterns text) 3;
      entities = as_set (entities patterns text);
      identifiers = as_set (identifiers patterns text);
      locations = as_set (locations patterns text);
    }

abbrev profile : Patterns → EventReference → ArticleEventProfile
profile patterns r =
    article_event_profile patterns r.title r.text none
      (some (or_else r.latest_observed_at r.first_detected_at))

-- n / d for texts in a set of d, d not 0.
abbrev pub quotient : ℕ → ℕ → ℕ
quotient n d = n * one / d

unfoldable pub jaccard : List String → List String → ℕ
jaccard [] right = 0
jaccard (l ∷ left) [] = 0
jaccard (l ∷ left) (r ∷ right) =
    quotient (length (intersection (l ∷ left) (r ∷ right)))
      (length (l ∷ left) + length (difference (r ∷ right) (l ∷ left)))

unfoldable pub overlap_or_unknown : List String → List String → ℕ
overlap_or_unknown [] [] = 500000
overlap_or_unknown [] (r ∷ right) = 0
overlap_or_unknown (l ∷ left) [] = 0
overlap_or_unknown (l ∷ left) (r ∷ right) =
    quotient (length (intersection (l ∷ left) (r ∷ right)))
      (min (length (l ∷ left)) (length (r ∷ right)))

unfoldable pub geographic_compatibility : List String → List String → ℕ
geographic_compatibility [] [] = 500000
geographic_compatibility [] (r ∷ right) = 200000
geographic_compatibility (l ∷ left) [] = 200000
geographic_compatibility (l ∷ left) (r ∷ right) = overlap_or_unknown (l ∷ left) (r ∷ right)

abbrev pub compatibility_within : Instant → ℕ
compatibility_within distance =
    if leb distance (days 1)
    then 1000000
    else if leb distance (days 3)
    then 850000
    else if leb distance (days 7)
    then 650000
    else if leb distance (days 14)
    then 400000
    else if leb distance (days 30)
    then 200000
    else 50000

abbrev pub instants_compatibility : Option Instant → Option Instant → ℕ
instants_compatibility (some l) (some r) = compatibility_within ((l - r) + (r - l))
instants_compatibility _ _ = 500000

unfoldable pub temporal_compatibility : Option Datetime → Option Datetime → ℕ
temporal_compatibility left right =
    instants_compatibility (normalize_datetime left) (normalize_datetime right)

-- The weights are hundredths.
unfoldable pub weighted_similarity :
    List String → List String → List String → List String → ℕ → ℕ → ℕ
weighted_similarity left_tokens right_tokens left_shingles right_shingles token_weight
      shingle_weight =
    (token_weight * jaccard left_tokens right_tokens
      + shingle_weight * jaccard left_shingles right_shingles)
    / 100

unfoldable pub candidate_for_reference :
    Patterns → ArticleEventProfile → EventReference → EventCandidate
candidate_for_reference patterns incoming reference =
    let existing = profile patterns reference in
    record {
      event_id = reference.event_id;
      semantic_similarity =
          weighted_similarity incoming.content_tokens existing.content_tokens
            incoming.content_shingles existing.content_shingles 45 55;
      title_similarity =
          weighted_similarity incoming.title_tokens existing.title_tokens incoming.title_shingles
            existing.title_shingles 70 30;
      entity_overlap = overlap_or_unknown incoming.entities existing.entities;
      identifier_overlap = overlap_or_unknown incoming.identifiers existing.identifiers;
      claim_overlap = jaccard incoming.content_shingles existing.content_shingles;
      temporal_compatibility =
          temporal_compatibility (or_option incoming.published_at incoming.observed_at)
            (or_option existing.observed_at (some reference.first_detected_at));
      geographic_compatibility = geographic_compatibility incoming.locations existing.locations;
      event_type_compatibility = 500000;
    }

-- The constructor's check of its values is is_valid_candidate.
unfoldable pub build_event_candidates :
    Patterns → ArticleEventProfile → List EventReference → ℕ → List EventCandidate
build_event_candidates patterns incoming references limit =
    take limit (rank_candidates (map (candidate_for_reference patterns incoming) references))
