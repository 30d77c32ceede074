-- ===== src/Events/Similarity.antt =====
-- The candidates that build_event_candidates of backend/src/newsintel/domain/events/matching.py returns.
use native.Mathlib.Nat.{div-le_of_le-mul}
use newzyfy.Prelude.{
  ℕ, zero, suc, ◌*◌, ◌+◌, ◌-◌, ◌≤◌, ◌≡◌, refl, String, true, false, Option, none, some, List, [],
  ◌∷◌, map, length, take, All, All-map, All-take, All-sort_by, IsSorted, arith, ◌++◌, Perm, min, ap,
  length-sort_by, ltb, sym, subst, ◌∙◌, length-map,
}
use newzyfy.Time.{Instant, Datetime, normalize_datetime}
use newzyfy.Text.{concat, IsDistinct, as_set-IsDistinct}
use newzyfy.Text.Sets.{length-intersection_left, length-intersection_right}
use newzyfy.Events.Assignment.{
  EventCandidate, one, values, score, any_above, is_valid_candidate, rank_candidates,
}
use newzyfy.Events.Decision.{NotBelow, rank_candidates-IsSorted, rank_candidates-perm, score-le_one}
use newzyfy.Events.Terms.{Patterns, entities, identifiers, locations}
use newzyfy.Events.Matching.{
  ArticleEventProfile, EventReference, article_event_profile, jaccard, overlap_or_unknown,
  geographic_compatibility, temporal_compatibility, compatibility_within, instants_compatibility,
  weighted_similarity, candidate_for_reference, build_event_candidates, quotient,
}

quotient-le_one : (n d : ℕ) → 1 ≤ d → n ≤ d → quotient n d ≤ one
quotient-le_one n d h k = div-le_of_le-mul d (omega arith)

jaccard-le_one : (left right : List String) → jaccard left right ≤ one
unfolding jaccard
jaccard-le_one [] right = omega arith
jaccard-le_one (l ∷ left) [] = omega arith
jaccard-le_one (l ∷ left) (r ∷ right) =
    quotient-le_one _ _ (omega arith)
      (omega (arith, length-intersection_left (l ∷ left) (r ∷ right)))

overlap_or_unknown-le_one :
    (left right : List String) → IsDistinct left → overlap_or_unknown left right ≤ one
unfolding overlap_or_unknown
overlap_or_unknown-le_one [] [] h = omega arith
overlap_or_unknown-le_one [] (r ∷ right) h = omega arith
overlap_or_unknown-le_one (l ∷ left) [] h = omega arith
overlap_or_unknown-le_one (l ∷ left) (r ∷ right) h = quotient-le_one _ _ (omega arith) (
    omega (
      arith,
      length-intersection_left (l ∷ left) (r ∷ right),
      length-intersection_right (l ∷ left) (r ∷ right) h,
    ))

geographic_compatibility-le_one :
    (left right : List String) → IsDistinct left → geographic_compatibility left right ≤ one
unfolding geographic_compatibility
geographic_compatibility-le_one [] [] h = omega arith
geographic_compatibility-le_one [] (r ∷ right) h = omega arith
geographic_compatibility-le_one (l ∷ left) [] h = omega arith
geographic_compatibility-le_one (l ∷ left) (r ∷ right) h =
    overlap_or_unknown-le_one (l ∷ left) (r ∷ right) h

compatibility_within-le_one : (distance : ℕ) → compatibility_within distance ≤ one
compatibility_within-le_one distance = ground arith

instants_compatibility-le_one : (l r : Option Instant) → instants_compatibility l r ≤ one
instants_compatibility-le_one none r = omega arith
instants_compatibility-le_one (some l) none = omega arith
instants_compatibility-le_one (some l) (some r) = compatibility_within-le_one ((l - r) + (r - l))

temporal_compatibility-le_one :
    (left right : Option Datetime) → temporal_compatibility left right ≤ one
unfolding temporal_compatibility
temporal_compatibility-le_one left right =
    instants_compatibility-le_one (normalize_datetime left) (normalize_datetime right)

content_similarity-le_one : (a b c d : List String) → weighted_similarity a b c d 45 55 ≤ one
unfolding weighted_similarity
content_similarity-le_one a b c d = omega (arith, jaccard-le_one a b, jaccard-le_one c d)

title_similarity-le_one : (a b c d : List String) → weighted_similarity a b c d 70 30 ≤ one
unfolding weighted_similarity
title_similarity-le_one a b c d = omega (arith, jaccard-le_one a b, jaccard-le_one c d)

any_above-of_All : (bound : ℕ) (xs : List ℕ) → All (λ v. v ≤ bound) xs → any_above bound xs ≡ false
unfolding any_above
any_above-of_All bound [] h = refl
any_above-of_All bound (x ∷ xs) h =
    let rest = any_above-of_All bound xs h.1 in let here = h.0 in ground arith

-- The sets in which a candidate's overlaps are counted hold no text twice.
abbrev HasSets : ArticleEventProfile → Type 0
HasSets p = IsDistinct p.entities × IsDistinct p.identifiers × IsDistinct p.locations

candidate_for_reference-is_valid_candidate :
    (patterns : Patterns) (incoming : ArticleEventProfile) (reference : EventReference)
    → HasSets incoming
    → is_valid_candidate (candidate_for_reference patterns incoming reference) ≡ true
unfolding is_valid_candidate candidate_for_reference
candidate_for_reference-is_valid_candidate patterns incoming reference h =
    let valid =
      any_above-of_All one (values (candidate_for_reference patterns incoming reference)) (
        content_similarity-le_one _ _ _ _,
        (
          title_similarity-le_one _ _ _ _,
          (
            overlap_or_unknown-le_one incoming.entities _ h.0,
            (
              overlap_or_unknown-le_one incoming.identifiers _ h.1,
              (
                jaccard-le_one _ _,
                (
                  temporal_compatibility-le_one _ _,
                  (geographic_compatibility-le_one incoming.locations _ h.2, (omega arith, tt)),
                ),
              ),
            ),
          ),
        ),
      ) in
    rw valid

candidates-All :
    (patterns : Patterns) (incoming : ArticleEventProfile) (references : List EventReference)
    → HasSets incoming
    → All
        (λ c. is_valid_candidate c ≡ true)
        (map (candidate_for_reference patterns incoming) references)
candidates-All patterns incoming [] h = tt
candidates-All patterns incoming (r ∷ references) h = (
  candidate_for_reference-is_valid_candidate patterns incoming r h,
  candidates-All patterns incoming references h,
)

article_event_profile-HasSets :
    (patterns : Patterns) (title body : String) (published_at observed_at : Option Datetime)
    → HasSets (article_event_profile patterns title body published_at observed_at)
unfolding article_event_profile
article_event_profile-HasSets patterns title body published_at observed_at =
    let text = concat title (concat "\n" body) in
    (
      as_set-IsDistinct (entities patterns text),
      as_set-IsDistinct (identifiers patterns text),
      as_set-IsDistinct (locations patterns text),
    )

take-append :
    (n : ℕ) (xs : List EventCandidate) → (left : List EventCandidate) × (take n xs ++ left ≡ xs)
take-append zero xs = (xs, refl)
take-append (suc n) [] = ([], refl)
take-append (suc n) (x ∷ xs) = let (left, same) = take-append n xs in (left, ap (λ l. x ∷ l) same)

length-take : (n : ℕ) (xs : List EventCandidate) → length (take n xs) ≡ min n (length xs)
length-take zero xs = omega arith
length-take (suc n) [] = omega arith
length-take (suc n) (x ∷ xs) = omega (arith, length-take n xs)

-- For the profile of any article, each candidate that is built passes the check of its values, so that
-- none is refused, and has a score of at most 1. They are as many as the limit, or one for each
-- reference if there are fewer. With those that are left out behind them, they are the
-- candidates of all references, reordered by falling score: none that is left out has a higher score.
pub build_event_candidates-is_valid_candidate :
    (patterns : Patterns) (title body : String) (published_at observed_at : Option Datetime)
    (references : List EventReference) (limit : ℕ)
    → let found =
        build_event_candidates patterns
          (article_event_profile patterns title body published_at observed_at)
          references
          limit in
      All (λ c. is_valid_candidate c ≡ true) found
      × All (λ c. score c ≤ 100 * one) found
      × (length found ≡ min limit (length references))
      × ((left : List EventCandidate) × IsSorted NotBelow (found ++ left)
          × Perm (found ++ left) (
              map
                (candidate_for_reference patterns
                  (article_event_profile patterns title body published_at observed_at))
                references))
unfolding build_event_candidates rank_candidates
build_event_candidates-is_valid_candidate patterns title body published_at observed_at references
      limit =
    let incoming = article_event_profile patterns title body published_at observed_at in
    let all = map (candidate_for_reference patterns incoming) references in
    let (left, same) = take-append limit (rank_candidates all) in
    let valid =
      All-take (λ c. is_valid_candidate c ≡ true) limit _
        (All-sort_by (λ c. is_valid_candidate c ≡ true) _ all
          (candidates-All patterns incoming references
            (article_event_profile-HasSets patterns title body published_at observed_at))) in
    (
      valid,
      All-map (λ c. is_valid_candidate c ≡ true) (λ c. score c ≤ 100 * one) score-le_one _ valid,
      length-take limit (rank_candidates all)
          ∙ ap (λ n. min limit n)
              (length-sort_by (λ a b. ltb (score b) (score a)) all
                ∙ length-map (candidate_for_reference patterns incoming) references),
      (
        left,
        subst (IsSorted NotBelow) (sym same) (rank_candidates-IsSorted all),
        subst (λ l. Perm l all) (sym same) (rank_candidates-perm all),
      ),
    )
