-- ===== src/Scenarios/Policies.antt =====
-- The policies at concrete inputs: retries, event assignment, admission of URLs, and priorities.
use newzyfy.Prelude.{
  ℕ, ◌+◌, ◌*◌, ◌≤◌, ◌<◌, ◌≡◌, refl, ◌↔◌, true, false, none, some, List, [], ◌∷◌, Perm, arith,
  or_else, IsSorted,
}
use newzyfy.Time.{Instant, seconds, hours, aware}
use newzyfy.Backoff.{ahead, retry_at_for_attempt}
use newzyfy.Backoff.Bounds.{retry_at_for_attempt_range}
use newzyfy.Events.Assignment.{
  EventCandidate, EventAssignmentState, score, decide_event_assignment, default_confirmed_threshold,
  default_candidate_threshold, default_ambiguity_margin, rank_candidates,
}
use newzyfy.Events.Decision.{Decides, NotBelow, decide_event_assignment-Decides}
use newzyfy.Filter.{UrlTests, too_old, future_dated}
use newzyfy.Filter.Admission.{
  decision, IsTimely, should_admit_article_url_iff, should_admit_article_url_reason,
}

retry_at_for_attempt_range_example :
    (t : Instant) × (retry_at_for_attempt ahead 3 30 3600 200 (some 1000) 2000 ≡ some t)
    × (or_else (some 1000) 2000 + seconds 1 ≤ t)
    × (t ≤ or_else (some 1000) 2000 + seconds 3600 * 2)
retry_at_for_attempt_range_example =
    retry_at_for_attempt_range ahead 3 30 3600 200 (some 1000) 2000 (λ j. omega arith) (omega arith)
      (omega arith) (omega arith)

-- A candidate whose features all have one value.
abbrev event_candidate : ℕ → ℕ → EventCandidate
event_candidate event_id v = record {
  event_id = event_id;
  semantic_similarity = v;
  title_similarity = v;
  entity_overlap = v;
  identifier_overlap = v;
  claim_overlap = v;
  temporal_compatibility = v;
  geographic_compatibility = v;
  event_type_compatibility = v;
}

abbrev two_events : List EventCandidate
two_events = event_candidate 1 500000 ∷ event_candidate 2 900000 ∷ []

-- The second event leads by more than the margin and is confirmed.
confirmed_test :
    (decide_event_assignment default_confirmed_threshold default_candidate_threshold
      default_ambiguity_margin two_events).state
    ≡ EventAssignmentState.confirmed
unfolding decide_event_assignment rank_candidates score
confirmed_test = refl

decide_event_assignment-Decides_example :
    let d = decide_event_assignment 78000000 62000000 5000000 two_events in
    Decides 78000000 62000000 5000000 d
    × Perm d.candidates two_events
    × IsSorted NotBelow d.candidates
decide_event_assignment-Decides_example =
    decide_event_assignment-Decides 78000000 62000000 5000000 two_events

abbrev tests : UrlTests
tests = record { has_excluded_segment = λ url. false; looks_like_article_url = λ url. true }

should_admit_article_url_iff_example :
    (decision tests "https://example.org/a"
        (some (aware (hours 10)))
        (aware (hours 12))
        72
        false).accepted
      ≡ true
    ↔ IsTimely (some (aware (hours 10))) (aware (hours 12)) 72 false
      × (false ≡ false)
      × (true ≡ true)
should_admit_article_url_iff_example =
    should_admit_article_url_iff tests "https://example.org/a" (some (aware (hours 10)))
      (aware (hours 12)) 72 false

should_admit_article_url_reason_example :
    let d =
      decision tests "https://example.org/a"
        (some (aware (hours 15)))
        (aware (hours 12))
        72
        false in
    ((d.reason ≡ none) ↔ (d.accepted ≡ true))
    × ((d.reason ≡ some future_dated) ↔ (hours 12 + hours 2 < hours 15))
    × ((d.reason ≡ some too_old)
        ↔ (hours 15 ≤ hours 12 + hours 2) × (hours 15 + hours 72 < hours 12))
    × (d.published_at ≡ some (hours 15))
should_admit_article_url_reason_example =
    should_admit_article_url_reason tests "https://example.org/a" (aware (hours 15))
      (aware (hours 12)) 72 false
