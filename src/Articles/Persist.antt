-- ===== src/Articles/Persist.antt =====
-- complete_success of backend/src/newsintel/infrastructure/db/article_processing_repository.py with
-- its helpers: the transaction that stores an extracted article, its event, its version and claims.
-- What build_event_candidates finds among the recent events, and what extract_claims finds in a text,
-- are parameters.
use newzyfy.Prelude.{
  ℕ, suc, max, String, Bool, true, false, Option, none, some, List, [], ◌∷◌, ◌++◌, str_eq, ltb,
  ◌==◌, if◌then◌else◌, or_option, find_row, find_key, update_where,
}
use newzyfy.Time.{Instant}
use newzyfy.Text.{clip, text_or, text_or_option}
use newzyfy.Outbox.{Uuid}
use newzyfy.Events.Assignment.{
  EventAssignmentState, provisional, candidate, confirmed, EventCandidate, EventAssignmentDecision,
  decide_event_assignment, default_confirmed_threshold, default_candidate_threshold,
  default_ambiguity_margin,
}
use newzyfy.Articles.Types.{LeasedUrlCandidate, FetchResult, ExtractedArticle}
use newzyfy.Articles.Rows.{EventModel, ArticleModel, Database}

-- What the transaction calls and does not define. A claim is its text, its digest and the index of its
-- sentence.
pub record Analysis : Type 0 where
  pub event_candidates : Database → String → String → Option Instant → Instant → List EventCandidate
  pub extract_claims : String → List (String × String × ℕ)

unfoldable pub fallback_title : Option String → String → String
fallback_title extracted_title final_url = clip 1000 (text_or extracted_title final_url)

abbrev status_rank : EventAssignmentState → ℕ
status_rank provisional = 0
status_rank candidate = 1
status_rank confirmed = 2

unfoldable pub stronger_assignment_status :
    EventAssignmentState → EventAssignmentState → EventAssignmentState
stronger_assignment_status existing incoming =
    if ltb (status_rank existing) (status_rank incoming) then incoming else existing

unfoldable pub update_existing_event :
    EventAssignmentState → Instant → Instant → EventModel → EventModel
update_existing_event state observed_at updated_at event = record event {
  last_material_change_at = max event.last_material_change_at observed_at;
  updated_at = updated_at;
  assignment_status = stronger_assignment_status event.assignment_status state;
}

-- The slug and the top terms of the text are left out.
unfoldable pub new_provisional_event : Uuid → String → Instant → Uuid → EventModel
new_provisional_event id title detected_at candidate_id = record {
  id = id;
  title = title;
  lifecycle_status = "active";
  assignment_status = provisional;
  first_detected_at = detected_at;
  last_material_change_at = detected_at;
  created_from_candidate_id = candidate_id;
  created_at = detected_at;
  updated_at = detected_at;
}

-- The event of a new article: its identifier, whether it was created, and the assignment.
pub record EventChoice : Type 0 where
  pub event_id : Uuid
  pub created : Bool
  pub state : EventAssignmentState
  pub score : Option ℕ

abbrev selected_event : EventAssignmentDecision → Database → Option EventModel
selected_event decision db = elim decision.selected_event_id [
  | none ↦ none
  | some id ↦ find_key (λ (e : EventModel). e.id) id db.events
]

-- _decide_event and the two branches on its result.
unfoldable pub choose_event :
    Analysis
    → LeasedUrlCandidate
    → String
    → ExtractedArticle
    → FetchResult
    → Instant
    → Database
    → Database × EventChoice
choose_event analysis leased_candidate title extracted fetched completed_at db =
    let decision =
      decide_event_assignment default_confirmed_threshold default_candidate_threshold
        default_ambiguity_margin
        (analysis.event_candidates db title extracted.text_content extracted.published_at
          fetched.retrieved_at) in
    elim (selected_event decision db) [
      | none ↦ (
        record db {
          events =
              db.events
              ++ new_provisional_event db.next_id title fetched.retrieved_at leased_candidate.id
                ∷ [];
          next_id = suc db.next_id;
        },
        record { event_id = db.next_id; created = true; state = provisional; score = none },
      )
      | some event ↦ (
        record db {
          events =
              update_where (λ (e : EventModel). e.id == event.id)
                (update_existing_event decision.state fetched.retrieved_at completed_at) db.events;
        },
        record {
          event_id = event.id;
          created = false;
          state = decision.state;
          score = decision.selected_score;
        },
      )
    ]

unfoldable pub new_article :
    Uuid
    → LeasedUrlCandidate
    → String
    → String
    → String
    → Uuid
    → ExtractedArticle
    → FetchResult
    → Instant
    → ArticleModel
new_article id leased_candidate fingerprint canonical_url title event_id extracted fetched
      completed_at =
    record {
      id = id;
      publisher_id = leased_candidate.publisher_id;
      event_id = event_id;
      canonical_url = canonical_url;
      normalized_url_hash = fingerprint;
      title = title;
      language = extracted.language;
      published_at = extracted.published_at;
      first_observed_at = fetched.retrieved_at;
      created_at = completed_at;
      updated_at = completed_at;
    }

unfoldable pub updated_article :
    String → String → ExtractedArticle → Instant → ArticleModel → ArticleModel
updated_article canonical_url title extracted completed_at article = record article {
  canonical_url = canonical_url;
  title = title;
  language = text_or_option extracted.language article.language;
  published_at = or_option extracted.published_at article.published_at;
  updated_at = completed_at;
}

-- What the rest of the transaction needs of the article.
pub record ArticleChoice : Type 0 where
  pub article : ArticleModel
  pub choice : Option EventChoice

-- The article of the candidate's fingerprint: updated where it is stored, else inserted with its
-- event and its assignment. `choice` is there for a new article.
unfoldable pub store_article :
    Analysis
    → LeasedUrlCandidate
    → String
    → ExtractedArticle
    → FetchResult
    → Instant
    → Database
    → Database × ArticleChoice
store_article analysis leased_candidate fingerprint extracted fetched completed_at db =
    let title = fallback_title extracted.title fetched.final_url in
    let canonical_url = text_or extracted.canonical_url fetched.final_url in
    elim (find_row (λ (a : ArticleModel). str_eq a.normalized_url_hash fingerprint) db.articles) [
      | none ↦
          let (db', choice) =
            choose_event analysis leased_candidate title extracted fetched completed_at db in
          let id = db'.next_id in
          let article =
            new_article id leased_candidate fingerprint canonical_url title choice.event_id
              extracted fetched completed_at in
          (
            record db' {
              articles = db'.articles ++ article ∷ [];
              assignments =
                  db'.assignments
                  ++ record {
                    id = suc id;
                    article_id = id;
                    event_id = choice.event_id;
                    state = choice.state;
                    score = choice.score;
                    is_current = true;
                    assigned_at = completed_at;
                  }
                    ∷ [];
              next_id = suc (suc id);
            },
            record { article = article; choice = some choice },
          )
      | some article ↦ (
        record db {
          articles =
              update_where (λ (a : ArticleModel). a.id == article.id)
                (updated_article canonical_url title extracted completed_at) db.articles;
        },
        record {
          article = updated_article canonical_url title extracted completed_at article;
          choice = none;
        },
      )
    ]
