-- ===== src/Articles/Recent.antt =====
-- _load_recent_event_references of
-- backend/src/newsintel/infrastructure/db/article_processing_repository.py, and with it the Analysis that
-- _decide_event and _persist_claims make of domain/events/matching.py and
-- domain/intelligence/claims.py. The database leaves the order of rows with one created_at open;
-- here it is that of the table.
use newzyfy.Prelude.{
  ℕ, ◌-◌, max, String, ◌&&◌, Option, none, some, List, [], ◌∷◌, ◌++◌, map, length, take, sort_by,
  find_key, find_row, update_where, is_none, or_else, str_eq, ltb, leb, ◌==◌, if◌then◌else◌,
}
use newzyfy.Time.{Instant, aware, days}
use newzyfy.Text.{concat, clip}
use newzyfy.Outbox.{Uuid}
use newzyfy.Events.Assignment.{EventCandidate}
use newzyfy.Events.Terms.{Patterns}
use newzyfy.Events.Matching.{EventReference, article_event_profile, build_event_candidates}
use newzyfy.Claims.{Language, ExtractedClaim, extract_claims, claim_sha256}
use newzyfy.Articles.Rows.{EventModel, ArticleModel, ArticleVersionModel, Database}
use newzyfy.Articles.Persist.{Analysis}

-- A row of the join.
abbrev Joined : Type 0
Joined = EventModel × ArticleModel × ArticleVersionModel

abbrev recent_event : Instant → ArticleModel → ArticleVersionModel → Option EventModel → List Joined
recent_event window_start article version none = []
recent_event window_start article version (some event) =
    if str_eq event.lifecycle_status "active" && leb window_start event.first_detected_at
    then (event, article, version) ∷ []
    else []

abbrev joined_article : Instant → Database → ArticleVersionModel → Option ArticleModel → List Joined
joined_article window_start db version none = []
joined_article window_start db version (some article) =
    recent_event window_start article version
      (find_key (λ (e : EventModel). e.id) article.event_id db.events)

-- Each version with its article and the article's event, where that is active and recent.
abbrev joined_rows : Instant → Database → List ArticleVersionModel → List Joined
joined_rows window_start db [] = []
joined_rows window_start db (version ∷ versions) =
    joined_article window_start db version
      (find_key (λ (a : ArticleModel). a.id) version.article_id db.articles)
    ++ joined_rows window_start db versions

pub record Group : Type 0 where
  pub event_id : Uuid
  pub title : String
  pub first_detected_at : Instant
  pub latest_observed_at : Instant
  pub texts : List String

abbrev row_text : Joined → String
row_text (event, article, version) =
    concat article.title (concat "\n" (clip 1500 version.text_content))

abbrev extended : Joined → Group → Group
extended (event, article, version) g = record g {
  latest_observed_at = max g.latest_observed_at article.first_observed_at;
  texts =
      if ltb (length g.texts) 3
      then g.texts ++ row_text (event, article, version) ∷ []
      else g.texts;
}

abbrev opened : Joined → Group
opened (event, article, version) = record {
  event_id = event.id;
  title = event.title;
  first_detected_at = event.first_detected_at;
  latest_observed_at = article.first_observed_at;
  texts = row_text (event, article, version) ∷ [];
}

abbrev add_to_group : Joined → List Group → List Group
add_to_group (event, article, version) groups =
    if is_none (find_row (λ (g : Group). g.event_id == event.id) groups)
    then groups ++ opened (event, article, version) ∷ []
    else update_where (λ (g : Group). g.event_id == event.id) (extended (event, article, version))
        groups

abbrev group_rows : List Joined → List Group → List Group
group_rows [] groups = groups
group_rows (row ∷ rows) groups = group_rows rows (add_to_group row groups)

abbrev join_lines : List String → String
join_lines [] = ""
join_lines (l ∷ []) = l
join_lines (l ∷ m ∷ rest) = concat l (concat "\n" (join_lines (m ∷ rest)))

abbrev reference_of : Group → EventReference
reference_of g = record {
  event_id = g.event_id;
  title = g.title;
  text = join_lines g.texts;
  first_detected_at = aware g.first_detected_at;
  latest_observed_at = some (aware g.latest_observed_at);
}

unfoldable pub load_recent_event_references : Instant → ℕ → ℕ → Database → List EventReference
load_recent_event_references observed_at lookback_days max_rows db =
    let rows = take max_rows (
      sort_by (λ (a b : Joined). ltb b.2.created_at a.2.created_at)
        (joined_rows (observed_at - days lookback_days) db db.versions)) in
    map reference_of (group_rows rows [])

-- The first statements of _decide_event.
unfoldable recent_candidates :
    Patterns → Database → String → String → Option Instant → Instant → List EventCandidate
recent_candidates patterns db title body published_at observed_at =
    build_event_candidates patterns
      (article_event_profile patterns title body
        (elim published_at [ none ↦ none | some t ↦ some (aware t) ]) (some (aware observed_at)))
      (load_recent_event_references (or_else published_at observed_at) 14 500 db) 20

-- What complete_success calls, as the program makes it.
unfoldable lexical_analysis : Patterns → Language → Analysis
lexical_analysis patterns language = record {
  event_candidates = recent_candidates patterns;
  extract_claims = λ body.
      map (λ (c : ExtractedClaim). (c.text, claim_sha256 language c.text, c.sentence_index))
        (extract_claims language body 25);
}
