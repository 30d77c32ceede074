-- ===== src/Queries/Service.antt =====
-- ArticleQueryService of backend/src/newsintel/application/articles/query_service.py.
use newzyfy.Prelude.{
  ℕ, Bool, Option, none, some, List, [], map, keep, take, sort_by, ltb, ◌==◌, find_key,
  if◌then◌else◌,
}
use newzyfy.Outbox.{Uuid}
use newzyfy.Articles.Rows.{
  EventModel, ArticleModel, ArticleVersionModel, ArticleClaimModel, ClaimEvidenceLinkModel,
  ClaimVerificationModel, Database,
}
use newzyfy.Queries.{
  ArticleVersionView, ArticleSummaryView, ArticleDetailView, EventDetailView, ClaimEvidenceLinkView,
  ClaimVerificationView, ArticleClaimView, Readers, first, word_count, extraction_quality_score,
  raw_artifact_uri, latest_version,
}

-- ORDER BY first_observed_at DESC
abbrev observed_later : ArticleModel → ArticleModel → Bool
observed_later a b = ltb b.first_observed_at a.first_observed_at

abbrev pub get_article_row : Uuid → Database → Option ArticleModel
get_article_row article_id db = find_key (λ (a : ArticleModel). a.id) article_id db.articles

module _ (readers : Readers) where
  -- The six columns of a summary that the latest version fills.
  abbrev latest_column {ℓ} :
      {A : Type ℓ} → (ArticleVersionModel → A) → Option ArticleVersionModel → Option A
  latest_column f none = none
  latest_column f (some version) = some (f version)

  abbrev or_empty {ℓ} : {A : Type ℓ} → Option (List A) → List A
  or_empty none = []
  or_empty (some xs) = xs

  abbrev joined {ℓ} : {A : Type ℓ} → Option (Option A) → Option A
  joined none = none
  joined (some a) = a

  unfoldable pub summary_for_article : Database → ArticleModel → ArticleSummaryView
  summary_for_article db article =
      let latest = latest_version article.id db in
      record {
        id = article.id;
        event_id = article.event_id;
        publisher_id = article.publisher_id;
        canonical_url = article.canonical_url;
        title = article.title;
        language = article.language;
        published_at = article.published_at;
        first_observed_at = article.first_observed_at;
        latest_version_id = latest_column (λ v. v.id) latest;
        latest_version_number = latest_column (λ v. v.version_number) latest;
        latest_extraction_method = latest_column (λ v. v.extraction_method) latest;
        latest_extraction_warnings = or_empty (latest_column (λ v. v.extraction_warnings) latest);
        latest_extraction_quality_score = joined (latest_column extraction_quality_score latest);
        word_count = latest_column (word_count readers) latest;
      }

  -- _version_view
  unfoldable pub version_view : ArticleVersionModel → ArticleVersionView
  version_view version = record {
    id = version.id;
    version_number = version.version_number;
    source_url = version.source_url;
    final_url = version.final_url;
    title = version.title;
    byline = version.byline;
    language = version.language;
    published_at = version.published_at;
    retrieved_at = version.retrieved_at;
    content_sha256 = version.content_sha256;
    extraction_method = version.extraction_method;
    extraction_warnings = version.extraction_warnings;
    extraction_quality_score = extraction_quality_score version;
    raw_artifact_uri = raw_artifact_uri readers version;
    word_count = word_count readers version;
    text_content = version.text_content;
    created_at = version.created_at;
  }

  unfoldable pub list_articles : ℕ → Database → List ArticleSummaryView
  list_articles limit db =
      map (summary_for_article db) (take limit (sort_by observed_later db.articles))

  unfoldable pub get_article : Uuid → Database → Option ArticleDetailView
  get_article article_id db = elim (get_article_row article_id db) [
    | none ↦ none
    | some article ↦ some (record {
      id = article.id;
      event_id = article.event_id;
      publisher_id = article.publisher_id;
      canonical_url = article.canonical_url;
      title = article.title;
      language = article.language;
      published_at = article.published_at;
      first_observed_at = article.first_observed_at;
      created_at = article.created_at;
      updated_at = article.updated_at;
      latest_version = latest_column version_view (latest_version article.id db);
    })
  ]

  unfoldable get_event : Uuid → Database → Option EventDetailView
  get_event event_id db = elim (find_key (λ (e : EventModel). e.id) event_id db.events) [
    | none ↦ none
    | some event ↦ some (record {
      id = event.id;
      title = event.title;
      lifecycle_status = event.lifecycle_status;
      assignment_status = event.assignment_status;
      first_detected_at = event.first_detected_at;
      last_material_change_at = event.last_material_change_at;
      created_at = event.created_at;
      updated_at = event.updated_at;
      articles =
          map (summary_for_article db)
            (sort_by observed_later (keep (λ a. a.event_id == event.id) db.articles));
    })
  ]

abbrev link_view : ClaimEvidenceLinkModel → ClaimEvidenceLinkView
link_view link = record {
  id = link.id;
  source_url = link.source_url;
  source_type = link.source_type;
  relationship = link.relationship;
  retrieved_at = link.retrieved_at;
}

abbrev verification_view : Option ClaimVerificationModel → Option ClaimVerificationView
verification_view none = none
verification_view (some verification) = some (record {
  id = verification.id;
  label = verification.label;
  methodology_version = verification.methodology_version;
  created_at = verification.created_at;
})

abbrev links_of : Uuid → Database → List ClaimEvidenceLinkModel
links_of claim_id db =
    sort_by (λ a b. ltb a.retrieved_at b.retrieved_at)
      (keep (λ link. link.claim_id == claim_id) db.evidence)

abbrev latest_verification : Uuid → Database → Option ClaimVerificationModel
latest_verification claim_id db = first (
    sort_by (λ a b. ltb b.created_at a.created_at)
      (keep (λ v. v.claim_id == claim_id) db.verifications))

unfoldable claim_view : Database → ArticleClaimModel → ArticleClaimView
claim_view db claim = record {
  id = claim.id;
  article_id = claim.article_id;
  article_version_id = claim.article_version_id;
  claim_text = claim.claim_text;
  sentence_index = claim.sentence_index;
  created_at = claim.created_at;
  evidence_links = map link_view (links_of claim.id db);
  latest_verification = verification_view (latest_verification claim.id db);
}

-- ORDER BY created_at, sentence_index
abbrev claimed_before : ArticleClaimModel → ArticleClaimModel → Bool
claimed_before a b =
    if a.created_at == b.created_at
    then ltb a.sentence_index b.sentence_index
    else ltb a.created_at b.created_at

unfoldable get_article_claims : Uuid → Database → Option (List ArticleClaimView)
get_article_claims article_id db = elim (get_article_row article_id db) [
  | none ↦ none
  | some article ↦ some (
      map (claim_view db)
        (sort_by claimed_before (keep (λ claim. claim.article_id == article_id) db.claims)))
]
