-- ===== src/Articles/Persisted.antt =====
-- What complete_success leaves in the candidate's row.
use mathlib.Core.Option
use newzyfy.Prelude.{
  ℕ, ◌≡◌, refl, ap, ◌∙◌, find_key, String, Option, none, some, List, [], ◌∷◌, arith, inl, inr,
  Option-cases, find_row, subst,
}
use newzyfy.Time.{Instant}
use newzyfy.Outbox.{Uuid, Json}
use newzyfy.Articles.Types.{LeasedUrlCandidate, ArticleFetchRun, FetchResult, ExtractedArticle}
use newzyfy.Articles.Rows.{
  UrlCandidateModel, ArticleModel, ArticleVersionModel, Database, candidate_key, get_candidate,
}
use newzyfy.Articles.World.{Result, returned, raised, Returns}
use newzyfy.Articles.Persist.{
  Analysis, EventChoice, ArticleChoice, fallback_title, choose_event, store_article,
}
use newzyfy.Articles.Versions.{
  VersionChoice, is_version, is_claim, insert_claim, with_claim, created_version, persist_claims,
  store_version, processed_row,
}
use newzyfy.Articles.Success.{
  Context, send_article_events, send_version_events, finish_job, complete_article, and_complete,
  persist_article, complete_success,
}
use newzyfy.Articles.Keeps.{get_candidate-update_candidate}

candidates-choose_event :
    (analysis : Analysis) (c : LeasedUrlCandidate) (title : String) (article : ExtractedArticle)
    (page : FetchResult) (t : Instant) (db : Database)
    → (choose_event analysis c title article page t db).0.candidates ≡ db.candidates
unfolding choose_event
candidates-choose_event analysis c title article page t db = ground arith

candidates-store_article :
    (analysis : Analysis) (c : LeasedUrlCandidate) (fingerprint : String)
    (article : ExtractedArticle) (page : FetchResult) (t : Instant) (db : Database)
    → (store_article analysis c fingerprint article page t db).0.candidates ≡ db.candidates
unfolding store_article
candidates-store_article analysis c fingerprint article page t db = ground (
  arith,
  candidates-choose_event analysis c (fallback_title article.title page.final_url) article page t
      db,
)

module _ {X : Type 0} (f : Database → X) (version : ArticleVersionModel) (t : Instant)
    (kept : (claim : String × String × ℕ) (db : Database)
      → f (insert_claim version t claim db) ≡ f db) where
  Returns-with_claim :
      (x : X) (id : Uuid) (r : Result (Database × List Uuid))
      → Returns (λ out. f out.0 ≡ x) r
      → Returns (λ out. f out.0 ≡ x) (with_claim id r)
  Returns-with_claim x id (raised e) h = tt
  Returns-with_claim x id (returned out) h = h

  -- What no claim changes, the claims do not change.
  pub persist_claims-keeps :
      (claims : List (String × String × ℕ)) (db : Database)
      → Returns (λ out. f out.0 ≡ f db) (persist_claims version t claims db)
  unfolding persist_claims
  persist_claims-keeps [] db = refl
  persist_claims-keeps ((claim_text, digest, i) ∷ claims) db =
      elim (Option-cases (find_row (is_claim version.id digest) db.claims)) [
        | inr (c, e) ↦ rw (e, persist_claims) tt
        | inl e ↦
            rw (e, persist_claims)
              (Returns-with_claim (f db) db.next_id _ (
                subst
                  (λ x.
                    Returns (λ out. f out.0 ≡ x)
                      (persist_claims version t claims
                        (insert_claim version t (claim_text, digest, i) db)))
                  (kept (claim_text, digest, i) db)
                  (persist_claims-keeps claims
                    (insert_claim version t (claim_text, digest, i) db))))
      ]

Returns-created_version :
    (P : Database → Type 0) (id : Uuid) (r : Result (Database × List Uuid))
    → Returns (λ out. P out.0) r
    → Returns (λ out. P out.0) (created_version id r)
Returns-created_version P id (raised e) h = tt
Returns-created_version P id (returned (db, ids)) h = h

candidates-store_version :
    (analysis : Analysis) (run : ArticleFetchRun) (a : ArticleModel) (article : ExtractedArticle)
    (page : FetchResult) (raw : Option Json) (t : Instant) (db : Database)
    → Returns
        (λ out. out.0.candidates ≡ db.candidates)
        (store_version analysis run a article page raw t db)
unfolding store_version insert_claim
candidates-store_version analysis run a article page raw t db =
    elim (Option-cases (find_row (is_version a.id article.content_sha256) db.versions)) [
      | inl e ↦
          rw (e, store_version)
            (Returns-created_version (λ db'. db'.candidates ≡ db.candidates) db.next_id _
              (persist_claims-keeps (λ (x : Database). x.candidates) _ t (λ claim x. refl) _ _))
      | inr (v, e) ↦ rw (e, store_version) refl
    ]

candidates-send_article_events :
    (c : Context) (choice : Option EventChoice) (db : Database)
    → (send_article_events c choice db).candidates ≡ db.candidates
unfolding send_article_events
candidates-send_article_events c none db = refl
candidates-send_article_events c (some choice) db = ground arith

candidates-send_version_events :
    (c : Context) (version : VersionChoice) (article : ExtractedArticle) (db : Database)
    → (send_version_events c version article db).candidates ≡ db.candidates
unfolding send_version_events
candidates-send_version_events c version article db = ground arith

module _ (analysis : Analysis) (c : LeasedUrlCandidate) (run : ArticleFetchRun) (page : FetchResult)
    (article : ExtractedArticle) (raw : Option Json) (t clock : Instant) where
  complete_article-Processed :
      (stored : ArticleChoice) (version : VersionChoice) (db db2 : Database)
      → db2.candidates ≡ db.candidates
      → let (db', result) = complete_article c run page article t clock stored version db2 in
        get_candidate c.id db'
        ≡ Option.map (processed_row result.article_id t) (get_candidate c.id db)
  unfolding complete_article finish_job processed_row
  complete_article-Processed stored version db db2 same =
      rw (candidates-send_version_events, candidates-send_article_events)
        (get_candidate-update_candidate c.id (processed_row stored.article.id t) db2 (λ _. refl)
          ∙ ap
              (λ rows.
                Option.map (processed_row stored.article.id t) (find_key candidate_key c.id rows))
              same)

  Returns-and_complete :
      (stored : ArticleChoice) (db : Database) (r : Result (Database × VersionChoice))
      → Returns (λ out. out.0.candidates ≡ db.candidates) r
      → Returns
          (λ out.
            get_candidate c.id out.0
            ≡ Option.map (processed_row out.1.article_id t) (get_candidate c.id db))
          (and_complete (complete_article c run page article t clock stored) r)
  Returns-and_complete stored db (raised e) h = tt
  Returns-and_complete stored db (returned (db2, version)) h =
      complete_article-Processed stored version db db2 h

  -- Where the candidate's row is stored and complete_success returns a result, the row is then the
  -- processed version of what it was, with the article of the result.
  pub get_candidate-complete_success :
      (db : Database) (row : UrlCandidateModel)
      → get_candidate c.id db ≡ some row
      → Returns
          (λ out. get_candidate c.id out.0 ≡ some (processed_row out.1.article_id t row))
          (complete_success analysis c run page article raw t clock db)
  unfolding complete_success persist_article
  get_candidate-complete_success db row stored =
      let (db1, chosen) = store_article analysis c row.url_fingerprint article page t db in
      let kept =
        subst
          (λ rows.
            Returns (λ out. out.0.candidates ≡ rows)
              (store_version analysis run chosen.article article page raw t db1))
          (candidates-store_article analysis c row.url_fingerprint article page t db)
          (candidates-store_version analysis run chosen.article article page raw t db1) in
      let concluded = Returns-and_complete chosen db _ kept in
      rw (stored, complete_success) (rw stored at concluded)
