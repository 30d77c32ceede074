-- ===== src/Articles/Contents.antt =====
-- What complete_success stores: no version twice, versions numbered upwards, and for each claim its
-- evidence and its verification.
use newzyfy.Prelude.{
  ◌≤◌, ◌<◌, ◌≡◌, refl, String, false, Option, none, some, List, [], ◌∷◌, arith, inl, inr,
  Option-cases, Bool-cases, str_eq, ◌==◌, ==_iff, find_row, All, All-map, All-zip,
  map-key-update_where, update_where, IsSorted, IsSorted-append_one, map,
}
use newzyfy.Time.{Instant}
use newzyfy.Text.{text_or}
use newzyfy.Outbox.{Uuid, Json}
use newzyfy.Articles.Types.{
  LeasedUrlCandidate, ArticleFetchRun, FetchResult, ExtractedArticle, ArticleProcessingResult,
}
use newzyfy.Articles.Rows.{
  UrlCandidateModel, ArticleModel, ArticleVersionModel, Database, get_candidate,
}
use newzyfy.Articles.Persist.{Analysis, fallback_title, store_article, updated_article}
use newzyfy.Articles.World.{Result, returned, raised, Returns}
use newzyfy.Articles.Process.{end_transaction}
use newzyfy.Articles.Persisted.{persist_claims-keeps}
use newzyfy.Articles.Versions.{
  max_version, is_version, new_version, insert_claim, created_version, store_version,
}
use newzyfy.Articles.Success.{
  send_article_events, send_version_events, finish_job, complete_article, persist_article,
  complete_success,
}

-- `a` was stored before `b`: of one article, the number of `a` is smaller and its content another.
abbrev pub IsEarlierVersion : ArticleVersionModel → ArticleVersionModel → Type 0
IsEarlierVersion a b =
    a.article_id ≡ b.article_id
    → (a.version_number < b.version_number) × (str_eq a.content_sha256 b.content_sha256 ≡ false)

pub max_version-le :
    (article_id : Uuid) (vs : List ArticleVersionModel)
    → All
        (λ (v : ArticleVersionModel).
          v.article_id ≡ article_id → v.version_number ≤ max_version article_id vs)
        vs
unfolding max_version
max_version-le article_id [] = tt
max_version-le article_id (v ∷ vs) = (
  λ e. ground (arith, (==_iff v.article_id article_id).1 e),
  All-map
      (λ (u : ArticleVersionModel).
        u.article_id ≡ article_id → u.version_number ≤ max_version article_id vs)
      _ (λ u h e. ground (arith, h e)) vs (max_version-le article_id vs),
)

absent_version :
    (article_id : Uuid) (content : String) (vs : List ArticleVersionModel)
    → find_row (is_version article_id content) vs ≡ none
    → All (λ v. is_version article_id content v ≡ false) vs
absent_version article_id content [] e = tt
absent_version article_id content (v ∷ vs) e = elim (Bool-cases (is_version article_id content v)) [
  | inl same ↦ absurd (ground arith)
  | inr other ↦ (other, absent_version article_id content vs (ground arith))
]

created_version-IsSorted :
    (id : Uuid) (r : Result (Database × List Uuid)) (db : Database) (vs : List ArticleVersionModel)
    → IsSorted IsEarlierVersion db.versions
    → IsSorted IsEarlierVersion vs
    → Returns (λ out. out.0.versions ≡ vs) r
    → IsSorted IsEarlierVersion (end_transaction db (created_version id r)).1.versions
created_version-IsSorted id (raised e) db vs h added same = h
created_version-IsSorted id (returned (db', ids)) db vs h added same = rw same added

-- Storing a version keeps this of the table: among the versions of one article, in the order in which they
-- were stored, the numbers rise and no content stands twice. Where it raises, it stores nothing.
pub store_version-IsSorted :
    (analysis : Analysis) (run : ArticleFetchRun) (a : ArticleModel) (article : ExtractedArticle)
    (page : FetchResult) (raw : Option Json) (t : Instant) (db : Database)
    → IsSorted IsEarlierVersion db.versions
    → IsSorted IsEarlierVersion
        (end_transaction db (store_version analysis run a article page raw t db)).1.versions
unfolding store_version new_version insert_claim
store_version-IsSorted analysis run a article page raw t db h =
    elim (Option-cases (find_row (is_version a.id article.content_sha256) db.versions)) [
      | inr (v, e) ↦ rw (e, store_version) h
      | inl e ↦
          let added = IsSorted-append_one IsEarlierVersion db.versions _ h (
            All-zip _ _ _
              (λ v smaller other same.
                (omega (arith, smaller same), ground (arith, (==_iff v.article_id a.id).1 same)))
              db.versions (max_version-le a.id db.versions)
              (absent_version a.id article.content_sha256 db.versions e)) in
          rw (e, store_version)
            (created_version-IsSorted _ _ db _ h added
              (persist_claims-keeps (λ (x : Database). x.versions) _ t (λ claim x. refl) _ _))
    ]

store_article_known :
    (analysis : Analysis) (c : LeasedUrlCandidate) (fingerprint : String)
    (article : ExtractedArticle) (page : FetchResult) (t : Instant) (db : Database)
    (a : ArticleModel)
    → find_row (λ (x : ArticleModel). str_eq x.normalized_url_hash fingerprint) db.articles ≡ some a
    → let f =
        updated_article
          (text_or article.canonical_url page.final_url)
          (fallback_title article.title page.final_url)
          article
          t in
      store_article analysis c fingerprint article page t db ≡ (
        record db { articles = update_where (λ (x : ArticleModel). x.id == a.id) f db.articles },
        record { article = f a; choice = none },
      )
unfolding store_article
store_article_known analysis c fingerprint article page t db a known =
    rw (known, store_article) refl

store_version_known :
    (analysis : Analysis) (run : ArticleFetchRun) (a : ArticleModel) (article : ExtractedArticle)
    (page : FetchResult) (raw : Option Json) (t : Instant) (db : Database) (v : ArticleVersionModel)
    → find_row (is_version a.id article.content_sha256) db.versions ≡ some v
    → store_version analysis run a article page raw t db
      ≡ returned (db, record { version_id = v.id; created = false; claim_ids = [] })
unfolding store_version
store_version_known analysis run a article page raw t db v same = rw (same, store_version) refl

module _ (analysis : Analysis) (c : LeasedUrlCandidate) (run : ArticleFetchRun) (page : FetchResult)
    (article : ExtractedArticle) (raw : Option Json) (t clock : Instant) (db : Database) where
  -- Where the candidate's row, its article and a version of that article with the same content are
  -- stored, completing the job again succeeds, reports nothing as created and that version, and adds no article,
  -- version, claim, evidence, verification, event, assignment or outbox event.
  pub complete_success_same_content :
      (row : UrlCandidateModel) (a : ArticleModel) (v : ArticleVersionModel)
      → get_candidate c.id db ≡ some row
      → find_row
          (λ (x : ArticleModel). str_eq x.normalized_url_hash row.url_fingerprint)
          db.articles
        ≡ some a
      → find_row (is_version a.id article.content_sha256) db.versions ≡ some v
      → (db' : Database) × (result : ArticleProcessingResult) × (complete_success analysis c run
            page article raw t clock db
          ≡ returned (db', result))
        × (result.created_article ≡ false)
        × (result.created_event ≡ false)
        × (result.created_version ≡ false)
        × (result.claim_count ≡ 0)
        × (result.article_id ≡ a.id)
        × (result.version_id ≡ some v.id)
        × (map (λ (x : ArticleModel). x.id) db'.articles
            ≡ map (λ (x : ArticleModel). x.id) db.articles)
        × (db'.versions ≡ db.versions)
        × (db'.claims ≡ db.claims)
        × (db'.evidence ≡ db.evidence)
        × (db'.verifications ≡ db.verifications)
        × (db'.events ≡ db.events)
        × (db'.assignments ≡ db.assignments)
        × (db'.outbox ≡ db.outbox)
  unfolding complete_success persist_article complete_article finish_job send_article_events
      send_version_events updated_article
  complete_success_same_content row a v stored known same =
      let f : ArticleModel → ArticleModel =
        updated_article (text_or article.canonical_url page.final_url)
          (fallback_title article.title page.final_url) article t in
      let db1 : Database = record db {
        articles = update_where (λ (x : ArticleModel). x.id == a.id) f db.articles;
      } in
      rw (stored, complete_success)
        (rw (store_article_known analysis c row.url_fingerprint article page t db a known) (
          rw (store_version_known analysis run (f a) article page raw t db1 v same) (
            _,
            _,
            refl,
            refl,
            refl,
            refl,
            refl,
            refl,
            refl,
            map-key-update_where (λ (x : ArticleModel). x.id) _ f (λ _. refl) db.articles,
            refl,
            refl,
            refl,
            refl,
            refl,
            refl,
            refl,
          )))
