-- ===== src/Queries/Latest.antt =====
-- The version that get_article of backend/src/newsintel/application/articles/query_service.py answers with,
-- after store_version of backend/src/newsintel/infrastructure/db/article_processing_repository.py.
use newzyfy.Prelude.{
  suc, insert_by, All-map, ◌+◌, ◌≤◌, ◌≡◌, refl, sym, ap, ◌∙◌, inl, inr, Bool, true, Option, none,
  some, List, [], ◌∷◌, ◌++◌, keep, All, All-keep, sort_by, lt→ltb, ==_iff, ◌==◌, ==_refl,
  Bool-cases, find_row, find_key, arith,
}
use newzyfy.Time.{Instant}
use newzyfy.Outbox.{Uuid, Json}
use newzyfy.Articles.Types.{ArticleFetchRun, FetchResult, ExtractedArticle}
use newzyfy.Articles.Rows.{ArticleModel, ArticleVersionModel, Database}
use newzyfy.Articles.Persist.{Analysis, fallback_title}
use newzyfy.Articles.Versions.{
  VersionChoice, max_version, is_version, new_version, insert_claim, created_version,
  persist_claims, store_version, provenance,
}
use newzyfy.Articles.World.{Result, returned, raised, Returns}
use newzyfy.Articles.Persisted.{persist_claims-keeps}
use newzyfy.Articles.Contents.{max_version-le}
use newzyfy.Fetcher.Safety.{returned≢raised}
use newzyfy.Fetcher.Results.{returned-inj}
use newzyfy.Queries.{
  ArticleDetailView, ArticleVersionView, Readers, first, newer_version, latest_version,
}
use newzyfy.Queries.Service.{get_article_row, get_article, version_view}

module _ {A : Type 0} where
  -- A last row that precedes all others comes first.
  first_last :
      (before : A → A → Bool) (x : A) (xs : List A)
      → All (λ y. before x y ≡ true) xs
      → (rest : List A) × (sort_by before (xs ++ x ∷ []) ≡ x ∷ rest)
  first_last before x [] h = ([], refl)
  first_last before x (y ∷ ys) h =
      let (rest, same) = first_last before x ys h.1 in
      (insert_by before y rest, rw same (rw h.0 refl))

  keep-append_one :
      (p : A → Bool) (xs : List A) (x : A)
      → p x ≡ true
      → keep p (xs ++ x ∷ []) ≡ keep p xs ++ x ∷ []
  keep-append_one p [] x h = rw h refl
  keep-append_one p (y ∷ ys) x h = ground (arith, keep-append_one p ys x h)

found_passes :
    {A : Type 0} (p : A → Bool) (xs : List A) (x : A) → find_row p xs ≡ some x → p x ≡ true
found_passes p [] x h = cc
found_passes p (y ∷ ys) x h = elim (Bool-cases (p y)) [
  | inl e ↦ ground arith
  | inr e ↦ found_passes p ys x (ground arith)
]

-- A version whose number is above all others of its article is the latest.
latest_version-append :
    (v : ArticleVersionModel) (db db' : Database)
    → v.version_number ≡ max_version v.article_id db.versions + 1
    → db'.versions ≡ db.versions ++ v ∷ []
    → latest_version v.article_id db' ≡ some v
unfolding latest_version
latest_version-append v db db' number added =
    let of_article = λ (u : ArticleVersionModel). u.article_id == v.article_id in
    let below =
      All-keep
        (λ (u : ArticleVersionModel).
          u.article_id ≡ v.article_id → u.version_number ≤ max_version v.article_id db.versions)
        of_article db.versions (max_version-le v.article_id db.versions) in
    let (rest, same) = first_last newer_version v (keep of_article db.versions) (
      All-map _ (λ u. newer_version v u ≡ true)
        (λ u h. lt→ltb _ _ (omega (arith, number, h.0 ((==_iff _ _).0 h.1))))
        (keep of_article db.versions) below) in
    rw added (rw (keep-append_one of_article db.versions v (==_refl v.article_id)) (ap first same))

get_article-latest :
    (readers : Readers) (id : Uuid) (row : ArticleModel) (v : ArticleVersionModel) (db : Database)
    → get_article_row id db ≡ some row
    → latest_version row.id db ≡ some v
    → (detail : ArticleDetailView) × (get_article readers id db ≡ some detail)
      × (detail.id ≡ row.id)
      × (detail.latest_version ≡ some (version_view readers v))
unfolding get_article
get_article-latest readers id row v db stored latest =
    rw (stored, get_article) (_, refl, refl, rw latest refl)

after_version :
    {X : Type 0} (f : Database → X) (x : X) (id : Uuid) (r : Result (Database × List Uuid))
    (db' : Database) (choice : VersionChoice)
    → Returns (λ out. f out.0 ≡ x) r
    → created_version id r ≡ returned (db', choice)
    → (f db' ≡ x) × (choice.version_id ≡ id)
after_version f x id (raised e) db' choice h done = absurd (returned≢raised _ _ (sym done))
after_version f x id (returned (db, ids)) db' choice h done =
    let same = returned-inj _ _ done in
    (
      sym (ap (λ (p : Database × VersionChoice). f p.0) same) ∙ h,
      sym (ap (λ (p : Database × VersionChoice). p.1.version_id) same),
    )

-- Where an article is stored and has no version with this content yet, and storing the version does not
-- raise, get_article then answers with it: with the identifier that the job reports, the text and the
-- digest that were extracted, and the number after the highest of its versions before.
pub get_article-store_version :
    (readers : Readers) (analysis : Analysis) (run : ArticleFetchRun) (a row : ArticleModel)
    (article : ExtractedArticle) (page : FetchResult) (raw : Option Json) (t : Instant)
    (db db' : Database) (choice : VersionChoice)
    → get_article_row a.id db ≡ some row
    → find_row (is_version a.id article.content_sha256) db.versions ≡ none
    → store_version analysis run a article page raw t db ≡ returned (db', choice)
    → (detail : ArticleDetailView) × (view : ArticleVersionView) × (get_article readers a.id db'
        ≡ some detail)
      × (detail.id ≡ a.id)
      × (detail.latest_version ≡ some view)
      × (view.id ≡ choice.version_id)
      × (view.content_sha256 ≡ article.content_sha256)
      × (view.text_content ≡ article.text_content)
      × (view.version_number ≡ max_version a.id db.versions + 1)
unfolding new_version version_view max_version store_version get_article insert_claim
get_article-store_version readers analysis run a row article page raw t db db' choice stored new
      done =
    let id = db.next_id in
    let v =
      new_version id a (max_version a.id db.versions + 1)
        (fallback_title article.title page.final_url) article page t (provenance run page raw) in
    let found : row.id ≡ a.id = (==_iff _ _).0 (found_passes _ db.articles row stored) in
    let claims = analysis.extract_claims v.text_content in
    let before : Database = record db { versions = db.versions ++ v ∷ []; next_id = suc id } in
    let stored_claims = persist_claims v t claims before in
    let made : created_version id stored_claims ≡ returned (db', choice) =
      rw (new, store_version) at done in
    let articles =
      after_version (λ (x : Database). x.articles) before.articles id stored_claims db' choice
        (persist_claims-keeps (λ (x : Database). x.articles) v t (λ claim x. refl) claims before)
        made in
    let versions =
      after_version (λ (x : Database). x.versions) before.versions id stored_claims db' choice
        (persist_claims-keeps (λ (x : Database). x.versions) v t (λ claim x. refl) claims before)
        made in
    let kept : get_article_row a.id db' ≡ some row =
      ap (λ (rows : List ArticleModel). find_key (λ (r : ArticleModel). r.id) a.id rows) articles.0
      ∙ stored in
    let latest : latest_version row.id db' ≡ some v =
      rw found (latest_version-append v db db' refl versions.0) in
    let (detail, answer, same, view) = get_article-latest readers a.id row v db' kept latest in
    (detail, version_view readers v, answer, same ∙ found, view, sym articles.1, refl, refl, refl)
