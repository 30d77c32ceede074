-- ===== src/Articles/World.antt =====
-- Actions on the database that return or raise, and the outside world of
-- backend/src/newsintel/application/articles/processing.py: the clock at each call, what the fetcher,
-- the snapshot store and the extractor return, and at which transactions the database fails.
use newzyfy.Prelude.{ℕ, String, Option, List}
use newzyfy.Time.{Instant}
use newzyfy.Backoff.{Draw}
use newzyfy.Outbox.{Uuid, Json}
use newzyfy.Filter.{UrlTests}
use newzyfy.Articles.Types.{Error, FetchResult, ExtractedArticle}
use newzyfy.Articles.Rows.{Database}
use newzyfy.Articles.Persist.{Analysis}

pub data Result (A : Type 0) : Type 0 where
  returned : A → Result A
  raised : Error → Result A

-- What holds of the result, where there is one.
abbrev pub Returns {ℓ} : {A : Type 0} → (A → Type ℓ) → Result A → Type ℓ
Returns P (returned a) = P a
Returns P (raised e) = Unit

abbrev pub Action : Type 0 → Type 0
Action A = Database → Result A × Database

module _ {A : Type 0} where
  unfoldable pub pure : A → Action A
  pure a db = (returned a, db)

  unfoldable pub throw : Error → Action A
  throw e db = (raised e, db)

  unfoldable pub lift : Result A → Action A
  lift r db = (r, db)

module _ {A B : Type 0} where
  abbrev pub continue_with : Result A → (A → Action B) → Action B
  continue_with (returned a) f = f a
  continue_with (raised e) f = throw e

  infixl 5 ◌>>=◌
  unfoldable pub ◌>>=◌ : Action A → (A → Action B) → Action B
  m >>= f = λ db. let (r, db') = m db in continue_with r f db'

infixl 5 ◌>>◌
unfoldable pub ◌>>◌ : {B : Type 0} → Action (Unit {0}) → Action B → Action B
unfolding ◌>>=◌
m >> n = m >>= λ _. n

-- The transactions of one job, by the call that makes them, and the other calls that read the clock.
pub data Call : Type 0 where
  start reject fetching fetched extracting extracted validated persisting success failure : Call

pub record World : Type 0 where
  pub clock : Call → Instant
  pub trace_id : Uuid
  pub database_error : Call → Option Error
  pub uniform : ℕ → Draw
  pub url_tests : UrlTests
  pub fetch : String → Result FetchResult
  pub save_raw_html : Option (Uuid → FetchResult → Result Json)
  pub extract : String → String → Result ExtractedArticle
  pub analysis : Analysis
  pub describe_status : String → ℕ → String
  pub describe_rejection : ExtractedArticle → List String → String

-- The constructor arguments of ArticleProcessor; the jitter ratio is in thousandths.
pub record Settings : Type 0 where
  pub max_attempts : ℕ
  pub retry_base_seconds : ℕ
  pub retry_max_seconds : ℕ
  pub retry_jitter_permille : ℕ
  pub recent_article_window_hours : ℕ
