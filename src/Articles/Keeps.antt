-- ===== src/Articles/Keeps.antt =====
-- A job's steps before its end keep the candidate's row in the table.
use newzyfy.Prelude.{
  ◌≡◌, refl, ◌⊎◌, String, Option, some, inl, inr, Option-cases, ◌==◌, ==_refl,
  find_key-update_where,
}
use mathlib.Core.Option
use newzyfy.Time.{Instant}
use newzyfy.Outbox.{Uuid}
use newzyfy.Articles.Types.{ArticleProcessingStage, Error, LeasedUrlCandidate}
use newzyfy.Articles.Rows.{
  UrlCandidateModel, Database, candidate_key, get_candidate, update_candidate,
}
use newzyfy.Articles.Stages.{stage_row, update_processing_stage}
use newzyfy.Articles.World.{
  Result, returned, raised, Action, pure, throw, lift, continue_with, ◌>>=◌, ◌>>◌, Call, World,
}
use newzyfy.Articles.Process.{transaction, update_stage, fetch_and_extract}

-- The row of a candidate after a write to it.
pub get_candidate-update_candidate :
    (id : Uuid) (f : UrlCandidateModel → UrlCandidateModel) (db : Database)
    → ((row : UrlCandidateModel) → candidate_key (f row) ≡ candidate_key row)
    → get_candidate id (update_candidate id f db) ≡ Option.map f (get_candidate id db)
get_candidate-update_candidate id f db h =
    rw (find_key-update_where candidate_key f (λ k. k == id) id h db.candidates, ==_refl id) refl

abbrev pub IsStored : Uuid → Database → Type 0
IsStored id db = (row : UrlCandidateModel) × (get_candidate id db ≡ some row)

-- Whether the action returns or raises, a stored candidate stays stored.
pub record Keeps (id : Uuid) {A : Type 0} (m : Action A) : Type 0 where
  pub run : (db : Database) → IsStored id db → IsStored id (m db).1

module _ {id : Uuid} {A : Type 0} where
  Keeps-pure : (a : A) → Keeps id (pure a)
  unfolding pure
  Keeps-pure a = record { run = λ db s. s }

  Keeps-lift : (r : Result A) → Keeps id (lift r)
  unfolding lift
  Keeps-lift r = record { run = λ db s. s }

module _ {id : Uuid} {A B : Type 0} where
  keeps_continue :
      (r : Result A) {f : A → Action B} (db : Database)
      → ((a : A) → Keeps id (f a))
      → IsStored id db
      → IsStored id (continue_with r f db).1
  unfolding throw
  keeps_continue (returned a) db k s = (k a).run db s
  keeps_continue (raised e) db k s = s

  Keeps-bind :
      {m : Action A} {f : A → Action B}
      → Keeps id m
      → ((a : A) → Keeps id (f a))
      → Keeps id (m >>= f)
  unfolding ◌>>=◌
  Keeps-bind {m} h k = record { run = λ db s. keeps_continue (m db).0 (m db).1 k (h.run db s) }

module _ {id : Uuid} {B : Type 0} where
  Keeps-then : {m : Action (Unit {0})} {n : Action B} → Keeps id m → Keeps id n → Keeps id (m >> n)
  unfolding ◌>>◌
  Keeps-then h k = Keeps-bind h (λ _. k)

-- A transaction runs, or the database fails and nothing is written.
pub transaction_cases :
    (world : World) {A : Type 0} (call : Call) (body : Action A) (db : Database)
    → (transaction world call body db ≡ body db)
      ⊎ ((e : Error) × (world.database_error call ≡ some e)
          × (transaction world call body db ≡ (raised e, db)))
unfolding transaction throw
transaction_cases world call body db = elim (Option-cases (world.database_error call)) [
  | inl e ↦ inl (rw (e, transaction) refl)
  | inr (error, e) ↦ inr (error, e, rw (e, transaction) refl)
]

module _ (world : World) where
  Keeps-transaction :
      {id : Uuid} {A : Type 0} (call : Call) (body : Action A)
      → Keeps id body
      → Keeps id (transaction world call body)
  Keeps-transaction call body k = record {
    run = λ db s. elim (transaction_cases world call body db) [
      | inl e ↦ rw e (k.run db s)
      | inr (error, _, e) ↦ rw e s
    ];
  }

module _ (world : World) (candidate : LeasedUrlCandidate) where
  pub Keeps-stage :
      (call : Call) (stage : ArticleProcessingStage) (t : Instant) (worker_id : String)
      (content_type : Option String)
      → Keeps candidate.id (update_stage world call stage t candidate worker_id content_type)
  unfolding update_stage update_processing_stage stage_row
  Keeps-stage call stage t worker_id content_type = Keeps-transaction world call _ (record {
    run = λ db (row, stored).
        rw (stored, update_processing_stage)
          (
            stage_row stage t worker_id content_type row,
            rw
                (
                  get_candidate-update_candidate candidate.id
                      (stage_row stage t worker_id content_type) db (λ _. refl),
                  stored,
                )
                refl,
          );
  })

  -- Fetching and extracting keeps the candidate's row in the table, however it ends.
  pub fetch_and_extract-Keeps :
      (worker_id : String) → Keeps candidate.id (fetch_and_extract world candidate worker_id)
  unfolding fetch_and_extract
  fetch_and_extract-Keeps worker_id =
      search (Keeps-pure, Keeps-lift, Keeps-bind, Keeps-then, Keeps-stage) depth 30
