-- ===== src/Articles/Leasing.antt =====
-- What lease_due_candidates gives a worker, and what it leaves alone.
use mathlib.Core.Option
use newzyfy.Prelude.{
  ℕ, ◌+◌, ◌≤◌, ◌≡◌, refl, inl, inr, String, Bool, true, false, not, ◌&&◌, some, List, map, arith,
  elem, keep, length, if◌then◌else◌, Bool-cases, All, All-map, All-take, All-keep, All-sort_by,
  All-zip, IsKey, IsKey-update_where, find_key-IsKey, find_key-update_where, elem-map-key,
  elem-map-key_of_All, length-take_le, length-map, map-map, All-image, subst, ◌⊎◌,
}
use newzyfy.Time.{Instant, seconds}
use newzyfy.Outbox.{Uuid}
use newzyfy.Articles.Types.{LeasedUrlCandidate}
use newzyfy.Articles.Rows.{UrlCandidateModel, Database, candidate_key, get_candidate}
use newzyfy.Articles.Leases.{
  is_due, select_due, lease_row, leased_before, leased_candidate, lease_due_candidates,
}

module _ (locked : Uuid → Bool) (worker_id : String) (limit lease_seconds : ℕ) (now : Instant)
    (db : Database) (key : IsKey candidate_key db.candidates) where
  abbrev rows : List UrlCandidateModel
  rows = select_due locked limit now db

  abbrev lease : UrlCandidateModel → UrlCandidateModel
  lease = lease_row worker_id now (now + seconds lease_seconds)

  abbrev pub result : Database × List LeasedUrlCandidate
  result = lease_due_candidates locked worker_id limit lease_seconds now db

  -- The row is stored, due and free.
  abbrev IsSelected : UrlCandidateModel → Type 0
  IsSelected row =
      (get_candidate row.id db ≡ some row) × (is_due now row ≡ true) × (locked row.id ≡ false)

  rows-IsSelected : All IsSelected rows
  unfolding select_due
  rows-IsSelected = All-take IsSelected limit _ (
      All-sort_by IsSelected leased_before _ (
        All-map _ IsSelected (λ r p. (p.0, ground arith, ground arith))
          (keep (λ row. is_due now row && not (locked row.id)) db.candidates)
          (All-keep (λ r. get_candidate r.id db ≡ some r) _ db.candidates
            (find_key-IsKey candidate_key db.candidates key))))

  lease-key : (row : UrlCandidateModel) → candidate_key (lease row) ≡ candidate_key row
  unfolding lease_row
  lease-key row = refl

  -- The table after the lease, row by row.
  get_candidate-lease :
      (id : Uuid)
      → get_candidate id result.0 ≡ (
          if elem id (map candidate_key rows)
          then Option.map lease (get_candidate id db)
          else get_candidate id db)
  unfolding lease_due_candidates
  get_candidate-lease id =
      find_key-update_where candidate_key lease (λ k. elem k (map candidate_key rows)) id lease-key
        db.candidates

  -- A candidate that the caller gets: its row was stored, due and free, and is leased now.
  abbrev pub IsGranted : LeasedUrlCandidate → Type 0
  IsGranted c =
      (row : UrlCandidateModel) × (get_candidate c.id db ≡ some row)
      × (is_due now row ≡ true)
      × (locked c.id ≡ false)
      × (get_candidate c.id result.0 ≡ some (lease row))
      × (c ≡ leased_candidate (lease row))

  leased_candidate-IsGranted :
      (row : UrlCandidateModel)
      → elem row.id (map candidate_key rows) ≡ true
      → IsSelected row
      → IsGranted (leased_candidate (lease row))
  unfolding lease_row
  leased_candidate-IsGranted row listed (stored, due, free) =
      let e : get_candidate row.id result.0 ≡ some (lease row) =
        rw (get_candidate-lease row.id, listed, stored) refl in
      (row, stored, due, free, e, refl)

  -- Where identifiers are a key of the table, a worker gets at most `limit` candidates, and each of
  -- them was stored, due and not locked, and its row is now the leased version of that row.
  pub lease_due_candidates_grants : (length result.1 ≤ limit) × All IsGranted result.1
  unfolding lease_due_candidates
  lease_due_candidates_grants = (
    rw (length-map (λ row. leased_candidate (lease row)) rows) selected-length,
    All-image IsGranted (λ row. leased_candidate (lease row)) rows
        (All-zip (λ row. elem row.id (map candidate_key rows) ≡ true) IsSelected
          (λ row. IsGranted (leased_candidate (lease row))) leased_candidate-IsGranted rows
          (elem-map-key candidate_key rows) rows-IsSelected),
  )
    where
      selected-length : length rows ≤ limit
      selected-length = unfold select_due in length-take_le limit _

  -- The candidates that a worker gets, by identifier.
  abbrev pub granted_ids : List Uuid
  granted_ids = map (λ (c : LeasedUrlCandidate). c.id) result.1

  granted_ids_lem : granted_ids ≡ map candidate_key rows
  unfolding lease_due_candidates lease_row
  granted_ids_lem =
      map-map (λ row. leased_candidate (lease row)) (λ (c : LeasedUrlCandidate). c.id) rows

  -- Where identifiers are a key of the table: a row that is not due, or that another transaction holds, is not handed out and does not change.
  pub lease_due_candidates_spares :
      (id : Uuid) (row : UrlCandidateModel)
      → get_candidate id db ≡ some row
      → (is_due now row ≡ false) ⊎ (locked id ≡ true)
      → (elem id granted_ids ≡ false) × (get_candidate id result.0 ≡ some row)
  lease_due_candidates_spares id row stored not_free =
      elim (Bool-cases (elem id (map candidate_key rows))) [
        | inl e ↦
            absurd (clash (elem-map-key_of_All candidate_key IsSelected id rows rows-IsSelected e))
        | inr e ↦ (rw granted_ids_lem e, rw (get_candidate-lease id, e) stored)
      ]
    where
      clash : (x : UrlCandidateModel) × (candidate_key x ≡ id) × IsSelected x → ⊥
      clash (x, named, (found, due, free)) =
          let found' : get_candidate id db ≡ some x =
            subst (λ k. get_candidate k db ≡ some x) named found in
          let free' : locked id ≡ false = subst (λ k. locked k ≡ false) named free in
          let same : x ≡ row = ground arith in ground arith

  -- The lease keeps the identifiers of the table.
  lease_due_candidates-IsKey : IsKey candidate_key result.0.candidates
  unfolding lease_due_candidates
  lease_due_candidates-IsKey = IsKey-update_where candidate_key _ lease lease-key db.candidates key

-- A leased row whose lease runs on is not due.
is_due-lease_row :
    (worker_id : String) (now expires later : Instant) (row : UrlCandidateModel)
    → later ≤ expires
    → is_due later (lease_row worker_id now expires row) ≡ false
unfolding is_due lease_row
is_due-lease_row worker_id now expires later row h = ground arith

-- Where identifiers are a key of the table: two leases in a row, the second made by any worker before the first has expired, give out no
-- candidate twice.
pub lease_due_candidates_exclusive :
    (locked locked' : Uuid → Bool) (worker_id worker_id' : String)
    (limit limit' lease_seconds lease_seconds' : ℕ) (now later : Instant) (db : Database)
    → (key : IsKey candidate_key db.candidates) → later ≤ now + seconds lease_seconds
    → let (db', first) = lease_due_candidates locked worker_id limit lease_seconds now db in
      let second = (lease_due_candidates locked' worker_id' limit' lease_seconds' later db').1 in
      All
        (λ (c : LeasedUrlCandidate).
          elem c.id (map (λ (d : LeasedUrlCandidate). d.id) second) ≡ false)
        first
lease_due_candidates_exclusive locked locked' w w' limit limit' secs secs' now later db key h =
    All-map (IsGranted locked w limit secs now db key) _
      (λ c (row, _, _, _, leased_row, _).
        (lease_due_candidates_spares locked' w' limit' secs' later
          (lease_due_candidates locked w limit secs now db).0
          (lease_due_candidates-IsKey locked w limit secs now db key) c.id
          (lease_row w now (now + seconds secs) row) leased_row
          (inl (is_due-lease_row w now (now + seconds secs) later row h))).0)
      (lease_due_candidates locked w limit secs now db).1
      (lease_due_candidates_grants locked w limit secs now db key).1
