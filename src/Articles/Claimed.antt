-- ===== src/Articles/Claimed.antt =====
-- What _persist_claims_for_version of
-- backend/src/newsintel/infrastructure/db/article_processing_repository.py stores for the claims of a
-- version, and when the constraint of article_claims refuses them.
use newzyfy.Prelude.{
  ℕ, ◌≤◌, ◌<◌, ◌≡◌, ◌⊎◌, String, Bool, true, false, not, ◌&&◌, List, [], ◌∷◌, ◌++◌, ◌==◌, keep, All,
  IsSorted, map,
}
use newzyfy.Time.{Instant}
use newzyfy.Text.{is_seen}
use newzyfy.Outbox.{Uuid}
use newzyfy.Articles.Types.{integrity_error}
use newzyfy.Articles.Rows.{
  ArticleVersionModel, ArticleClaimModel, ClaimEvidenceLinkModel, ClaimVerificationModel, Database,
}
use newzyfy.Articles.World.{Result, returned, raised}

abbrev Claim : Type 0
Claim = String × String × ℕ

abbrev digest_of : Claim → String
digest_of (claim_text, digest, i) = digest

-- None of the digests was seen, and none stands twice.
abbrev pub are_new : List String → List Claim → Bool
are_new seen [] = true
are_new seen (claim ∷ claims) =
    not (is_seen (digest_of claim) seen) && are_new (seen ++ digest_of claim ∷ []) claims

-- The digests of the claims that a version has.
abbrev pub digests_of : Uuid → List ArticleClaimModel → List String
digests_of version_id claims =
    map (λ (c : ArticleClaimModel). c.claim_sha256)
      (keep (λ (c : ArticleClaimModel). c.article_version_id == version_id) claims)

abbrev pub claim_of : ArticleClaimModel → Claim
claim_of c = (c.claim_text, c.claim_sha256, c.sentence_index)

-- The article and the version of a claim.
abbrev pub place_of : ArticleClaimModel → Uuid × Uuid
place_of c = (c.article_id, c.article_version_id)

module _ (version : ArticleVersionModel) (t : Instant) where
  abbrev place : Uuid × Uuid
  place = (version.article_id, version.id)

  -- The rows of the tables after the claims are stored, behind those that were there: for each claim its
  -- text, digest and sentence, under this version and its article, with an identifier of its own; and
  -- one link to its origin and one verification under that identifier.
  abbrev pub AreStored : List Claim → Database → Database → List Uuid → Type 0
  AreStored claims db db' ids =
      (map claim_of db'.claims ≡ map claim_of db.claims ++ claims)
      × (map place_of db'.claims ≡ map place_of db.claims ++ map (λ (c : Claim). place) claims)
      × (map (λ (c : ArticleClaimModel). c.id) db'.claims
          ≡ map (λ (c : ArticleClaimModel). c.id) db.claims ++ ids)
      × (map (λ (l : ClaimEvidenceLinkModel). l.claim_id) db'.evidence
          ≡ map (λ (l : ClaimEvidenceLinkModel). l.claim_id) db.evidence ++ ids)
      × (map (λ (v : ClaimVerificationModel). v.claim_id) db'.verifications
          ≡ map (λ (v : ClaimVerificationModel). v.claim_id) db.verifications ++ ids)
      × All (λ (id : Uuid). db.next_id ≤ id) ids
      × IsSorted (λ (a b : Uuid). a < b) ids

  -- How storing the claims ends: with the rows, where their digests are new, and else refused.
  abbrev pub Ends : List Claim → Database → Result (Database × List Uuid) → Type 0
  Ends claims db r =
      ((are_new (digests_of version.id db.claims) claims ≡ false) × (r ≡ raised integrity_error))
      ⊎ ((are_new (digests_of version.id db.claims) claims ≡ true)
          × ((db' : Database) × (ids : List Uuid) × (r ≡ returned (db', ids))
              × AreStored claims db db' ids))
