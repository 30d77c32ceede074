-- ===== src/Scenarios/Texts.antt =====
-- A text of two sentences and the claim in it, for backend/src/newsintel/domain/intelligence/claims.py, and
-- the references and candidates for an article, for
-- backend/src/newsintel/infrastructure/db/article_processing_repository.py.
use newzyfy.Prelude.{
  ◌≤◌, ◌≡◌, refl, String, false, some, [], ◌∷◌, length, map, All, IsSorted, arith,
}
use newzyfy.Time.{aware, hours}
use newzyfy.Text.{clip, contains, has_prefix}
use newzyfy.Claims.{
  Language, ExtractedClaim, extract_claims, extract_from, split_sentences, claim_features,
  claim_score,
}
use newzyfy.Claims.Extraction.{IsClaim, Precedes, extract_claims-IsClaim}
use newzyfy.Events.Assignment.{provisional}
use newzyfy.Articles.Rows.{EventModel, Database}
use newzyfy.Articles.Recent.{load_recent_event_references}
use newzyfy.Scenarios.Storage.{stored}

-- Words are taken to be eight in any text, which is cut in two.
abbrev language : Language
language = record {
  normalize_text = λ s. s;
  split_boundaries = λ s.
      "read more about the vote in our daily letter."
      ∷ "Parliament approved 12 acts on Monday after a debate." ∷ [];
  lower = λ s. s;
  words = λ s. "a" ∷ "b" ∷ "c" ∷ "d" ∷ "e" ∷ "f" ∷ "g" ∷ "h" ∷ [];
  has_word = λ w s. contains w s;
  find_capitalized = λ s. [];
  has_number = λ s. contains "12" s;
  has_date = λ s. contains "Monday" s;
  sha256 = λ s. s;
}

abbrev body : String
body = "Two sentences."

finds_claim :
    map (λ (c : ExtractedClaim). c.sentence_index) (extract_claims language body 25) ≡ 1 ∷ []
unfolding extract_from split_sentences claim_features contains has_prefix
finds_claim = refl

scores_claim : claim_score 3 8 false ≡ 800000
unfolding claim_score
scores_claim = refl

extract_claims-IsClaim_example :
    let claims = extract_claims language body 25 in
    All (IsClaim language 0 (split_sentences language body)) claims
    × IsSorted (Precedes language) claims
    × (length claims ≤ 25)
extract_claims-IsClaim_example = extract_claims-IsClaim language body 25 (omega arith)

abbrev event : EventModel
event = record {
  id = 6;
  title = "Story";
  lifecycle_status = "active";
  assignment_status = provisional;
  first_detected_at = hours 999;
  last_material_change_at = hours 999;
  created_from_candidate_id = 3;
  created_at = hours 999;
  updated_at = hours 999;
}

abbrev with_event : Database
with_event = record stored { events = event ∷ [] }

loads_reference :
    load_recent_event_references (hours 1000) 14 500 with_event
    ≡ record {
      event_id = 6;
      title = "Story";
      text = "Story\ntext";
      first_detected_at = aware (hours 999);
      latest_observed_at = some (aware (hours 999));
    }
      ∷ []
unfolding load_recent_event_references clip
loads_reference = refl

passes_over_old : load_recent_event_references (hours 1400) 14 500 with_event ≡ []
unfolding load_recent_event_references clip
passes_over_old = refl
