-- ===== src/Claims.antt =====
-- The claims of a text: backend/src/newsintel/domain/intelligence/claims.py. What the regular expressions
-- find, Unicode lower case and sha256 are parameters. A score is a whole number of millionths, exactly. A
-- frozenset is a list in which no text stands twice; sorted() on the entities is left out.
pub mod Extraction
use newzyfy.Prelude.{
  ℕ, zero, suc, ◌+◌, ◌-◌, ◌*◌, min, String, Bool, true, false, not, ◌&&◌, ◌||◌, Option, none, some,
  List, [], ◌∷◌, ◌++◌, map, keep, length, leb, ◌==◌, if◌then◌else◌,
}
use newzyfy.Text.{codes, is_empty, is_seen, as_set, has_prefix}

-- normalize_text collapses white space; split_boundaries cuts a text at the ends of its sentences.
pub record Language : Type 0 where
  pub normalize_text : String → String
  pub split_boundaries : String → List String
  pub lower : String → String
  pub words : String → List String
  pub has_word : String → String → Bool
  pub find_capitalized : String → List String
  pub has_number : String → Bool
  pub has_date : String → Bool
  pub sha256 : String → String

pub record ClaimFeatures : Type 0 where
  pub word_count : ℕ
  pub has_number : Bool
  pub has_date : Bool
  pub entities : List String
  pub entity_count : ℕ
  pub reporting_or_action_terms : List String
  pub speculation_terms : List String
  pub signal_count : ℕ
  pub score : ℕ
  pub is_claim_candidate : Bool

pub record ExtractedClaim : Type 0 where
  pub text : String
  pub sentence_index : ℕ
  pub features : ClaimFeatures

-- In the order of sorted().
abbrev reporting_or_action_verbs : List String
reporting_or_action_verbs =
    "accused" ∷ "announced" ∷ "approved" ∷ "blocked" ∷ "charged" ∷ "claimed" ∷ "confirmed"
    ∷ "declared" ∷ "denied" ∷ "disclosed" ∷ "filed" ∷ "found" ∷ "launched" ∷ "ordered" ∷ "published"
    ∷ "released" ∷ "reported" ∷ "said" ∷ "signed" ∷ "sued" ∷ "warned" ∷ []

abbrev speculation_markers : List String
speculation_markers =
    "could" ∷ "may" ∷ "might" ∷ "possibly" ∷ "rumor" ∷ "rumour" ∷ "speculation" ∷ "unconfirmed" ∷ []

abbrev low_value_prefixes : List String
low_value_prefixes =
    "advertisement" ∷ "also read" ∷ "click here" ∷ "follow us" ∷ "read more" ∷ "subscribe" ∷ []

abbrev starts_low_value : List String → String → Bool
starts_low_value [] s = false
starts_low_value (prefix ∷ prefixes) s = has_prefix prefix s || starts_low_value prefixes s

abbrev last_is : ℕ → List ℕ → Bool
last_is k [] = false
last_is k (c ∷ []) = c == k
last_is k (c ∷ d ∷ s) = last_is k (d ∷ s)

abbrev any_text : List String → Bool
any_text [] = false
any_text (s ∷ rest) = true

abbrev signal : Bool → ℕ
signal flag = if flag then 1 else 0

-- min(1.0, signal_count / 4 + min(word_count, 40) / 160), and 0.2 less, but not below 0, on speculation.
unfoldable pub claim_score : ℕ → ℕ → Bool → ℕ
claim_score signal_count word_count speculates =
    let full = min 1000000 (signal_count * 250000 + min word_count 40 * 6250) in
    if speculates then full - 200000 else full

module _ (language : Language) where
  abbrev is_entity : String → Bool
  is_entity entity =
      not (is_empty entity)
      && not (is_seen (language.lower entity) ("the" ∷ "this" ∷ "after" ∷ "before" ∷ []))

  unfoldable pub claim_features : String → ClaimFeatures
  claim_features sentence =
      let normalized = language.normalize_text sentence in
      let lowered = language.lower normalized in
      let terms = keep (λ t. language.has_word t lowered) reporting_or_action_verbs in
      let speculation = keep (λ t. language.has_word t lowered) speculation_markers in
      let entities =
        keep is_entity
          (as_set (map language.normalize_text (language.find_capitalized normalized))) in
      let word_count = length (language.words normalized) in
      let signal_count =
        signal (any_text terms)
        + signal (any_text entities)
        + signal (language.has_number normalized)
        + signal (language.has_date normalized) in
      record {
        word_count = word_count;
        has_number = language.has_number normalized;
        has_date = language.has_date normalized;
        entities = entities;
        entity_count = length entities;
        reporting_or_action_terms = terms;
        speculation_terms = speculation;
        signal_count = signal_count;
        score = claim_score signal_count word_count (any_text speculation);
        is_claim_candidate =
            leb 8 word_count
            && leb word_count 80
            && not (starts_low_value low_value_prefixes lowered)
            && not (last_is 63 (codes normalized))
            && leb 2 signal_count;
      }

  unfoldable pub claim_sha256 : String → String
  claim_sha256 s = language.sha256 (language.lower (language.normalize_text s))

  unfoldable pub split_sentences : String → List String
  split_sentences s =
      let normalized = language.normalize_text s in
      if is_empty normalized
      then []
      else keep (λ t. not (is_empty t))
          (map language.normalize_text (language.split_boundaries normalized))

  -- The loop of extract_claims: the index of the next sentence and the number of claims so far.
  unfoldable pub extract_from : ℕ → ℕ → ℕ → List String → List ExtractedClaim
  extract_from max_claims index count [] = []
  extract_from max_claims index count (sentence ∷ sentences) =
      let features = claim_features sentence in
      let claim : ExtractedClaim = record {
        text = sentence;
        sentence_index = index;
        features = features;
      } in
      elim features.is_claim_candidate [
        | true ↦ elim (leb max_claims (suc count)) [
          | true ↦ claim ∷ []
          | false ↦ claim ∷ extract_from max_claims (suc index) (suc count) sentences
        ]
        | false ↦ elim (leb max_claims count) [
          | true ↦ []
          | false ↦ extract_from max_claims (suc index) count sentences
        ]
      ]

  abbrev pub extract_claims : String → ℕ → List ExtractedClaim
  extract_claims s max_claims = extract_from max_claims 0 0 (split_sentences s)
