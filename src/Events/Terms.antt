-- ===== src/Events/Terms.antt =====
-- The terms of a text that backend/src/newsintel/domain/events/matching.py compares. What the regular
-- expressions find in a text, and Unicode lower case, are parameters.
use newzyfy.Prelude.{
  ℕ, String, Bool, false, not, ◌&&◌, List, [], ◌∷◌, map, keep, leb, length, take, if◌then◌else◌,
}
use newzyfy.Text.{concat, is_seen, as_set, text_length}

-- The matches of a pattern are those of findall or finditer, in order; has_word says whether a term
-- stands in a text between word boundaries.
pub record Patterns : Type 0 where
  pub lower : String → String
  pub find_tokens : String → List String
  pub find_phrases : String → List String
  pub find_identifiers : String → List String
  pub has_word : String → String → Bool
  pub words : String → List String

abbrev location_terms : List String
location_terms =
    "afghanistan" ∷ "africa" ∷ "america" ∷ "australia" ∷ "bangalore" ∷ "beijing" ∷ "bengaluru"
    ∷ "bihar" ∷ "brazil" ∷ "britain" ∷ "canada" ∷ "china" ∷ "delhi" ∷ "europe" ∷ "france" ∷ "gaza"
    ∷ "germany" ∷ "gujarat" ∷ "india" ∷ "iran" ∷ "israel" ∷ "japan" ∷ "karnataka" ∷ "kerala"
    ∷ "kolkata" ∷ "london" ∷ "maharashtra" ∷ "mumbai" ∷ "new york" ∷ "pakistan" ∷ "paris" ∷ "punjab"
    ∷ "russia" ∷ "tel aviv" ∷ "tokyo" ∷ "uk" ∷ "ukraine" ∷ "united kingdom" ∷ "united states" ∷ "us"
    ∷ "usa" ∷ "washington" ∷ []

abbrev stopwords : List String
stopwords =
    "about" ∷ "after" ∷ "again" ∷ "against" ∷ "also" ∷ "amid" ∷ "among" ∷ "and" ∷ "are" ∷ "around"
    ∷ "as" ∷ "at" ∷ "be" ∷ "been" ∷ "before" ∷ "being" ∷ "between" ∷ "but" ∷ "by" ∷ "can" ∷ "could"
    ∷ "during" ∷ "for" ∷ "from" ∷ "had" ∷ "has" ∷ "have" ∷ "he" ∷ "her" ∷ "his" ∷ "how" ∷ "in"
    ∷ "into" ∷ "is" ∷ "it" ∷ "its" ∷ "may" ∷ "more" ∷ "new" ∷ "not" ∷ "of" ∷ "on" ∷ "or" ∷ "over"
    ∷ "said" ∷ "says" ∷ "she" ∷ "that" ∷ "the" ∷ "their" ∷ "they" ∷ "this" ∷ "to" ∷ "up" ∷ "was"
    ∷ "were" ∷ "what" ∷ "when" ∷ "which" ∷ "while" ∷ "who" ∷ "will" ∷ "with" ∷ []

abbrev ignored_entities : List String
ignored_entities = "The" ∷ "A" ∷ "An" ∷ "In" ∷ "On" ∷ "At" ∷ "By" ∷ "After" ∷ "Before" ∷ "This" ∷ []

-- " ".join(parts)
abbrev join_words : List String → String
join_words [] = ""
join_words (w ∷ []) = w
join_words (w ∷ v ∷ rest) = concat w (concat " " (join_words (v ∷ rest)))

-- " ".join(tokens[index : index + size]) for each index that leaves size tokens.
abbrev windows : ℕ → List String → List String
windows size [] = []
windows size (t ∷ tokens) =
    let rest = windows size tokens in
    if leb size (length (t ∷ tokens)) then join_words (take size (t ∷ tokens)) ∷ rest else rest

abbrev pub shingles : List String → ℕ → List String
shingles tokens size = as_set (windows size tokens)

module _ (patterns : Patterns) where
  unfoldable pub tokens : String → List String
  tokens s =
      keep (λ t. leb 3 (text_length t) && not (is_seen t stopwords))
        (patterns.find_tokens (patterns.lower s))

  abbrev is_ignored_word : List String → Bool
  is_ignored_word (w ∷ []) = is_seen w ignored_entities
  is_ignored_word _ = false

  abbrev is_entity : String → Bool
  is_entity entity =
      not (is_seen entity ignored_entities)
      && leb 3 (text_length entity)
      && not (is_ignored_word (patterns.words entity))

  unfoldable pub entities : String → List String
  entities s =
      map patterns.lower
        (keep is_entity (map (λ m. join_words (patterns.words m)) (patterns.find_phrases s)))

  unfoldable pub identifiers : String → List String
  identifiers s = map patterns.lower (
      keep (λ v. not (is_seen v ("The" ∷ "This" ∷ "After" ∷ "Before" ∷ [])))
        (patterns.find_identifiers s))

  unfoldable pub locations : String → List String
  locations s = keep (λ term. patterns.has_word term (patterns.lower s)) location_terms
