-- ===== src/Html/Attributes.antt =====
-- The attributes of a tag, and those that make the parser skip it: _should_skip_by_attributes of
-- backend/src/newsintel/adapters/extractors/article_html.py.
use newzyfy.Prelude.{
  ℕ, String, Bool, true, false, not, ◌&&◌, ◌||◌, Option, none, some, List, [], ◌∷◌, ◌++◌, str_eq,
  leb, ◌==◌, if◌then◌else◌,
}
use newzyfy.Text.{codes, codes_eq, is_seen}
use newzyfy.Html.{Web, ExtractionPolicy, join, any_contained, policy_texts}

abbrev base_skip_attribute_tokens : List String
base_skip_attribute_tokens =
    "ad" ∷ "ads" ∷ "advert" ∷ "advertisement" ∷ "banner" ∷ "comments" ∷ "consent" ∷ "cookie"
    ∷ "footer" ∷ "gallery" ∷ "header" ∷ "login" ∷ "modal" ∷ "newsletter" ∷ "paywall" ∷ "promo"
    ∷ "promoted" ∷ "recommend" ∷ "related" ∷ "share" ∷ "signin" ∷ "social" ∷ "sponsor" ∷ "sponsored"
    ∷ "subscription" ∷ "video" ∷ []

unfoldable pub skip_attribute_tokens : Option ExtractionPolicy → List String
skip_attribute_tokens policy =
    base_skip_attribute_tokens
    ++ policy_texts (λ (p : ExtractionPolicy). p.skip_attribute_tokens) policy

unfoldable pub skip_attribute_phrases : Option ExtractionPolicy → List String
skip_attribute_phrases policy =
    "more from"
    ∷ "paid post"
    ∷ "read more"
    ∷ "related content"
    ∷ "share this"
    ∷ "sign in"
    ∷ "subscribe"
    ∷ policy_texts (λ (p : ExtractionPolicy). p.skip_attribute_phrases) policy

-- d[key] = value: the place of a key stays, its value changes.
abbrev pub set_entry {ℓ} : {A : Type ℓ} → String → A → List (String × A) → List (String × A)
set_entry key value [] = (key, value) ∷ []
set_entry key value ((k, v) ∷ rest) =
    if str_eq k key then (k, value) ∷ rest else (k, v) ∷ set_entry key value rest

-- d.get(key)
abbrev pub get_entry {ℓ} : {A : Type ℓ} → String → List (String × A) → Option A
get_entry key [] = none
get_entry key ((k, v) ∷ rest) = if str_eq k key then some v else get_entry key rest

-- meta.setdefault(key, []).append(content)
abbrev pub append_entry :
    String → String → List (String × List String) → List (String × List String)
append_entry key content [] = (key, content ∷ []) ∷ []
append_entry key content ((k, contents) ∷ rest) =
    if str_eq k key
    then (k, contents ++ content ∷ []) ∷ rest
    else (k, contents) ∷ append_entry key content rest

-- [a-z0-9]
abbrev is_token_code : ℕ → Bool
is_token_code c = leb 97 c && leb c 122 || leb 48 c && leb c 57

-- One code before the runs of the rest: it begins a run, or joins the one that stands first.
abbrev add_code : ℕ → Bool → List (List ℕ) → List (List ℕ)
add_code c joins [] = (c ∷ []) ∷ []
add_code c true (run ∷ runs) = (c ∷ run) ∷ runs
add_code c false (run ∷ runs) = (c ∷ []) ∷ run ∷ runs

abbrev next_in_run : List ℕ → Bool
next_in_run [] = false
next_in_run (c ∷ s) = is_token_code c

-- re.findall("[a-z0-9]+", s)
unfoldable pub find_tokens : List ℕ → List (List ℕ)
find_tokens [] = []
find_tokens (c ∷ s) =
    let runs = find_tokens s in if is_token_code c then add_code c (next_in_run s) runs else runs

-- s.replace("-", " ")
abbrev blank_dashes : List ℕ → List ℕ
blank_dashes [] = []
blank_dashes (c ∷ s) = (if c == 45 then 32 else c) ∷ blank_dashes s

abbrev is_token_of : List String → List ℕ → Bool
is_token_of [] token = false
is_token_of (s ∷ rest) token = codes_eq (codes s) token || is_token_of rest token

abbrev any_token_of : List String → List (List ℕ) → Bool
any_token_of texts [] = false
any_token_of texts (token ∷ tokens) = is_token_of texts token || any_token_of texts tokens

abbrev relevant_keys : List String
relevant_keys =
    "aria-label" ∷ "class" ∷ "data-component" ∷ "data-testid" ∷ "data-type" ∷ "id" ∷ "role" ∷ []

abbrev relevant_values : List (String × String) → List String
relevant_values [] = []
relevant_values ((key, value) ∷ attrs) =
    let rest = relevant_values attrs in if is_seen key relevant_keys then value ∷ rest else rest

module _ (web : Web) where
  abbrev skips_text : Option ExtractionPolicy → String → Bool
  skips_text policy joined =
      any_token_of (skip_attribute_tokens policy) (find_tokens (blank_dashes (codes joined)))
      || any_contained (skip_attribute_phrases policy) joined

  abbrev skips_values : Option ExtractionPolicy → List String → Bool
  skips_values policy [] = false
  skips_values policy (value ∷ values) = skips_text policy (web.lower (join " " (value ∷ values)))

  unfoldable pub should_skip_by_attributes :
      Option ExtractionPolicy → String → List (String × String) → Bool
  should_skip_by_attributes policy tag_name attrs =
      not (is_seen tag_name ("article" ∷ "main" ∷ "body" ∷ "html" ∷ []))
      && skips_values policy (relevant_values attrs)

  abbrev attribute_value : Option String → String
  attribute_value none = ""
  attribute_value (some value) = web.strip value

  -- The attributes seen so far, and those that follow.
  abbrev attr_map_from :
      List (String × String) → List (String × Option String) → List (String × String)
  attr_map_from done [] = done
  attr_map_from done ((key, value) ∷ attrs) =
      attr_map_from (set_entry (web.lower key) (attribute_value value) done) attrs

  abbrev pub attr_map : List (String × Option String) → List (String × String)
  attr_map = attr_map_from []
