-- ===== src/Html/Structured.antt =====
-- JSON-LD: _iter_json_ld_objects, _walk_json_ld, _select_article_json_ld, _string_value and _author_value
-- of backend/src/newsintel/adapters/extractors/article_html.py.
use newzyfy.Prelude.{
  ℕ, ◌+◌, String, Bool, false, not, ◌||◌, Option, none, some, List, [], ◌∷◌, ◌++◌, keep, str_eq,
  ltb, if◌then◌else◌,
}
use newzyfy.Text.{is_empty, is_seen, text_length, text_or}
use newzyfy.Html.{
  JsonValue, boolean, number, text, array, object, Items, nil, cons, Fields, end, field, Web, join,
  normalize_text,
}
use newzyfy.Html.Values.{nonempty}

-- d.get(key)
abbrev pub get_field : String → Fields → Option JsonValue
get_field key end = none
get_field key (field k v rest) =
    let later = get_field key rest in if str_eq k key then some v else later

-- _walk_json_ld: an object comes before the objects of its graph.
unfoldable mutual
  pub walk_json_ld : JsonValue → List Fields
  walk_json_ld (array items) = walk_items items
  walk_json_ld (object entries) = entries ∷ walk_graph entries
  walk_json_ld _ = []

  pub walk_items : Items → List Fields
  walk_items nil = []
  walk_items (cons item items) = walk_json_ld item ++ walk_items items

  pub walk_graph : Fields → List Fields
  walk_graph end = []
  walk_graph (field key value rest) =
      let later = walk_graph rest in if str_eq key "@graph" then walk_list value else later

  pub walk_list : JsonValue → List Fields
  walk_list (array items) = walk_items items
  walk_list _ = []

abbrev article_types : List String
article_types =
    "article" ∷ "newsarticle" ∷ "reportagenewsarticle" ∷ "analysisnewsarticle" ∷ "blogposting" ∷ []

-- max(candidates, key=score): the first of those with the highest score; one stands first.
unfoldable pub first_max {ℓ} : {A : Type ℓ} → (A → ℕ) → A → List A → A
first_max score best [] = best
first_max score best (a ∷ rest) =
    first_max score (if ltb (score best) (score a) then a else best) rest

abbrev pub max_of {ℓ} : {A : Type ℓ} → (A → ℕ) → List A → Option A
max_of score [] = none
max_of score (a ∷ rest) = some (first_max score a rest)

module _ (web : Web) where
  abbrev objects_of : Option JsonValue → List Fields
  objects_of none = []
  objects_of (some value) = walk_json_ld value

  unfoldable pub iter_json_ld_objects : List String → List Fields
  iter_json_ld_objects [] = []
  iter_json_ld_objects (script ∷ scripts) =
      objects_of (web.json_loads script) ++ iter_json_ld_objects scripts

  abbrev pub string_value : Option JsonValue → Option String
  string_value (some (text s)) = some (normalize_text web s)
  string_value (some (number shown)) = some shown
  string_value (some (boolean b)) = some (web.str_json (boolean b))
  string_value _ = none

  unfoldable mutual
    pub author_value : JsonValue → Option String
    author_value (text s) = some (normalize_text web s)
    author_value (object entries) = string_value (get_field "name" entries)
    author_value (array items) = nonempty (join ", " (author_values items))
    author_value _ = none

    pub author_values : Items → List String
    author_values nil = []
    author_values (cons item items) =
        keep (λ author. not (is_empty author)) (text_or (author_value item) "" ∷ [])
        ++ author_values items

  -- str(type_name) of a text is the text.
  abbrev type_name : JsonValue → String
  type_name (text s) = s
  type_name value = web.str_json value

  abbrev any_article_type : Items → Bool
  any_article_type nil = false
  any_article_type (cons item items) =
      is_seen (web.lower (type_name item)) article_types || any_article_type items

  abbrev is_article_type : Option JsonValue → Bool
  is_article_type (some (text s)) = is_seen (web.lower s) article_types
  is_article_type (some (array items)) = any_article_type items
  is_article_type _ = false

  unfoldable pub is_article : Fields → Bool
  is_article entries = is_article_type (get_field "@type" entries)

  unfoldable pub json_ld_score : Fields → ℕ
  json_ld_score entries =
      text_length (text_or (string_value (get_field "articleBody" entries)) "")
      + text_length (text_or (string_value (get_field "headline" entries)) "")

  unfoldable pub select_article_json_ld : List Fields → Option Fields
  unfolding is_article json_ld_score
  select_article_json_ld objects = max_of json_ld_score (keep is_article objects)
