-- ===== src/Html/Values.antt =====
-- The helpers for single values of backend/src/newsintel/adapters/extractors/article_html.py: decoding,
-- lines, the first text or datetime that is there, and the language.
use Prim.Native.Char.{code}
use newzyfy.Prelude.{
  String, Option, none, some, List, [], ◌∷◌, map, keep, not, ◌==◌, if◌then◌else◌, or_option,
}
use newzyfy.Text.{clip, is_empty}
use newzyfy.Time.{Instant, normalize_datetime}
use newzyfy.Html.{Web, join, normalize_text, normalize_option}
use newzyfy.Html.Attributes.{get_entry}

-- A text counts as absent where it is empty.
abbrev pub nonempty : String → Option String
nonempty s = if is_empty s then none else some s

-- s.split(",", maxsplit=1)[0]; 44 is the comma.
abbrev before_comma : String → String
before_comma String.[] = ""
before_comma (String.◌∷◌ c s) =
    let rest = before_comma s in if code c == 44 then "" else String.◌∷◌ c rest

module _ (web : Web) where
  -- Each encoding in turn, and at last UTF-8 with replacement.
  unfoldable pub decode_html : String → String
  decode_html html = elim (web.decode "utf-8" html) [
    | some s ↦ s
    | none ↦ elim (web.decode "windows-1252" html) [
      | some s ↦ s
      | none ↦ elim (web.decode "iso-8859-1" html) [ some s ↦ s | none ↦ web.decode_replacing html ]
    ]
  ]

  unfoldable pub normalize_multiline : String → String
  normalize_multiline value =
      join "\n\n"
        (keep (λ line. not (is_empty line)) (map (normalize_text web) (web.splitlines value)))

  unfoldable pub first_present : List (Option String) → Option String
  first_present [] = none
  first_present (value ∷ values) =
      or_option (nonempty (normalize_option web value)) (first_present values)

  abbrev first_value : List String → Option String
  first_value [] = none
  first_value (value ∷ values) =
      or_option (nonempty (normalize_text web value)) (first_value values)

  abbrev values_of : Option (List String) → List String
  values_of none = []
  values_of (some values) = values

  unfoldable pub first_meta : List (String × List String) → List String → Option String
  first_meta meta [] = none
  first_meta meta (key ∷ keys) =
      or_option (first_value (values_of (get_entry (web.lower key) meta))) (first_meta meta keys)

  abbrev parse_normalized : String → Option Instant
  parse_normalized normalized = elim (web.fromisoformat (web.replace "Z" "+00:00" normalized)) [
    | some parsed ↦ normalize_datetime (some parsed)
    | none ↦ normalize_datetime (web.parsedate normalized)
  ]

  unfoldable parse_datetime : Option String → Option Instant
  unfolding normalize_datetime
  parse_datetime value =
      let normalized = normalize_option web value in
      if is_empty normalized then none else parse_normalized normalized

  unfoldable pub first_datetime : List (Option String) → Option Instant
  unfolding parse_datetime
  first_datetime [] = none
  first_datetime (value ∷ values) = or_option (parse_datetime value) (first_datetime values)

  unfoldable pub normalize_language : Option String → Option String
  normalize_language value =
      let normalized = normalize_option web value in
      if is_empty normalized
      then none
      else some (clip 35 (before_comma (web.replace "_" "-" normalized)))
