-- ===== src/Html/Tags.antt =====
-- What _ArticleHTMLParser of backend/src/newsintel/adapters/extractors/article_html.py reads from tags, titles
-- and scripts. An address that urljoin refuses is not modelled.
use newzyfy.Prelude.{
  String, Bool, true, false, ◌&&◌, Option, none, some, List, [], ◌∷◌, ◌++◌, str_eq, if◌then◌else◌,
}
use newzyfy.Text.{contains, is_empty, text_or, text_or_option}
use newzyfy.Html.{Web, join}
use newzyfy.Html.Attributes.{set_entry, get_entry, append_entry}

pub record Head : Type 0 where
  pub title_parts : List String
  pub meta : List (String × List String)
  pub links : List (String × String)
  pub json_ld_scripts : List String
  pub html_language : Option String
  pub in_title : Bool
  pub capture_json_ld : Bool
  pub script_parts : List String

-- `a or b or …` on optional texts.
abbrev present : Option String → Option String
present s = text_or_option s none

module _ (web : Web) (base_url : String) where
  abbrev Attributes : Type 0
  Attributes = List (String × String)

  abbrev read_language : String → Attributes → Head → Head
  read_language tag_name attrs s =
      let language =
        text_or_option (get_entry "lang" attrs) (present (get_entry "xml:lang" attrs)) in
      if str_eq tag_name "html"
      then elim language [ none ↦ s | some l ↦ record s { html_language = some l } ]
      else s

  abbrev open_title : String → Head → Head
  open_title tag_name s = if str_eq tag_name "title" then record s { in_title = true } else s

  abbrev meta_key : Attributes → Option String
  meta_key attrs = text_or_option (get_entry "property" attrs) (
      text_or_option (get_entry "name" attrs)
        (text_or_option (get_entry "itemprop" attrs) (present (get_entry "http-equiv" attrs))))

  abbrev add_meta : Option String → Option String → Head → Head
  add_meta (some key) (some content) s = record s {
    meta = append_entry (web.lower key) content s.meta;
  }
  add_meta _ _ s = s

  abbrev read_meta : String → Attributes → Head → Head
  read_meta tag_name attrs s =
      if str_eq tag_name "meta"
      then add_meta (meta_key attrs) (present (get_entry "content" attrs)) s
      else s

  abbrev add_links : List String → String → List (String × String) → List (String × String)
  add_links [] href links = links
  add_links (relation ∷ relations) href links =
      add_links relations href (set_entry relation (web.urljoin base_url href) links)

  abbrev read_link : String → Attributes → Head → Head
  read_link tag_name attrs s =
      if str_eq tag_name "link"
      then elim (present (get_entry "href" attrs)) [
        | none ↦ s
        | some href ↦ record s {
          links =
              add_links (web.words (web.lower (text_or (get_entry "rel" attrs) ""))) href s.links;
        }
      ]
      else s

  abbrev open_script : String → Attributes → Head → Head
  open_script tag_name attrs s =
      if str_eq tag_name "script"
        && contains "ld+json" (web.lower (text_or (get_entry "type" attrs) ""))
      then record s { capture_json_ld = true; script_parts = [] }
      else s

  -- What handle_starttag reads from a tag before it looks at what to skip.
  unfoldable pub read_tag : String → Attributes → Head → Head
  read_tag tag_name attrs s = open_script tag_name attrs (
      read_link tag_name attrs
        (read_meta tag_name attrs (open_title tag_name (read_language tag_name attrs s))))

  abbrev pub close_title : String → Head → Head
  close_title tag_name s = if str_eq tag_name "title" then record s { in_title = false } else s

  abbrev add_script : String → List String → List String
  add_script script scripts = if is_empty script then scripts else scripts ++ script ∷ []

  abbrev pub close_script : String → Head → Head
  close_script tag_name s =
      if str_eq tag_name "script" && s.capture_json_ld
      then record s {
        json_ld_scripts = add_script (web.strip (join "" s.script_parts)) s.json_ld_scripts;
        capture_json_ld = false;
        script_parts = [];
      }
      else s
