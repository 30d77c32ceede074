-- ===== src/Links.antt =====
-- The comparison of the links of a page at two times:
-- backend/src/newsintel/domain/acquisition/change_detection.py. The events of HTMLParser, urljoin,
-- canonicalize_url, sorted() on texts and sha256 are parameters; `none` is a ValueError. A frozenset
-- is a list in which no text stands twice.
pub mod Changes
use newzyfy.Prelude.{
  String, Bool, true, false, not, ◌&&◌, ◌||◌, ◌≡◌, ◌↔◌, ◌⊎◌, inl, inr, refl, sym, ap, ◌∙◌, Option,
  none, some, List, [], ◌∷◌, ◌++◌, keep, str_eq, eq_iff, if◌then◌else◌, Bool-cases, or_option, elem,
  and_true,
}
use newzyfy.Text.{is_empty, is_seen, as_set, intersection, difference, text_or}

pub record PageServices : Type 0 where
  pub start_tags : String → List (String × List (String × Option String))
  pub lower : String → String
  pub urljoin : String → String → String
  pub canonicalize_url : String → Option String
  pub sorted_lines : List String → String
  pub sha256 : String → String

pub record LinkSetSnapshot : Type 0 where
  pub base_url : String
  pub content_hash : String
  pub link_set_hash : String
  pub links : List String

pub record LinkSetDiff : Type 0 where
  pub inserted : List String
  pub removed : List String
  pub unchanged : List String

abbrev pub is_empty_set : List String → Bool
is_empty_set [] = true
is_empty_set (s ∷ rest) = false

unfoldable pub materially_changed : LinkSetDiff → Bool
materially_changed d = not (is_empty_set d.inserted) || not (is_empty_set d.removed)

module _ (page : PageServices) where
  -- The value of the first attribute of that name, which may be missing.
  abbrev first_href : List (String × Option String) → Option String
  first_href [] = none
  first_href ((key, value) ∷ attrs) =
      let rest = first_href attrs in if str_eq (page.lower key) "href" then value else rest

  abbrev canonical_link : String → String → List String
  canonical_link base_url href = elim (page.canonicalize_url (page.urljoin base_url href)) [
    | none ↦ []
    | some normalized ↦ normalized ∷ []
  ]

  -- _LinkParser.handle_starttag: the links that one tag adds.
  unfoldable pub tag_links : String → String → List (String × Option String) → List String
  tag_links base_url name attrs =
      let href = text_or (first_href attrs) "" in
      if not (str_eq (page.lower name) "a") || is_empty href
      then []
      else canonical_link base_url href

  abbrev page_links : String → List (String × List (String × Option String)) → List String
  page_links base_url [] = []
  page_links base_url ((name, attrs) ∷ tags) =
      tag_links base_url name attrs ++ page_links base_url tags

  unfoldable pub create_link_set_snapshot : String → String → LinkSetSnapshot
  create_link_set_snapshot base_url html =
      let links = as_set (page_links base_url (page.start_tags html)) in
      record {
        base_url = base_url;
        content_hash = page.sha256 html;
        link_set_hash = page.sha256 (page.sorted_lines links);
        links = links;
      }

-- `none` is the ValueError.
unfoldable pub compare_link_sets : LinkSetSnapshot → LinkSetSnapshot → Option LinkSetDiff
compare_link_sets previous current =
    if not (str_eq previous.base_url current.base_url)
    then none
    else some (record {
      inserted = difference current.links previous.links;
      removed = difference previous.links current.links;
      unchanged = intersection previous.links current.links;
    })
