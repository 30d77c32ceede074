-- ===== src/Feeds.antt =====
-- The parser of feeds, backend/src/newsintel/adapters/collectors/feeds.py, over the tree that ElementTree
-- makes of a text. str.strip, str.lower, the parsers of XML and of datetimes and the text of an error are parameters.
pub mod Links
pub mod Alternate
pub mod Entries
use Prim.Native.Char.{code}
use newzyfy.Prelude.{
  ℕ, String, Bool, true, false, not, ◌&&◌, ◌||◌, Option, none, some, List, [], ◌∷◌, ◌++◌, map, keep,
  str_eq, is_none, or_option, if◌then◌else◌, ◌==◌,
}
use newzyfy.Text.{is_empty, is_seen, text_or, text_or_option}
use newzyfy.Time.{Instant, Datetime, normalize_datetime}
use newzyfy.Articles.Types.{Error}
use newzyfy.Articles.World.{Result, returned, raised}
use newzyfy.Acquisition.Frontier.{DiscoveryChannelType, rss, atom}
use newzyfy.Polling.Payload.{FeedItem}

mutual
  pub data Element : Type 0 where
    element : String → List (String × String) → Option String → Children → Element

  pub data Children : Type 0 where
    nil : Children
    cons : Element → Children → Children

abbrev pub tag : Element → String
tag (element name attributes content children) = name

abbrev pub attrib : Element → List (String × String)
attrib (element name attributes content children) = attributes

abbrev pub content : Element → Option String
content (element name attributes text children) = text

abbrev child_list : Children → List Element
child_list nil = []
child_list (cons child rest) = child ∷ child_list rest

-- `for child in element`
abbrev pub children : Element → List Element
children (element name attributes text below) = child_list below

-- element.iter(): the element, and all below it in the order of the document.
unfoldable mutual
  pub iter : Element → List Element
  iter (element name attributes text below) = element name attributes text below ∷ iter_all below

  pub iter_all : Children → List Element
  iter_all nil = []
  iter_all (cons child rest) = iter child ++ iter_all rest

abbrev pub attribute : String → List (String × String) → Option String
attribute key [] = none
attribute key ((k, value) ∷ rest) = if str_eq k key then some value else attribute key rest

pub record Xml : Type 0 where
  pub fromstring : String → Result Element
  pub strip : String → String
  pub lower : String → String
  pub replace : String → String → String → String
  pub fromisoformat : String → Option Datetime
  pub parsedate : String → Option Datetime
  pub unsupported : String → Error

-- child.attrib.get("rel", "alternate")
abbrev pub text_of : Option String → String
text_of none = "alternate"
text_of (some s) = s

-- tag.rsplit("}", 1)[-1]; 125 is the brace.
abbrev has_brace : String → Bool
has_brace String.[] = false
has_brace (String.◌∷◌ c s) = code c == 125 || has_brace s

abbrev after_brace : String → String
after_brace String.[] = ""
after_brace (String.◌∷◌ c s) =
    let rest = after_brace s in
    if has_brace s then rest else if code c == 125 then s else String.◌∷◌ c s

module _ (xml : Xml) where
  -- _local_name
  abbrev pub local_name : Element → String
  local_name e = xml.lower (after_brace (tag e))

  -- The stripped text of an element, where it is not empty.
  abbrev pub own_text : Element → Option String
  own_text e = elim (text_or_option (content e) none) [
    | none ↦ none
    | some text ↦ text_or_option (some (xml.strip text)) none
  ]

  -- The first text of the elements whose name passes.
  unfoldable pub first_text : (String → Bool) → List Element → Option String
  first_text passes [] = none
  first_text passes (e ∷ rest) =
      let later = first_text passes rest in
      if passes (local_name e) then or_option (own_text e) later else later

  -- _child_text
  abbrev child_text : Element → List String → Option String
  child_text e names = first_text (λ name. is_seen name names) (children e)

  -- The loop of _atom_link.
  unfoldable pub atom_link_from : Option String → List Element → Option String
  atom_link_from fallback [] = fallback
  atom_link_from fallback (child ∷ rest) =
      let href = text_or_option (attribute "href" (attrib child)) none in
      let next = atom_link_from (or_option fallback href) rest in
      let skipped = atom_link_from fallback rest in
      if not (str_eq (local_name child) "link") || is_none href
      then skipped
      else if str_eq (text_of (attribute "rel" (attrib child))) "alternate"
      then href
      else next

  unfoldable pub atom_link : Element → Option String
  unfolding atom_link_from
  atom_link entry = atom_link_from none (children entry)

  abbrev rss_item : Element → String → FeedItem
  rss_item item url = record {
    url = url;
    external_id = child_text item ("guid" ∷ "id" ∷ []);
    title = child_text item ("title" ∷ []);
    published_at_raw = child_text item ("pubdate" ∷ "published" ∷ "updated" ∷ "date" ∷ []);
  }

  abbrev atom_item : Element → String → FeedItem
  atom_item entry url = record {
    url = url;
    external_id = child_text entry ("id" ∷ []);
    title = child_text entry ("title" ∷ []);
    published_at_raw = child_text entry ("published" ∷ "updated" ∷ []);
  }

  -- An element without a link gives no item.
  unfoldable pub linked :
      (Element → Option String) → (Element → String → FeedItem) → List Element → List FeedItem
  linked link item [] = []
  linked link item (e ∷ rest) =
      let later = linked link item rest in
      elim (link e) [ none ↦ later | some url ↦ item e url ∷ later ]

  abbrev named : String → List Element → List Element
  named name = keep (λ e. str_eq (local_name e) name)

  abbrev rss_items : Element → List FeedItem
  rss_items root = linked (λ e. child_text e ("link" ∷ [])) rss_item (named "item" (iter root))

  abbrev atom_items : Element → List FeedItem
  atom_items root = linked atom_link atom_item (named "entry" (children root))

  -- What parse_feed makes of a root: the type of the items' channel, and the items.
  unfoldable pub read_feed : Element → Result (DiscoveryChannelType × List FeedItem)
  read_feed root =
      let name = local_name root in
      if is_seen name ("rss" ∷ "rdf" ∷ [])
      then returned (rss, rss_items root)
      else if str_eq name "feed" || str_eq (tag root) "{http://www.w3.org/2005/Atom}feed"
      then returned (atom, atom_items root)
      else raised (xml.unsupported name)

  unfoldable pub parse_feed : String → Result (DiscoveryChannelType × List FeedItem)
  unfolding read_feed
  parse_feed source = elim (xml.fromstring source) [
    | raised e ↦ raised e
    | returned root ↦ read_feed root
  ]

  -- An empty text counts as no date.
  unfoldable parse_feed_datetime : Option String → Option Instant
  parse_feed_datetime raw = elim (text_or_option raw none) [
    | none ↦ none
    | some s ↦ elim (xml.fromisoformat (xml.replace "Z" "+00:00" s)) [
      | some parsed ↦ normalize_datetime (some parsed)
      | none ↦ normalize_datetime (xml.parsedate s)
    ]
  ]
