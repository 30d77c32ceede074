-- ===== src/Feeds/Links.antt =====
-- discover_websub_links of backend/src/newsintel/adapters/collectors/feeds.py, and parse_sitemap of
-- backend/src/newsintel/adapters/collectors/sitemaps.py.
use newzyfy.Prelude.{
  String, Bool, Option, none, some, List, [], ◌∷◌, str_eq, not, ◌||◌, is_none, if◌then◌else◌,
}
use newzyfy.Text.{is_seen, text_or, text_or_option}
use newzyfy.Articles.World.{Result, returned, raised}
use newzyfy.Polling.Payload.{SitemapEntry, SitemapDocument}
use newzyfy.Feeds.{Element, attrib, attribute, children, iter, Xml, local_name, first_text}

-- tuple(dict.fromkeys(texts)): each text once, where it stands first.
unfoldable pub unique : List String → List String → List String
unique seen [] = []
unique seen (s ∷ rest) =
    let later = unique seen rest in
    let new = s ∷ unique (s ∷ seen) rest in if is_seen s seen then later else new

module _ (xml : Xml) where
  abbrev link_rel : Element → String
  link_rel e = xml.lower (text_or (attribute "rel" (attrib e)) "")

  abbrev link_href : Element → Option String
  link_href e = text_or_option (attribute "href" (attrib e)) none

  abbrev is_link : Element → Bool
  is_link e = str_eq (local_name xml e) "link"

  unfoldable pub hubs : List Element → List String
  hubs [] = []
  hubs (e ∷ rest) =
      let later = hubs rest in
      elim (link_href e) [
        | none ↦ later
        | some href ↦
            if not (is_link e)
            then later
            else if str_eq (link_rel e) "hub"
            then href ∷ later
            else later
      ]

  -- The last link to the feed itself.
  unfoldable pub self_url : Option String → List Element → Option String
  self_url found [] = found
  self_url found (e ∷ rest) =
      let same = self_url found rest in
      let next = self_url (link_href e) rest in
      if not (is_link e) || is_none (link_href e)
      then same
      else if str_eq (link_rel e) "self"
      then next
      else same

  unfoldable pub discover_websub_links : String → Result (List String × Option String)
  discover_websub_links source = elim (xml.fromstring source) [
    | raised e ↦ raised e
    | returned root ↦ returned (unique [] (hubs (iter root)), self_url none (iter root))
  ]

  -- _first_descendant_text: the element itself is among those that iter() gives.
  abbrev pub descendant_text : Element → String → Option String
  descendant_text e name = first_text xml (λ n. str_eq n name) (iter e)

  abbrev sitemap_entry : Element → String → SitemapEntry
  sitemap_entry e location = record {
    location = location;
    last_modified_raw = descendant_text e "lastmod";
    publication_date_raw = descendant_text e "publication_date";
    news_title = descendant_text e "title";
  }

  -- An element without a location gives no entry.
  unfoldable pub sitemap_entries : String → List Element → List SitemapEntry
  sitemap_entries child_name [] = []
  sitemap_entries child_name (e ∷ rest) =
      let later = sitemap_entries child_name rest in
      if str_eq (local_name xml e) child_name
      then elim (descendant_text e "loc") [
        | none ↦ later
        | some location ↦ sitemap_entry e location ∷ later
      ]
      else later

  unfoldable pub read_sitemap : Element → Result SitemapDocument
  read_sitemap root =
      let name = local_name xml root in
      let is_urlset = str_eq name "urlset" in
      if not (is_seen name ("urlset" ∷ "sitemapindex" ∷ []))
      then raised (xml.unsupported name)
      else returned (record {
        is_index = not is_urlset;
        entries = sitemap_entries (if is_urlset then "url" else "sitemap") (children root);
      })

  unfoldable pub parse_sitemap : String → Result SitemapDocument
  unfolding read_sitemap
  parse_sitemap source = elim (xml.fromstring source) [
    | raised e ↦ raised e
    | returned root ↦ read_sitemap root
  ]
