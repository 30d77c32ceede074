-- ===== src/Feeds/Entries.antt =====
-- What the items of a feed and the entries of a sitemap come from, for
-- backend/src/newsintel/adapters/collectors/feeds.py and
-- backend/src/newsintel/adapters/collectors/sitemaps.py.
use newzyfy.Prelude.{
  ◌≡◌, ◌⊎◌, inl, inr, refl, String, Bool, false, ◌||◌, Option, none, some, List, [], ◌∷◌, All,
  str_eq, or_option, ◌&&◌, subst, Bool-cases, Option-cases,
}
use newzyfy.Text.{is_empty, is_seen, text_or_option}
use newzyfy.Articles.World.{Result, returned, raised}
use newzyfy.Polling.Payload.{FeedItem, SitemapEntry, SitemapDocument}
use newzyfy.Acquisition.Frontier.{DiscoveryChannelType, rss, atom}
use newzyfy.Feeds.{
  Element, tag, attrib, attribute, content, children, iter, Xml, local_name, own_text, first_text,
  atom_link, linked, read_feed, parse_feed,
}
use newzyfy.Feeds.Links.{descendant_text, sitemap_entries, read_sitemap, parse_sitemap}
use newzyfy.Feeds.Alternate.{target, first_target, is_alternate, any_link, atom_link_lem}

abbrev IsStanding : Option String → Type 0
IsStanding none = Unit
IsStanding (some s) = is_empty s ≡ false

present-IsStanding : (s : Option String) → IsStanding (text_or_option s none)
present-IsStanding none = tt
present-IsStanding (some String.[]) = tt
present-IsStanding (some (String.◌∷◌ c s)) = refl

or_option-IsStanding :
    (a b : Option String) → IsStanding a → IsStanding b → IsStanding (or_option a b)
or_option-IsStanding none b h k = k
or_option-IsStanding (some s) b h k = h

module _ (xml : Xml) where
  own_text-IsStanding : (e : Element) → IsStanding (own_text xml e)
  own_text-IsStanding e =
      elim (text_or_option (content e) none)
        as (λ o.
          IsStanding (elim o [ none ↦ none | some s ↦ text_or_option (some (xml.strip s)) none ])) [
            | none ↦ tt
            | some s ↦ present-IsStanding (some (xml.strip s))
          ]

  first_text-IsStanding :
      (passes : String → Bool) (es : List Element) → IsStanding (first_text xml passes es)
  unfolding first_text
  first_text-IsStanding passes [] = tt
  first_text-IsStanding passes (e ∷ es) = elim (Bool-cases (passes (local_name xml e))) [
    | inl h ↦
        rw h (or_option-IsStanding _ _ (own_text-IsStanding e) (first_text-IsStanding passes es))
    | inr h ↦ rw h (first_text-IsStanding passes es)
  ]

  target-IsStanding : (passes : Element → Bool) (e : Element) → IsStanding (target xml passes e)
  target-IsStanding passes e = elim (Bool-cases (str_eq (local_name xml e) "link" && passes e)) [
    | inl h ↦ rw h (present-IsStanding (attribute "href" (attrib e)))
    | inr h ↦ rw h tt
  ]

  first_target-IsStanding :
      (passes : Element → Bool) (es : List Element) → IsStanding (first_target xml passes es)
  first_target-IsStanding passes [] = tt
  first_target-IsStanding passes (e ∷ es) =
      or_option-IsStanding _ _ (target-IsStanding passes e) (first_target-IsStanding passes es)

  atom_link-IsStanding : (entry : Element) → IsStanding (atom_link xml entry)
  atom_link-IsStanding entry = rw (atom_link_lem xml entry) (
      or_option-IsStanding _ _ (first_target-IsStanding (is_alternate xml) (children entry))
        (first_target-IsStanding (any_link xml) (children entry)))

  abbrev HasUrl : FeedItem → Type 0
  HasUrl item = is_empty item.url ≡ false

  linked-HasUrl :
      (link : Element → Option String) (item : Element → String → FeedItem)
      → ((e : Element) → IsStanding (link e))
      → ((e : Element) (url : String) → (item e url).url ≡ url)
      → (es : List Element) → All HasUrl (linked xml link item es)
  unfolding linked
  linked-HasUrl link item stands same [] = tt
  linked-HasUrl link item stands same (e ∷ es) =
      let ih = linked-HasUrl link item stands same es in
      elim (Option-cases (link e)) [
        | inl h ↦ rw (h, linked) ih
        | inr (url, h) ↦ rw (h, linked) (rw (same e url) (subst IsStanding h (stands e)), ih)
      ]

  sitemap_entries-IsStanding :
      (child_name : String) (es : List Element)
      → All
          (λ (entry : SitemapEntry). is_empty entry.location ≡ false)
          (sitemap_entries xml child_name es)
  unfolding sitemap_entries
  sitemap_entries-IsStanding child_name [] = tt
  sitemap_entries-IsStanding child_name (e ∷ es) =
      let ih = sitemap_entries-IsStanding child_name es in
      elim (Bool-cases (str_eq (local_name xml e) child_name)) [
        | inr h ↦ rw h ih
        | inl h ↦ elim (Option-cases (descendant_text xml e "loc")) [
          | inl k ↦ rw (h, k, sitemap_entries) ih
          | inr (location, k) ↦
              rw (h, k, sitemap_entries)
                (subst IsStanding k (first_text-IsStanding (λ n. str_eq n "loc") (iter e)), ih)
        ]
      ]

  -- What a parsed feed or sitemap is to satisfy, where the parser does not raise.
  abbrev FeedHolds : Result (DiscoveryChannelType × List FeedItem) → Type 0
  FeedHolds (raised e) = Unit
  FeedHolds (returned (channel_type, items)) =
      ((channel_type ≡ rss) ⊎ (channel_type ≡ atom)) × All HasUrl items

  abbrev SitemapHolds : Result SitemapDocument → Type 0
  SitemapHolds (raised e) = Unit
  SitemapHolds (returned document) =
      All (λ (entry : SitemapEntry). is_empty entry.location ≡ false) document.entries

  read_feed-Holds : (root : Element) → FeedHolds (read_feed xml root)
  unfolding read_feed
  read_feed-Holds root = elim (Bool-cases (is_seen (local_name xml root) ("rss" ∷ "rdf" ∷ []))) [
    | inl h ↦
        rw h (
          inl refl,
          linked-HasUrl _ _ (λ e. first_text-IsStanding _ (children e)) (λ e url. refl) _,
        )
    | inr h ↦
        elim (Bool-cases (
          str_eq (local_name xml root) "feed"
          || str_eq (tag root) "{http://www.w3.org/2005/Atom}feed")) [
            | inl k ↦ rw (h, k) (inr refl, linked-HasUrl _ _ atom_link-IsStanding (λ e url. refl) _)
            | inr k ↦ rw (h, k) tt
          ]
  ]

  read_sitemap-Holds : (root : Element) → SitemapHolds (read_sitemap xml root)
  unfolding read_sitemap
  read_sitemap-Holds root =
      elim (Bool-cases (is_seen (local_name xml root) ("urlset" ∷ "sitemapindex" ∷ []))) [
        | inl h ↦ rw h (sitemap_entries-IsStanding _ (children root))
        | inr h ↦ rw h tt
      ]

  -- Where they do not raise, the parser of feeds finds items of RSS or of Atom only, none of them with an
  -- empty URL, and the parser of sitemaps finds no entry with an empty location.
  parsers-Hold :
      (source : String)
      → FeedHolds (parse_feed xml source) × SitemapHolds (parse_sitemap xml source)
  unfolding parse_feed parse_sitemap
  parsers-Hold source =
      elim (xml.fromstring source)
        as (λ parsed.
          FeedHolds (elim parsed [ raised e ↦ raised e | returned root ↦ read_feed xml root ])
          × SitemapHolds
              (elim parsed [ raised e ↦ raised e | returned root ↦ read_sitemap xml root ])) [
                | raised e ↦ (tt, tt)
                | returned root ↦ (read_feed-Holds root, read_sitemap-Holds root)
              ]
