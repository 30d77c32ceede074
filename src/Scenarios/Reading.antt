-- ===== src/Scenarios/Reading.antt =====
-- Feeds that are parsed and articles that the API reads, for
-- backend/src/newsintel/adapters/collectors/feeds.py and
-- backend/src/newsintel/application/articles/query_service.py.
use newzyfy.Prelude.{◌≡◌, ◌+◌, refl, true, String, none, some, [], ◌∷◌, map, or_option}
use newzyfy.Time.{hours}
use newzyfy.Articles.World.{returned}
use newzyfy.Articles.Types.{other, ExtractedArticle}
use newzyfy.Articles.Rows.{Database}
use newzyfy.Articles.Process.{end_transaction}
use newzyfy.Articles.Versions.{
  VersionChoice, max_version, new_version, insert_claim, persist_claims, store_version,
}
use newzyfy.Acquisition.Frontier.{rss}
use newzyfy.Feeds.{
  Element, element, nil, cons, children, iter, Xml, first_text, linked, atom_link, parse_feed,
}
use newzyfy.Feeds.Links.{discover_websub_links, unique, hubs, self_url}
use newzyfy.Feeds.Alternate.{first_target, is_alternate, any_link, atom_link_lem}
use newzyfy.Queries.{
  Readers, ArticleDetailView, ArticleVersionView, ArticleSummaryView, latest_version,
}
use newzyfy.Queries.Service.{get_article, list_articles, summary_for_article}
use newzyfy.Queries.Latest.{get_article-store_version}
use newzyfy.Scenarios.Pipeline.{page, story, analysis}
use newzyfy.Scenarios.Storage.{stored, article, run}

abbrev leaf : String → String → Element
leaf name s = element name [] (some s) nil

abbrev item : Element
item = element "item" [] none (cons (leaf "title" "Dam") (cons (leaf "{ns}link" "https://a") nil))

abbrev feed : Element
feed =
    element "rss" [] none
      (cons (element "channel" [] none (cons item (cons (element "item" [] none nil) nil))) nil)

abbrev xml : Xml
xml = record {
  fromstring = λ s. returned feed;
  strip = λ s. s;
  lower = λ s. s;
  replace = λ old new s. s;
  fromisoformat = λ s. none;
  parsedate = λ s. none;
  unsupported = λ name. record { class = other "ValueError"; message = name };
}

parses_feed :
    parse_feed xml "source"
    ≡ returned (
      rss,
      record { url = "https://a"; external_id = none; title = some "Dam"; published_at_raw = none }
          ∷ [],
    )
unfolding parse_feed iter first_text linked
parses_feed = refl

abbrev link : String → String → Element
link rel href = element "link" (("rel", rel) ∷ ("href", href) ∷ []) none nil

abbrev entry : Element
entry =
    element "entry" [] none
      (cons (link "self" "https://s") (cons (link "alternate" "https://a") nil))

prefers_alternate : atom_link xml entry ≡ some "https://a"
unfolding atom_link
prefers_alternate = refl

finds_hub :
    discover_websub_links
      (record xml {
        fromstring = λ s. returned (
            element "feed" [] none (
              cons
                (link "hub" "https://h")
                (cons (link "hub" "https://h") (cons (link "self" "https://s") nil))));
      })
      "source"
    ≡ returned ("https://h" ∷ [], some "https://s")
unfolding discover_websub_links iter unique hubs self_url
finds_hub = refl

atom_link_lem_example :
    atom_link xml entry
    ≡ or_option
        (first_target xml (is_alternate xml) (children entry))
        (first_target xml (any_link xml) (children entry))
atom_link_lem_example = atom_link_lem xml entry

abbrev readers : Readers
readers = record { words = λ s. s ∷ []; artifact_uri = λ artifact. none }

lists_article :
    map (λ (a : ArticleSummaryView). a.latest_version_number) (list_articles readers 50 stored)
    ≡ some 1 ∷ []
unfolding list_articles summary_for_article latest_version
lists_article = refl

-- A page with a new text, and the version that is answered with afterwards.
abbrev new_story : ExtractedArticle
new_story = record story { content_sha256 = "c2" }

abbrev new_db : Database
new_db =
    (end_transaction stored
      (store_version analysis run article new_story page none (hours 1000) stored)).1

abbrev new_choice : VersionChoice
new_choice = record { version_id = 10; created = true; claim_ids = 11 ∷ [] }

stores_version :
    store_version analysis run article new_story page none (hours 1000) stored
    ≡ returned (new_db, new_choice)
unfolding store_version persist_claims insert_claim new_version max_version
stores_version = refl

get_article-store_version_example :
    (detail : ArticleDetailView) × (view : ArticleVersionView) × (get_article readers 5 new_db
      ≡ some detail)
    × (detail.id ≡ 5)
    × (detail.latest_version ≡ some view)
    × (view.id ≡ new_choice.version_id)
    × (view.content_sha256 ≡ "c2")
    × (view.text_content ≡ story.text_content)
    × (view.version_number ≡ max_version 5 stored.versions + 1)
get_article-store_version_example =
    get_article-store_version readers analysis run article article new_story page none (hours 1000)
      stored new_db new_choice refl refl stores_version
