-- ===== src/Polling/Service.antt =====
-- The branches of ChannelPollService._process_payload of
-- backend/src/newsintel/application/acquisition/polling.py, by the type of the channel.
use newzyfy.Prelude.{ℕ, true, false, none, List, [], map, if◌then◌else◌, length}
use newzyfy.Text.{text_or_option}
use newzyfy.Articles.Types.{other, Error, FetchResult}
use newzyfy.Articles.World.{Result, returned, raised}
use newzyfy.Acquisition.Frontier.{
  DiscoveryChannelType, rss, atom, sitemap, news_sitemap, homepage, category, tag, author, archive,
  internal_link, search_page,
}
use newzyfy.Acquisition.Rows.{DiscoveryChannel, Store}
use newzyfy.Polling.Payload.{
  FeedItem, SitemapEntry, SitemapDocument, HtmlLink, Sources, PollSettings, Item, Counts,
  observe_items, create_channels,
}

-- How the payload of a channel is read.
pub data Collector : Type 0 where
  feed sitemaps html unsupported : Collector

abbrev collector : DiscoveryChannelType → Collector
collector rss = feed
collector atom = feed
collector sitemap = sitemaps
collector news_sitemap = sitemaps
collector homepage = html
collector category = html
collector tag = html
collector author = html
collector archive = html
collector internal_link = html
collector search_page = html
collector _ = unsupported

abbrev nothing_admitted : ℕ → Counts
nothing_admitted discovered = record { discovered = discovered; admitted = 0; observations = 0 }

abbrev pub feed_item : Sources → FeedItem → Item
feed_item sources item = record {
  url = item.url;
  external_id = item.external_id;
  title = item.title;
  published_at = sources.parse_feed_datetime item.published_at_raw;
  published_at_raw = item.published_at_raw;
}

abbrev pub sitemap_item : Sources → SitemapEntry → Item
sitemap_item sources entry =
    let published_at_raw = text_or_option entry.publication_date_raw entry.last_modified_raw in
    record {
      url = entry.location;
      external_id = none;
      title = entry.news_title;
      published_at = sources.parse_feed_datetime published_at_raw;
      published_at_raw = published_at_raw;
    }

abbrev pub html_item : HtmlLink → Item
html_item link = record {
  url = link.url;
  external_id = none;
  title = link.title;
  published_at = none;
  published_at_raw = none;
}

module _ (sources : Sources) (settings : PollSettings) (channel : DiscoveryChannel) where
  -- The feed, sitemap and page branches of _process_payload, once the payload is parsed.
  unfoldable pub process_feed : FetchResult → Result (List FeedItem) → Store → Result Counts × Store
  process_feed page (raised e) s = (raised e, s)
  process_feed page (returned items) s =
      observe_items sources settings channel page true true 0 (map (feed_item sources) items) []
        (nothing_admitted (length items)) s

  unfoldable pub process_sitemap :
      FetchResult → Result SitemapDocument → Store → Result Counts × Store
  process_sitemap page (raised e) s = (raised e, s)
  process_sitemap page (returned document) s =
      if document.is_index
      then create_channels sources settings channel page document.entries
          (nothing_admitted (length document.entries)) s
      else observe_items sources settings channel page false true 0
          (map (sitemap_item sources) document.entries) []
          (nothing_admitted (length document.entries)) s

  unfoldable pub process_page : FetchResult → Result (List HtmlLink) → Store → Result Counts × Store
  process_page page (raised e) s = (raised e, s)
  process_page page (returned links) s =
      observe_items sources settings channel page false false 0 (map html_item links) []
        (nothing_admitted (length links)) s

  -- The text of the error also names the channel's type, which is left out here.
  abbrev unsupported_error : Error
  unsupported_error = record {
    class = other "UnsupportedChannelTypeError";
    message = "polling is not implemented";
  }

  unfoldable pub process_payload : FetchResult → Store → Result Counts × Store
  process_payload page s = elim (collector channel.channel_type) [
    | feed ↦ process_feed page (sources.parse_feed page.body channel.endpoint_url) s
    | sitemaps ↦ process_sitemap page (sources.parse_sitemap page.body) s
    | html ↦ process_page page (sources.discover_links page.body page.final_url) s
    | unsupported ↦ (raised unsupported_error, s)
  ]
