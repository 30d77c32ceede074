-- ===== src/Polling/Admitted.antt =====
-- How many candidates a poll of backend/src/newsintel/application/acquisition/polling.py adds.
use newzyfy.Prelude.{
  map, ℕ, ◌+◌, ◌≤◌, ◌≡◌, inl, inr, String, Bool, true, false, none, some, List, [], ◌∷◌, length,
  arith, leb, Bool-cases,
}
use newzyfy.Articles.Types.{FetchResult}
use newzyfy.Articles.World.{Result, returned, raised}
use newzyfy.Acquisition.Rows.{DiscoveryChannel, Store}
use newzyfy.Acquisition.Service.{invalid, not_found, conflict, create_channel}
use newzyfy.Acquisition.Observation.{observe_discovery}
use newzyfy.Acquisition.Channels.{Outcome-cases, create_channel-channels}
use newzyfy.Acquisition.Counted.{observe_discovery-IsCounted}
use newzyfy.Polling.Channels.{PollRun, start_run, complete}
use newzyfy.Polling.Payload.{
  FeedItem, SitemapEntry, SitemapDocument, HtmlLink, Sources, PollSettings, Item, Counts,
  item_command, entry_command, observe_item, visit_item, observe_items, create_channels,
}
use newzyfy.Polling.Limits.{observe_items_induction}
use newzyfy.Polling.Service.{
  feed_item, sitemap_item, html_item, process_feed, process_sitemap, process_page, process_payload,
}
use newzyfy.Polling.Poll.{finish, fetch_payload, conclude, poll}

module _ (sources : Sources) (settings : PollSettings) (channel : DiscoveryChannel)
    (before : Store) where
  abbrev limit : ℕ
  limit = settings.max_new_urls_per_channel_poll

  -- Nothing is taken away, and no more is added than the limit.
  abbrev pub IsWithin : Store → Type 0
  IsWithin s =
      (length before.candidates ≤ length s.candidates)
      × (length s.candidates ≤ length before.candidates + limit)

  -- While it goes on, a loop has counted what it has added.
  abbrev IsTallied : Result Counts → Store → Type 0
  IsTallied (returned counts) s =
      (length s.candidates ≡ length before.candidates + counts.admitted) × (counts.admitted ≤ limit)
  IsTallied (raised e) s = IsWithin s

  IsTallied-IsWithin : (r : Result Counts) (s : Store) → IsTallied r s → IsWithin s
  IsTallied-IsWithin (returned counts) s h =
      let same = h.0 in let low = h.1 in (omega arith, omega arith)
  IsTallied-IsWithin (raised e) s h = h

  module _ (page : FetchResult) where
    observe_item-IsTallied :
        (position : ℕ) (item : Item) (counts : Counts) (s : Store)
        → leb limit counts.admitted ≡ false
        → IsTallied (returned counts) s
        → let (r, s') = observe_item sources settings channel page position item counts s in
          IsTallied r s'
    unfolding observe_item
    observe_item-IsTallied position item counts s below h =
        let same = h.0 in
        let low = h.1 in
        elim (Outcome-cases (
          observe_discovery sources.canonicalize
            (item_command sources settings channel page position item) (some sources.trace_id) none
            sources.clock s)) [
              | inr (error, e) ↦ rw (e, observe_item) (omega arith, omega arith)
              | inl ((s', r), e) ↦
                  let counted = observe_discovery-IsCounted _ _ _ _ _ s s' r e in
                  rw (e, observe_item)
                    (elim (Bool-cases r.candidate_created) [
                      | inl created ↦
                          let more = rw created at counted in
                          rw created (omega (arith, more), ground arith)
                      | inr known ↦
                          let no_more = rw known at counted in
                          rw known (omega (arith, no_more), low)
                    ])
            ]

    visit_item-IsTallied :
        (skip_seen require : Bool) (position : ℕ) (item : Item) (seen : List String)
        (counts : Counts) (s : Store)
        → leb limit counts.admitted ≡ false
        → IsTallied (returned counts) s
        → let (r, s') =
            visit_item sources settings channel page skip_seen require position item seen counts
              s in
          IsTallied r s'
    unfolding visit_item observe_item
    visit_item-IsTallied skip_seen require position item seen counts s below h =
        ground (arith, observe_item-IsTallied position item counts s below h)

    observe_items-IsWithin :
        (skip_seen require : Bool) (items : List Item) (discovered : ℕ)
        → let (r, s') =
            observe_items sources settings channel page skip_seen require 0 items []
              (record { discovered = discovered; admitted = 0; observations = 0 })
              before in
          IsWithin s'
    observe_items-IsWithin skip_seen require items discovered = IsTallied-IsWithin _ _ (
        observe_items_induction sources settings channel page IsTallied skip_seen require
          (visit_item-IsTallied skip_seen require) 0 items [] _ before (omega arith, omega arith))

    create_channels-IsWithin :
        (entries : List SitemapEntry) (counts : Counts) (s : Store)
        → IsWithin s
        → IsWithin (create_channels sources settings channel page entries counts s).1
    unfolding create_channels
    create_channels-IsWithin [] counts s h = h
    create_channels-IsWithin (entry ∷ entries) counts s h =
        elim (Outcome-cases (
          create_channel sources.canonicalize_endpoint
            (entry_command sources settings channel page entry) sources.clock s)) [
              | inl ((s', made), e) ↦
                  rw (e, create_channels)
                    (create_channels-IsWithin entries _ s'
                      (rw (create_channel-channels _ _ _ s s' made e).1 h))
              | inr (conflict, e) ↦
                  rw (e, create_channels) (create_channels-IsWithin entries counts s h)
              | inr (invalid, e) ↦ rw (e, create_channels) h
              | inr (not_found, e) ↦ rw (e, create_channels) h
            ]

    process_feed-IsWithin :
        (items : Result (List FeedItem))
        → IsWithin (process_feed sources settings channel page items before).1
    unfolding process_feed
    process_feed-IsWithin (raised e) = (omega arith, omega arith)
    process_feed-IsWithin (returned items) =
        observe_items-IsWithin true true (map (feed_item sources) items) (length items)

    process_sitemap-IsWithin :
        (document : Result SitemapDocument)
        → IsWithin (process_sitemap sources settings channel page document before).1
    unfolding process_sitemap
    process_sitemap-IsWithin (raised e) = (omega arith, omega arith)
    process_sitemap-IsWithin (returned document) = elim (Bool-cases document.is_index) [
      | inl e ↦
          rw (e, process_sitemap)
            (create_channels-IsWithin document.entries _ before (omega arith, omega arith))
      | inr e ↦
          rw (e, process_sitemap)
            (observe_items-IsWithin false true (map (sitemap_item sources) document.entries)
              (length document.entries))
    ]

    process_page-IsWithin :
        (links : Result (List HtmlLink))
        → IsWithin (process_page sources settings channel page links before).1
    unfolding process_page
    process_page-IsWithin (raised e) = (omega arith, omega arith)
    process_page-IsWithin (returned links) =
        observe_items-IsWithin false false (map html_item links) (length links)

    process_payload-IsWithin : IsWithin (process_payload sources settings channel page before).1
    unfolding process_payload
    process_payload-IsWithin = ground (
      arith,
      process_feed-IsWithin (sources.parse_feed page.body channel.endpoint_url),
      process_sitemap-IsWithin (sources.parse_sitemap page.body),
      process_page-IsWithin (sources.discover_links page.body page.final_url),
    )

  fetch_payload-IsWithin :
      (fetched : Result FetchResult)
      → IsWithin (fetch_payload sources channel settings fetched before).1
  unfolding fetch_payload
  fetch_payload-IsWithin (raised e) = (omega arith, omega arith)
  fetch_payload-IsWithin (returned page) = ground (arith, process_payload-IsWithin page)

  conclude-IsWithin :
      (run : PollRun) (fetched : Result (FetchResult × Counts)) (s : Store)
      → IsWithin s
      → IsWithin (conclude sources channel run fetched s).1
  unfolding conclude finish complete
  conclude-IsWithin run (raised e) s h = h
  conclude-IsWithin run (returned (page, counts)) s h = h

-- A poll, whether it returns or raises, takes no candidate away and adds no more than the limit of
-- its settings, whatever the channel publishes.
pub poll-IsWithin :
    (sources : Sources) (settings : PollSettings) (channel : DiscoveryChannel) (worker_id : String)
    (s : Store)
    → let (r, s') = poll sources channel settings worker_id s in
      (length s.candidates ≤ length s'.candidates)
      × (length s'.candidates ≤ length s.candidates + settings.max_new_urls_per_channel_poll)
unfolding poll start_run
poll-IsWithin sources settings channel worker_id s =
    let s1 = (start_run channel.id worker_id sources.trace_id sources.started_at s).0 in
    conclude-IsWithin sources settings channel s1 _ _ _ (
      fetch_payload-IsWithin sources settings channel s1
        (sources.fetch channel.endpoint_url channel.etag channel.last_modified))
