-- ===== src/Polling/Outcome.antt =====
-- How a poll ends, whatever the fetcher and the parsers do.
use newzyfy.Prelude.{
  suc, ◌+◌, ◌≡◌, refl, ◌∙◌, String, true, false, none, some, List, arith, inl, inr, Bool-cases,
}
use newzyfy.Time.{seconds}
use newzyfy.Articles.Types
use newzyfy.Articles.Types.{Error, FetchResult}
use newzyfy.Articles.World.{Result, returned, raised}
use newzyfy.Acquisition.Rows.{DiscoveryChannel, failed, Store, get_channel}
use newzyfy.Polling.Interval.{next_interval_seconds}
use newzyfy.Polling.Channels.{PollRun, start_run, completed_channel}
use newzyfy.Polling.Leasing.{get_channel-complete}
use newzyfy.Polling.Payload.{FeedItem, HtmlLink, SitemapDocument, Sources, PollSettings, Counts}
use newzyfy.Polling.Limits.{observe_items-IsChannel, create_channels-IsChannel}
use newzyfy.Polling.Service.{process_feed, process_sitemap, process_page, process_payload}
use newzyfy.Polling.Poll.{
  PollResult, Report, failed_report, not_modified_report, succeeded_report, completion, finish,
  fetch_payload, conclude, poll,
}

module _ (sources : Sources) (settings : PollSettings) (channel row : DiscoveryChannel) where
  abbrev Kept : Store → Type 0
  Kept s = get_channel channel.id s ≡ some row

  process_feed-Kept :
      (page : FetchResult) (items : Result (List FeedItem)) (s : Store)
      → Kept s
      → Kept (process_feed sources settings channel page items s).1
  unfolding process_feed
  process_feed-Kept page (raised e) s h = h
  process_feed-Kept page (returned items) s h =
      observe_items-IsChannel sources settings channel page channel.id row true true 0 _ _ _ s h

  process_sitemap-Kept :
      (page : FetchResult) (document : Result SitemapDocument) (s : Store)
      → Kept s
      → Kept (process_sitemap sources settings channel page document s).1
  unfolding process_sitemap
  process_sitemap-Kept page (raised e) s h = h
  process_sitemap-Kept page (returned document) s h = elim (Bool-cases document.is_index) [
    | inl e ↦
        rw (e, process_sitemap)
          (create_channels-IsChannel sources settings channel page channel.id row _ _ s h)
    | inr e ↦
        rw (e, process_sitemap)
          (observe_items-IsChannel sources settings channel page channel.id row false true 0 _ _ _ s
            h)
  ]

  process_page-Kept :
      (page : FetchResult) (links : Result (List HtmlLink)) (s : Store)
      → Kept s
      → Kept (process_page sources settings channel page links s).1
  unfolding process_page
  process_page-Kept page (raised e) s h = h
  process_page-Kept page (returned links) s h =
      observe_items-IsChannel sources settings channel page channel.id row false false 0 _ _ _ s h

  process_payload-Kept :
      (page : FetchResult) (s : Store)
      → Kept s
      → Kept (process_payload sources settings channel page s).1
  unfolding process_payload
  process_payload-Kept page s h = ground (
    arith,
    process_feed-Kept page (sources.parse_feed page.body channel.endpoint_url) s h,
    process_sitemap-Kept page (sources.parse_sitemap page.body) s h,
    process_page-Kept page (sources.discover_links page.body page.final_url) s h,
  )

  fetch_payload-Kept :
      (fetched : Result FetchResult) (s : Store)
      → Kept s
      → Kept (fetch_payload sources channel settings fetched s).1
  unfolding fetch_payload
  fetch_payload-Kept (raised e) s h = h
  fetch_payload-Kept (returned page) s h = ground (arith, process_payload-Kept page s h)

  -- What the channel says of a poll: after a result, no failures, and the next poll at the result's
  -- time; after an exception, one failure more, and the next poll after the interval of a failure.
  abbrev Reports : Result PollResult → DiscoveryChannel → Type 0
  Reports (returned result) row' =
      (row'.consecutive_failures ≡ 0) × (row'.next_poll_at ≡ some result.next_poll_at)
  Reports (raised e) row' =
      (row'.consecutive_failures ≡ suc row.consecutive_failures)
      × (row'.next_poll_at
          ≡ some (sources.completed_at + seconds (next_interval_seconds channel failed 0)))

  -- The channel is stored and not leased, and says how the poll ended.
  abbrev pub IsPolled : Result PollResult → Store → Type 0
  IsPolled r s =
      (row' : DiscoveryChannel) × (get_channel channel.id s ≡ some row')
      × (row'.lease_owner ≡ none)
      × (row'.lease_expires_at ≡ none)
      × Reports r row'

  get_channel-finish :
      (run : PollRun) (report : Report) (s : Store)
      → Kept s
      → get_channel channel.id (finish sources channel run report s).1
        ≡ some (completed_channel (completion sources channel run report) row)
  unfolding finish
  get_channel-finish run report s h =
      get_channel-complete (completion sources channel run report) sources.completed_at s
      ∙ rw h refl

  conclude-IsPolled :
      (run : PollRun) (fetched : Result (FetchResult × Counts)) (s : Store)
      → Kept s
      → let (r, s') = conclude sources channel run fetched s in IsPolled r s'
  unfolding conclude completed_channel finish
  conclude-IsPolled run (raised e) s h =
      (_, get_channel-finish run (failed_report e) s h, refl, refl, (refl, refl))
  conclude-IsPolled run (returned (page, counts)) s h =
      elim (Bool-cases (newzyfy.Articles.Types.not_modified page)) [
        | inl e ↦ rw e (
          _,
          get_channel-finish run (not_modified_report channel page) s h,
          refl,
          refl,
          (refl, refl),
        )
        | inr e ↦
            rw e (
              _,
              get_channel-finish run (succeeded_report page counts) s h,
              refl,
              refl,
              (refl, refl),
            )
      ]

  -- Where the polled channel is stored and the poll's own transactions succeed, a poll leaves it stored and without a lease, whatever the fetcher,
  -- the parsers and the admission do. After a result it has no failures and the result's next poll; after
  -- an exception it has one failure more and the next poll after the interval that a failure gives.
  pub poll-IsPolled :
      (worker_id : String) (s : Store)
      → get_channel channel.id s ≡ some row
      → let (r, s') = poll sources channel settings worker_id s in IsPolled r s'
  unfolding poll
  poll-IsPolled worker_id s h = conclude-IsPolled _ _ _ (
      fetch_payload-Kept (sources.fetch channel.endpoint_url channel.etag channel.last_modified)
        (start_run channel.id worker_id sources.trace_id sources.started_at s).0
        (unfold start_run in h))
