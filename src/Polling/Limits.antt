-- ===== src/Polling/Limits.antt =====
-- What the loops of a poll keep: a principle of induction, and the channels that are stored.
use newzyfy.Prelude.{
  ℕ, suc, ◌≡◌, inl, inr, String, Bool, false, none, some, List, [], ◌∷◌, ◌==◌, arith, leb,
  Bool-cases, find_row-append_found,
}
use newzyfy.Outbox.{Uuid}
use newzyfy.Articles.Types.{FetchResult}
use newzyfy.Articles.World.{Result, returned, raised}
use newzyfy.Acquisition.Rows.{DiscoveryChannel, Store, get_channel, channel_key}
use newzyfy.Acquisition.Service.{invalid, not_found, conflict, create_channel}
use newzyfy.Acquisition.Observation.{observe_discovery}
use newzyfy.Acquisition.Channels.{
  Outcome-cases, observe_discovery-channels, create_channel-channels,
}
use newzyfy.Polling.Payload.{
  SitemapEntry, Sources, PollSettings, Item, Counts, proceed, item_command, entry_command,
  observe_item, visit_item, observe_items, create_channels,
}

module _ (sources : Sources) (settings : PollSettings) (channel : DiscoveryChannel)
    (page : FetchResult) where
  -- What each visited item keeps, the loop keeps.
  pub observe_items_induction :
      (P : Result Counts → Store → Type 0) (skip_seen require : Bool)
      → ((position : ℕ) (item : Item) (seen : List String) (counts : Counts) (s : Store)
          → leb settings.max_new_urls_per_channel_poll counts.admitted ≡ false
          → P (returned counts) s
          → let (r, s') =
              visit_item sources settings channel page skip_seen require position item seen counts
                s in
            P r s')
      → (position : ℕ) (items : List Item) (seen : List String) (counts : Counts) (s : Store)
      → P (returned counts) s
      → let (r, s') =
          observe_items sources settings channel page skip_seen require position items seen counts
            s in
        P r s'
  unfolding observe_items
  observe_items_induction P skip_seen require visit position [] seen counts s h = h
  observe_items_induction P skip_seen require visit position (item ∷ items) seen counts s h =
      elim (Bool-cases (leb settings.max_new_urls_per_channel_poll counts.admitted)) [
        | inl e ↦ rw (e, observe_items) h
        | inr e ↦
            rw (e, observe_items)
              (after
                (visit_item sources settings channel page skip_seen require position item seen
                  counts s)
                (observe_items sources settings channel page skip_seen require (suc position) items
                  (item.url ∷ seen))
                (visit position item seen counts s e h)
                (observe_items_induction P skip_seen require visit (suc position) items
                  (item.url ∷ seen)))
      ]
    where
      after :
          (step : Result Counts × Store) (rest : Counts → Store → Result Counts × Store)
          → P step.0 step.1
          → ((c : Counts) (t : Store) → P (returned c) t → P (rest c t).0 (rest c t).1)
          → P (proceed step rest).0 (proceed step rest).1
      after (raised e, s') rest w k = w
      after (returned counts', s') rest w k = k counts' s' w

  module _ (id : Uuid) (row : DiscoveryChannel) where
    abbrev IsChannel : Store → Type 0
    IsChannel s = get_channel id s ≡ some row

    observe_item-IsChannel :
        (position : ℕ) (item : Item) (counts : Counts) (s : Store)
        → IsChannel s
        → IsChannel (observe_item sources settings channel page position item counts s).1
    unfolding observe_item
    observe_item-IsChannel position item counts s h =
        elim (Outcome-cases (
          observe_discovery sources.canonicalize
            (item_command sources settings channel page position item) (some sources.trace_id) none
            sources.clock s)) [
              | inl ((s', r), e) ↦
                  rw (e, observe_item) (rw (observe_discovery-channels _ _ _ _ _ s s' r e) h)
              | inr (error, e) ↦ rw (e, observe_item) h
            ]

    visit_item-IsChannel :
        (skip_seen require : Bool) (position : ℕ) (item : Item) (seen : List String)
        (counts : Counts) (s : Store)
        → IsChannel s
        → IsChannel
            (visit_item sources settings channel page skip_seen require position item seen counts
              s).1
    unfolding visit_item observe_item
    visit_item-IsChannel skip_seen require position item seen counts s h =
        ground (arith, observe_item-IsChannel position item counts s h)

    pub observe_items-IsChannel :
        (skip_seen require : Bool) (position : ℕ) (items : List Item) (seen : List String)
        (counts : Counts) (s : Store)
        → IsChannel s
        → IsChannel
            (observe_items sources settings channel page skip_seen require position items seen
              counts s).1
    observe_items-IsChannel skip_seen require =
        observe_items_induction (λ r s. IsChannel s) skip_seen require
          (λ position item seen counts s e h.
            visit_item-IsChannel skip_seen require position item seen counts s h)

    pub create_channels-IsChannel :
        (entries : List SitemapEntry) (counts : Counts) (s : Store)
        → IsChannel s
        → IsChannel (create_channels sources settings channel page entries counts s).1
    unfolding create_channels
    create_channels-IsChannel [] counts s h = h
    create_channels-IsChannel (entry ∷ entries) counts s h =
        elim (Outcome-cases (
          create_channel sources.canonicalize_endpoint
            (entry_command sources settings channel page entry) sources.clock s)) [
              | inl ((s', made), e) ↦
                  rw (e, create_channels)
                    (create_channels-IsChannel entries _ s' (
                      rw (create_channel-channels _ _ _ s s' made e).0 (
                        find_row-append_found (λ c. channel_key c == id) row s.channels (made ∷ [])
                          h)))
              | inr (conflict, e) ↦
                  rw (e, create_channels) (create_channels-IsChannel entries counts s h)
              | inr (invalid, e) ↦ rw (e, create_channels) h
              | inr (not_found, e) ↦ rw (e, create_channels) h
            ]
