-- ===== src/Sources/Conflict.antt =====
-- What discover_publisher of backend/src/newsintel/application/sources/service.py stores, and what it answers
-- for a website whose domain is stored.
use newzyfy.Prelude.{
  ℕ, suc, ◌≡◌, refl, sym, ap, ◌∙◌, inl, inr, String, Bool, true, not, none, List, [], ◌∷◌, ◌++◌,
  length, map, str_eq, eq_iff, find_row, Option-cases,
}
use newzyfy.Time.{Instant}
use newzyfy.Outbox.{Uuid}
use newzyfy.Text.{concat}
use newzyfy.Articles.Types.{Error}
use newzyfy.Articles.World.{Result, returned, raised}
use newzyfy.Sources.{FetchFrequency, PublisherModel, Tables}
use newzyfy.Sources.Links.{ValidatedEndpoint}
use newzyfy.Sources.Endpoints.{keep_parameters}
use newzyfy.Sources.Slugs.{slugify}
use newzyfy.Sources.Fresh.{unique_slug}
use newzyfy.Sources.Views.{publisher_source_view}
use newzyfy.Sources.Service.{error}
use newzyfy.Sources.Collect.{DiscoverPublisherCommand, Discovery, and_then, checked}
use newzyfy.Sources.Discover.{
  DiscoveredChannelView, PublisherDiscoveryResult, store_channel, create_channel_if_absent,
  create_channels, has_endpoint, insert_publisher, new_publisher, is_empty_list, store_publisher,
}
use newzyfy.Fetcher.Safety.{returned≢raised}
use newzyfy.Fetcher.Results.{returned-inj}

abbrev pub has_domain : String → PublisherModel → Bool
has_domain domain p = str_eq p.canonical_domain domain

and_then-returned :
    {A B : Type 0} (r : Result A) (f : A → Result B) (b : B)
    → and_then r f ≡ returned b
    → (a : A) × (r ≡ returned a) × (f a ≡ returned b)
and_then-returned (raised e) f b h = absurd (returned≢raised _ _ (sym h))
and_then-returned (returned a) f b h = (a, refl, h)

module _ (d : Discovery) where
  store_channel-publishers :
      (publisher_id : Uuid) (endpoint : ValidatedEndpoint) (normalized : String)
      (frequency : FetchFrequency) (now : Instant) (t : Tables)
      → (store_channel d publisher_id endpoint normalized frequency now t).0.publishers
        ≡ t.publishers
  unfolding store_channel
  store_channel-publishers publisher_id endpoint normalized frequency now t =
      elim (Option-cases (find_row (has_endpoint d publisher_id normalized) t.channels)) [
        | inl e ↦ rw (e, store_channel)
        | inr (c, e) ↦ rw (e, store_channel)
      ]

  create_channel_if_absent-publishers :
      (publisher_id : Uuid) (endpoint : ValidatedEndpoint) (frequency : FetchFrequency)
      (now : Instant) (t : Tables) (made : Tables × (Bool × Uuid))
      → create_channel_if_absent d publisher_id endpoint frequency now t ≡ returned made
      → made.0.publishers ≡ t.publishers
  create_channel_if_absent-publishers publisher_id endpoint frequency now t made h =
      let stored =
        and_then-returned (checked d (d.web.canonicalize_url keep_parameters endpoint.url)) _ _ h in
      sym (ap (λ (p : Tables × (Bool × Uuid)). p.0.publishers) (returned-inj _ _ stored.2))
      ∙ store_channel-publishers publisher_id endpoint stored.0 frequency now t

  create_channels-publishers :
      (publisher_id : Uuid) (frequency : FetchFrequency) (now : Instant)
      (endpoints : List ValidatedEndpoint) (t t' : Tables) (views : List DiscoveredChannelView)
      → create_channels d publisher_id frequency now endpoints t ≡ returned (t', views)
      → (t'.publishers ≡ t.publishers) × (length views ≡ length endpoints)
  unfolding create_channels
  create_channels-publishers publisher_id frequency now [] t t' views h =
      let same : (t, []) ≡ (t', views) = returned-inj _ _ h in
      (
        sym (ap (λ (p : Tables × List DiscoveredChannelView). p.0.publishers) same),
        sym (ap (λ (p : Tables × List DiscoveredChannelView). length p.1) same),
      )
  create_channels-publishers publisher_id frequency now (endpoint ∷ endpoints) t t' views h =
      let first =
        and_then-returned (create_channel_if_absent d publisher_id endpoint frequency now t) _ _
          h in
      let made = first.0 in
      let rest =
        and_then-returned (create_channels d publisher_id frequency now endpoints made.0) _ _
          first.2 in
      let ih =
        create_channels-publishers publisher_id frequency now endpoints made.0 rest.0.0 rest.0.1
          rest.1 in
      let same = returned-inj _ _ rest.2 in
      let kept =
        create_channel_if_absent-publishers publisher_id endpoint frequency now t made first.1 in
      (
        sym (ap (λ (p : Tables × List DiscoveredChannelView). p.0.publishers) same) ∙ ih.0 ∙ kept,
        sym (ap (λ (p : Tables × List DiscoveredChannelView). length p.1) same) ∙ ap suc ih.1,
      )

  insert_publisher-stored :
      (command : DiscoverPublisherCommand) (p : PublisherModel) (homepage_url : String)
      (attempted : ℕ) (validated : List ValidatedEndpoint) (now : Instant) (t t' : Tables)
      (result : PublisherDiscoveryResult)
      → insert_publisher d command p homepage_url attempted validated now t ≡ returned (t', result)
      → (t'.publishers ≡ t.publishers ++ p ∷ [])
        × (p.id ≡ result.publisher.id)
        × (length result.channels ≡ result.valid_endpoint_count)
  unfolding insert_publisher publisher_source_view
  insert_publisher-stored command p homepage_url attempted validated now t t' result h =
      let inserted = record t { publishers = t.publishers ++ p ∷ []; next_id = suc t.next_id } in
      let made =
        and_then-returned (create_channels d p.id command.fetch_frequency now validated inserted) _
          _ h in
      let kept =
        create_channels-publishers p.id command.fetch_frequency now validated inserted made.0.0
          made.0.1 made.1 in
      let same = returned-inj _ _ made.2 in
      (
        sym (ap (λ (q : Tables × PublisherDiscoveryResult). q.0.publishers) same) ∙ kept.0,
        ap (λ (q : Tables × PublisherDiscoveryResult). q.1.publisher.id) same,
        sym (ap (λ (q : Tables × PublisherDiscoveryResult). length q.1.channels) same)
            ∙ kept.1
            ∙ ap (λ (q : Tables × PublisherDiscoveryResult). q.1.valid_endpoint_count) same,
      )

  abbrev pub conflict : String → Error
  conflict domain =
      error "PublisherConflictError" (concat "publisher already exists for domain: " domain)

  -- A publisher is stored where none has the domain; it is behind the others.
  pub store_publisher-stored :
      (command : DiscoverPublisherCommand) (domain homepage_url : String) (attempted : ℕ)
      (validated : List ValidatedEndpoint) (now : Instant) (t t' : Tables)
      (result : PublisherDiscoveryResult)
      → store_publisher d command domain homepage_url attempted validated now t
        ≡ returned (t', result)
      → (p : PublisherModel) × (find_row (has_domain domain) t.publishers ≡ none)
        × (t'.publishers ≡ t.publishers ++ p ∷ [])
        × (has_domain domain p ≡ true)
        × (p.active ≡ true)
        × (p.slug
            ≡ unique_slug d.characters.decimal
                (slugify d.characters command.publisher_name)
                (map (λ (q : PublisherModel). q.slug) t.publishers))
        × (p.id ≡ result.publisher.id)
        × (length result.channels ≡ result.valid_endpoint_count)
  unfolding store_publisher
  store_publisher-stored command domain homepage_url attempted validated now t t' result h =
      elim (Option-cases (find_row (has_domain domain) t.publishers)) [
        | inr (p, e) ↦ absurd (returned≢raised _ _ (sym (rw (e, store_publisher) at h)))
        | inl e ↦
            let slug =
              unique_slug d.characters.decimal (slugify d.characters command.publisher_name)
                (map (λ (p : PublisherModel). p.slug) t.publishers) in
            let p =
              new_publisher d t.next_id command slug domain homepage_url
                (not (is_empty_list d validated)) now in
            let stored =
              insert_publisher-stored command p homepage_url attempted validated now t t' result
                (rw (e, store_publisher) at h) in
            (p, e, stored.0, (eq_iff domain domain).1 refl, refl, refl, stored.1, stored.2)
      ]
