-- ===== src/Sources/Repeated.antt =====
-- discover_publisher of backend/src/newsintel/application/sources/service.py as a whole: what it stores, and
-- what it answers when the same command is made again.
use newzyfy.Prelude.{
  ℕ, ◌≡◌, refl, sym, ap, ◌∙◌, inl, inr, ◌⊎◌, String, Bool, true, false, none, some, List, [], ◌∷◌,
  ◌++◌, length, map, find_row, Option-cases, ◌<◌, str_eq, find_row-append, if◌then◌else◌,
}
use newzyfy.Time.{Instant}
use newzyfy.Articles.Types.{Error}
use newzyfy.Articles.World.{Result, returned, raised}
use newzyfy.Sources.{PublisherModel, Tables}
use newzyfy.Sources.Endpoints.{normalize_homepage_url, canonical_domain}
use newzyfy.Sources.Links.{ValidatedEndpoint}
use newzyfy.Sources.Slugs.{slugify}
use newzyfy.Sources.Fresh.{unique_slug_fresh, is_plain}
use newzyfy.Text.{codes, is_seen}
use mathlib.Core.Option.{none-ne-some}
use newzyfy.Sources.Collect.{
  DiscoverPublisherCommand, Discovery, and_then, is_success, checked, collect_endpoints,
  validate_endpoints,
}
use newzyfy.Sources.Discover.{
  PublisherDiscoveryResult, store_publisher, discover, committed, discover_publisher,
}
use newzyfy.Sources.Conflict.{has_domain, conflict, store_publisher-stored}
use newzyfy.Fetcher.Safety.{returned≢raised}
use newzyfy.Fetcher.Results.{returned-inj}

module _ (d : Discovery) (command : DiscoverPublisherCommand) where
  abbrev Run : Type 0
  Run = Tables → Result (Tables × PublisherDiscoveryResult)

  -- What a discovery does before the transaction, for a domain and at one time: it raises, whatever the
  -- tables, or comes to the transaction.
  abbrev Stage : String → Instant → Run → Type 0
  Stage domain now run =
      ((e : Error) × ((t : Tables) → run t ≡ raised e))
      ⊎ ((homepage_url : String) × (attempted : ℕ) × (validated : List ValidatedEndpoint)
          × ((t : Tables)
              → run t ≡ store_publisher d command domain homepage_url attempted validated now t))

  Stage-and_then :
      {A : Type 0} (domain : String) (now : Instant) (r : Result A) (f : A → Run)
      → ((a : A) → Stage domain now (f a))
      → Stage domain now (λ t. and_then r (λ a. f a t))
  Stage-and_then domain now (raised e) f h = inl (e, λ t. refl)
  Stage-and_then domain now (returned a) f h = h a

  Stage-guard :
      (domain : String) (now : Instant) (b : Bool) (f : Run) (e : Error)
      → Stage domain now f
      → Stage domain now (λ t. if b then f t else raised e)
  Stage-guard domain now true f e h = h
  Stage-guard domain now false f e h = inl (e, λ t. refl)

  -- A command that names no domain raises at all times; the domain that it names is the same at all times.
  abbrev Named : (Instant → Run) → Type 0
  Named run =
      ((e : Error) × ((now : Instant) (t : Tables) → run now t ≡ raised e))
      ⊎ ((domain : String) × ((now : Instant) → Stage domain now (run now)))

  Named-and_then :
      {A : Type 0} (r : Result A) (f : A → Instant → Run)
      → ((a : A) → Named (f a))
      → Named (λ now t. and_then r (λ a. f a now t))
  Named-and_then (raised e) f h = inl (e, λ now t. refl)
  Named-and_then (returned a) f h = h a

  discover-Named : Named (discover d command)
  unfolding discover
  discover-Named =
      Named-and_then (checked d (normalize_homepage_url d.web command.website_url)) _
        (λ homepage_url. Named-and_then (checked d (canonical_domain d.web homepage_url)) _ (λ host.
          Named-and_then (checked d (d.normalize_domain host)) _ (λ domain. inr (
            domain,
            λ now. Stage-and_then domain now (d.fetch now 0 homepage_url) _ (λ page.
                Stage-guard domain now (is_success page) _ _ (
                  Stage-and_then domain now (checked d (collect_endpoints d command now page)) _
                    (λ unique. inr (
                      homepage_url,
                      length unique,
                      validate_endpoints d now 2 unique,
                      λ t. refl,
                    )))),
          ))))

  abbrev slug : String
  slug = slugify d.characters command.publisher_name

  abbrev pub slugs_of : Tables → List String
  slugs_of t = map (λ (q : PublisherModel). q.slug) t.publishers

  -- What the tables are after a discovery that returned: one more publisher, of a domain and with a slug
  -- that no publisher had.
  abbrev pub IsStored :
      Tables → Tables → PublisherDiscoveryResult → String → PublisherModel → Type 0
  IsStored t t' result domain p =
      (find_row (has_domain domain) t.publishers ≡ none)
      × (t'.publishers ≡ t.publishers ++ p ∷ [])
      × (has_domain domain p ≡ true)
      × (p.active ≡ true)
      × (is_seen p.slug (slugs_of t) ≡ false)
      × (p.id ≡ result.publisher.id)
      × (length result.channels ≡ result.valid_endpoint_count)

  -- A discovery for a domain that raises and changes nothing: it is refused as a conflict, or fails in the
  -- same way whatever the tables hold.
  abbrev pub IsRefused : String → Instant → Tables → Type 0
  IsRefused domain later u =
      (e : Error) × (discover_publisher d command later u ≡ (raised e, u))
      × ((e ≡ conflict d domain)
          ⊎ ((v : Tables) → discover_publisher d command later v ≡ (raised e, v)))

  committed-returned :
      (t t' : Tables) (r : Result (Tables × PublisherDiscoveryResult))
      (result : PublisherDiscoveryResult)
      → committed d t r ≡ (returned result, t')
      → r ≡ returned (t', result)
  committed-returned t t' (raised e) result h =
      absurd
        (returned≢raised _ _ (sym (ap (λ (p : Result PublisherDiscoveryResult × Tables). p.0) h)))
  committed-returned t t' (returned (t'', result')) result h =
      let left = returned-inj _ _ (ap (λ (p : Result PublisherDiscoveryResult × Tables). p.0) h) in
      let right = ap (λ (p : Result PublisherDiscoveryResult × Tables). p.1) h in rw (left, right)

  store_publisher-conflict :
      (domain homepage_url : String) (attempted : ℕ) (validated : List ValidatedEndpoint)
      (later : Instant) (t : Tables) (p : PublisherModel)
      → find_row (has_domain domain) t.publishers ≡ some p
      → store_publisher d command domain homepage_url attempted validated later t
        ≡ raised (conflict d domain)
  unfolding store_publisher
  store_publisher-conflict domain homepage_url attempted validated later t p e =
      rw (e, store_publisher)

  discover-IsRefused :
      (domain : String) (later : Instant) (u : Tables) (p : PublisherModel)
      → Stage domain later (discover d command later)
      → find_row (has_domain domain) u.publishers ≡ some p
      → IsRefused domain later u
  unfolding discover_publisher
  discover-IsRefused domain later u p (inl (e, fails)) found =
      (e, ap (committed d u) (fails u), inr (λ v. ap (committed d v) (fails v)))
  discover-IsRefused domain later u p (inr (homepage_url, attempted, validated, stores)) found = (
    conflict d domain,
    ap (committed d u) (
        stores u
        ∙ store_publisher-conflict domain homepage_url attempted validated later u p found),
    inl refl,
  )

  still_found :
      (domain : String) (t' u : Tables) (p : PublisherModel)
      → ((name : String)
          → find_row (has_domain name) u.publishers ≡ none
          → find_row (has_domain name) t'.publishers ≡ none)
      → find_row (has_domain domain) t'.publishers ≡ some p
      → (q : PublisherModel) × (find_row (has_domain domain) u.publishers ≡ some q)
  still_found domain t' u p keeps found =
      elim (Option-cases (find_row (has_domain domain) u.publishers)) [
        | inr found' ↦ found'
        | inl gone ↦ absurd (none-ne-some p (sym (keeps domain gone) ∙ found))
      ]

  -- Where different numbers have different decimal texts, and no character of the slug that the name gives has a
  -- meaning in a pattern: if discover_publisher returns, it has stored one active publisher behind
  -- the others, under a domain and with a slug that none of them had, with as many channel views as
  -- endpoints were valid. The same command made at any other time, whatever the website answers then,
  -- against any tables that still hold every domain of these, raises and changes nothing: it is
  -- refused as a conflict, unless it fails before the tables are read.
  pub discover_publisher-IsStored :
      ((i j : ℕ) → i < j → str_eq (d.characters.decimal i) (d.characters.decimal j) ≡ false)
      → is_plain (codes (slugify d.characters command.publisher_name)) ≡ true
      → (now later : Instant) (t t' u : Tables) (result : PublisherDiscoveryResult)
      → discover_publisher d command now t ≡ (returned result, t')
      → ((name : String)
          → find_row (has_domain name) u.publishers ≡ none
          → find_row (has_domain name) t'.publishers ≡ none)
      → (domain : String) × (p : PublisherModel) × IsStored t t' result domain p
        × IsRefused domain later u
  unfolding discover_publisher
  discover_publisher-IsStored differ plain now later t t' u result h keeps =
      let done = committed-returned t t' (discover d command now t) result h in
      elim discover-Named [
        | inl (e, fails) ↦ absurd (returned≢raised _ _ (sym done ∙ fails now t))
        | inr (domain, stage) ↦ elim (stage now) [
          | inl (e, fails) ↦ absurd (returned≢raised _ _ (sym done ∙ fails t))
          | inr (homepage_url, attempted, validated, stores) ↦
              let s =
                store_publisher-stored d command domain homepage_url attempted validated now t t'
                  result (sym (stores t) ∙ done) in
              let fresh : is_seen s.0.slug (slugs_of t) ≡ false =
                ap (λ name. is_seen name (slugs_of t)) s.5
                ∙ unique_slug_fresh d.characters.decimal differ slug (slugs_of t) plain in
              let found : find_row (has_domain domain) t'.publishers ≡ some s.0 =
                ap (find_row (has_domain domain)) s.2
                ∙ find_row-append (has_domain domain) s.0 t.publishers s.1 s.3 in
              let (q, still) = still_found domain t' u s.0 keeps found in
              (
                domain,
                s.0,
                (s.1, s.2, s.3, s.4, fresh, s.6, s.7),
                discover-IsRefused domain later u q (stage later) still,
              )
        ]
      ]
