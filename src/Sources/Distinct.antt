-- ===== src/Sources/Distinct.antt =====
-- The endpoints that unique_endpoints and discover_listing_endpoints of
-- backend/src/newsintel/adapters/collectors/source_discovery.py keep.
use newzyfy.Prelude.{
  ℕ, zero, suc, ◌≤◌, ◌≡◌, inl, inr, refl, sym, subst, ◌∙◌, String, Bool, true, false, ◌&&◌, ◌||◌,
  none, some, List, [], ◌∷◌, map, length, All, str_eq, eq_iff, arith, Bool-cases, Option-cases,
  or_false,
}
use mathlib.Core.Option.{some-injective}
use newzyfy.Text.{is_seen, str_eq_comm, IsDistinct}
use newzyfy.Sources.Endpoints.{
  DiscoveredEndpoint, HtmlArticleLink, keep_parameters, Web, looks_like_listing_page,
  origin_for_url,
}
use newzyfy.Sources.Links.{
  Parsers, page_links, discover_listing_endpoints, same_origin, listing_endpoints, unseen_endpoints,
  unique_endpoints,
}

abbrev pub url_of : DiscoveredEndpoint → String
url_of e = e.url

-- The texts are new and different.
abbrev IsNew : List String → List String → Type 0
IsNew seen us = All (λ u. is_seen u seen ≡ false) us × IsDistinct us

seen_later :
    (n : String) (seen us : List String)
    → All (λ u. is_seen u (n ∷ seen) ≡ false) us
    → (is_seen n us ≡ false) × All (λ u. is_seen u seen ≡ false) us
seen_later n seen [] h = (refl, tt)
seen_later n seen (u ∷ us) h =
    let rest = seen_later n seen us h.1 in
    let apart = or_false (str_eq n u) (is_seen u seen) h.0 in
    (rw (str_eq_comm u n, apart.0) rest.0, (apart.1, rest.1))

or_swap : (a b c : Bool) → ((a || b) || c) ≡ (b || (a || c))
or_swap true true c = refl
or_swap true false c = refl
or_swap false b c = refl

or_middle : (a b c : Bool) → b ≡ true → (a || (b || c)) ≡ true
or_middle true b c h = refl
or_middle false b c h = rw h

module _ (web : Web) (parsers : Parsers) where
  unseen_endpoints-IsNew :
      (endpoints : List DiscoveredEndpoint) (seen : List String)
      → IsNew seen (map url_of (unseen_endpoints web parsers endpoints seen))
  unfolding unseen_endpoints
  unseen_endpoints-IsNew [] seen = (tt, tt)
  unseen_endpoints-IsNew (endpoint ∷ endpoints) seen =
      elim (Option-cases (web.canonicalize_url keep_parameters endpoint.url)) [
        | inl e ↦ rw (e, unseen_endpoints) (unseen_endpoints-IsNew endpoints seen)
        | inr (n, e) ↦ elim (Bool-cases (is_seen n seen)) [
          | inl f ↦ rw (e, f, unseen_endpoints) (unseen_endpoints-IsNew endpoints seen)
          | inr f ↦
              let rest = unseen_endpoints-IsNew endpoints (n ∷ seen) in
              let later = seen_later n seen _ rest.0 in
              rw (e, f, unseen_endpoints) ((f, later.1), (later.0, rest.1))
        ]
      ]

  -- A URL that canonicalize_url accepts is among the given ones.
  abbrev pub is_covered : List String → DiscoveredEndpoint → Bool
  is_covered urls endpoint = elim (web.canonicalize_url keep_parameters endpoint.url) [
    | none ↦ true
    | some n ↦ is_seen n urls
  ]

  unseen_endpoints-is_covered :
      (endpoints : List DiscoveredEndpoint) (seen urls : List String)
      → ((n : String)
          → (is_seen n seen || is_seen n (map url_of (unseen_endpoints web parsers endpoints seen)))
            ≡ true
          → is_seen n urls ≡ true)
      → All (λ e. is_covered urls e ≡ true) endpoints
  unfolding unseen_endpoints
  unseen_endpoints-is_covered [] seen urls h = tt
  unseen_endpoints-is_covered (endpoint ∷ endpoints) seen urls h =
      elim (Option-cases (web.canonicalize_url keep_parameters endpoint.url)) [
        | inl e ↦ (
          rw (e, is_covered),
          unseen_endpoints-is_covered endpoints seen urls (rw (e, unseen_endpoints) at h),
        )
        | inr (n, e) ↦ elim (Bool-cases (is_seen n seen)) [
          | inl f ↦ (
            rw (e, is_covered) (h n (rw f)),
            unseen_endpoints-is_covered endpoints seen urls (rw (e, f, unseen_endpoints) at h),
          )
          | inr f ↦
              let out = map url_of (unseen_endpoints web parsers endpoints (n ∷ seen)) in
              let h' : (m : String)
                  → (is_seen m seen || (str_eq n m || is_seen m out)) ≡ true
                  → is_seen m urls ≡ true =
                rw (e, f, unseen_endpoints) at h in
              (
                rw (e, is_covered) (h' n (or_middle _ _ _ ((eq_iff n n).1 refl))),
                unseen_endpoints-is_covered endpoints (n ∷ seen) urls
                    (λ m k. h' m (sym (or_swap (str_eq n m) _ _) ∙ k)),
              )
        ]
      ]

  -- The endpoints that unique_endpoints keeps have different URLs, and for every given endpoint whose URL
  -- canonicalize_url accepts, the canonical URL is among theirs.
  pub unique_endpoints-IsDistinct :
      (endpoints : List DiscoveredEndpoint)
      → let urls = map url_of (unique_endpoints web parsers endpoints) in
        IsDistinct urls × All (λ e. is_covered urls e ≡ true) endpoints
  unique_endpoints-IsDistinct endpoints = (
    (unseen_endpoints-IsNew endpoints []).1,
    unseen_endpoints-is_covered endpoints [] _ (λ n k. k),
  )

  abbrev IsFewNew : ℕ → List String → List DiscoveredEndpoint → Type 0
  IsFewNew n seen found = IsNew seen (map url_of found) × (length found ≤ n)

  listing_endpoints-IsFewNew :
      (page_origin : String) (n : ℕ) (links : List HtmlArticleLink) (seen : List String)
      → IsFewNew n seen (listing_endpoints web parsers page_origin n links seen)
  unfolding listing_endpoints
  listing_endpoints-IsFewNew page_origin zero links seen = ((tt, tt), omega arith)
  listing_endpoints-IsFewNew page_origin (suc n) [] seen = ((tt, tt), omega arith)
  listing_endpoints-IsFewNew page_origin (suc n) (link ∷ links) seen =
      let skipped = listing_endpoints-IsFewNew page_origin (suc n) links seen in
      elim (Bool-cases (
        same_origin web parsers page_origin (origin_for_url web link.url)
        && looks_like_listing_page web link.url)) [
          | inr e ↦ rw (e, listing_endpoints) skipped
          | inl e ↦ elim (Option-cases (web.canonicalize_url keep_parameters link.url)) [
            | inl f ↦ rw (e, f, listing_endpoints) skipped
            | inr (m, f) ↦ elim (Bool-cases (is_seen m seen)) [
              | inl g ↦ rw (e, f, g, listing_endpoints) skipped
              | inr g ↦
                  let rest = listing_endpoints-IsFewNew page_origin n links (m ∷ seen) in
                  let later = seen_later m seen _ rest.0.0 in
                  rw (e, f, g, listing_endpoints)
                    (((g, later.1), (later.0, rest.0.1)), omega (arith, rest.1))
            ]
          ]
        ]

  -- discover_listing_endpoints, where it does not raise, finds at most max_endpoints endpoints, and their
  -- URLs are different.
  discover_listing_endpoints-IsDistinct :
      (html homepage_url : String) (max_endpoints : ℕ) (found : List DiscoveredEndpoint)
      → discover_listing_endpoints web parsers html homepage_url max_endpoints ≡ some found
      → IsDistinct (map url_of found) × (length found ≤ max_endpoints)
  unfolding discover_listing_endpoints
  discover_listing_endpoints-IsDistinct html homepage_url n found h =
      elim (Option-cases (origin_for_url web homepage_url)) [
        | inl e ↦ absurd (no_page (rw (e, discover_listing_endpoints) at h))
        | inr (o, e) ↦
            let few =
              listing_endpoints-IsFewNew o n (page_links web parsers html homepage_url) [] in
            subst (λ (f : List DiscoveredEndpoint). IsDistinct (map url_of f) × (length f ≤ n))
              (some-injective _ _ (rw (e, discover_listing_endpoints) at h)) (few.0.1, few.1)
      ]
    where
      no_page : none ≡ some found → ⊥
      no_page k = cc
