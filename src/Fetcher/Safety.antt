-- ===== src/Fetcher/Safety.antt =====
-- What SafeHttpFetcher.fetch of backend/src/newsintel/adapters/http/safe_fetcher.py requests and returns.
use newzyfy.Prelude.{
  ℕ, zero, suc, ◌≡◌, ◌≢◌, ◌⊎◌, inl, inr, refl, sym, String, Bool, true, false, ◌||◌, Option, none,
  some, List, [], ◌∷◌, ◌++◌, All, str_eq, Bool-cases,
}
use newzyfy.Text.{is_empty}
use newzyfy.Articles.Types.{Error, FetchResult}
use newzyfy.Articles.World.{Result, returned, raised}
use newzyfy.Fetcher.{
  FetchRequest, SplitResult, Response, Sent, Network, FetchSettings, assert_all_global,
  assert_public_hostname, validate_url, sent_to, Turn, redirected, finished, turn, fetch_rounds,
  validate_hostname, too_many_redirects,
}

pub Result-cases :
    {A : Type 0} (r : Result A) → ((a : A) × (r ≡ returned a)) ⊎ ((e : Error) × (r ≡ raised e))
Result-cases (returned a) = inl (a, refl)
Result-cases (raised e) = inr (e, refl)

pub returned≢raised : {A : Type 0} (a : A) (e : Error) → returned a ≢ raised e
returned≢raised a e h = cc

module _ (net : Network) where
  -- A name that resolves, and only to public addresses.
  abbrev IsPublic : ℕ → String → Type 0
  IsPublic round hostname =
      (address : String) × (addresses : List String) × (net.getaddrinfo round hostname
        ≡ returned (address ∷ addresses))
      × All (λ a. net.is_global a ≡ true) (address ∷ addresses)

  -- A URL of http or https whose host is public.
  abbrev IsPublicTarget : ℕ → String → Type 0
  IsPublicTarget round url =
      (parsed : SplitResult) × (hostname : String) × (net.urlsplit url ≡ returned parsed)
      × ((str_eq parsed.scheme "http" || str_eq parsed.scheme "https") ≡ true)
      × (parsed.hostname ≡ some hostname)
      × (is_empty hostname ≡ false)
      × IsPublic round hostname

  -- Each request goes to a URL that is a public target in the round of the request.
  abbrev pub IsSafe : ℕ → List Sent → Type 0
  IsSafe round [] = Unit
  IsSafe round (s ∷ sent) = IsPublicTarget round s.url × IsSafe (suc round) sent

  assert_all_global-All :
      (addresses : List String)
      → assert_all_global net addresses ≡ returned tt
      → All (λ a. net.is_global a ≡ true) addresses
  assert_all_global-All [] h = tt
  assert_all_global-All (a ∷ rest) h = elim (Bool-cases (net.is_global a)) [
    | inl e ↦ (e, assert_all_global-All rest (rw e at h))
    | inr e ↦ absurd (returned≢raised _ _ (sym (rw e at h)))
  ]

  assert_public_hostname-IsPublic :
      (round : ℕ) (hostname : String)
      → assert_public_hostname net round hostname ≡ returned tt
      → IsPublic round hostname
  unfolding assert_public_hostname
  assert_public_hostname-IsPublic round hostname h =
      elim (Result-cases (net.getaddrinfo round hostname)) [
        | inl ([], e) ↦ absurd (returned≢raised _ _ (sym (rw (e, assert_public_hostname) at h)))
        | inl (a ∷ rest, e) ↦
            (a, rest, e, assert_all_global-All (a ∷ rest) (rw (e, assert_public_hostname) at h))
        | inr (x, e) ↦ absurd (returned≢raised _ _ (sym (rw (e, assert_public_hostname) at h)))
      ]

  validate_hostname-IsPublic :
      (round : ℕ) (web : Bool) (name : Option String)
      → validate_hostname net round web name ≡ returned tt
      → (hostname : String) × (web ≡ true)
        × (name ≡ some hostname)
        × (is_empty hostname ≡ false)
        × IsPublic round hostname
  validate_hostname-IsPublic round true (some hostname) h = elim (Bool-cases (is_empty hostname)) [
    | inl e ↦ absurd (returned≢raised _ _ (sym (rw e at h)))
    | inr e ↦ (hostname, refl, refl, e, assert_public_hostname-IsPublic round hostname (rw e at h))
  ]
  validate_hostname-IsPublic round true none h = absurd (returned≢raised _ _ (sym h))
  validate_hostname-IsPublic round false _ h = absurd (returned≢raised _ _ (sym h))

  validate_url-IsPublicTarget :
      (round : ℕ) (url : String)
      → validate_url net round url ≡ returned tt
      → IsPublicTarget round url
  unfolding validate_url
  validate_url-IsPublicTarget round url h = elim (Result-cases (net.urlsplit url)) [
    | inr (x, e) ↦ absurd (returned≢raised _ _ (sym (rw (e, validate_url) at h)))
    | inl (parsed, e) ↦
        let host =
          validate_hostname-IsPublic round
            (str_eq parsed.scheme "http" || str_eq parsed.scheme "https") parsed.hostname
            (rw (e, validate_url) at h) in
        (parsed, host.0, e, host.1, host.2, host.3, host.4)
  ]

module _ (net : Network) (settings : FetchSettings) (request : FetchRequest) where
  -- How a fetch may go on from a round: the rounds left, the number of this one, its URL, the
  -- redirects before it, the result and the requests that are sent.
  pub data Run : ℕ → ℕ → String → List String → Result FetchResult → List Sent → Type 0 where
    exhausted :
        {round : ℕ} {current : String} {redirects : List String}
        → Run zero round current redirects (raised too_many_redirects) []
    refused :
        {n round : ℕ} {current : String} {redirects : List String} {e : Error}
        → Run (suc n) round current redirects (raised e) []
    failed :
        {n round : ℕ} {current : String} {redirects : List String} {e : Error}
        → IsPublicTarget net round current
        → Run (suc n) round current redirects (raised e) (sent_to net settings request current ∷ [])
    stopped :
        {n round : ℕ} {current : String} {redirects : List String} (response : Response)
        {result : Result FetchResult}
        → IsPublicTarget net round current
        → net.respond round (sent_to net settings request current) ≡ returned response
        → turn net settings request current redirects response ≡ finished result
        → Run (suc n) round current redirects result (sent_to net settings request current ∷ [])
    moved :
        {n round : ℕ} {current url : String} {redirects : List String} {response : Response}
        {result : Result FetchResult} {sent : List Sent}
        → IsPublicTarget net round current
        → net.respond round (sent_to net settings request current) ≡ returned response
        → turn net settings request current redirects response ≡ redirected url
        → Run n (suc round) url (redirects ++ current ∷ []) result sent
        → Run (suc n) round current redirects result (sent_to net settings request current ∷ sent)

  Turn-cases :
      (t : Turn)
      → ((url : String) × (t ≡ redirected url)) ⊎ ((r : Result FetchResult) × (t ≡ finished r))
  Turn-cases (redirected url) = inl (url, refl)
  Turn-cases (finished r) = inr (r, refl)

  pub fetch_rounds-Run :
      (n round : ℕ) (current : String) (redirects : List String)
      → let done = fetch_rounds net settings request n round current redirects in
        Run n round current redirects done.0 done.1
  unfolding fetch_rounds
  fetch_rounds-Run zero round current redirects = exhausted
  fetch_rounds-Run (suc n) round current redirects =
      elim (Result-cases (validate_url net round current)) [
        | inr (e, v) ↦ rw (v, fetch_rounds) refused
        | inl (_, v) ↦
            let target = validate_url-IsPublicTarget net round current v in
            elim (Result-cases (net.respond round (sent_to net settings request current))) [
              | inr (e, w) ↦ rw (v, w, fetch_rounds) (failed target)
              | inl (response, w) ↦
                  elim (Turn-cases (turn net settings request current redirects response)) [
                    | inr (r, t) ↦ rw (v, w, t, fetch_rounds) (stopped response target w t)
                    | inl (url, t) ↦
                        rw (v, w, t, fetch_rounds)
                          (moved target w t
                            (fetch_rounds-Run n (suc round) url (redirects ++ current ∷ [])))
                  ]
            ]
      ]
