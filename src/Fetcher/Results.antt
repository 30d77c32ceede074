-- ===== src/Fetcher/Results.antt =====
-- What a run of SafeHttpFetcher.fetch, backend/src/newsintel/adapters/http/safe_fetcher.py, requests, and
-- what the result that it returns says.
use newzyfy.Prelude.{
  ℕ, ◌+◌, ◌≤◌, ◌≡◌, ◌≢◌, inl, inr, refl, sym, subst, ◌∙◌, String, true, false, Option, none, some,
  List, [], ◌∷◌, ◌++◌, map, length, length-append, ltb, arith, Bool-cases, ==_iff,
}
use mathlib.Core.Bool.{true≢false}
use mathlib.Core.List.{append_assoc}
use newzyfy.Text.{is_empty}
use newzyfy.Articles.Types.{Error, FetchResult, not_modified}
use newzyfy.Articles.World.{Result, returned}
use newzyfy.Fetcher.{
  FetchRequest, Response, Sent, Network, FetchSettings, read_body, sent_to, fetch_result, finish,
  redirected, finished, location_turn, turn, fetch, location_turn,
}
use newzyfy.Fetcher.Safety.{
  Result-cases, returned≢raised, IsSafe, Run, exhausted, refused, failed, stopped, moved,
  fetch_rounds-Run,
}

pub returned-inj : {A : Type 0} (a b : A) → returned a ≡ returned b → a ≡ b
returned-inj a b h = cc

finished-inj : (a b : Result FetchResult) → finished a ≡ finished b → a ≡ b
finished-inj a b h = cc

redirected≢finished : (url : String) (r : Result FetchResult) → redirected url ≢ finished r
redirected≢finished url r h = cc

-- A body that is returned is within the limit.
read_body-le :
    (max_bytes : ℕ) (body : List ℕ) (chunks : List (List ℕ)) (broken : Option Error) (all : List ℕ)
    → length body ≤ max_bytes
    → read_body max_bytes body chunks broken ≡ returned all
    → length all ≤ max_bytes
unfolding read_body
read_body-le max_bytes body [] none all h e =
    subst (λ (x : List ℕ). length x ≤ max_bytes) (returned-inj body all e) h
read_body-le max_bytes body [] (some x) all h e = absurd (returned≢raised _ _ (sym e))
read_body-le max_bytes body (chunk ∷ chunks) broken all h e =
    elim (Bool-cases (ltb max_bytes (length (body ++ chunk)))) [
      | inl c ↦ absurd (returned≢raised _ _ (sym (rw (c, read_body) at e)))
      | inr c ↦
          read_body-le max_bytes (body ++ chunk) chunks broken all (ground arith)
            (rw (c, read_body) at e)
    ]

module _ (net : Network) (settings : FetchSettings) (request : FetchRequest) where
  abbrev pub url_of : Sent → String
  url_of s = s.url

  -- What the fields of a result say of the requests before it.
  abbrev pub IsFetched : List String → List Sent → FetchResult → Type 0
  IsFetched redirects sent r =
      (response : Response) × (round : ℕ) × (last : String) × (net.respond round
          (sent_to net settings request last)
        ≡ returned response)
      × (redirects ++ map url_of sent ≡ r.redirect_chain ++ last ∷ [])
      × (length r.redirect_chain + 1 ≡ length redirects + length sent)
      × (r.requested_url ≡ request.url)
      × (r.final_url ≡ response.url)
      × (r.status_code ≡ response.status_code)
      × (response.is_redirect ≡ false)
      × (r.body_length ≤ settings.max_bytes)

  Run-IsSafe :
      (n round : ℕ) (current : String) (redirects : List String) (result : Result FetchResult)
      (sent : List Sent)
      → Run net settings request n round current redirects result sent
      → IsSafe net round sent × (length sent ≤ n)
  Run-IsSafe _ _ _ _ _ _ exhausted = (tt, omega arith)
  Run-IsSafe _ _ _ _ _ _ refused = (tt, omega arith)
  Run-IsSafe _ _ _ _ _ _ (failed target) = ((target, tt), omega arith)
  Run-IsSafe _ _ _ _ _ _ (stopped _ target _ _) = ((target, tt), omega arith)
  Run-IsSafe _ _ _ _ _ _ (moved target _ _ rest) =
      let later = Run-IsSafe _ _ _ _ _ _ rest in ((target, later.0), omega arith)

  fetch-Run :
      let done = fetch net settings request in
      Run net settings request (settings.max_redirects + 1) 0 request.url [] done.0 done.1
  unfolding fetch
  fetch-Run = fetch_rounds-Run net settings request (settings.max_redirects + 1) 0 request.url []

  -- Every request that a fetch sends goes to a URL of http or https whose host resolves, in the round
  -- of the request, and only to public addresses; and no more than max_redirects + 1 are sent.
  pub fetch-IsSafe :
      let sent = (fetch net settings request).1 in
      IsSafe net 0 sent × (length sent ≤ settings.max_redirects + 1)
  fetch-IsSafe = Run-IsSafe _ _ _ _ _ _ fetch-Run

  location_turn-raised :
      (current : String) (location : Option String) (r : FetchResult)
      → location_turn net settings request current location ≢ finished (returned r)
  location_turn-raised current none r h = returned≢raised _ _ (sym (finished-inj _ _ h))
  location_turn-raised current (some l) r h = elim (Bool-cases (is_empty l)) [
    | inl e ↦ returned≢raised _ _ (sym (finished-inj _ _ (rw e at h)))
    | inr e ↦ redirected≢finished _ _ (rw e at h)
  ]

  turn-finished :
      (current : String) (redirects : List String) (response : Response) (r : FetchResult)
      → turn net settings request current redirects response ≡ finished (returned r)
      → (body : List ℕ) × (response.is_redirect ≡ false)
        × (length body ≤ settings.max_bytes)
        × (r ≡ fetch_result net settings request redirects response body)
  unfolding turn
  turn-finished current redirects response r h = elim (Bool-cases response.is_redirect) [
    | inl e ↦
        absurd (location_turn-raised current (response.header "location") r (rw (e, turn) at h))
    | inr e ↦
        let done : finish net settings request redirects response ≡ returned r =
          finished-inj _ _ (rw (e, turn) at h) in
        elim (Result-cases (read_body settings.max_bytes [] response.chunks response.broken)) [
          | inr (x, f) ↦ absurd (returned≢raised _ _ (sym (rw (f, finish) at done)))
          | inl (body, f) ↦ (
            body,
            e,
            read_body-le settings.max_bytes [] response.chunks response.broken body (omega arith) f,
            sym (returned-inj _ _ (rw (f, finish) at done)),
          )
        ]
  ]

  Run-IsFetched :
      (n round : ℕ) (current : String) (redirects : List String) (r : FetchResult)
      (sent : List Sent)
      → Run net settings request n round current redirects (returned r) sent
      → IsFetched redirects sent r
  Run-IsFetched _ round _ redirects r _ (stopped {current = c} response target w t) =
      let f = turn-finished c redirects response r t in
      rw (f.3) (response, round, c, w, refl, omega arith, refl, refl, refl, f.1, f.2)
  Run-IsFetched _ _ _ redirects r _ (moved {current = c} {sent = sent} target _ _ rest) =
      let f = Run-IsFetched _ _ _ _ _ _ rest in
      (
        f.0,
        f.1,
        f.2,
        f.3,
        sym (append_assoc redirects (c ∷ []) (map url_of sent)) ∙ f.4,
        omega (arith, f.5, length-append redirects (c ∷ [])),
        f.6,
        f.7,
        f.8,
        f.9,
        f.10,
      )

  -- Where a fetch returns a result, it asked for the URLs of the redirect chain in order and then for
  -- one more, whose response, not a redirect, the result has the status and the URL of; the chain is
  -- no longer than max_redirects, the body no longer than max_bytes, and requested_url is the URL
  -- of the request.
  pub fetch-IsFetched :
      (r : FetchResult)
      → (fetch net settings request).0 ≡ returned r
      → IsFetched [] (fetch net settings request).1 r
        × (length r.redirect_chain ≤ settings.max_redirects)
  fetch-IsFetched r e =
      let sent = (fetch net settings request).1 in
      let run : Run net settings request (settings.max_redirects + 1) 0 request.url [] (returned r)
          sent =
        rw e at (fetch-Run) in
      let f = Run-IsFetched _ _ _ _ _ _ run in
      (f, omega (arith, f.5, (Run-IsSafe _ _ _ _ _ _ run).1))

  -- An HTTP client for which a response of status 304 counts as a redirect, as any of status 3xx, never
  -- lets a fetch return a result whose not_modified is true.
  pub fetch-not_modified :
      ((round : ℕ) (s : Sent) (response : Response)
        → net.respond round s ≡ returned response
        → response.status_code ≡ 304
        → response.is_redirect ≡ true)
      → (r : FetchResult) → (fetch net settings request).0 ≡ returned r
      → not_modified r ≡ false
  fetch-not_modified client r e =
      let f = (fetch-IsFetched r e).0 in
      elim (Bool-cases (not_modified r)) [
        | inr other ↦ other
        | inl eq304 ↦ absurd (
            true≢false (
              sym (
                client f.1 (sent_to net settings request f.2) f.0 f.3
                  (sym f.8 ∙ (==_iff r.status_code 304).0 eq304))
              ∙ f.9))
      ]
