-- ===== src/Acquisition/Repeats.antt =====
-- A discovery that is observed again: what observe_discovery of
-- backend/src/newsintel/application/acquisition/service.py does with it.
use newzyfy.Prelude.{
  ◌≡◌, refl, subst, inl, inr, String, true, false, Option, some, [], map, arith, ◌==◌, is_none,
  or_else, find_row, update_where, map-key-update_where, Option-cases,
}
use newzyfy.Time.{Instant}
use newzyfy.Outbox.{Uuid}
use newzyfy.Articles.Rows.{UrlCandidateModel, candidate_key}
use newzyfy.Acquisition.Rows.{
  DiscoveryChannel, Store, get_by_fingerprint, observed_row, is_discovery, add_discovery_if_absent,
  emit_if,
}
use newzyfy.Acquisition.Service.{ServiceError, invalid, not_found, ok, err, CanonicalUrl}
use newzyfy.Acquisition.Observation.{
  ObserveDiscoveryCommand, DiscoveryObservationResult, admit_candidate, record_observation,
  observe_discovery, active_channel,
}
use newzyfy.Acquisition.Known.{IsKnown, is_observed, record_observation-IsKnown}

-- Nothing was created, sent or stored for the candidate with this identifier.
abbrev pub IsRepeat : Uuid → Store → Store → DiscoveryObservationResult → Type 0
IsRepeat id s s' r =
    (r.candidate_id ≡ id)
    × (r.candidate_created ≡ false)
    × (r.channel_observation_created ≡ false)
    × (r.outbox_event_ids ≡ [])
    × (map candidate_key s'.candidates ≡ map candidate_key s.candidates)
    × (s'.discoveries ≡ s.discoveries)
    × (s'.outbox ≡ s.outbox)

module _ (channel : DiscoveryChannel) (url : CanonicalUrl) (command : ObserveDiscoveryCommand)
    (correlation_id : Option Uuid) (traceparent : Option String) where
  admit_candidate_known :
      (published_at : Option Instant) (observed_at clock : Instant) (s : Store)
      (row : UrlCandidateModel)
      → get_by_fingerprint url.fingerprint s ≡ some row
      → let f = observed_row published_at observed_at clock in
        admit_candidate channel url published_at observed_at clock s ≡ (
          record s { candidates = update_where (λ r. candidate_key r == row.id) f s.candidates },
          f row,
          false,
        )
  unfolding admit_candidate
  admit_candidate_known published_at observed_at clock s row e = rw (e, admit_candidate) refl

  -- An observation of a candidate that this channel has observed already is a repeat.
  record_observation-IsRepeat :
      (observed_at clock : Instant) (s : Store) (id : Uuid)
      → IsKnown url.fingerprint id s.candidates
      → is_observed id channel.id s ≡ true
      → let (s', r) =
          record_observation channel url command correlation_id traceparent observed_at clock s in
        IsRepeat id s s' r
  unfolding record_observation add_discovery_if_absent emit_if observed_row
  record_observation-IsRepeat observed_at clock s id (row, found, same) seen =
      let seen' : is_none (find_row (is_discovery row.id channel.id) s.discoveries) ≡ false =
        rw same (ground arith) in
      rw
        (
          admit_candidate_known command.published_at observed_at clock s row found,
          seen',
          add_discovery_if_absent,
        )
        (
          same,
          refl,
          refl,
          refl,
          map-key-update_where candidate_key _ (observed_row command.published_at observed_at clock)
              (λ _. refl) s.candidates,
          refl,
          refl,
        )

-- After an observation that succeeds, the same observation at any later time succeeds too, and it is a
-- repeat: it names the same candidate, creates no candidate, no observation and no event, and keeps the
-- candidates' identifiers, the observations and the outbox.
pub observe_discovery_again :
    (canonicalize : String → Option CanonicalUrl) (command : ObserveDiscoveryCommand)
    (correlation_id : Option Uuid) (traceparent : Option String) (clock clock' : Instant)
    (s s1 : Store) (r : DiscoveryObservationResult)
    → observe_discovery canonicalize command correlation_id traceparent clock s ≡ ok (s1, r)
    → (s2 : Store) × (r' : DiscoveryObservationResult) × (observe_discovery canonicalize command
          correlation_id traceparent clock' s1
        ≡ ok (s2, r'))
      × IsRepeat r.candidate_id s1 s2 r'
unfolding observe_discovery
observe_discovery_again canonicalize command correlation_id traceparent clock clock' s s1 r done =
    elim (Option-cases (canonicalize command.url)) [
      | inl e ↦ absurd (refused invalid (rw (e, observe_discovery) refl))
      | inr (url, e) ↦ elim (Option-cases (active_channel command.channel_id s)) [
        | inl f ↦ absurd (refused not_found (rw (e, f, observe_discovery) refl))
        | inr (channel, f) ↦ repeat url e channel f
      ]
    ]
  where
    refused :
        (e : ServiceError)
        → observe_discovery canonicalize command correlation_id traceparent clock s ≡ err e
        → ⊥
    refused e h = cc

    repeat :
        (url : CanonicalUrl)
        → canonicalize command.url ≡ some url
        → (channel : DiscoveryChannel) → active_channel command.channel_id s ≡ some channel
        → (s2 : Store) × (r' : DiscoveryObservationResult) × (observe_discovery canonicalize command
              correlation_id traceparent clock' s1
            ≡ ok (s2, r'))
          × IsRepeat r.candidate_id s1 s2 r'
    repeat url e channel f =
        let at = or_else command.discovered_at clock in
        let first = record_observation channel url command correlation_id traceparent at clock s in
        let step : observe_discovery canonicalize command correlation_id traceparent clock s
            ≡ ok first =
          rw (e, f, observe_discovery) refl in
        let same : first ≡ (s1, r) = cc in
        let (known, seen, kept) =
          subst
            (λ (p : Store × DiscoveryObservationResult).
              IsKnown url.fingerprint p.1.candidate_id p.0.candidates
              × (is_observed p.1.candidate_id channel.id p.0 ≡ true)
              × (p.0.channels ≡ s.channels))
            same
            (record_observation-IsKnown channel url command correlation_id traceparent at clock
              s) in
        let f' : active_channel command.channel_id s1 ≡ some channel = rw kept f in
        let at' = or_else command.discovered_at clock' in
        let second =
          record_observation channel url command correlation_id traceparent at' clock' s1 in
        (
          second.0,
          second.1,
          rw (e, f', observe_discovery) refl,
          record_observation-IsRepeat channel url command correlation_id traceparent at' clock' s1
              r.candidate_id known seen,
        )
