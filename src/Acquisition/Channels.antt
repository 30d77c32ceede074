-- ===== src/Acquisition/Channels.antt =====
-- What observe_discovery and create_channel of
-- backend/src/newsintel/application/acquisition/service.py do to the table of channels.
use newzyfy.Prelude.{
  ◌≡◌, refl, inl, inr, ap, subst, sym, ◌∙◌, String, Option, [], ◌∷◌, ◌++◌, Option-cases, or_else,
  ◌⊎◌,
}
use newzyfy.Time.{Instant}
use newzyfy.Outbox.{Uuid}
use newzyfy.Acquisition.Rows.{DiscoveryChannel, Store, get_by_endpoint, get_publisher}
use newzyfy.Acquisition.Service.{
  ServiceError, invalid, not_found, conflict, Outcome, ok, err, CanonicalUrl, CreateChannelCommand,
  add_channel, create_channel,
}
use newzyfy.Acquisition.Observation.{
  ObserveDiscoveryCommand, DiscoveryObservationResult, record_observation, active_channel,
  observe_discovery,
}
use newzyfy.Acquisition.Known.{record_observation-IsKnown}

pub Outcome-cases :
    {A : Type 0} (o : Outcome A) → ((a : A) × (o ≡ ok a)) ⊎ ((e : ServiceError) × (o ≡ err e))
Outcome-cases (ok a) = inl (a, refl)
Outcome-cases (err e) = inr (e, refl)

-- An observation that succeeds is the unit of work on the channel that it found.
pub observe_discovery-recorded :
    (canonicalize : String → Option CanonicalUrl) (command : ObserveDiscoveryCommand)
    (correlation_id : Option Uuid) (traceparent : Option String) (clock : Instant) (s s' : Store)
    (r : DiscoveryObservationResult)
    → observe_discovery canonicalize command correlation_id traceparent clock s ≡ ok (s', r)
    → (channel : DiscoveryChannel) × (url : CanonicalUrl) × (record_observation channel url command
          correlation_id traceparent
          (or_else command.discovered_at clock)
          clock
          s
        ≡ (s', r))
unfolding observe_discovery
observe_discovery-recorded canonicalize command correlation_id traceparent clock s s' r done =
    elim (Option-cases (canonicalize command.url)) [
      | inl e ↦ absurd (refused invalid (rw (e, observe_discovery) refl))
      | inr (url, e) ↦ elim (Option-cases (active_channel command.channel_id s)) [
        | inl f ↦ absurd (refused not_found (rw (e, f, observe_discovery) refl))
        | inr (channel, f) ↦ (channel, url, kept url channel (rw (e, f, observe_discovery) refl))
      ]
    ]
  where
    refused :
        (e : ServiceError)
        → observe_discovery canonicalize command correlation_id traceparent clock s ≡ err e
        → ⊥
    refused e h = cc

    kept :
        (url : CanonicalUrl) (channel : DiscoveryChannel)
        → observe_discovery canonicalize command correlation_id traceparent clock s
          ≡ ok (
              record_observation channel url command correlation_id traceparent
                (or_else command.discovered_at clock)
                clock
                s)
        → record_observation channel url command correlation_id traceparent
            (or_else command.discovered_at clock)
            clock
            s
          ≡ (s', r)
    kept url channel step = cc

-- An observation leaves the channels as they are.
pub observe_discovery-channels :
    (canonicalize : String → Option CanonicalUrl) (command : ObserveDiscoveryCommand)
    (correlation_id : Option Uuid) (traceparent : Option String) (clock : Instant) (s s' : Store)
    (r : DiscoveryObservationResult)
    → observe_discovery canonicalize command correlation_id traceparent clock s ≡ ok (s', r)
    → s'.channels ≡ s.channels
observe_discovery-channels canonicalize command correlation_id traceparent clock s s' r done =
    let (channel, url, same) =
      observe_discovery-recorded canonicalize command correlation_id traceparent clock s s' r
        done in
    sym (ap (λ (p : Store × DiscoveryObservationResult). p.0.channels) same)
    ∙ (record_observation-IsKnown channel url command correlation_id traceparent
        (or_else command.discovered_at clock) clock s).2

-- A channel that is created stands behind the others, and the candidates are as they were.
pub create_channel-channels :
    (canonicalize : String → Option CanonicalUrl) (command : CreateChannelCommand) (clock : Instant)
    (s s' : Store) (made : DiscoveryChannel)
    → create_channel canonicalize command clock s ≡ ok (s', made)
    → (s'.channels ≡ s.channels ++ made ∷ []) × (s'.candidates ≡ s.candidates)
unfolding create_channel
create_channel-channels canonicalize command clock s s' made done =
    elim (Option-cases (canonicalize command.endpoint_url)) [
      | inl e ↦ absurd (refused invalid (rw (e, create_channel) refl))
      | inr (url, e) ↦ elim (Option-cases (get_publisher command.publisher_id s)) [
        | inl f ↦ absurd (refused not_found (rw (e, f, create_channel) refl))
        | inr (p, f) ↦ elim (Option-cases (get_by_endpoint command.publisher_id url.normalized s)) [
          | inr (c, g) ↦ absurd (refused conflict (rw (e, f, g, create_channel) refl))
          | inl g ↦ added url.normalized (rw (e, f, g, create_channel) refl)
        ]
      ]
    ]
  where
    refused : (e : ServiceError) → create_channel canonicalize command clock s ≡ err e → ⊥
    refused e h = cc

    added :
        (endpoint_url : String)
        → create_channel canonicalize command clock s
          ≡ ok (add_channel endpoint_url command clock s)
        → (s'.channels ≡ s.channels ++ made ∷ []) × (s'.candidates ≡ s.candidates)
    added endpoint_url step =
        let same : add_channel endpoint_url command clock s ≡ (s', made) = cc in
        subst
          (λ (q : Store × DiscoveryChannel).
            (q.0.channels ≡ s.channels ++ q.1 ∷ []) × (q.0.candidates ≡ s.candidates))
          same (unfold add_channel in (refl, refl))
