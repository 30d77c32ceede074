-- ===== src/Acquisition/Counted.antt =====
-- How many candidates observe_discovery of backend/src/newsintel/application/acquisition/service.py adds.
use newzyfy.Prelude.{
  suc, ◌==◌, ◌+◌, ◌≡◌, refl, subst, inl, inr, String, Bool, Option, List, [], ◌∷◌, arith, length,
  length-append, update_where, if◌then◌else◌, Option-cases, or_else,
}
use newzyfy.Time.{Instant}
use newzyfy.Outbox.{Uuid}
use newzyfy.Acquisition.Rows.{
  DiscoveryChannel, UrlDiscovery, Store, observed_row, get_by_fingerprint,
}
use newzyfy.Articles.Rows.{candidate_key}
use newzyfy.Acquisition.Service.{ok, CanonicalUrl}
use newzyfy.Acquisition.Observation.{
  ObserveDiscoveryCommand, DiscoveryObservationResult, admit_candidate, record_observation,
  observe_discovery,
}
use newzyfy.Acquisition.Known.{emit_if-candidates, add_discovery_if_absent-is_observed}
use newzyfy.Acquisition.Channels.{observe_discovery-recorded}

length-update_where :
    {A : Type 0} (p : A → Bool) (f : A → A) (xs : List A) → length (update_where p f xs) ≡ length xs
length-update_where p f [] = refl
length-update_where p f (x ∷ xs) = ground (arith, length-update_where p f xs)

-- One more candidate where the flag says that one was created.
abbrev pub IsCounted : Bool → Store → Store → Type 0
IsCounted created s s' =
    length s'.candidates ≡ (if created then length s.candidates + 1 else length s.candidates)

admit_candidate-IsCounted :
    (channel : DiscoveryChannel) (url : CanonicalUrl) (published_at : Option Instant)
    (observed_at clock : Instant) (s : Store)
    → let (s', row, created) = admit_candidate channel url published_at observed_at clock s in
      IsCounted created s s'
unfolding admit_candidate
admit_candidate-IsCounted channel url published_at observed_at clock s =
    elim (Option-cases (get_by_fingerprint url.fingerprint s)) [
      | inl e ↦ rw (e, admit_candidate) (length-append s.candidates _)
      | inr (row, e) ↦
          rw (e, admit_candidate)
            (length-update_where (λ r. candidate_key r == row.id)
              (observed_row published_at observed_at clock) s.candidates)
    ]

record_observation-IsCounted :
    (channel : DiscoveryChannel) (url : CanonicalUrl) (command : ObserveDiscoveryCommand)
    (correlation_id : Option Uuid) (traceparent : Option String) (observed_at clock : Instant)
    (s : Store)
    → let (s', r) =
        record_observation channel url command correlation_id traceparent observed_at clock s in
      IsCounted r.candidate_created s s'
unfolding record_observation
record_observation-IsCounted channel url command correlation_id traceparent observed_at clock s =
    let counted = admit_candidate-IsCounted channel url command.published_at observed_at clock s in
    let (s1, row, created) = admit_candidate channel url command.published_at observed_at clock s in
    let d : UrlDiscovery = record {
      id = s1.next_id;
      url_candidate_id = row.id;
      channel_id = channel.id;
      discovered_url = command.url;
      discovered_at = observed_at;
      channel_position = command.channel_position;
      payload_hash = command.payload_sha256;
    } in
    let (_, same, _) =
      add_discovery_if_absent-is_observed d (record s1 { next_id = suc s1.next_id }) in
    rw (emit_if-candidates, emit_if-candidates, same) counted

-- An observation that succeeds adds one candidate if it says so, and else none.
pub observe_discovery-IsCounted :
    (canonicalize : String → Option CanonicalUrl) (command : ObserveDiscoveryCommand)
    (correlation_id : Option Uuid) (traceparent : Option String) (clock : Instant) (s s' : Store)
    (r : DiscoveryObservationResult)
    → observe_discovery canonicalize command correlation_id traceparent clock s ≡ ok (s', r)
    → IsCounted r.candidate_created s s'
observe_discovery-IsCounted canonicalize command correlation_id traceparent clock s s' r done =
    let (channel, url, same) =
      observe_discovery-recorded canonicalize command correlation_id traceparent clock s s' r
        done in
    subst (λ (p : Store × DiscoveryObservationResult). IsCounted p.1.candidate_created s p.0) same
      (record_observation-IsCounted channel url command correlation_id traceparent
        (or_else command.discovered_at clock) clock s)
