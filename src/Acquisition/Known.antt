-- ===== src/Acquisition/Known.antt =====
-- What one observation of backend/src/newsintel/application/acquisition/service.py leaves behind: a
-- candidate with the fingerprint of the URL, and the channel's observation of it.
use newzyfy.Prelude.{
  suc, ◌≡◌, refl, ap, ◌∙◌, inl, inr, String, Bool, true, Option, some, List, not, arith, str_eq,
  eq_iff, ◌==◌, ==_refl, is_none, find_row, find_row-update_where, find_row-append, Option-cases,
}
use newzyfy.Time.{Instant}
use newzyfy.Outbox.{Uuid, IntegrationEvent}
use newzyfy.Articles.Rows.{UrlCandidateModel, candidate_key}
use newzyfy.Acquisition.Rows.{
  DiscoveryChannel, UrlDiscovery, Store, get_by_fingerprint, new_candidate, observed_row,
  is_discovery, add_discovery_if_absent, emit_if,
}
use newzyfy.Acquisition.Service.{CanonicalUrl}
use newzyfy.Acquisition.Observation.{ObserveDiscoveryCommand, admit_candidate, record_observation}

-- The fingerprint belongs to a stored candidate with this identifier.
abbrev pub IsKnown : String → Uuid → List UrlCandidateModel → Type 0
IsKnown fingerprint id candidates =
    (row : UrlCandidateModel) × (find_row
        (λ (c : UrlCandidateModel). str_eq c.url_fingerprint fingerprint) candidates
      ≡ some row)
    × (row.id ≡ id)

abbrev pub is_observed : Uuid → Uuid → Store → Bool
is_observed candidate_id channel_id s =
    not (is_none (find_row (is_discovery candidate_id channel_id) s.discoveries))

admit_candidate-IsKnown :
    (channel : DiscoveryChannel) (url : CanonicalUrl) (published_at : Option Instant)
    (observed_at clock : Instant) (s : Store)
    → let (s', row, _) = admit_candidate channel url published_at observed_at clock s in
      IsKnown url.fingerprint row.id s'.candidates
unfolding admit_candidate observed_row new_candidate
admit_candidate-IsKnown channel url published_at observed_at clock s =
    elim (Option-cases (get_by_fingerprint url.fingerprint s)) [
      | inl e ↦
          rw (e, admit_candidate)
            (
              _,
              find_row-append (λ (c : UrlCandidateModel). str_eq c.url_fingerprint url.fingerprint)
                  _ s.candidates e ((eq_iff url.fingerprint url.fingerprint).1 refl),
              refl,
            )
      | inr (row, e) ↦
          rw (e, admit_candidate)
            (
              observed_row published_at observed_at clock row,
              find_row-update_where
                    (λ (c : UrlCandidateModel). str_eq c.url_fingerprint url.fingerprint)
                    (λ r. candidate_key r == row.id) (observed_row published_at observed_at clock)
                    (λ x. refl) s.candidates
                  ∙ rw (e, ==_refl row.id) refl,
              refl,
            )
    ]

pub add_discovery_if_absent-is_observed :
    (d : UrlDiscovery) (s : Store)
    → let (s', created) = add_discovery_if_absent d s in
      (is_observed d.url_candidate_id d.channel_id s' ≡ true)
      × (s'.candidates ≡ s.candidates)
      × (s'.channels ≡ s.channels)
unfolding add_discovery_if_absent
add_discovery_if_absent-is_observed d s =
    elim (Option-cases (find_row (is_discovery d.url_candidate_id d.channel_id) s.discoveries)) [
      | inl e ↦
          rw (e, add_discovery_if_absent)
            (
              ap (λ o. not (is_none o))
                  (find_row-append (is_discovery d.url_candidate_id d.channel_id) d s.discoveries e
                    (ground (arith, ==_refl d.url_candidate_id, ==_refl d.channel_id))),
              refl,
              refl,
            )
      | inr (x, e) ↦ rw (e, add_discovery_if_absent) (rw e refl, refl, refl)
    ]

admit_candidate-channels :
    (channel : DiscoveryChannel) (url : CanonicalUrl) (published_at : Option Instant)
    (observed_at clock : Instant) (s : Store)
    → (admit_candidate channel url published_at observed_at clock s).0.channels ≡ s.channels
unfolding admit_candidate
admit_candidate-channels channel url published_at observed_at clock s = ground arith

module _ (b : Bool) (event : Uuid → IntegrationEvent) (s : Store) where
  pub emit_if-candidates : (emit_if b event s).candidates ≡ s.candidates
  unfolding emit_if
  emit_if-candidates = ground arith

  emit_if-discoveries : (emit_if b event s).discoveries ≡ s.discoveries
  unfolding emit_if
  emit_if-discoveries = ground arith

  emit_if-channels : (emit_if b event s).channels ≡ s.channels
  unfolding emit_if
  emit_if-channels = ground arith

module _ (channel : DiscoveryChannel) (url : CanonicalUrl) (command : ObserveDiscoveryCommand)
    (correlation_id : Option Uuid) (traceparent : Option String) where
  -- What an observation leaves behind.
  pub record_observation-IsKnown :
      (observed_at clock : Instant) (s : Store)
      → let (s', r) =
          record_observation channel url command correlation_id traceparent observed_at clock s in
        IsKnown url.fingerprint r.candidate_id s'.candidates
        × (is_observed r.candidate_id channel.id s' ≡ true)
        × (s'.channels ≡ s.channels)
  unfolding record_observation
  record_observation-IsKnown observed_at clock s =
      let known = admit_candidate-IsKnown channel url command.published_at observed_at clock s in
      let kept = admit_candidate-channels channel url command.published_at observed_at clock s in
      let (s1, row, created) =
        admit_candidate channel url command.published_at observed_at clock s in
      let d : UrlDiscovery = record {
        id = s1.next_id;
        url_candidate_id = row.id;
        channel_id = channel.id;
        discovered_url = command.url;
        discovered_at = observed_at;
        channel_position = command.channel_position;
        payload_hash = command.payload_sha256;
      } in
      let (there, same, same') =
        add_discovery_if_absent-is_observed d (record s1 { next_id = suc s1.next_id }) in
      (
        rw (emit_if-candidates, emit_if-candidates, same) known,
        rw (emit_if-discoveries, emit_if-discoveries) there,
        rw (emit_if-channels, emit_if-channels, same') kept,
      )
