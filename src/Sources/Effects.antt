-- ===== src/Sources/Effects.antt =====
-- What delete_publisher, create_fetch_job and _create_channel_if_absent of
-- backend/src/newsintel/application/sources/service.py leave in the tables.
use newzyfy.Prelude.{
  ◌≡◌, refl, ◌∙◌, inl, inr, ◌⊎◌, String, Bool, true, false, not, ◌&&◌, ◌||◌, Option, none, some,
  List, [], ◌∷◌, keep, elem, update_where, find_key, find_key-update_where, ◌==◌, ==_refl, ==_iff,
  ◌≢◌, Pairwise, update_where-Pairwise, Bool-cases, Option-cases, arith,
}
use newzyfy.Time.{Instant}
use newzyfy.Outbox.{Uuid}
use newzyfy.Articles.World.{raised}
use newzyfy.Acquisition.Rows.{DiscoveryChannel}
use newzyfy.Sources.{PublisherModel, Tables, publisher_key, get_publisher}
use newzyfy.Sources.Service.{fetch_target_publishers, create_fetch_job, delete_publisher, no_target}

-- What a deletion makes of a publisher: the one with this identifier is inactive, and the others are as
-- they were.
abbrev pub IsPublisherAfter : Uuid → Instant → PublisherModel → PublisherModel → Type 0
IsPublisherAfter id now p p' =
    ((p.id ≡ id) × (p' ≡ record p { active = false; updated_at = now })) ⊎ ((p.id ≢ id) × (p' ≡ p))

-- And of a channel, by its publisher.
abbrev pub IsChannelAfter : Uuid → Instant → DiscoveryChannel → DiscoveryChannel → Type 0
IsChannelAfter id now c c' =
    ((c.publisher_id ≡ id) × (c' ≡ record c { active = false; updated_at = now }))
    ⊎ ((c.publisher_id ≢ id) × (c' ≡ c))

not_equal : (a b : Uuid) → (a == b) ≡ false → a ≢ b
not_equal a b e same = ground (arith, same, (==_iff a b).1 same)

no_target_left :
    (id : Uuid) (now : Instant) (publishers : List PublisherModel)
    → keep
        (λ (p : PublisherModel). p.active && p.id == id)
        (update_where
          (λ (p : PublisherModel). p.id == id)
          (λ (p : PublisherModel). record p { active = false; updated_at = now })
          publishers)
      ≡ []
no_target_left id now [] = refl
no_target_left id now (p ∷ publishers) = elim (Bool-cases (p.id == id)) [
  | inl e ↦ rw e (no_target_left id now publishers)
  | inr e ↦ elim (Bool-cases p.active) [
    | inl a ↦ rw (e, a, e) (no_target_left id now publishers)
    | inr a ↦ rw (e, a) (no_target_left id now publishers)
  ]
]

fetch_job_refused :
    (describe : Uuid → String) (id : Uuid) (later : Instant) (t : Tables)
    → keep (λ (p : PublisherModel). p.active && p.id == id) t.publishers ≡ []
    → create_fetch_job describe (some id) later t ≡ (raised (no_target describe (some id)), t)
unfolding create_fetch_job fetch_target_publishers
fetch_job_refused describe id later t h = rw (h, create_fetch_job)

-- delete_publisher answers whether there is a row, and leaves the tables as they are if not. If there is,
-- that publisher and its channels are made inactive, in their places and with nothing else changed but
-- the time of their update; the other publishers, the other channels and the other tables are as they were;
-- and a fetch job for the publisher is refused.
pub delete_publisher-IsDeleted :
    (describe : Uuid → String) (id : Uuid) (now later : Instant) (t : Tables)
    → let (found, t') = delete_publisher id now t in
      ((found ≡ false) × (get_publisher id t ≡ none) × (t' ≡ t))
      ⊎ ((row : PublisherModel) × (found ≡ true)
          × (get_publisher id t ≡ some row)
          × (get_publisher id t' ≡ some (record row { active = false; updated_at = now }))
          × Pairwise (IsPublisherAfter id now) t.publishers t'.publishers
          × Pairwise (IsChannelAfter id now) t.channels t'.channels
          × (t' ≡ record t { publishers = t'.publishers; channels = t'.channels })
          × (create_fetch_job describe (some id) later t'
              ≡ (raised (no_target describe (some id)), t')))
unfolding delete_publisher
delete_publisher-IsDeleted describe id now later t = elim (Option-cases (get_publisher id t)) [
  | inl e ↦ rw (e, delete_publisher) (inl (refl, refl, refl))
  | inr (row, e) ↦
      rw (e, delete_publisher)
        (inr (
          row,
          refl,
          refl,
          found_row row e,
          update_where-Pairwise (λ (p : PublisherModel). p.id == id) _ (IsPublisherAfter id now)
              (λ p e. inl ((==_iff p.id id).0 e, refl)) (λ p e. inr (not_equal p.id id e, refl))
              t.publishers,
          update_where-Pairwise (λ (c : DiscoveryChannel). c.publisher_id == id) _
              (IsChannelAfter id now) (λ c e. inl ((==_iff c.publisher_id id).0 e, refl))
              (λ c e. inr (not_equal c.publisher_id id e, refl)) t.channels,
          refl,
          fetch_job_refused describe id later _ (no_target_left id now t.publishers),
        ))
]
  where
    found_row :
        (row : PublisherModel)
        → get_publisher id t ≡ some row
        → find_key publisher_key id (
            update_where
              (λ (p : PublisherModel). p.id == id)
              (λ (p : PublisherModel). record p { active = false; updated_at = now })
              t.publishers)
          ≡ some (record row { active = false; updated_at = now })
    found_row row e =
        find_key-update_where publisher_key
          (λ (p : PublisherModel). record p { active = false; updated_at = now }) (λ k. k == id) id
          (λ p. refl) t.publishers
        ∙ rw (==_refl id, e) refl

abbrev polled_at : Instant → Option Instant → Bool
polled_at now none = false
polled_at now (some t) = t == now

-- An active channel of one of the publishers is to be polled at the given instant.
abbrev pub is_scheduled : List Uuid → Instant → DiscoveryChannel → Bool
is_scheduled targets now c =
    not (elem c.publisher_id targets && c.active) || polled_at now c.next_poll_at

pub List-cases :
    (ids : List Uuid) → (ids ≡ []) ⊎ ((id : Uuid) × (rest : List Uuid) × (ids ≡ id ∷ rest))
List-cases [] = inl refl
List-cases (id ∷ rest) = inr (id, rest, refl)
