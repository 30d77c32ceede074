-- ===== src/Scenarios/Changes.antt =====
-- Two snapshots of a page, for backend/src/newsintel/domain/acquisition/change_detection.py; an article and
-- an event to compare it with, for backend/src/newsintel/domain/events/matching.py; and a fetch job, for
-- backend/src/newsintel/application/sources/service.py.
use newzyfy.Prelude.{
  ◌++◌, Perm, map, List, ◌≤◌, ◌*◌, ◌≡◌, ◌↔◌, ◌⊎◌, ◌&&◌, ◌||◌, refl, String, true, false, Option,
  none, some, List, [], ◌∷◌, length, All, IsSorted, str_eq, arith,
}
use newzyfy.Time.{aware, hours}
use newzyfy.Text.{is_seen}
use newzyfy.Links.{
  PageServices, LinkSetSnapshot, LinkSetDiff, create_link_set_snapshot, compare_link_sets,
  materially_changed, tag_links,
}
use newzyfy.Links.Changes.{compare_link_sets_partition}
use newzyfy.Articles.World.{returned}
use newzyfy.Events.Assignment.{EventCandidate, is_valid_candidate, score, one}
use newzyfy.Events.Decision.{NotBelow}
use newzyfy.Events.Terms.{Patterns}
use newzyfy.Events.Matching.{
  EventReference, article_event_profile, candidate_for_reference, build_event_candidates, jaccard,
}
use newzyfy.Events.Similarity.{build_event_candidates-is_valid_candidate}
use newzyfy.Sources.{Tables}
use newzyfy.Sources.Views.{FetchJobView, fetch_job_view, job_stats}
use newzyfy.Sources.Service.{
  create_fetch_job, get_fetch_job, schedule_fetch, fetch_target_publishers,
}
use newzyfy.Sources.Jobs.{get_fetch_job-create_fetch_job}
use newzyfy.Scenarios.Cleanups.{one_publisher, today, describe}

abbrev anchor : String → String × List (String × Option String)
anchor href = ("a", ("href", some href) ∷ [])

abbrev page_services : PageServices
page_services = record {
  start_tags = λ html. anchor "/a" ∷ anchor html ∷ anchor "/a" ∷ [];
  lower = λ s. s;
  urljoin = λ base href. href;
  canonicalize_url = λ url. some url;
  sorted_lines = λ links. "";
  sha256 = λ s. s;
}

abbrev previous : LinkSetSnapshot
previous = record {
  base_url = "https://n.org";
  content_hash = "1";
  link_set_hash = "1";
  links = "/b" ∷ "/a" ∷ [];
}

abbrev current : LinkSetSnapshot
current = record {
  base_url = "https://n.org";
  content_hash = "2";
  link_set_hash = "2";
  links = "/c" ∷ "/a" ∷ [];
}

takes_snapshot :
    (create_link_set_snapshot page_services "https://n.org" "/b").links ≡ "/b" ∷ "/a" ∷ []
unfolding create_link_set_snapshot tag_links
takes_snapshot = refl

compares :
    compare_link_sets previous current
    ≡ some (record { inserted = "/c" ∷ []; removed = "/b" ∷ []; unchanged = "/a" ∷ [] })
unfolding compare_link_sets
compares = refl

compare_link_sets_partition_example :
    ((str_eq previous.base_url current.base_url ≡ false)
      × (compare_link_sets previous current ≡ none))
    ⊎ ((d : LinkSetDiff) × (compare_link_sets previous current ≡ some d)
        × ((s : String)
            → ((is_seen s d.unchanged || is_seen s d.inserted) ≡ is_seen s current.links)
              × ((is_seen s d.unchanged || is_seen s d.removed) ≡ is_seen s previous.links)
              × ((is_seen s d.inserted && is_seen s d.unchanged) ≡ false)
              × ((is_seen s d.removed && is_seen s d.unchanged) ≡ false)
              × ((is_seen s d.inserted && is_seen s d.removed) ≡ false))
        × ((materially_changed d ≡ false)
            ↔ ((s : String) → is_seen s previous.links ≡ is_seen s current.links)))
compare_link_sets_partition_example = compare_link_sets_partition previous current

-- Two texts with the same words.
abbrev patterns : Patterns
patterns = record {
  lower = λ s. s;
  find_tokens = λ s. "budget" ∷ "vote" ∷ "today" ∷ [];
  find_phrases = λ s. "Parliament" ∷ [];
  find_identifiers = λ s. [];
  has_word = λ term s. false;
  words = λ s. s ∷ [];
}

abbrev event_reference : EventReference
event_reference = record {
  event_id = 7;
  title = "Budget";
  text = "The vote";
  first_detected_at = aware (hours 990);
  latest_observed_at = none;
}

abbrev found : List EventCandidate
found =
    build_event_candidates patterns
      (article_event_profile patterns "Budget vote" "today" none (some (aware today)))
      (event_reference ∷ []) 20

overlaps : jaccard ("a" ∷ "b" ∷ []) ("b" ∷ "c" ∷ []) ≡ 333333
unfolding jaccard
overlaps = refl

build_event_candidates-is_valid_candidate_example :
    All (λ c. is_valid_candidate c ≡ true) found
    × All (λ c. score c ≤ 100 * one) found
    × (length found ≡ 1)
    × ((left : List EventCandidate) × IsSorted NotBelow (found ++ left)
        × Perm (found ++ left) (
            map
              (candidate_for_reference patterns
                (article_event_profile patterns "Budget vote" "today" none (some (aware today))))
              (event_reference ∷ [])))
build_event_candidates-is_valid_candidate_example =
    build_event_candidates-is_valid_candidate patterns "Budget vote" "today" none
      (some (aware today)) (event_reference ∷ []) 20

abbrev after_request : Tables
after_request = (create_fetch_job describe none today one_publisher).1

abbrev scheduled_view : FetchJobView
scheduled_view = record {
  id = 20;
  publisher_id = none;
  job_type = "all";
  status = "scheduled";
  publishers_total = 1;
  publishers_processed = 0;
  urls_discovered = 0;
  articles_queued = 0;
  articles_extracted = 0;
  duplicates_skipped = 0;
  failed_articles = 0;
  message =
      some "Discovery channels scheduled. Poller and article worker will process asynchronously.";
  created_at = today;
  started_at = some today;
  completed_at = none;
  updated_at = today;
}

schedules :
    create_fetch_job describe none today one_publisher ≡ (returned scheduled_view, after_request)
unfolding create_fetch_job fetch_target_publishers schedule_fetch fetch_job_view job_stats
schedules = refl

get_fetch_job-create_fetch_job_example : get_fetch_job 20 after_request ≡ some scheduled_view
get_fetch_job-create_fetch_job_example =
    get_fetch_job-create_fetch_job one_publisher (omega arith, tt) describe none today after_request
      scheduled_view schedules
