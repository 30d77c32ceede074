-- ===== src/Acquisition/Frontier.antt =====
-- backend/src/newsintel/domain/acquisition: the channel types of models.py, the priority factors of
-- models.py and policies.py, and the score of frontier.py. A factor is a whole number of hundredths and
-- a score a whole number of ten-thousandths, exactly; the source has floats.
use newzyfy.Prelude.{
  ℕ, ◌+◌, ◌-◌, ◌*◌, ◌≤◌, ◌≡◌, suc, min, String, Bool, true, not, [], ◌∷◌, arith, refl,
}
use newzyfy.Events.Assignment.{any_above}

pub data DiscoveryChannelType : Type 0 where
  rss atom sitemap news_sitemap homepage category tag author archive internal_link :
      DiscoveryChannelType
  search_page api websub webhook : DiscoveryChannelType

abbrev pub channel_type_value : DiscoveryChannelType → String
channel_type_value rss = "rss"
channel_type_value atom = "atom"
channel_type_value sitemap = "sitemap"
channel_type_value news_sitemap = "news_sitemap"
channel_type_value homepage = "homepage"
channel_type_value category = "category"
channel_type_value tag = "tag"
channel_type_value author = "author"
channel_type_value archive = "archive"
channel_type_value internal_link = "internal_link"
channel_type_value search_page = "search"
channel_type_value api = "api"
channel_type_value websub = "websub"
channel_type_value webhook = "webhook"

pub record FrontierPriorityInputs : Type 0 where
  pub freshness_probability : ℕ
  pub channel_historical_yield : ℕ
  pub expected_update_probability : ℕ
  pub recall_gap_impact : ℕ
  pub source_quality_and_coverage_value : ℕ
  pub event_significance : ℕ
  pub publication_velocity : ℕ
  pub breaking_news_probability : ℕ
  pub exploration_value : ℕ
  pub channel_boost : ℕ
  pub host_saturation_penalty : ℕ
  pub retry_penalty : ℕ
  pub expected_cost_penalty : ℕ

-- __post_init__: false is the ValueError. The boost is not tested.
unfoldable is_bounded : FrontierPriorityInputs → Bool
unfolding any_above
is_bounded i = not (
    any_above 100 (
      i.freshness_probability ∷ i.channel_historical_yield ∷ i.expected_update_probability
      ∷ i.recall_gap_impact ∷ i.source_quality_and_coverage_value ∷ i.event_significance
      ∷ i.publication_velocity ∷ i.breaking_news_probability ∷ i.exploration_value
      ∷ i.host_saturation_penalty ∷ i.retry_penalty ∷ i.expected_cost_penalty ∷ []))

-- max(0, min(1, raw)): the subtraction of natural numbers stops at 0.
unfoldable pub calculate_frontier_priority : FrontierPriorityInputs → ℕ
calculate_frontier_priority i = min 10000 (
    22 * i.freshness_probability
    + 15 * i.channel_historical_yield
    + 12 * i.expected_update_probability
    + 10 * i.recall_gap_impact
    + 10 * i.source_quality_and_coverage_value
    + 10 * i.event_significance
    + 8 * i.publication_velocity
    + 8 * i.breaking_news_probability
    + 5 * i.exploration_value
    + 100 * i.channel_boost
    - 100 * i.host_saturation_penalty
    - 100 * i.retry_penalty
    - 100 * i.expected_cost_penalty)

-- CHANNEL_BOOSTS.get(channel_type, 0.0)
abbrev channel_boost : DiscoveryChannelType → ℕ
channel_boost news_sitemap = 12
channel_boost websub = 12
channel_boost webhook = 12
channel_boost api = 8
channel_boost rss = 6
channel_boost atom = 6
channel_boost sitemap = 4
channel_boost _ = 0

unfoldable pub bootstrap_priority_inputs : DiscoveryChannelType → FrontierPriorityInputs
bootstrap_priority_inputs channel_type = record {
  freshness_probability = 100;
  channel_historical_yield = 50;
  expected_update_probability = 20;
  recall_gap_impact = 50;
  source_quality_and_coverage_value = 50;
  event_significance = 0;
  publication_velocity = 30;
  breaking_news_probability = 20;
  exploration_value = 50;
  channel_boost = channel_boost channel_type;
  host_saturation_penalty = 0;
  retry_penalty = 0;
  expected_cost_penalty = 0;
}

channel_boost-le : (a : DiscoveryChannelType) → channel_boost a ≤ 12
channel_boost-le rss = omega arith
channel_boost-le _ = omega arith

-- The priors of every channel type are in range, their score is below 1, so that nothing is cut off, and
-- two types differ in their scores exactly by their boosts.
bootstrap_priority_spread :
    (a b : DiscoveryChannelType)
    → (is_bounded (bootstrap_priority_inputs a) ≡ true)
      × (suc (calculate_frontier_priority (bootstrap_priority_inputs a)) ≤ 10000)
      × (calculate_frontier_priority (bootstrap_priority_inputs a) + 100 * channel_boost b
          ≡ calculate_frontier_priority (bootstrap_priority_inputs b) + 100 * channel_boost a)
unfolding is_bounded bootstrap_priority_inputs calculate_frontier_priority
bootstrap_priority_spread a b =
    (refl, omega (arith, channel_boost-le a), omega (arith, channel_boost-le a, channel_boost-le b))
