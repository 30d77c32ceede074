-- ===== src/Html/Quality.antt =====
-- The scores of an extraction: _extraction_quality_score, _should_use_optional_extraction and
-- _looks_partial_or_paywalled of backend/src/newsintel/adapters/extractors/article_html.py. A quality is a
-- whole number of ten-thousandths, the decimals that the source keeps, and is computed exactly.
use newzyfy.Prelude.{
  ℕ, zero, suc, ◌+◌, ◌*◌, ◌/◌, ◌%◌, ◌≤◌, ◌<◌, ◌≡◌, ◌↔◌, refl, min, String, Bool, true, false, ◌&&◌,
  List, [], ◌∷◌, ltb, leb, ◌==◌, if◌then◌else◌, arith, ap, inl, inr, ==_iff, Bool-cases,
}
use native.Mathlib.Nat.{div-le_of_le-mul, mod-eq-sub-div-mul, mul_comm, mul-le-mul_right}
use newzyfy.Time.{round_half_even}

-- What the words, the blocks and the structured data count.
abbrev base_score : ℕ → ℕ → Bool → ℕ
base_score word_count accepted_block_count json_ld_article_detected =
    min 3500 (word_count * 10)
    + min 2500 (accepted_block_count * 1000)
    + (if json_ld_article_detected then 1500 else 0)

unfoldable pub extraction_quality_score : ℕ → ℕ → ℕ → Bool → ℕ
unfolding round_half_even
extraction_quality_score word_count accepted_block_count rejected_block_count
      json_ld_article_detected =
    let base = base_score word_count accepted_block_count json_ld_article_detected in
    let total_blocks = accepted_block_count + rejected_block_count in
    if word_count == 0
    then 0
    else if total_blocks == 0
    then min 10000 (base + 1000)
    else round_half_even
        (min (10000 * total_blocks) (base * total_blocks + 2500 * accepted_block_count))
        total_blocks

unfoldable pub should_use_optional_extraction : ℕ → ℕ → ℕ → Bool
unfolding round_half_even
should_use_optional_extraction current_word_count current_quality_score optional_word_count =
    if current_word_count == 0
    then true
    else if ltb current_quality_score 5500 && leb current_word_count optional_word_count
    then true
    else leb (round_half_even (current_word_count * 135) 100) optional_word_count

abbrev pub any_text : List String → Bool
any_text [] = false
any_text (s ∷ rest) = true

unfoldable pub looks_partial_or_paywalled : ℕ → List String → List String → Bool
looks_partial_or_paywalled word_count raw_indicators text_indicators =
    if any_text text_indicators then true else any_text raw_indicators && ltb word_count 300

round_half_even-le : (n d q : ℕ) → 0 < d → n ≤ q * d → round_half_even n d ≤ q
unfolding round_half_even
round_half_even-le n d q pos h = elim (Bool-cases (n / d == q)) [
  | inl e ↦
      let same : n / d ≡ q = (==_iff (n / d) q).0 e in
      let rest : n % d ≡ 0 = omega (arith, mod-eq-sub-div-mul n d, ap (λ (k : ℕ). k * d) same, h) in
      ground (arith, same, rest)
  | inr e ↦
      let below : n / d ≤ q = div-le_of_le-mul d (omega (arith, h, mul_comm q d)) in
      ground (arith, below, e)
]

round_half_even-ge : (n d q : ℕ) → 0 < d → q * d ≤ n → q ≤ round_half_even n d
unfolding round_half_even
round_half_even-ge n d q pos h = grind arith

base_score-ge : (w accepted : ℕ) (detected : Bool) → 0 < w → 10 ≤ base_score w accepted detected
base_score-ge w accepted detected h = ground arith

score_of_words :
    (w accepted rejected : ℕ) (detected : Bool)
    → 0 < w
    → let score = extraction_quality_score w accepted rejected detected in
      (10 ≤ score) × (score ≤ 10000)
unfolding extraction_quality_score
score_of_words w accepted rejected detected h =
    let total = accepted + rejected in
    let base = base_score w accepted detected in
    let wordy : (w == 0) ≡ false = ground arith in
    elim (Bool-cases (total == 0)) [
      | inl e ↦ rw (wordy, e) (omega (arith, base_score-ge w accepted detected h), omega arith)
      | inr e ↦
          let pos : 0 < total = ground arith in
          let enough : 10 * total ≤ base * total =
            mul-le-mul_right total (base_score-ge w accepted detected h) in
          rw (wordy, e)
            (
              round_half_even-ge _ total 10 pos (omega (arith, enough)),
              round_half_even-le _ total 10000 pos (omega arith),
            )
    ]

-- The score lies between 0 and 1, and is 0 exactly for a text without words.
pub extraction_quality_score_range :
    (word_count accepted rejected : ℕ) (detected : Bool)
    → let score = extraction_quality_score word_count accepted rejected detected in
      (score ≤ 10000) × ((score ≡ 0) ↔ (word_count ≡ 0))
unfolding extraction_quality_score
extraction_quality_score_range zero accepted rejected detected =
    (omega arith, ((λ e. refl), (λ e. refl)))
extraction_quality_score_range (suc w) accepted rejected detected =
    let (low, high) = score_of_words (suc w) accepted rejected detected (omega arith) in
    (high, ((λ e. absurd (omega arith)), (λ e. absurd (omega arith))))
