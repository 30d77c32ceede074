-- ===== src/Html/Choice.antt =====
-- Which text an article has: the first half of extract_article_html of
-- backend/src/newsintel/adapters/extractors/article_html.py, with _extract_with_trafilatura. The word count
-- that trafilatura's result also has is left out.
use newzyfy.Prelude.{
  ℕ, String, Bool, not, Option, none, some, keep, length, leb, ltb, if◌then◌else◌,
}
use newzyfy.Text.{is_empty, text_length, text_or}
use newzyfy.Html.{Web}
use newzyfy.Html.Values.{normalize_multiline}
use newzyfy.Html.Paragraphs.{ParagraphExtractionResult}
use newzyfy.Html.Quality.{extraction_quality_score, should_use_optional_extraction}

pub record OptionalExtractorResult : Type 0 where
  pub text : String
  pub method : String

-- The text that is chosen, how, and the counts of its blocks.
pub record Choice : Type 0 where
  pub text_content : String
  pub extraction_method : String
  pub accepted_block_count : ℕ
  pub rejected_block_count : ℕ
  pub rejected_boilerplate_count : ℕ
  pub rejected_short_count : ℕ

module _ (web : Web) where
  abbrev pub word_count : String → ℕ
  word_count s = length (web.words s)

  -- len([block for block in text.split("\n\n") if block])
  abbrev count_blocks : String → ℕ
  count_blocks s = length (keep (λ block. not (is_empty block)) (web.split "\n\n" s))

  abbrev optional_result : Option String → Option OptionalExtractorResult
  optional_result none = none
  optional_result (some extracted) =
      let content = normalize_multiline web extracted in
      if ltb (word_count content) 50
      then none
      else some (record { text = content; method = "trafilatura_fallback" })

  unfoldable pub extract_with_trafilatura : String → String → Option OptionalExtractorResult
  extract_with_trafilatura decoded_html base_url = elim web.trafilatura [
    | none ↦ none
    | some extract ↦ optional_result (extract decoded_html base_url)
  ]

  abbrev pub quality_of : Choice → Bool → ℕ
  quality_of choice detected =
      extraction_quality_score (word_count choice.text_content) choice.accepted_block_count
        choice.rejected_block_count detected

  abbrev structured_choice : String → Choice
  structured_choice json_ld_body =
      let content = normalize_multiline web json_ld_body in
      record {
        text_content = content;
        extraction_method = "json_ld_article_body";
        accepted_block_count = count_blocks content;
        rejected_block_count = 0;
        rejected_boilerplate_count = 0;
        rejected_short_count = 0;
      }

  abbrev visible_choice : ParagraphExtractionResult → Choice
  visible_choice result = record {
    text_content = result.text;
    extraction_method = "visible_text_blocks";
    accepted_block_count = result.accepted_block_count;
    rejected_block_count = result.rejected_block_count;
    rejected_boilerplate_count = result.rejected_boilerplate_count;
    rejected_short_count = result.rejected_short_count;
  }

  abbrev or_optional : Option OptionalExtractorResult → Bool → Choice → Choice
  or_optional none detected choice = choice
  or_optional (some result) detected choice =
      if should_use_optional_extraction (word_count choice.text_content)
        (quality_of choice detected) (word_count result.text)
      then record choice {
        text_content = result.text;
        extraction_method = result.method;
        accepted_block_count = count_blocks result.text;
      }
      else choice

  -- The body that the page declares, where it is long enough; else the visible text, or trafilatura's.
  unfoldable pub choose_text :
      Option String → ParagraphExtractionResult → Option OptionalExtractorResult → Bool → Choice
  choose_text json_ld_body visible optional detected =
      let body = text_or json_ld_body "" in
      if leb 200 (text_length body)
      then structured_choice body
      else or_optional optional detected (visible_choice visible)
