-- ===== src/Html/Paragraphs.antt =====
-- _extract_paragraph_text of backend/src/newsintel/adapters/extractors/article_html.py. The blocks that are
-- accepted are returned as a list, which the source joins.
use newzyfy.Prelude.{
  ℕ, suc, String, Bool, not, ◌&&◌, ◌||◌, Option, List, [], ◌∷◌, length, ltb, if◌then◌else◌,
}
use newzyfy.Text.{is_empty, is_seen, text_length, has_suffix}
use newzyfy.Html.{Web, ExtractionPolicy, join, any_contained, low_value_phrases, normalize_text}

pub record ParagraphExtractionResult : Type 0 where
  pub text : String
  pub accepted_block_count : ℕ
  pub rejected_block_count : ℕ
  pub rejected_boilerplate_count : ℕ
  pub rejected_short_count : ℕ

-- What the loop makes of the blocks: the accepted texts, and the counts.
pub record Paragraphs : Type 0 where
  pub accepted : List String
  pub rejected : ℕ
  pub rejected_boilerplate : ℕ
  pub rejected_short : ℕ

-- text.endswith((".", "!", "?", '"', "'"))
abbrev ends_sentence : String → Bool
ends_sentence s =
    has_suffix "." s
    || has_suffix "!" s
    || has_suffix "?" s
    || has_suffix "\"" s
    || has_suffix "'" s

module _ (web : Web) (policy : Option ExtractionPolicy) where
  abbrev pub is_repeated : List String → String → Bool
  is_repeated seen s = is_empty s || is_seen (web.lower s) seen

  -- _contains_any_phrase on the phrases of low value.
  abbrev pub is_boilerplate : String → Bool
  is_boilerplate s = any_contained (low_value_phrases policy) (web.lower s)

  abbrev pub is_short : String → Bool
  is_short s = ltb (text_length s) 40 && not (ends_sentence s)

  abbrev pub reject : Paragraphs → Paragraphs
  reject p = record p { rejected = suc p.rejected }

  abbrev pub reject_boilerplate : Paragraphs → Paragraphs
  reject_boilerplate p = record p {
    rejected = suc p.rejected;
    rejected_boilerplate = suc p.rejected_boilerplate;
  }

  abbrev pub reject_short : Paragraphs → Paragraphs
  reject_short p = record p { rejected = suc p.rejected; rejected_short = suc p.rejected_short }

  abbrev pub accept : String → Paragraphs → Paragraphs
  accept s p = record p { accepted = s ∷ p.accepted }

  -- The loop, with what was seen before.
  unfoldable pub take_blocks : List String → List String → Paragraphs
  take_blocks seen [] = record {
    accepted = [];
    rejected = 0;
    rejected_boilerplate = 0;
    rejected_short = 0;
  }
  take_blocks seen (block ∷ blocks) =
      let s = normalize_text web block in
      let rest = take_blocks seen blocks in
      let accepting = take_blocks (web.lower s ∷ seen) blocks in
      if is_repeated seen s
      then reject rest
      else if is_boilerplate s
      then reject_boilerplate rest
      else if is_short s
      then reject_short rest
      else accept s accepting

  unfoldable pub extract_paragraph_text : List String → ParagraphExtractionResult
  extract_paragraph_text blocks =
      let p = take_blocks [] blocks in
      record {
        text = join "\n\n" p.accepted;
        accepted_block_count = length p.accepted;
        rejected_block_count = p.rejected;
        rejected_boilerplate_count = p.rejected_boilerplate;
        rejected_short_count = p.rejected_short;
      }
