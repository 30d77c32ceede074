-- ===== src/Html/Article.antt =====
-- extract_article_html of backend/src/newsintel/adapters/extractors/article_html.py. Of the metadata, the
-- nested entry of trafilatura is left out; a quality stands there in ten-thousandths, and an instant for
-- its isoformat.
use newzyfy.Prelude.{
  ℕ, String, Bool, true, false, not, Option, none, some, List, [], ◌∷◌, length, take, sort_by, ltb,
  ◌==◌, is_none, if◌then◌else◌,
}
use newzyfy.Time.{Instant}
use newzyfy.Text.{codes, is_empty}
use newzyfy.Outbox.{Json, json_option}
use newzyfy.Articles.Types.{ExtractedArticle}
use newzyfy.Html.{
  JsonValue, Fields, Web, ExtractionPolicy, join, normalize_text, paywall_or_partial_phrases,
  matching_phrases, policy_for_url,
}
use newzyfy.Html.Attributes.{get_entry}
use newzyfy.Html.Parser.{initial_state, feed}
use newzyfy.Html.Tags.{Head}
use newzyfy.Html.Values.{
  nonempty, decode_html, first_present, first_meta, first_datetime, normalize_language,
}
use newzyfy.Html.Structured.{
  get_field, string_value, author_value, iter_json_ld_objects, select_article_json_ld,
}
use newzyfy.Html.Paragraphs.{extract_paragraph_text}
use newzyfy.Html.Quality.{looks_partial_or_paywalled, any_text}
use newzyfy.Html.Warnings.{Signs, warnings_of}
use newzyfy.Html.Choice.{Choice, word_count, quality_of, extract_with_trafilatura, choose_text}

abbrev codes_before : List ℕ → List ℕ → Bool
codes_before s [] = false
codes_before [] (d ∷ t) = true
codes_before (c ∷ s) (d ∷ t) = if c == d then codes_before s t else ltb c d

abbrev keys_of {ℓ} : {A : Type ℓ} → List (String × A) → List String
keys_of [] = []
keys_of ((key, value) ∷ rest) = key ∷ keys_of rest

-- What is read from a page before its text is chosen.
pub record Page : Type 0 where
  pub policy : Option ExtractionPolicy
  pub decoded : String
  pub head : Head
  pub blocks : List String
  pub objects : List Fields
  pub article : Option Fields

abbrev field_of : String → Option Fields → Option JsonValue
field_of key none = none
field_of key (some entries) = get_field key entries

module _ (web : Web) where
  unfoldable pub read_page : String → String → Page
  read_page html base_url =
      let policy = policy_for_url web base_url in
      let decoded = decode_html web html in
      let parsed = feed web base_url policy (web.html_events decoded) initial_state in
      let objects = iter_json_ld_objects web parsed.head.json_ld_scripts in
      record {
        policy = policy;
        decoded = decoded;
        head = parsed.head;
        blocks = parsed.body.blocks;
        objects = objects;
        article = select_article_json_ld web objects;
      }

  abbrev declared : String → Page → Option String
  declared key page = string_value web (field_of key page.article)

  abbrev html_title : Page → String
  html_title page = normalize_text web (join " " page.head.title_parts)

  unfoldable pub page_title : Page → Option String
  page_title page = first_present web (
      declared "headline" page
      ∷ first_meta web page.head.meta
          ("og:title" ∷ "twitter:title" ∷ "parsely-title" ∷ "dc.title" ∷ "title" ∷ [])
      ∷ some (html_title page)
      ∷ [])

  abbrev author_of : Option JsonValue → Option String
  author_of none = none
  author_of (some value) = author_value web value

  unfoldable pub page_byline : Page → Option String
  page_byline page = first_present web (
      author_of (field_of "author" page.article)
      ∷ first_meta web page.head.meta ("author" ∷ "article:author" ∷ "parsely-author" ∷ "byl" ∷ [])
      ∷ [])

  unfoldable pub page_published_at : Page → Option Instant
  page_published_at page = first_datetime web (
      declared "datePublished" page
      ∷ first_meta web page.head.meta (
          "article:published_time" ∷ "datepublished" ∷ "date" ∷ "dc.date" ∷ "pubdate"
          ∷ "sailthru.date" ∷ "parsely-pub-date" ∷ [])
      ∷ [])

  unfoldable pub page_modified_at : Page → Option Instant
  page_modified_at page = first_datetime web (
      declared "dateModified" page
      ∷ first_meta web page.head.meta
          ("article:modified_time" ∷ "datemodified" ∷ "lastmod" ∷ "parsely-post-date" ∷ [])
      ∷ [])

  unfoldable pub page_language : Page → Option String
  page_language page = normalize_language web (
      first_present web (
        declared "inLanguage" page
        ∷ page.head.html_language
        ∷ first_meta web page.head.meta ("og:locale" ∷ "language" ∷ "content-language" ∷ [])
        ∷ []))

  unfoldable pub page_canonical_url : Page → Option String
  page_canonical_url page = first_present web (
      get_entry "canonical" page.head.links
      ∷ first_meta web page.head.meta ("og:url" ∷ "twitter:url" ∷ [])
      ∷ [])

  abbrev pub is_detected : Page → Bool
  is_detected page = not (is_none page.article)

  unfoldable pub page_choice : String → Page → Choice
  page_choice base_url page =
      choose_text web (declared "articleBody" page)
        (extract_paragraph_text web page.policy page.blocks)
        (extract_with_trafilatura web page.decoded base_url) (is_detected page)

  abbrev pub indicators : Page → String → List String
  indicators page s = matching_phrases web s (paywall_or_partial_phrases page.policy)

  unfoldable pub page_signs : Page → Choice → Signs
  page_signs page choice =
      let s = choice.text_content in
      record {
        has_title = not (is_none (page_title page));
        has_text = not (is_empty s);
        is_short = ltb (word_count web s) 50;
        has_published_at = not (is_none (page_published_at page));
        has_canonical_url = not (is_none (page_canonical_url page));
        has_boilerplate = ltb 0 choice.rejected_boilerplate_count;
        has_indicators = any_text (indicators page s);
        is_partial =
            looks_partial_or_paywalled (word_count web s) (indicators page page.decoded)
              (indicators page s);
        is_low = ltb (quality_of web choice (is_detected page)) 4500;
      }

  abbrev modified_entry : Option Instant → List (String × Json)
  modified_entry none = []
  modified_entry (some t) = ("modified_at", Json.instant t) ∷ []

  unfoldable pub page_metadata : String → Page → Choice → Bool → List (String × Json)
  page_metadata html page choice trafilatura_available =
      let found = indicators page page.decoded in
      ("html_title", json_option Json.text (nonempty (html_title page)))
      ∷ ("json_ld_object_count", Json.number (length page.objects))
      ∷ ("json_ld_article_detected", Json.flag (is_detected page))
      ∷ (
        "publisher_extraction_policy",
        Json.text (elim page.policy [ none ↦ "generic" | some policy ↦ policy.name ]),
      )
      ∷ (
        "meta_keys",
        Json.texts (sort_by (λ s t. codes_before (codes s) (codes t)) (keys_of page.head.meta)),
      )
      ∷ ("block_count", Json.number (length page.blocks))
      ∷ ("accepted_block_count", Json.number choice.accepted_block_count)
      ∷ ("rejected_block_count", Json.number choice.rejected_block_count)
      ∷ ("rejected_boilerplate_count", Json.number choice.rejected_boilerplate_count)
      ∷ ("rejected_short_count", Json.number choice.rejected_short_count)
      ∷ ("extraction_quality_score", Json.number (quality_of web choice (is_detected page)))
      ∷ ("optional_trafilatura_available", Json.flag trafilatura_available)
      ∷ ("raw_html_sha256", Json.text (web.sha256_bytes html))
      ∷ ("raw_html_bytes", Json.number (web.byte_length html))
      ∷ ("paywall_indicator_count", Json.number (length found))
      ∷ ("paywall_indicators", Json.texts (take 10 found))
      ∷ ("word_count", Json.number (word_count web choice.text_content))
      ∷ modified_entry (page_modified_at page)

  unfoldable pub extract_article_html : String → String → ExtractedArticle
  extract_article_html html base_url =
      let page = read_page html base_url in
      let choice = page_choice base_url page in
      record {
        title = page_title page;
        byline = page_byline page;
        published_at = page_published_at page;
        modified_at = page_modified_at page;
        language = page_language page;
        canonical_url = page_canonical_url page;
        text_content = choice.text_content;
        content_sha256 = web.sha256_text choice.text_content;
        extraction_method = choice.extraction_method;
        metadata =
            page_metadata html page choice
              (not (is_none (extract_with_trafilatura web page.decoded base_url)));
        warnings = warnings_of (page_signs page choice);
      }
