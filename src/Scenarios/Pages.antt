-- ===== src/Scenarios/Pages.antt =====
-- Pages and what is extracted from them, for backend/src/newsintel/adapters/extractors/article_html.py. Texts
-- have one word here, and are in lower case already.
use newzyfy.Prelude.{
  ◌≤◌, ◌≡◌, ◌↔◌, refl, String, true, none, some, List, [], ◌∷◌, ◌+◌, keep, length, map, All,
}
use newzyfy.Text.{contains, has_prefix, has_suffix, IsDistinct}
use newzyfy.Sources.Endpoints.{HtmlEvent, start_tag, text_data, end_tag}
use newzyfy.Articles.World.{returned}
use newzyfy.Articles.Process.{raise_for_unacceptable_extraction}
use newzyfy.Html.{
  JsonValue, Fields, end, field, nil, cons, Web, join, policy_for_url, low_value_phrases,
}
use newzyfy.Html.Attributes.{
  should_skip_by_attributes, skip_attribute_tokens, skip_attribute_phrases, find_tokens,
}
use newzyfy.Html.Parser.{initial_state, feed, handle, open_block, close_block, pop_block, add_data}
use newzyfy.Html.Tags.{read_tag}
use newzyfy.Html.Hidden.{feed_skips_text, is_tag}
use newzyfy.Html.Structured.{
  walk_json_ld, first_max, select_article_json_ld, is_article, json_ld_score, author_value,
}
use newzyfy.Html.Selected.{IsMax, select_article_json_ld-IsMax}
use newzyfy.Html.Paragraphs.{extract_paragraph_text, take_blocks}
use newzyfy.Html.Accepted.{IsProse, IsSettled, extract_paragraph_text-IsProse}
use newzyfy.Html.Quality.{extraction_quality_score}
use newzyfy.Html.Article.{extract_article_html, read_page, page_choice}
use newzyfy.Html.Verdict.{IsAcceptable, raise_for_unacceptable_extraction_iff}
use newzyfy.Scenarios.Pipeline.{world}

abbrev sentence : String
sentence = "The dam was opened on Monday."

abbrev banner : HtmlEvent
banner = start_tag "img" (("class", some "banner") ∷ [])

abbrev paragraph : List HtmlEvent
paragraph = start_tag "p" [] ∷ text_data sentence ∷ end_tag "p" ∷ []

abbrev web : Web
web = record {
  collapse_spaces = λ s. s;
  strip = λ s. s;
  lower = λ s. s;
  words = λ s. s ∷ [];
  split = λ separator s. s ∷ [];
  splitlines = λ s. s ∷ [];
  replace = λ old new s. s;
  urljoin = λ base href. href;
  hostname = λ url. some url;
  html_events = λ s. paragraph;
  json_loads = λ s. none;
  str_json = λ value. "";
  fromisoformat = λ s. none;
  parsedate = λ s. none;
  decode = λ encoding s. some s;
  decode_replacing = λ s. s;
  byte_length = λ s. 0;
  sha256_bytes = λ s. "";
  sha256_text = λ s. "";
  trafilatura = none;
}

collects_paragraph : (feed web "" none paragraph initial_state).body.blocks ≡ sentence ∷ []
unfolding feed handle open_block read_tag should_skip_by_attributes close_block pop_block add_data
collects_paragraph = refl

-- An image with the class of a banner hides the paragraph behind it.
loses_paragraph : (feed web "" none (banner ∷ paragraph) initial_state).body.blocks ≡ []
unfolding feed handle open_block read_tag should_skip_by_attributes skip_attribute_tokens
    skip_attribute_phrases find_tokens contains close_block pop_block add_data
loses_paragraph = refl

feed_skips_text_example :
    let s = feed web "" none (banner ∷ []) initial_state in
    ((feed web "" none paragraph s).body.blocks
      ≡ (feed web "" none (keep is_tag paragraph) s).body.blocks)
    × ((feed web "" none paragraph s).body.skip_depth
        ≡ length (feed web "" none paragraph s).body.skip_stack)
    × (1 ≤ (feed web "" none paragraph s).body.skip_depth)
unfolding feed handle open_block read_tag should_skip_by_attributes skip_attribute_tokens
    skip_attribute_phrases find_tokens contains
feed_skips_text_example =
    feed_skips_text web "" none (banner ∷ []) paragraph "img" [] refl (tt, (tt, (refl, tt)))

abbrev publisher : String → String
publisher host = elim (policy_for_url web host) [ none ↦ "generic" | some policy ↦ policy.name ]

knows_publisher : publisher "www.thehindu.com" ≡ "the_hindu"
unfolding policy_for_url has_prefix has_suffix
knows_publisher = refl

skips_repeated :
    (extract_paragraph_text web none (sentence ∷ "accept cookies" ∷ sentence ∷ "Short" ∷ [])).text
    ≡ sentence
unfolding extract_paragraph_text take_blocks low_value_phrases contains has_suffix
skips_repeated = refl

extract_paragraph_text-IsProse_example :
    let blocks = sentence ∷ "accept cookies" ∷ sentence ∷ "Short" ∷ [] in
    let result = extract_paragraph_text web none blocks in
    (accepted : List String) × (result.text ≡ join "\n\n" accepted)
    × (result.accepted_block_count ≡ length accepted)
    × (length accepted + result.rejected_block_count ≡ length blocks)
    × (result.rejected_boilerplate_count + result.rejected_short_count
        ≤ result.rejected_block_count)
    × All (IsProse web none) accepted
    × IsDistinct (map web.lower accepted)
    × All (IsSettled web none [] accepted) blocks
extract_paragraph_text-IsProse_example =
    extract_paragraph_text-IsProse web none (sentence ∷ "accept cookies" ∷ sentence ∷ "Short" ∷ [])

scores_page : extraction_quality_score 120 6 3 true ≡ 6867
unfolding extraction_quality_score
scores_page = refl

abbrev headline_only : Fields
headline_only = field "@type" (JsonValue.array (cons (JsonValue.text "article") nil)) end

abbrev news : Fields
news =
    field "@type" (JsonValue.text "newsarticle")
      (field "articleBody" (JsonValue.text sentence) (field "@graph" (JsonValue.array nil) end))

walks_graph :
    walk_json_ld
      (JsonValue.object (field "@graph" (JsonValue.array (cons (JsonValue.object news) nil)) end))
    ≡ field "@graph" (JsonValue.array (cons (JsonValue.object news) nil)) end ∷ news ∷ []
unfolding walk_json_ld
walks_graph = refl

selects_longest : select_article_json_ld web (headline_only ∷ end ∷ news ∷ []) ≡ some news
unfolding select_article_json_ld first_max
selects_longest = refl

select_article_json_ld-IsMax_example :
    let objects = headline_only ∷ end ∷ news ∷ [] in
    IsMax (is_article web) (json_ld_score web) objects (select_article_json_ld web objects)
select_article_json_ld-IsMax_example =
    select_article_json_ld-IsMax web (headline_only ∷ end ∷ news ∷ [])

joins_authors :
    author_value web (
      JsonValue.array
        (cons (JsonValue.text "A") (cons JsonValue.null (cons (JsonValue.text "B") nil))))
    ≡ some "A, B"
unfolding author_value
joins_authors = refl

raise_for_unacceptable_extraction_iff_example :
    (raise_for_unacceptable_extraction world (extract_article_html web "page" "example.org")
      ≡ returned tt)
    ↔ IsAcceptable web
        (read_page web "page" "example.org")
        (page_choice web "example.org" (read_page web "page" "example.org"))
raise_for_unacceptable_extraction_iff_example =
    raise_for_unacceptable_extraction_iff web world "page" "example.org"
