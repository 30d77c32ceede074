-- ===== src/Html/Verdict.antt =====
-- Which pages the job of backend/src/newsintel/application/articles/processing.py takes, of those that
-- extract_article_html of backend/src/newsintel/adapters/extractors/article_html.py extracts.
use newzyfy.Prelude.{
  ℕ, ◌≤◌, ◌≡◌, ◌↔◌, ◌⊎◌, inl, inr, refl, String, Bool, true, false, not, List, [], ◌∷◌, arith,
}
use newzyfy.Articles.Types.{ExtractedArticle}
use newzyfy.Text.{is_empty}
use newzyfy.Articles.World.{World, returned}
use newzyfy.Articles.Process.{raise_for_unacceptable_extraction}
use newzyfy.Html.{Web}
use newzyfy.Html.Quality.{any_text, looks_partial_or_paywalled}
use newzyfy.Html.Warnings.{fatal, fatal-warnings_of}
use newzyfy.Html.Choice.{Choice, word_count, quality_of}
use newzyfy.Html.Article.{
  Page, read_page, page_choice, page_signs, indicators, is_detected, extract_article_html,
}

not-true : (b : Bool) → not b ≡ true → b ≡ false
not-true true h = cc
not-true false h = refl

List-cases :
    (xs : List String) → (xs ≡ []) ⊎ ((x : String) × (rest : List String) × (xs ≡ x ∷ rest))
List-cases [] = inl refl
List-cases (x ∷ rest) = inr (x, rest, refl)

raise-fatal :
    (world : World) (article : ExtractedArticle)
    → (raise_for_unacceptable_extraction world article ≡ returned tt)
      ↔ (fatal article.warnings ≡ [])
unfolding raise_for_unacceptable_extraction
raise-fatal world article = elim (List-cases (fatal article.warnings)) [
  | inl e ↦ rw (e, raise_for_unacceptable_extraction) ((λ h. refl), (λ h. refl))
  | inr (x, rest, e) ↦ rw (e, raise_for_unacceptable_extraction) ((λ h. cc), (λ h. cc))
]

looks_partial_or_paywalled_iff :
    (words : ℕ) (raw texts : List String)
    → (looks_partial_or_paywalled words raw texts ≡ false)
      ↔ ((any_text texts ≡ false) × ((any_text raw ≡ false) ⊎ (300 ≤ words)))
unfolding looks_partial_or_paywalled
looks_partial_or_paywalled_iff words raw (s ∷ texts) = ((λ e. cc), (λ h. cc))
looks_partial_or_paywalled_iff words [] [] = ((λ e. (refl, inl refl)), (λ h. refl))
looks_partial_or_paywalled_iff words (r ∷ raw) [] = (
  (λ e. (refl, inr (ground arith))),
  (λ (same, long). elim long [ inl none_found ↦ cc | inr enough ↦ ground arith ]),
)

module _ (web : Web) where
  -- A page whose text can be taken: not empty, of quality 0.45 at least, without a phrase of a paywall,
  -- and, where the whole page has one, of 300 words at least.
  pub record IsAcceptable (page : Page) (choice : Choice) : Type 0 where
    pub stands : is_empty choice.text_content ≡ false
    pub good : 4500 ≤ quality_of web choice (is_detected web page)
    pub open_text : any_text (indicators web page choice.text_content) ≡ false
    pub long :
        (any_text (indicators web page page.decoded) ≡ false)
        ⊎ (300 ≤ word_count web choice.text_content)

  -- The job raises no ExtractionQualityError for an extracted page exactly when its text can be taken.
  pub raise_for_unacceptable_extraction_iff :
      (world : World) (html base_url : String)
      → let page = read_page web html base_url in
        (raise_for_unacceptable_extraction world (extract_article_html web html base_url)
          ≡ returned tt)
        ↔ IsAcceptable page (page_choice web base_url page)
  unfolding extract_article_html page_signs
  raise_for_unacceptable_extraction_iff world html base_url =
      let page = read_page web html base_url in
      let choice = page_choice web base_url page in
      let raises = raise-fatal world (extract_article_html web html base_url) in
      let kept = fatal-warnings_of (page_signs web page choice) in
      let partial =
        looks_partial_or_paywalled_iff (word_count web choice.text_content)
          (indicators web page page.decoded) (indicators web page choice.text_content) in
      (
        (λ h.
            let (there, shown, whole, score) = kept.0 (raises.0 h) in
            let (clear, long) = partial.0 whole in
            record {
              stands = not-true (is_empty choice.text_content) there;
              good = ground arith;
              open_text = clear;
              long = long;
            }),
        (λ ok. raises.1 (
            kept.1 (
              rw ok.stands refl,
              ok.open_text,
              partial.1 (ok.open_text, ok.long),
              ground (arith, ok.good),
            ))),
      )
