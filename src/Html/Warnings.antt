-- ===== src/Html/Warnings.antt =====
-- The warnings of extract_article_html of backend/src/newsintel/adapters/extractors/article_html.py, and which
-- of them backend/src/newsintel/application/articles/processing.py takes for fatal.
use newzyfy.Prelude.{
  ◌≡◌, ◌↔◌, refl, sym, ap, ◌∙◌, String, Bool, true, false, not, ◌&&◌, List, [], ◌∷◌, ◌++◌, keep,
  if◌then◌else◌,
}
use newzyfy.Articles.Types.{is_fatal_extraction_warning}

-- What the warnings are about.
pub record Signs : Type 0 where
  pub has_title : Bool
  pub has_text : Bool
  pub is_short : Bool
  pub has_published_at : Bool
  pub has_canonical_url : Bool
  pub has_boilerplate : Bool
  pub has_indicators : Bool
  pub is_partial : Bool
  pub is_low : Bool

abbrev warn : Bool → String → List String
warn true warning = warning ∷ []
warn false warning = []

unfoldable pub warnings_of : Signs → List String
warnings_of s =
    warn (not s.has_title) "missing_title"
    ++ (warn (not s.has_text) "missing_text_content"
        ++ (warn (s.has_text && s.is_short) "short_text_content"
            ++ (warn (not s.has_published_at) "missing_published_at"
                ++ (warn (not s.has_canonical_url) "missing_canonical_url"
                    ++ (warn s.has_boilerplate "boilerplate_removed"
                        ++ (warn s.has_indicators "possible_subscription_boilerplate"
                            ++ (warn s.is_partial "possible_paywall_or_partial_content"
                                ++ warn (s.has_text && s.is_low) "low_extraction_quality")))))))

abbrev pub fatal : List String → List String
fatal = keep is_fatal_extraction_warning

-- A warning that is not fatal is not kept.
fatal_other :
    (b : Bool) (w : String) (rest : List String)
    → is_fatal_extraction_warning w ≡ false
    → fatal (warn b w ++ rest) ≡ fatal rest
fatal_other true w rest h = rw h refl
fatal_other false w rest h = refl

fatal_tail :
    (b : Bool) (w : String) (xs ys : List String)
    → fatal xs ≡ fatal ys
    → fatal (warn b w ++ xs) ≡ fatal (warn b w ++ ys)
fatal_tail true w xs ys h =
    ap (λ (rest : List String). if is_fatal_extraction_warning w then w ∷ rest else rest) h
fatal_tail false w xs ys h = h

fatal_four :
    (t i p l : Bool)
    → (fatal (
          warn (not t) "missing_text_content"
          ++ (warn i "possible_subscription_boilerplate"
              ++ (warn p "possible_paywall_or_partial_content"
                  ++ warn (t && l) "low_extraction_quality")))
        ≡ [])
      ↔ ((t ≡ true) × (i ≡ false) × (p ≡ false) × (l ≡ false))
fatal_four true false false false = ((λ e. (refl, refl, refl, refl)), (λ h. refl))
fatal_four false i p l = ((λ e. cc), (λ h. cc))
fatal_four true true p l = ((λ e. cc), (λ h. cc))
fatal_four true false true l = ((λ e. cc), (λ h. cc))
fatal_four true false false true = ((λ e. cc), (λ h. cc))

pub fatal-warnings_of :
    (s : Signs)
    → (fatal (warnings_of s) ≡ []) ↔ (
        (s.has_text ≡ true)
        × (s.has_indicators ≡ false)
        × (s.is_partial ≡ false)
        × (s.is_low ≡ false))
unfolding warnings_of
fatal-warnings_of s =
    let reduced =
      fatal_other (not s.has_title) "missing_title" _ refl
      ∙ fatal_tail (not s.has_text) "missing_text_content" _ _ (
          fatal_other (s.has_text && s.is_short) "short_text_content" _ refl
          ∙ (fatal_other (not s.has_published_at) "missing_published_at" _ refl
              ∙ (fatal_other (not s.has_canonical_url) "missing_canonical_url" _ refl
                  ∙ fatal_other s.has_boilerplate "boilerplate_removed" _ refl))) in
    let four = fatal_four s.has_text s.has_indicators s.is_partial s.is_low in
    ((λ e. four.0 (sym reduced ∙ e)), (λ h. reduced ∙ four.1 h))
