-- ===== src/Scenarios/Paths.antt =====
-- The paths of URLs that look like articles, and those that do not: the tests on the text of a URL of
-- backend/src/newsintel/domain/acquisition/article_filter.py. A URL is taken to be its own path here.
use newzyfy.Prelude.{◌≡◌, refl, true, false, ◌&&◌, leb}
use newzyfy.Filter.Urls.{
  UrlPaths, has_date_path, has_article_slug, has_article_hint, has_excluded_segment,
  looks_like_article_url,
}

abbrev own_path : UrlPaths
own_path = record { path = λ url. url; lower = λ s. s; is_digit = λ c. leb 48 c && leb c 57 }

slug_is_article : looks_like_article_url own_path "/a/court-clears-new-dam" ≡ true
unfolding looks_like_article_url has_excluded_segment has_article_slug has_date_path
    has_article_hint
slug_is_article = refl

short_slug_is_none : looks_like_article_url own_path "/court-clears--dam-a" ≡ false
unfolding looks_like_article_url has_excluded_segment has_article_slug has_date_path
    has_article_hint
short_slug_is_none = refl

date_is_article : looks_like_article_url own_path "/2025/3-31/dam/" ≡ true
unfolding looks_like_article_url has_excluded_segment has_article_slug has_date_path
    has_article_hint
date_is_article = refl

wrong_date_is_none : looks_like_article_url own_path "/2025/13/1/" ≡ false
unfolding looks_like_article_url has_excluded_segment has_article_slug has_date_path
    has_article_hint
wrong_date_is_none = refl

day_first_is_article : looks_like_article_url own_path "/a/31_12_2025" ≡ true
unfolding looks_like_article_url has_excluded_segment has_article_slug has_date_path
    has_article_hint
day_first_is_article = refl

hint_is_article : looks_like_article_url own_path "/world/dam" ≡ true
unfolding looks_like_article_url has_excluded_segment has_article_slug has_date_path
    has_article_hint
hint_is_article = refl

hint_alone_is_none : looks_like_article_url own_path "/world/" ≡ false
unfolding looks_like_article_url has_excluded_segment has_article_slug has_date_path
    has_article_hint
hint_alone_is_none = refl

excluded_is_none : looks_like_article_url own_path "/video/world/dam" ≡ false
unfolding looks_like_article_url has_excluded_segment has_article_slug has_date_path
    has_article_hint
excluded_is_none = refl

image_is_none : looks_like_article_url own_path "/world/dam.png" ≡ false
unfolding looks_like_article_url has_excluded_segment has_article_slug has_date_path
    has_article_hint
image_is_none = refl
