-- ===== src/Filter/Urls.antt =====
-- The two tests on the text of a URL of backend/src/newsintel/domain/acquisition/article_filter.py:
-- _has_excluded_segment and looks_like_article_url, with the regular expressions written out. A text is
-- the list of its code points. The path that urlsplit finds, the lower case, and the digits that \d
-- matches (re counts those of every script) are parameters; a URL that urlsplit refuses is not modelled.
use newzyfy.Prelude.{
  ℕ, suc, String, Bool, true, false, not, ◌&&◌, ◌||◌, List, [], ◌∷◌, ◌++◌, keep, leb, length, ◌==◌,
  if◌then◌else◌,
}
use newzyfy.Text.{codes, codes_eq, contains_codes}
use newzyfy.Filter.{UrlTests}

pub record UrlPaths : Type 0 where
  pub path : String → String
  pub lower : List ℕ → List ℕ
  pub is_digit : ℕ → Bool

abbrev Code : Type 0
Code = List ℕ

abbrev is_one_of : List String → Code → Bool
is_one_of [] s = false
is_one_of (x ∷ xs) s = codes_eq (codes x) s || is_one_of xs s

abbrev holds_one_of : List String → Code → Bool
holds_one_of [] s = false
holds_one_of (x ∷ xs) s = contains_codes (codes x) s || holds_one_of xs s

abbrev ends_with_one_of : List String → Code → Bool
ends_with_one_of suffixes [] = is_one_of suffixes []
ends_with_one_of suffixes (c ∷ s) = is_one_of suffixes (c ∷ s) || ends_with_one_of suffixes s

abbrev is_nonempty : Code → Bool
is_nonempty [] = false
is_nonempty (c ∷ s) = true

abbrev push : ℕ → List Code → List Code
push c [] = (c ∷ []) ∷ []
push c (segment ∷ segments) = (c ∷ segment) ∷ segments

-- path.split("/"); 47 is the slash.
abbrev split_path : Code → List Code
split_path [] = [] ∷ []
split_path (c ∷ s) = let rest = split_path s in if c == 47 then [] ∷ rest else push c rest

abbrev strip_left : Code → Code
strip_left [] = []
strip_left (c ∷ s) = let rest = strip_left s in if c == 47 then rest else c ∷ s

abbrev put : ℕ → Code → Code
put c [] = if c == 47 then [] else c ∷ []
put c (d ∷ s) = c ∷ d ∷ s

abbrev strip_right : Code → Code
strip_right [] = []
strip_right (c ∷ s) = put c (strip_right s)

-- A pattern yields what may be left of the text behind a match at its start.
abbrev Pattern : Type 0
Pattern = Code → List Code

abbrev class : (ℕ → Bool) → Pattern
class p [] = []
class p (c ∷ s) = if p c then s ∷ [] else []

abbrev after_each : Pattern → List Code → List Code
after_each q [] = []
after_each q (s ∷ rests) = q s ++ after_each q rests

infixl 40 ◌then◌
abbrev ◌then◌ : Pattern → Pattern → Pattern
p then q = λ s. after_each q (p s)

infixl 30 ◌or◌
abbrev ◌or◌ : Pattern → Pattern → Pattern
p or q = λ s. p s ++ q s

abbrev between : ℕ → ℕ → Pattern
between low high = class (λ c. leb low c && leb c high)

-- [/_-]
abbrev separator : Pattern
separator = class (λ c. c == 47 || c == 95 || c == 45)

abbrev is_found : List Code → Bool
is_found [] = false
is_found (s ∷ rests) = true

abbrev search_in : Pattern → Code → Bool
search_in p [] = is_found (p [])
search_in p (c ∷ s) = is_found (p (c ∷ s)) || search_in p s

-- The patterns 20\d{2}, 0?[1-9]|1[0-2] and 0?[1-9]|[12]\d|3[01]; 48 is the digit 0.
abbrev year : (ℕ → Bool) → Pattern
year is_digit = between 50 50 then between 48 48 then class is_digit then class is_digit

abbrev month : Pattern
month = between 48 48 then between 49 57 or between 49 57 or between 49 49 then between 48 50

abbrev day : (ℕ → Bool) → Pattern
day is_digit =
    between 48 48 then between 49 57
    or between 49 57
    or between 49 50 then class is_digit
    or between 51 51 then between 48 49

unfoldable pub has_date_path : (ℕ → Bool) → Code → Bool
has_date_path is_digit = search_in (
    between 47 47
    then (year is_digit then separator then month then separator then day is_digit
        or day is_digit then separator then month then separator then year is_digit)
    then between 47 47)

-- [a-z0-9]
abbrev is_slug_code : ℕ → Bool
is_slug_code c = leb 97 c && leb c 122 || leb 48 c && leb c 57

-- [a-z0-9]+(?:-[a-z0-9]+){3,}: the dashes that join the runs up to here, and whether a run is open.
unfoldable pub has_article_slug : ℕ → Bool → Code → Bool
has_article_slug dashes open_run [] = false
has_article_slug dashes open_run (c ∷ s) =
    let in_run = has_article_slug dashes true s in
    let joined = has_article_slug (suc dashes) false s in
    let broken = has_article_slug 0 false s in
    if is_slug_code c
    then leb 3 dashes || in_run
    else if c == 45 && open_run
    then joined
    else broken

unfoldable pub has_article_hint : Code → Bool
has_article_hint = holds_one_of (
    "/news/" ∷ "/article/" ∷ "/articles/" ∷ "/story/" ∷ "/stories/" ∷ "/world/" ∷ "/business/"
    ∷ "/technology/" ∷ "/tech/" ∷ "/science/" ∷ "/politics/" ∷ "/sports/" ∷ "/health/" ∷ "/india/"
    ∷ "/opinion/" ∷ "/analysis/" ∷ "/markets/" ∷ "/economy/" ∷ [])

abbrev excluded_segments : List String
excluded_segments =
    "about" ∷ "archive" ∷ "archives" ∷ "author" ∷ "authors" ∷ "category" ∷ "contact" ∷ "gallery"
    ∷ "live-tv" ∷ "multimedia" ∷ "newsletter" ∷ "photos" ∷ "podcast" ∷ "privacy" ∷ "search"
    ∷ "sitemap" ∷ "tag" ∷ "tags" ∷ "terms" ∷ "topic" ∷ "topics" ∷ "video" ∷ "videos" ∷ "web-stories"
    ∷ []

abbrev any_excluded : List Code → Bool
any_excluded [] = false
any_excluded (s ∷ segments) = is_one_of excluded_segments s || any_excluded segments

abbrev last_segment : Code → List Code → Code
last_segment s [] = s
last_segment s (t ∷ segments) = last_segment t segments

module _ (paths : UrlPaths) where
  abbrev lowered : List Code → List Code
  lowered [] = []
  lowered (s ∷ segments) = paths.lower s ∷ lowered segments

  unfoldable pub has_excluded_segment : String → Bool
  has_excluded_segment url =
      any_excluded (lowered (keep is_nonempty (split_path (codes (paths.path url)))))

  -- What looks_like_article_url finds in the segments of a path.
  abbrev looks_like_article_path : Code → List Code → Bool
  looks_like_article_path path [] = false
  looks_like_article_path path (s ∷ segments) =
      let framed = 47 ∷ path ++ 47 ∷ [] in
      has_article_slug 0 false (last_segment s segments)
      || has_date_path paths.is_digit framed
      || has_article_hint framed && leb 2 (length (s ∷ segments))

  unfoldable pub looks_like_article_url : String → Bool
  looks_like_article_url url =
      let path = strip_right (strip_left (paths.lower (codes (paths.path url)))) in
      is_nonempty path
      && not (
          ends_with_one_of
            (".xml" ∷ ".rss" ∷ ".json" ∷ ".jpg" ∷ ".jpeg" ∷ ".png" ∷ ".webp" ∷ ".mp4" ∷ []) path)
      && not (has_excluded_segment url)
      && looks_like_article_path path (keep is_nonempty (split_path path))

  -- The tests that the program makes.
  abbrev url_tests : UrlTests
  url_tests = record {
    has_excluded_segment = has_excluded_segment;
    looks_like_article_url = looks_like_article_url;
  }
