-- ===== src/Html.antt =====
-- The extraction of an article from a page: backend/src/newsintel/adapters/extractors/article_html.py.
-- This file has what the extractor takes from the libraries below it, and its policies for publishers.
-- A page of bytes is a text here, as in FetchResult.
pub mod Attributes
pub mod Tags
pub mod Parser
pub mod Balance
pub mod Hidden
pub mod Values
pub mod Structured
pub mod Selected
pub mod Paragraphs
pub mod Accepted
pub mod Quality
pub mod Warnings
pub mod Choice
pub mod Article
pub mod Verdict
use newzyfy.Prelude.{
  ℕ, String, Bool, true, false, ◌||◌, Option, none, some, List, [], ◌∷◌, ◌++◌, keep, str_eq,
  if◌then◌else◌,
}
use newzyfy.Text.{concat, contains, has_prefix, has_suffix, drop_text}
use newzyfy.Time.{Datetime}
use newzyfy.Sources.Endpoints.{HtmlEvent}

-- The values of json.loads. A number is the text that str() gives of it; of the entries of an object with
-- one key, json.loads keeps the last, so the keys of an object are different.
mutual
  pub data JsonValue : Type 0 where
    null : JsonValue
    boolean : Bool → JsonValue
    number : String → JsonValue
    text : String → JsonValue
    array : Items → JsonValue
    object : Fields → JsonValue

  pub data Items : Type 0 where
    nil : Items
    cons : JsonValue → Items → Items

  pub data Fields : Type 0 where
    end : Fields
    field : String → JsonValue → Fields → Fields

-- re.sub of white space by a blank, str.strip, str.lower, str.split with and without a separator,
-- str.splitlines and str.replace; urljoin and the hostname of urlsplit; HTMLParser; json.loads and str()
-- of a value; the two parsers of datetimes; bytes.decode by an encoding, and with replacement; sha256 of
-- bytes and of a text. trafilatura is none where it cannot be imported or has no extract, and extract is
-- none where it raises or returns no text.
pub record Web : Type 0 where
  pub collapse_spaces : String → String
  pub strip : String → String
  pub lower : String → String
  pub words : String → List String
  pub split : String → String → List String
  pub splitlines : String → List String
  pub replace : String → String → String → String
  pub urljoin : String → String → String
  pub hostname : String → Option String
  pub html_events : String → List HtmlEvent
  pub json_loads : String → Option JsonValue
  pub str_json : JsonValue → String
  pub fromisoformat : String → Option Datetime
  pub parsedate : String → Option Datetime
  pub decode : String → String → Option String
  pub decode_replacing : String → String
  pub byte_length : String → ℕ
  pub sha256_bytes : String → String
  pub sha256_text : String → String
  pub trafilatura : Option (String → String → Option String)

-- _ExtractionPolicy
pub record ExtractionPolicy : Type 0 where
  pub name : String
  pub domain_suffixes : List String
  pub low_value_phrases : List String
  pub skip_attribute_tokens : List String
  pub skip_attribute_phrases : List String
  pub paywall_or_partial_phrases : List String

-- separator.join(texts)
abbrev pub join : String → List String → String
join separator [] = ""
join separator (s ∷ []) = s
join separator (s ∷ t ∷ rest) = concat s (concat separator (join separator (t ∷ rest)))

abbrev pub any_contained : List String → String → Bool
any_contained [] s = false
any_contained (phrase ∷ phrases) s = contains phrase s || any_contained phrases s

abbrev techcrunch : ExtractionPolicy
techcrunch = record {
  name = "techcrunch";
  domain_suffixes = "techcrunch.com" ∷ [];
  low_value_phrases =
      "strictlyvc" ∷ "founder summit" ∷ "join 1,000+ founders" ∷ "tickets are going fast" ∷ [];
  skip_attribute_tokens = "event" ∷ "events" ∷ "promo" ∷ "sponsor" ∷ [];
  skip_attribute_phrases = [];
  paywall_or_partial_phrases = [];
}

abbrev the_hindu : ExtractionPolicy
the_hindu = record {
  name = "the_hindu";
  domain_suffixes = "thehindu.com" ∷ "www.thehindu.com" ∷ [];
  low_value_phrases =
      "account subscription benefits" ∷ "active subscription" ∷ "premium stories"
      ∷ "subscribed with another email" ∷ [];
  skip_attribute_tokens = "subscription" ∷ "paywall" ∷ "premium" ∷ [];
  skip_attribute_phrases = [];
  paywall_or_partial_phrases = "you don't have any active subscription" ∷ "premium stories" ∷ [];
}

abbrev indian_express : ExtractionPolicy
indian_express = record {
  name = "indian_express";
  domain_suffixes = "indianexpress.com" ∷ "www.indianexpress.com" ∷ [];
  low_value_phrases = "subscribe to continue" ∷ "premium article" ∷ [];
  skip_attribute_tokens = "premium" ∷ "subscription" ∷ "paywall" ∷ [];
  skip_attribute_phrases = [];
  paywall_or_partial_phrases = [];
}

abbrev ndtv : ExtractionPolicy
ndtv = record {
  name = "ndtv";
  domain_suffixes = "ndtv.com" ∷ "www.ndtv.com" ∷ [];
  low_value_phrases = [];
  skip_attribute_tokens = "also" ∷ "related" ∷ "video" ∷ [];
  skip_attribute_phrases = "also read" ∷ "related stories" ∷ [];
  paywall_or_partial_phrases = [];
}

abbrev publisher_policies : List ExtractionPolicy
publisher_policies = techcrunch ∷ the_hindu ∷ indian_express ∷ ndtv ∷ []

abbrev pub policy_texts : (ExtractionPolicy → List String) → Option ExtractionPolicy → List String
policy_texts f none = []
policy_texts f (some policy) = f policy

abbrev base_low_value_phrases : List String
base_low_value_phrases =
    "account subscription benefits" ∷ "accept cookies" ∷ "active subscription"
    ∷ "all rights reserved" ∷ "click here" ∷ "continue reading" ∷ "enable javascript"
    ∷ "founder summit" ∷ "join 1,000+ founders" ∷ "loading..." ∷ "logout and login"
    ∷ "premium stories" ∷ "privacy policy" ∷ "register now" ∷ "sign in" ∷ "strictlyvc"
    ∷ "subscribed with another email" ∷ "subscribe now" ∷ "ticket savings"
    ∷ "tickets are going fast" ∷ "terms of use" ∷ "you don't have any active subscription" ∷ []

unfoldable pub low_value_phrases : Option ExtractionPolicy → List String
low_value_phrases policy =
    base_low_value_phrases ++ policy_texts (λ (p : ExtractionPolicy). p.low_value_phrases) policy

abbrev paywall_or_account_phrases : List String
paywall_or_account_phrases =
    "active subscription" ∷ "already a subscriber" ∷ "continue reading with" ∷ "for subscribers"
    ∷ "login with that one" ∷ "metered access" ∷ "premium stories" ∷ "subscribe to continue"
    ∷ "subscribe now" ∷ "subscriber only" ∷ "subscription required" ∷ []

unfoldable pub paywall_or_partial_phrases : Option ExtractionPolicy → List String
paywall_or_partial_phrases policy =
    paywall_or_account_phrases
    ++ policy_texts (λ (p : ExtractionPolicy). p.paywall_or_partial_phrases) policy

-- s.removeprefix("www.")
abbrev remove_www : String → String
remove_www s = if has_prefix "www." s then drop_text 4 s else s

-- One suffix of a policy, against a hostname that begins with no "www.".
abbrev is_host_of : String → String → Bool
is_host_of hostname suffix =
    str_eq hostname (remove_www suffix) || has_suffix (concat "." (remove_www suffix)) hostname

abbrev is_host_of_any : String → List String → Bool
is_host_of_any hostname [] = false
is_host_of_any hostname (suffix ∷ suffixes) =
    is_host_of hostname suffix || is_host_of_any hostname suffixes

abbrev first_policy : String → List ExtractionPolicy → Option ExtractionPolicy
first_policy hostname [] = none
first_policy hostname (policy ∷ policies) =
    let rest = first_policy hostname policies in
    if is_host_of_any hostname policy.domain_suffixes then some policy else rest

module _ (web : Web) where
  -- _normalize_text; of None and of an empty text it is empty.
  abbrev pub normalize_text : String → String
  normalize_text String.[] = ""
  normalize_text (String.◌∷◌ c s) = web.strip (web.collapse_spaces (String.◌∷◌ c s))

  abbrev pub normalize_option : Option String → String
  normalize_option none = ""
  normalize_option (some s) = normalize_text s

  -- _matching_phrases
  unfoldable pub matching_phrases : String → List String → List String
  matching_phrases value phrases =
      let lowered = web.lower value in keep (λ phrase. contains phrase lowered) phrases

  unfoldable pub policy_for_url : String → Option ExtractionPolicy
  policy_for_url url =
      first_policy
        (remove_www (web.lower (elim (web.hostname url) [ none ↦ "" | some host ↦ host ])))
        publisher_policies
