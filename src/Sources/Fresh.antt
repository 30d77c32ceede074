-- ===== src/Sources/Fresh.antt =====
-- _unique_slug of backend/src/newsintel/application/sources/service.py: the slug itself, or the first of
-- slug-2, slug-3, … that no publisher has.
use Prim.Native.Char.{code}
use mathlib.Core.Bool.{true≢false}
use text.Mathlib.TextLemmas.{nil-append, cons-append, append-nil, append_cancel_left}
use newzyfy.Prelude.{
  ℕ, zero, suc, ◌≤◌, ◌<◌, ◌≡◌, refl, sym, ap, ◌∙◌, inl, inr, String, Bool, true, false, ◌&&◌, ◌||◌,
  not, List, [], ◌∷◌, ◌++◌, length, keep, ◌==◌, ==_refl, str_eq, eq_iff, if◌then◌else◌, arith,
  Bool-cases, or_false, and_true,
}
use newzyfy.Text.{concat, codes, is_seen}
use newzyfy.Text.Sets.{without, length-without_lt, is_seen-without}
use newzyfy.Cleanup.Like.{like, like_codes}

abbrev numbered : (ℕ → String) → String → ℕ → String
numbered decimal slug suffix = concat slug (concat "-" (decimal suffix))

-- The loop: the rounds that are left, and the suffix that is tried.
unfoldable pub search_suffix : (ℕ → String) → List String → ℕ → ℕ → ℕ
search_suffix name existing zero suffix = suffix
search_suffix name existing (suc n) suffix =
    let next = search_suffix name existing n (suc suffix) in
    if is_seen (name suffix) existing then next else suffix

-- The slugs that LIKE f"{slug}%" selects from the table.
abbrev taken_slugs : String → List String → List String
taken_slugs slug slugs = keep (like (concat slug "%")) slugs

-- Some suffix is free after one round more than there are slugs.
unfoldable pub unique_slug : (ℕ → String) → String → List String → String
unique_slug decimal slug slugs =
    let existing = taken_slugs slug slugs in
    if not (is_seen slug existing)
    then slug
    else numbered decimal slug
        (search_suffix (numbered decimal slug) existing (suc (length existing)) 2)

module _ (name : ℕ → String)
    (names_differ : (i j : ℕ) → i < j → str_eq (name i) (name j) ≡ false) where
  -- Each round that finds its name taken rules out one of the names that are left.
  search_suffix-free :
      (existing left : List String) (n suffix : ℕ)
      → length left < n
      → ((j : ℕ) → suffix ≤ j → is_seen (name j) existing ≡ is_seen (name j) left)
      → is_seen (name (search_suffix name existing n suffix)) existing ≡ false
  unfolding search_suffix
  search_suffix-free existing left zero suffix h same = absurd (omega arith)
  search_suffix-free existing left (suc n) suffix h same =
      elim (Bool-cases (is_seen (name suffix) existing)) [
        | inr e ↦ rw (e, e)
        | inl e ↦ rw e (
            search_suffix-free existing (without (name suffix) left) n (suc suffix)
              (omega
                (arith, length-without_lt (name suffix) left (sym (same suffix (omega arith)) ∙ e)))
              (λ j k.
                same j (omega arith)
                ∙ sym (
                    is_seen-without (name j) (name suffix) left
                      (names_differ suffix j (omega arith)))))
      ]

codes-concat : (a b : String) → codes (concat a b) ≡ codes a ++ codes b
codes-concat String.[] b = ap codes (nil-append b)
codes-concat (String.◌∷◌ c a) b =
    ap codes (cons-append c a b) ∙ ap (λ s. code c ∷ s) (codes-concat a b)

not-true : (b : Bool) → not b ≡ true → b ≡ false
not-true true h = absurd (true≢false (sym h))
not-true false h = refl

-- The characters that mean something else in a pattern: the percent sign, the underscore, the backslash.
abbrev pub is_plain : List ℕ → Bool
is_plain [] = true
is_plain (c ∷ s) = not (c == 37 || c == 95 || c == 92) && is_plain s

like_codes_any : (s : List ℕ) → like_codes (37 ∷ []) false s ≡ true
unfolding like_codes
like_codes_any [] = refl
like_codes_any (c ∷ s) = like_codes_any s

like_codes_prefix :
    (p s : List ℕ) → is_plain p ≡ true → like_codes (p ++ 37 ∷ []) false (p ++ s) ≡ true
unfolding like_codes
like_codes_prefix [] s h = like_codes_any s
like_codes_prefix (c ∷ p) s h =
    let both = and_true _ (is_plain p) h in
    let ordinary = or_false (c == 37 || c == 95) (c == 92) (not-true _ both.0) in
    let plain = or_false (c == 37) (c == 95) ordinary.0 in
    rw (plain.0, plain.1, ordinary.1, ==_refl c) (like_codes_prefix p s both.1)

like-prefix :
    (slug rest : String)
    → is_plain (codes slug) ≡ true
    → like (concat slug "%") (concat slug rest) ≡ true
unfolding like
like-prefix slug rest h =
    rw (codes-concat slug "%", codes-concat slug rest)
      (like_codes_prefix (codes slug) (codes rest) h)

is_seen-keep :
    (p : String → Bool) (s : String) (xs : List String)
    → p s ≡ true
    → is_seen s (keep p xs) ≡ is_seen s xs
is_seen-keep p s [] h = refl
is_seen-keep p s (x ∷ xs) h = elim (Bool-cases (p x)) [
  | inl e ↦ rw (e, is_seen-keep p s xs h)
  | inr e ↦ elim (Bool-cases (str_eq x s)) [
    | inl f ↦ absurd (true≢false (sym h ∙ ap p (sym ((eq_iff x s).0 f)) ∙ e))
    | inr f ↦ rw (e, f) (is_seen-keep p s xs h)
  ]
]

module _ (decimal : ℕ → String)
    (decimals_differ : (i j : ℕ) → i < j → str_eq (decimal i) (decimal j) ≡ false) where
  numbered_differ :
      (slug : String) (i j : ℕ)
      → i < j
      → str_eq (numbered decimal slug i) (numbered decimal slug j) ≡ false
  numbered_differ slug i j h =
      elim (Bool-cases (str_eq (numbered decimal slug i) (numbered decimal slug j))) [
        | inr e ↦ e
        | inl e ↦
            let same : decimal i ≡ decimal j =
              append_cancel_left "-" (decimal i) (decimal j)
                (append_cancel_left slug _ _ ((eq_iff _ _).0 e)) in
            absurd
              (true≢false (sym ((eq_iff (decimal i) (decimal j)).1 same) ∙ decimals_differ i j h))
      ]

  -- Where different numbers have different decimal texts, and no character of the slug has a meaning in a
  -- pattern, the slug of _unique_slug is that of no row of the table: a free suffix is found after
  -- at most one try more than there are slugs that start like it.
  pub unique_slug_fresh :
      (slug : String) (slugs : List String)
      → is_plain (codes slug) ≡ true
      → is_seen (unique_slug decimal slug slugs) slugs ≡ false
  unfolding unique_slug
  unique_slug_fresh slug slugs h =
      let existing = taken_slugs slug slugs in
      let name = numbered decimal slug in
      let suffix = search_suffix name existing (suc (length existing)) 2 in
      elim (Bool-cases (is_seen slug existing)) [
        | inr e ↦
            rw (e, unique_slug)
              (sym (
                  is_seen-keep (like (concat slug "%")) slug slugs
                    (ap (like (concat slug "%")) (sym (append-nil slug)) ∙ like-prefix slug "" h))
                ∙ e)
        | inl e ↦
            rw (e, unique_slug)
              (sym
                  (is_seen-keep (like (concat slug "%")) (name suffix) slugs (like-prefix slug _ h))
                ∙ search_suffix-free name (numbered_differ slug) existing existing
                    (suc (length existing)) 2 (omega arith) (λ j k. refl))
      ]
