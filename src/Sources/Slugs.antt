-- ===== src/Sources/Slugs.antt =====
-- _slugify and _unique_slug of backend/src/newsintel/application/sources/service.py. What Unicode says of a
-- character, strip() and the decimal text of a number are parameters.
use Prim.Native.Char.{Char, code}
use mathlib.Core.Bool.{true≢false}
use newzyfy.Prelude.{
  ℕ, zero, suc, ◌≤◌, ◌<◌, ◌≡◌, refl, sym, ◌∙◌, inl, inr, String, Bool, true, false, ◌&&◌, ◌||◌,
  ◌==◌, if◌then◌else◌, arith, Bool-cases, and_true,
}
use newzyfy.Text.{concat, is_empty, text_length}

pub record Characters : Type 0 where
  pub strip : String → String
  pub is_alnum : Char → Bool
  pub lower_char : Char → String
  pub decimal : ℕ → String

abbrev is_dash : Char → Bool
is_dash c = code c == 45

abbrev pub has_pair : String → Bool
has_pair (String.◌∷◌ c (String.◌∷◌ d s)) = is_dash c && is_dash d || has_pair (String.◌∷◌ d s)
has_pair _ = false

-- slug.replace("--", "-")
abbrev replace_pairs : String → String
replace_pairs (String.◌∷◌ c (String.◌∷◌ d s)) =
    let pair = replace_pairs s in
    let rest = replace_pairs (String.◌∷◌ d s) in
    if is_dash c && is_dash d then String.◌∷◌ c pair else String.◌∷◌ c rest
replace_pairs s = s

-- The loop that runs while "--" is in the slug.
unfoldable pub squeeze : ℕ → String → String
squeeze zero s = s
squeeze (suc n) s = if has_pair s then squeeze n (replace_pairs s) else s

abbrev strip_left : String → String
strip_left String.[] = ""
strip_left (String.◌∷◌ c s) = let rest = strip_left s in if is_dash c then rest else String.◌∷◌ c s

abbrev put : Char → String → String
put c String.[] = if is_dash c then "" else String.◌∷◌ c ""
put c (String.◌∷◌ d s) = String.◌∷◌ c (String.◌∷◌ d s)

abbrev strip_right : String → String
strip_right String.[] = ""
strip_right (String.◌∷◌ c s) = put c (strip_right s)

-- Its first argument is the answer for an empty text: the answer on the character before.
abbrev last_dash : Bool → String → Bool
last_dash before String.[] = before
last_dash before (String.◌∷◌ c s) = last_dash (is_dash c) s

abbrev pub starts_dash : String → Bool
starts_dash String.[] = false
starts_dash (String.◌∷◌ c s) = is_dash c

abbrev pub ends_dash : String → Bool
ends_dash = last_dash false

module _ (characters : Characters) where
  abbrev slug_characters : String → String
  slug_characters String.[] = ""
  slug_characters (String.◌∷◌ c s) =
      concat (if characters.is_alnum c then characters.lower_char c else "-") (slug_characters s)

  abbrev raw_slug : String → String
  raw_slug value = strip_right (strip_left (slug_characters (characters.strip value)))

  -- The loop runs at most as often as the text is long.
  unfoldable pub slugify : String → String
  slugify value =
      let slug = squeeze (text_length (raw_slug value)) (raw_slug value) in
      if is_empty slug then "publisher" else slug

replace_pairs-le : (s : String) → text_length (replace_pairs s) ≤ text_length s
replace_pairs-le String.[] = omega arith
replace_pairs-le (String.◌∷◌ c String.[]) = omega arith
replace_pairs-le (String.◌∷◌ c (String.◌∷◌ d s)) = elim (Bool-cases (is_dash c && is_dash d)) [
  | inl e ↦ rw e (omega (arith, replace_pairs-le s))
  | inr e ↦ rw e (omega (arith, replace_pairs-le (String.◌∷◌ d s)))
]

replace_pairs-lt : (s : String) → has_pair s ≡ true → text_length (replace_pairs s) < text_length s
replace_pairs-lt String.[] h = absurd (true≢false (sym h))
replace_pairs-lt (String.◌∷◌ c String.[]) h = absurd (true≢false (sym h))
replace_pairs-lt (String.◌∷◌ c (String.◌∷◌ d s)) h = elim (Bool-cases (is_dash c && is_dash d)) [
  | inl e ↦ rw e (omega (arith, replace_pairs-le s))
  | inr e ↦ rw e (omega (arith, replace_pairs-lt (String.◌∷◌ d s) (rw e at h)))
]

last_dash-replace_pairs :
    (before : Bool) (s : String) → last_dash before (replace_pairs s) ≡ last_dash before s
last_dash-replace_pairs before String.[] = refl
last_dash-replace_pairs before (String.◌∷◌ c String.[]) = refl
last_dash-replace_pairs before (String.◌∷◌ c (String.◌∷◌ d s)) =
    elim (Bool-cases (is_dash c && is_dash d)) [
      | inl e ↦
          let both = and_true (is_dash c) (is_dash d) e in
          rw (e, both.0, both.1) (last_dash-replace_pairs true s)
      | inr e ↦ rw e (last_dash-replace_pairs (is_dash c) (String.◌∷◌ d s))
    ]

starts_dash-replace_pairs : (s : String) → starts_dash (replace_pairs s) ≡ starts_dash s
starts_dash-replace_pairs String.[] = refl
starts_dash-replace_pairs (String.◌∷◌ c String.[]) = refl
starts_dash-replace_pairs (String.◌∷◌ c (String.◌∷◌ d s)) =
    elim (Bool-cases (is_dash c && is_dash d)) [ inl e ↦ rw e | inr e ↦ rw e ]

-- No two dashes in a row, none at an end.
abbrev IsTrimmed : String → Type 0
IsTrimmed s = (starts_dash s ≡ false) × (ends_dash s ≡ false)

squeeze-IsTrimmed :
    (n : ℕ) (s : String)
    → text_length s ≤ n
    → IsTrimmed s
    → (has_pair (squeeze n s) ≡ false) × IsTrimmed (squeeze n s)
unfolding squeeze
squeeze-IsTrimmed zero String.[] h t = (refl, t)
squeeze-IsTrimmed zero (String.◌∷◌ c s) h t = absurd (omega arith)
squeeze-IsTrimmed (suc n) s h t = elim (Bool-cases (has_pair s)) [
  | inr e ↦ rw e (e, t)
  | inl e ↦ rw e (
      squeeze-IsTrimmed n (replace_pairs s) (omega (arith, replace_pairs-lt s e))
        (starts_dash-replace_pairs s ∙ t.0, last_dash-replace_pairs false s ∙ t.1))
]

starts_dash-strip_left : (s : String) → starts_dash (strip_left s) ≡ false
starts_dash-strip_left String.[] = refl
starts_dash-strip_left (String.◌∷◌ c s) = elim (Bool-cases (is_dash c)) [
  | inl e ↦ rw e (starts_dash-strip_left s)
  | inr e ↦ rw (e, e)
]

put-IsTrimmed :
    (c : Char) (r : String)
    → ends_dash r ≡ false
    → (ends_dash (put c r) ≡ false) × (is_dash c ≡ false → starts_dash (put c r) ≡ false)
put-IsTrimmed c String.[] h = elim (Bool-cases (is_dash c)) [
  | inl e ↦ rw e (refl, λ k. refl)
  | inr e ↦ rw e (e, λ k. e)
]
put-IsTrimmed c (String.◌∷◌ d s) h = (h, λ k. k)

strip_right-ends_dash : (s : String) → ends_dash (strip_right s) ≡ false
strip_right-ends_dash String.[] = refl
strip_right-ends_dash (String.◌∷◌ c s) =
    (put-IsTrimmed c (strip_right s) (strip_right-ends_dash s)).0

strip_right-IsTrimmed : (s : String) → starts_dash s ≡ false → IsTrimmed (strip_right s)
strip_right-IsTrimmed String.[] h = (refl, refl)
strip_right-IsTrimmed (String.◌∷◌ c s) h =
    let p = put-IsTrimmed c (strip_right s) (strip_right-ends_dash s) in (p.1 h, p.0)

-- The loop of _slugify ends within as many rounds as the text is long: the slug has no two dashes
-- in a row; and it neither starts nor ends with a dash and is not empty.
pub slugify-IsSlug :
    (characters : Characters) (value : String)
    → let slug = slugify characters value in
      (has_pair slug ≡ false)
      × (starts_dash slug ≡ false)
      × (ends_dash slug ≡ false)
      × (is_empty slug ≡ false)
unfolding slugify
slugify-IsSlug characters value =
    let raw = raw_slug characters value in
    let good = squeeze-IsTrimmed (text_length raw) raw (omega arith) (
      strip_right-IsTrimmed (strip_left (slug_characters characters (characters.strip value)))
        (starts_dash-strip_left (slug_characters characters (characters.strip value)))) in
    elim (Bool-cases (is_empty (squeeze (text_length raw) raw))) [
      | inl e ↦ rw (e, slugify) (refl, refl, refl, refl)
      | inr e ↦ rw (e, slugify) (good.0, good.1.0, good.1.1, e)
    ]
