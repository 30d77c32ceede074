-- ===== src/Text.antt =====
-- The text operations of the source that the model uses: slices s[:n], f-strings of two parts, the
-- truth of a text, `a in b` on texts, and membership in a set of texts.
pub mod Sets
use Prim.Native.Char.{code}
use Prim.Native.String.{◌++◌ as string_append}
use mathlib.Core.Bool.{true≢false}
use newzyfy.Prelude.{
  ℕ, zero, suc, String, Bool, true, false, ◌&&◌, ◌||◌, Option, none, some, List, [], ◌∷◌, ◌==◌,
  str_eq, eq_iff, ◌≡◌, ap, sym, ◌∙◌, refl, inl, inr, Bool-cases, keep, not, if◌then◌else◌,
}

-- s[:n]
unfoldable pub clip : ℕ → String → String
clip zero s = ""
clip (suc n) String.[] = ""
clip (suc n) (String.◌∷◌ c s) = String.◌∷◌ c (clip n s)

-- f"{a}{b}"
abbrev pub concat : String → String → String
concat = string_append

abbrev pub is_empty : String → Bool
is_empty String.[] = true
is_empty (String.◌∷◌ c s) = false

-- `value or default` for an optional text: an empty text counts as absent.
abbrev pub text_or : Option String → String → String
text_or none d = d
text_or (some String.[]) d = d
text_or (some (String.◌∷◌ c s)) d = String.◌∷◌ c s

abbrev pub text_or_option : Option String → Option String → Option String
text_or_option none d = d
text_or_option (some String.[]) d = d
text_or_option (some (String.◌∷◌ c s)) d = some (String.◌∷◌ c s)

-- len(s)
abbrev pub text_length : String → ℕ
text_length String.[] = 0
text_length (String.◌∷◌ c s) = suc (text_length s)

abbrev pub codes : String → List ℕ
codes String.[] = []
codes (String.◌∷◌ c s) = code c ∷ codes s

abbrev starts_with : List ℕ → List ℕ → Bool
starts_with [] s = true
starts_with (c ∷ p) [] = false
starts_with (c ∷ p) (d ∷ s) = c == d && starts_with p s

abbrev pub contains_codes : List ℕ → List ℕ → Bool
contains_codes p [] = starts_with p []
contains_codes p (c ∷ s) = starts_with p (c ∷ s) || contains_codes p s

-- `part in s`
unfoldable pub contains : String → String → Bool
contains part s = contains_codes (codes part) (codes s)

-- s.startswith(prefix)
unfoldable pub has_prefix : String → String → Bool
has_prefix prefix s = starts_with (codes prefix) (codes s)

abbrev pub codes_eq : List ℕ → List ℕ → Bool
codes_eq [] [] = true
codes_eq (c ∷ s) (d ∷ t) = c == d && codes_eq s t
codes_eq _ _ = false

abbrev ends_with : List ℕ → List ℕ → Bool
ends_with p [] = codes_eq p []
ends_with p (c ∷ s) = codes_eq p (c ∷ s) || ends_with p s

-- s.endswith(suffix)
unfoldable pub has_suffix : String → String → Bool
has_suffix suffix s = ends_with (codes suffix) (codes s)

-- s[n:]
abbrev pub drop_text : ℕ → String → String
drop_text zero s = s
drop_text (suc n) String.[] = ""
drop_text (suc n) (String.◌∷◌ c s) = drop_text n s

-- `s in seen` for a set, or a list, of texts.
abbrev pub is_seen : String → List String → Bool
is_seen s [] = false
is_seen s (u ∷ us) = str_eq u s || is_seen s us

pub str_eq_comm : (a b : String) → str_eq a b ≡ str_eq b a
str_eq_comm a b = elim (Bool-cases (str_eq a b)) [
  | inl e ↦ rw (e, (eq_iff a b).0 e) (sym ((eq_iff b b).1 refl))
  | inr e ↦ elim (Bool-cases (str_eq b a)) [
    | inl f ↦ absurd (true≢false (sym ((eq_iff a b).1 (sym ((eq_iff b a).0 f))) ∙ e))
    | inr f ↦ e ∙ sym f
  ]
]

-- A set of texts is a list in which none stands twice.
abbrev pub IsDistinct : List String → Type 0
IsDistinct [] = Unit
IsDistinct (u ∷ us) = (is_seen u us ≡ false) × IsDistinct us

-- frozenset(…)
abbrev pub as_set : List String → List String
as_set [] = []
as_set (s ∷ rest) = let set = as_set rest in if is_seen s set then set else s ∷ set

-- left & right, left - right
abbrev pub intersection : List String → List String → List String
intersection left right = keep (λ s. is_seen s right) left

abbrev pub difference : List String → List String → List String
difference left right = keep (λ s. not (is_seen s right)) left

is_seen-as_set : (s : String) (xs : List String) → is_seen s (as_set xs) ≡ is_seen s xs
is_seen-as_set s [] = refl
is_seen-as_set s (x ∷ xs) = elim (Bool-cases (is_seen x (as_set xs))) [
  | inr e ↦ rw (e, is_seen-as_set s xs)
  | inl e ↦ elim (Bool-cases (str_eq x s)) [
    | inr f ↦ rw (e, f, is_seen-as_set s xs)
    | inl f ↦ rw (e, f) (ap (λ z. is_seen z (as_set xs)) (sym ((eq_iff x s).0 f)) ∙ e)
  ]
]

pub as_set-IsDistinct : (xs : List String) → IsDistinct (as_set xs)
as_set-IsDistinct [] = tt
as_set-IsDistinct (x ∷ xs) = elim (Bool-cases (is_seen x (as_set xs))) [
  | inl e ↦ rw e (as_set-IsDistinct xs)
  | inr e ↦ rw e (e, as_set-IsDistinct xs)
]
