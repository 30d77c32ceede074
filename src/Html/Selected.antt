-- ===== src/Html/Selected.antt =====
-- Which object _select_article_json_ld of backend/src/newsintel/adapters/extractors/article_html.py takes.
use newzyfy.Prelude.{
  ℕ, ◌≤◌, ◌<◌, ◌≡◌, refl, sym, ap, subst, ◌⊎◌, inl, inr, Bool, true, false, Option, none, some,
  List, [], ◌∷◌, ◌++◌, keep, All, ltb, if◌then◌else◌, arith, Bool-cases,
}
use newzyfy.Html.{Web, Fields}
use newzyfy.Html.Structured.{first_max, max_of, is_article, json_ld_score, select_article_json_ld}

module _ {A : Type 0} (p : A → Bool) (score : A → ℕ) where
  -- An element that does not pass the test, or has a lower score, or no higher one.
  abbrev IsLower : A → A → Type 0
  IsLower o a = (p a ≡ false) ⊎ (score a < score o)

  abbrev IsNotHigher : A → A → Type 0
  IsNotHigher o a = (p a ≡ false) ⊎ (score a ≤ score o)

  -- The first of the elements with the highest score, among those that pass the test.
  pub record IsFirstMax (xs : List A) (o : A) : Type 0 where
    pub before : List A
    pub after : List A
    pub split : xs ≡ before ++ o ∷ after
    pub passes : p o ≡ true
    pub lower : All (IsLower o) before
    pub others : All (IsNotHigher o) after

  abbrev Outcome : A → List A → A → Type 0
  Outcome best xs r =
      ((r ≡ best) × All (IsNotHigher best) xs) ⊎ (IsFirstMax xs r × (score best < score r))

  -- An element before the others that is lower than the first of the highest.
  later_max : (x : A) (xs : List A) (o : A) → IsLower o x → IsFirstMax xs o → IsFirstMax (x ∷ xs) o
  later_max x xs o low m = record {
    before = x ∷ m.before;
    after = m.after;
    split = ap (λ ys. x ∷ ys) m.split;
    passes = m.passes;
    lower = (low, m.lower);
    others = m.others;
  }

  -- An element that cannot replace the best so far.
  pass_over :
      (best x : A) (xs : List A) (r : A)
      → IsNotHigher best x
      → Outcome best xs r
      → Outcome best (x ∷ xs) r
  pass_over best x xs r low (inl (same, rest)) = inl (same, (low, rest))
  pass_over best x xs r low (inr (m, above)) = inr (later_max x xs r (still_lower low) m, above)
    where
      still_lower : IsNotHigher best x → IsLower r x
      still_lower (inl out) = inl out
      still_lower (inr le) = inr (omega arith)

  -- An element that replaces it.
  take_over :
      (best x : A) (xs : List A) (r : A)
      → p x ≡ true
      → score best < score x
      → Outcome x xs r
      → Outcome best (x ∷ xs) r
  take_over best x xs r passes above (inl (same, rest)) = inr (
      rw same (
        record {
          before = [];
          after = xs;
          split = refl;
          passes = passes;
          lower = tt;
          others = rest;
        },
        above,
      ))
  take_over best x xs r passes above (inr (m, higher)) =
      inr (later_max x xs r (inr higher) m, omega (arith, higher))

  keep_passing : (x : A) (xs : List A) → p x ≡ true → keep p (x ∷ xs) ≡ x ∷ keep p xs
  keep_passing x xs e = rw e refl

  keep_failing : (x : A) (xs : List A) → p x ≡ false → keep p (x ∷ xs) ≡ keep p xs
  keep_failing x xs e = rw e refl

  compared :
      (best x : A) (xs : List A)
      → p x ≡ true
      → (ltb (score best) (score x) ≡ true) ⊎ (ltb (score best) (score x) ≡ false)
      → Outcome x xs (first_max score x (keep p xs))
      → Outcome best xs (first_max score best (keep p xs))
      → Outcome best
          (x ∷ xs)
          (first_max score (if ltb (score best) (score x) then x else best) (keep p xs))
  compared best x xs e (inl f) above under = rw f (take_over best x xs _ e (ground arith) above)
  compared best x xs e (inr f) above under = rw f (pass_over best x xs _ (inr (ground arith)) under)

  first_max-Outcome : (best : A) (xs : List A) → Outcome best xs (first_max score best (keep p xs))
  unfolding first_max
  first_max-Outcome best [] = inl (refl, tt)
  first_max-Outcome best (x ∷ xs) = elim (Bool-cases (p x)) [
    | inr e ↦
        subst (λ ys. Outcome best (x ∷ xs) (first_max score best ys)) (sym (keep_failing x xs e))
          (pass_over best x xs _ (inl e) (first_max-Outcome best xs))
    | inl e ↦
        subst (λ ys. Outcome best (x ∷ xs) (first_max score best ys)) (sym (keep_passing x xs e))
          (compared best x xs e (Bool-cases (ltb (score best) (score x))) (first_max-Outcome x xs)
            (first_max-Outcome best xs))
  ]

  -- What max gives of the elements that pass the test.
  abbrev pub IsMax : List A → Option A → Type 0
  IsMax xs none = All (λ a. p a ≡ false) xs
  IsMax xs (some o) = IsFirstMax xs o

  max_of-IsMax : (xs : List A) → IsMax xs (max_of score (keep p xs))
  max_of-IsMax [] = tt
  max_of-IsMax (x ∷ xs) = elim (Bool-cases (p x)) [
    | inl e ↦
        subst (λ ys. IsMax (x ∷ xs) (max_of score ys)) (sym (keep_passing x xs e))
          (begins (first_max-Outcome x xs) e)
    | inr e ↦
        subst (λ ys. IsMax (x ∷ xs) (max_of score ys)) (sym (keep_failing x xs e))
          (skip e (max_of score (keep p xs)) (max_of-IsMax xs))
  ]
    where
      skip : p x ≡ false → (r : Option A) → IsMax xs r → IsMax (x ∷ xs) r
      skip e none h = (e, h)
      skip e (some o) h = later_max x xs o (inl e) h

      begins : {r : A} → Outcome x xs r → p x ≡ true → IsFirstMax (x ∷ xs) r
      begins (inl (same, rest)) e =
          rw same (record {
            before = [];
            after = xs;
            split = refl;
            passes = e;
            lower = tt;
            others = rest;
          })
      begins {r} (inr (m, above)) e = later_max x xs r (inr above) m

-- The object that is selected is of an article type; of those that are, none has a longer body
-- and headline together, and those before it have less. None is selected exactly where no object is of an article type.
pub select_article_json_ld-IsMax :
    (web : Web) (objects : List Fields)
    → IsMax (is_article web) (json_ld_score web) objects (select_article_json_ld web objects)
unfolding select_article_json_ld
select_article_json_ld-IsMax web objects = max_of-IsMax (is_article web) (json_ld_score web) objects
