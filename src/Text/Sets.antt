-- ===== src/Text/Sets.antt =====
-- Counting in sets of texts, as the modules of backend/src/newsintel use frozenset.
use newzyfy.Prelude.{
  ◌≤◌, ◌<◌, ◌≡◌, refl, ap, ◌∙◌, inl, inr, String, Bool, true, false, not, List, [], ◌∷◌, length,
  keep, str_eq, eq_iff, arith, Bool-cases, or_false,
}
use newzyfy.Text.{is_seen, IsDistinct, intersection, str_eq_comm}

-- The other texts of a list.
abbrev pub without : String → List String → List String
without s = keep (λ t. not (str_eq t s))

length-without : (s : String) (xs : List String) → length (without s xs) ≤ length xs
length-without s [] = omega arith
length-without s (x ∷ xs) = ground (arith, length-without s xs)

pub length-without_lt :
    (s : String) (xs : List String) → is_seen s xs ≡ true → length (without s xs) < length xs
length-without_lt s [] h = cc
length-without_lt s (x ∷ xs) h = elim (Bool-cases (str_eq x s)) [
  | inl e ↦ rw e (omega (arith, length-without s xs))
  | inr e ↦ rw e (omega (arith, length-without_lt s xs (rw e at h)))
]

pub is_seen-without :
    (t s : String) (xs : List String) → str_eq s t ≡ false → is_seen t (without s xs) ≡ is_seen t xs
is_seen-without t s [] h = refl
is_seen-without t s (x ∷ xs) h = elim (Bool-cases (str_eq x s)) [
  | inl e ↦ rw (e, (eq_iff x s).0 e, h) (is_seen-without t s xs h)
  | inr e ↦ rw (e, is_seen-without t s xs h)
]

length-keep : (p : String → Bool) (xs : List String) → length (keep p xs) ≤ length xs
length-keep p [] = omega arith
length-keep p (x ∷ xs) = ground (arith, length-keep p xs)

pub length-intersection_left :
    (left right : List String) → length (intersection left right) ≤ length left
length-intersection_left left right = length-keep (λ s. is_seen s right) left

keep_same :
    (s : String) (left right : List String)
    → is_seen s left ≡ false
    → intersection left (without s right) ≡ intersection left right
keep_same s [] right h = refl
keep_same s (x ∷ left) right h =
    let apart = or_false (str_eq x s) (is_seen s left) h in
    rw (is_seen-without x s right (str_eq_comm s x ∙ apart.0), keep_same s left right apart.1)

-- A set has no more members in another than that has members.
pub length-intersection_right :
    (left right : List String) → IsDistinct left → length (intersection left right) ≤ length right
length-intersection_right [] right h = omega arith
length-intersection_right (x ∷ left) right h = elim (Bool-cases (is_seen x right)) [
  | inr e ↦ rw e (length-intersection_right left right h.1)
  | inl e ↦ rw e (
      omega (
        arith,
        length-without_lt x right e,
        length-intersection_right left (without x right) h.1,
        ap length (keep_same x left right h.0),
      ))
]
