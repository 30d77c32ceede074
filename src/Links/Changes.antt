-- ===== src/Links/Changes.antt =====
-- What the sets of a comparison hold: compare_link_sets and materially_changed of
-- backend/src/newsintel/domain/acquisition/change_detection.py.
use mathlib.Core.Bool.{true≢false}
use newzyfy.Prelude.{
  String, Bool, true, false, not, ◌&&◌, ◌||◌, ◌≡◌, ◌↔◌, ◌⊎◌, inl, inr, refl, sym, ap, ◌∙◌, none,
  some, List, [], ◌∷◌, keep, str_eq, eq_iff, Bool-cases, and_true,
}
use newzyfy.Text.{is_seen, intersection, difference}
use newzyfy.Links.{
  LinkSetSnapshot, LinkSetDiff, is_empty_set, materially_changed, compare_link_sets,
}

and-false : (b : Bool) → (b && false) ≡ false
and-false true = refl
and-false false = refl

is_seen-keep :
    (s : String) (p : String → Bool) (xs : List String)
    → is_seen s (keep p xs) ≡ (is_seen s xs && p s)
is_seen-keep s p [] = refl
is_seen-keep s p (x ∷ xs) = elim (Bool-cases (str_eq x s)) [
  | inl e ↦
      let same : p x ≡ p s = ap p ((eq_iff x s).0 e) in
      elim (Bool-cases (p x)) [
        | inl f ↦ rw (e, f, e) (sym (sym same ∙ f))
        | inr f ↦ rw (e, f) (is_seen-keep s p xs ∙ rw (sym same ∙ f) (and-false _))
      ]
  | inr e ↦ elim (Bool-cases (p x)) [
    | inl f ↦ rw (e, f, e) (is_seen-keep s p xs)
    | inr f ↦ rw (e, f) (is_seen-keep s p xs)
  ]
]

seen_first : (s : String) (xs : List String) → is_seen s (s ∷ xs) ≡ true
seen_first s xs = rw ((eq_iff s s).1 refl)

empty_has_none : (s : String) (xs : List String) → is_empty_set xs ≡ true → is_seen s xs ≡ false
empty_has_none s [] h = refl
empty_has_none s (x ∷ xs) h = absurd (true≢false (sym h))

other_has_one : (xs : List String) → is_empty_set xs ≡ false → (s : String) × (is_seen s xs ≡ true)
other_has_one [] h = absurd (true≢false h)
other_has_one (x ∷ xs) h = (x, seen_first x xs)

not_both : (b : Bool) → b ≡ true → not b ≡ true → ⊥
not_both true h k = true≢false (sym k)
not_both false h k = true≢false (sym h)

-- A difference is empty exactly where each member of the first set is one of the second.
difference-is_empty_set :
    (left right : List String)
    → (is_empty_set (difference left right) ≡ true)
      ↔ ((s : String) → is_seen s left ≡ true → is_seen s right ≡ true)
difference-is_empty_set left right = (forwards, backwards)
  where
    kept :
        (s : String) → is_seen s (difference left right) ≡ (is_seen s left && not (is_seen s right))
    kept s = is_seen-keep s (λ x. not (is_seen x right)) left

    forwards :
        is_empty_set (difference left right) ≡ true
        → (s : String) → is_seen s left ≡ true
        → is_seen s right ≡ true
    forwards h s e = elim (Bool-cases (is_seen s right)) [
      | inl f ↦ f
      | inr f ↦
          absurd (
            true≢false (sym (kept s ∙ rw (e, f) refl) ∙ empty_has_none s (difference left right) h))
    ]

    backwards :
        ((s : String) → is_seen s left ≡ true → is_seen s right ≡ true)
        → is_empty_set (difference left right) ≡ true
    backwards h = elim (Bool-cases (is_empty_set (difference left right))) [
      | inl e ↦ e
      | inr e ↦
          let one = other_has_one (difference left right) e in
          let both = and_true _ _ (sym (kept one.0) ∙ one.1) in
          absurd (not_both (is_seen one.0 right) (h one.0 both.0) both.1)
    ]

same_members : (a b : Bool) → (a ≡ true → b ≡ true) → (b ≡ true → a ≡ true) → a ≡ b
same_members true b f g = sym (f refl)
same_members false true f g = g refl
same_members false false f g = refl

neither : (a b : Bool) → (not a || not b) ≡ false → (a ≡ true) × (b ≡ true)
neither true true h = (refl, refl)
neither true false h = absurd (true≢false h)
neither false b h = absurd (true≢false h)

parts :
    (p c : Bool)
    → (((p && c) || (c && not p)) ≡ c)
      × (((p && c) || (p && not c)) ≡ p)
      × (((c && not p) && (p && c)) ≡ false)
      × (((p && not c) && (p && c)) ≡ false)
      × (((c && not p) && (p && not c)) ≡ false)
parts true true = (refl, refl, refl, refl, refl)
parts true false = (refl, refl, refl, refl, refl)
parts false true = (refl, refl, refl, refl, refl)
parts false false = (refl, refl, refl, refl, refl)

not-not : (b : Bool) → not b ≡ false → b ≡ true
not-not true h = refl
not-not false h = absurd (true≢false h)

no_change :
    (left right : List String)
    → ((not (is_empty_set (difference right left)) || not (is_empty_set (difference left right)))
        ≡ false)
      ↔ ((s : String) → is_seen s left ≡ is_seen s right)
no_change left right = (
  λ h s.
      let both = neither _ _ h in
      same_members (is_seen s left) (is_seen s right)
        ((difference-is_empty_set left right).0 both.1 s)
        ((difference-is_empty_set right left).0 both.0 s),
  λ same. rw (
    (difference-is_empty_set right left).1 (λ s e. same s ∙ e),
    (difference-is_empty_set left right).1 (λ s e. sym (same s) ∙ e),
  ),
)

-- Snapshots of different pages are refused. Else the links that are inserted or unchanged are those of
-- the current snapshot, the links that are removed or unchanged those of the previous one, no link
-- is in two of the three sets, and the page is not materially changed exactly where the snapshots
-- have the same links.
pub compare_link_sets_partition :
    (previous current : LinkSetSnapshot)
    → ((str_eq previous.base_url current.base_url ≡ false)
        × (compare_link_sets previous current ≡ none))
      ⊎ ((d : LinkSetDiff) × (compare_link_sets previous current ≡ some d)
          × ((s : String)
              → ((is_seen s d.unchanged || is_seen s d.inserted) ≡ is_seen s current.links)
                × ((is_seen s d.unchanged || is_seen s d.removed) ≡ is_seen s previous.links)
                × ((is_seen s d.inserted && is_seen s d.unchanged) ≡ false)
                × ((is_seen s d.removed && is_seen s d.unchanged) ≡ false)
                × ((is_seen s d.inserted && is_seen s d.removed) ≡ false))
          × ((materially_changed d ≡ false)
              ↔ ((s : String) → is_seen s previous.links ≡ is_seen s current.links)))
unfolding compare_link_sets materially_changed
compare_link_sets_partition previous current =
    elim (Bool-cases (str_eq previous.base_url current.base_url)) [
      | inr e ↦ inl (e, rw (e, compare_link_sets))
      | inl e ↦ inr (
        record {
          inserted = difference current.links previous.links;
          removed = difference previous.links current.links;
          unchanged = intersection previous.links current.links;
        },
        rw (e, compare_link_sets) refl,
        λ s.
            rw
              (
                is_seen-keep s (λ x. not (is_seen x previous.links)) current.links,
                is_seen-keep s (λ x. not (is_seen x current.links)) previous.links,
                is_seen-keep s (λ x. is_seen x current.links) previous.links,
              )
              (parts (is_seen s previous.links) (is_seen s current.links)),
        no_change previous.links current.links,
      )
    ]
