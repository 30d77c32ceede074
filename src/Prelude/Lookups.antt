-- ===== src/Prelude/Lookups.antt =====
-- Lookups by a test in a table that is updated or extended.
use mathlib.Core.Path.{◌≡◌, refl}
use mathlib.Core.Logic.{inl, inr}
use mathlib.Core.Bool.{Bool, true}
use mathlib.Core.Option
use mathlib.Core.Option.{Option, none, some}
use mathlib.Core.List.{List, [], ◌∷◌, ◌++◌}
use native.Mathlib.Omega.{arith}
use newzyfy.Prelude.Tests.{if◌then◌else◌, Bool-cases}
use newzyfy.Prelude.Tables.{find_row, update_where}

module _ {ℓ} {A : Type ℓ} where
  -- An update that keeps what a lookup tests acts on the row that is found.
  pub find_row-update_where :
      (p q : A → Bool) (f : A → A)
      → ((x : A) → p (f x) ≡ p x)
      → (xs : List A)
      → find_row p (update_where q f xs) ≡ Option.map (λ x. if q x then f x else x) (find_row p xs)
  find_row-update_where p q f h [] = refl
  find_row-update_where p q f h (x ∷ xs) = ground (arith, find_row-update_where p q f h xs, h x)

  -- A row that is appended is found where none was found before.
  pub find_row-append :
      (p : A → Bool) (x : A) (xs : List A)
      → find_row p xs ≡ none
      → p x ≡ true
      → find_row p (xs ++ x ∷ []) ≡ some x
  find_row-append p x [] e h = ground arith
  find_row-append p x (y ∷ ys) e h = elim (Bool-cases (p y)) [
    | inl same ↦ absurd (ground arith)
    | inr other ↦ ground (arith, find_row-append p x ys (ground arith) h)
  ]

  -- A row that is found stays found behind more rows.
  pub find_row-append_found :
      (p : A → Bool) (a : A) (xs ys : List A)
      → find_row p xs ≡ some a
      → find_row p (xs ++ ys) ≡ some a
  find_row-append_found p a [] ys e = cc
  find_row-append_found p a (x ∷ xs) ys e = elim (Bool-cases (p x)) [
    | inl here ↦ ground arith
    | inr other ↦ ground (arith, find_row-append_found p a xs ys (ground arith))
  ]
