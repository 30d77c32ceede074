-- ===== src/Prelude/Tables.antt =====
-- Tables of rows: the parts of SELECT, UPDATE and INSERT that the repositories use, and what a
-- primary key gives.
use Prim.Native.Nat.{ℕ, zero, suc}
use mathlib.Core.Path.{◌≡◌, refl, sym, ◌∙◌, subst}
use mathlib.Core.Logic.{◌≢◌, inl, inr}
use mathlib.Core.Bool.{Bool, true, false}
use mathlib.Core.Option
use mathlib.Core.Option.{Option, none, some}
use mathlib.Core.List.{List, [], ◌∷◌, map}
use native.Mathlib.Omega.{arith}
use newzyfy.Prelude.Tests.{◌==◌, if◌then◌else◌, Bool-cases, ==_refl, ==_iff}
use newzyfy.Prelude.Lists.{
  All, elem, All-map, All-take, All-keep, All-insert_by, All-sort_by, take, keep, insert_by,
  sort_by,
}

module _ {ℓ} {A : Type ℓ} where
  -- The first row that passes a test: a lookup by a unique key.
  abbrev pub find_row : (A → Bool) → List A → Option A
  find_row p [] = none
  find_row p (x ∷ xs) = let rest = find_row p xs in if p x then some x else rest

  -- UPDATE … WHERE.
  abbrev pub update_where : (A → Bool) → (A → A) → List A → List A
  update_where p f [] = []
  update_where p f (x ∷ xs) = (if p x then f x else x) ∷ update_where p f xs

  -- The column `key` is unique, as a primary key or a unique constraint makes it.
  abbrev pub IsKey : (A → ℕ) → List A → Type 0
  IsKey key [] = Unit
  IsKey key (x ∷ xs) = All (λ y. key y ≢ key x) xs × IsKey key xs

module _ {ℓ} {A : Type ℓ} (key : A → ℕ) where
  abbrev pub find_key : ℕ → List A → Option A
  find_key k = find_row (λ x. key x == k)

  find_key-cons_ne :
      (x y : A) (xs : List A) → key y ≢ key x → find_key (key y) (x ∷ xs) ≡ find_key (key y) xs
  find_key-cons_ne x y xs h = ground arith

  -- A row of a keyed table is found under its key.
  pub find_key-IsKey : (xs : List A) → IsKey key xs → All (λ x. find_key (key x) xs ≡ some x) xs
  find_key-IsKey [] h = tt
  find_key-IsKey (x ∷ xs) h = (rw (==_refl (key x)), step xs (find_key-IsKey xs h.1) h.0)
    where
      step :
          (ys : List A)
          → All (λ y. find_key (key y) xs ≡ some y) ys
          → All (λ y. key y ≢ key x) ys
          → All (λ y. find_key (key y) (x ∷ xs) ≡ some y) ys
      step [] f n = tt
      step (y ∷ ys) f n = (find_key-cons_ne x y xs n.0 ∙ f.0, step ys f.1 n.1)

  -- An update that chooses by the key and keeps it acts on the row found under each key.
  pub find_key-update_where :
      (f : A → A) (q : ℕ → Bool) (j : ℕ)
      → ((x : A) → key (f x) ≡ key x)
      → (xs : List A)
      → find_key j (update_where (λ x. q (key x)) f xs)
        ≡ (if q j then Option.map f (find_key j xs) else find_key j xs)
  find_key-update_where f q j h [] = ground arith
  find_key-update_where f q j h (x ∷ xs) =
      let ih = find_key-update_where f q j h xs in
      elim (Bool-cases (key x == j)) [
        | inl e ↦
            let same : key x ≡ j = (==_iff (key x) j).0 e in
            subst
              (λ k.
                find_key k (update_where (λ x. q (key x)) f (x ∷ xs))
                ≡ (if q k then Option.map f (find_key k (x ∷ xs)) else find_key k (x ∷ xs)))
              same (ground (arith, ==_refl (key x), h x))
        | inr e ↦ ground (arith, ih, h x)
      ]

  -- Every row's key is among the keys of the rows.
  pub elem-map-key : (xs : List A) → All (λ x. elem (key x) (map key xs) ≡ true) xs
  elem-map-key [] = tt
  elem-map-key (x ∷ xs) = (
    ground (arith, ==_refl (key x)),
    All-map (λ y. elem (key y) (map key xs) ≡ true) (λ y. elem (key y) (map key (x ∷ xs)) ≡ true)
        (λ y e. ground arith) xs (elem-map-key xs),
  )

  -- A key among the keys of rows that share a property is the key of a row with that property.
  pub elem-map-key_of_All {κ} :
      (P : A → Type κ) (k : ℕ) (xs : List A)
      → All P xs
      → elem k (map key xs) ≡ true
      → (x : A) × (key x ≡ k) × P x
  elem-map-key_of_All P k [] h e = cc
  elem-map-key_of_All P k (x ∷ xs) h e = elim (Bool-cases (key x == k)) [
    | inl same ↦ (x, (==_iff (key x) k).0 same, h.0)
    | inr other ↦ elem-map-key_of_All P k xs h.1 (ground arith)
  ]

  -- The keys of an updated table are those of the table.
  pub map-key-update_where :
      (p : A → Bool) (f : A → A)
      → ((x : A) → key (f x) ≡ key x)
      → (xs : List A) → map key (update_where p f xs) ≡ map key xs
  map-key-update_where p f h [] = refl
  map-key-update_where p f h (x ∷ xs) = ground (arith, map-key-update_where p f h xs, h x)

module _ {ℓ κ} {A : Type ℓ} (P Q : A → Type κ) where
  pub All-update_where :
      (p : A → Bool) (f : A → A)
      → ((x : A) → p x ≡ true → P x → Q (f x))
      → ((x : A) → p x ≡ false → P x → Q x)
      → (xs : List A) → All P xs
      → All Q (update_where p f xs)
  All-update_where p f changed same [] h = tt
  All-update_where p f changed same (x ∷ xs) h = elim (Bool-cases (p x)) [
    | inl e ↦ rw e (changed x e h.0, All-update_where p f changed same xs h.1)
    | inr e ↦ rw e (same x e h.0, All-update_where p f changed same xs h.1)
  ]

module _ {ℓ} {A : Type ℓ} (key : A → ℕ) where
  -- An update by a key that no row has changes nothing.
  pub update_where_absent :
      (f : A → A) (k : ℕ) (xs : List A)
      → All (λ x. key x ≢ k) xs
      → update_where (λ x. key x == k) f xs ≡ xs
  update_where_absent f k [] h = refl
  update_where_absent f k (x ∷ xs) h = ground (arith, update_where_absent f k xs h.1, h.0)

  IsKey-insert_by :
      (before : A → A → Bool) (x : A) (ys : List A)
      → All (λ y. key y ≢ key x) ys
      → IsKey key ys
      → IsKey key (insert_by before x ys)
  IsKey-insert_by before x [] n h = (tt, tt)
  IsKey-insert_by before x (y ∷ ys) n h = elim (Bool-cases (before y x)) [
    | inl e ↦ rw e (
      All-insert_by (λ z. key z ≢ key y) before x ys (λ p. n.0 (sym p)) h.0,
      IsKey-insert_by before x ys n.1 h.1,
    )
    | inr e ↦ rw e (n, h)
  ]

  pub IsKey-sort_by :
      (before : A → A → Bool) (xs : List A) → IsKey key xs → IsKey key (sort_by before xs)
  IsKey-sort_by before [] h = tt
  IsKey-sort_by before (x ∷ xs) h =
      IsKey-insert_by before x (sort_by before xs) (All-sort_by (λ y. key y ≢ key x) before xs h.0)
        (IsKey-sort_by before xs h.1)

  pub IsKey-take : (n : ℕ) (xs : List A) → IsKey key xs → IsKey key (take n xs)
  IsKey-take zero xs h = tt
  IsKey-take (suc n) [] h = tt
  IsKey-take (suc n) (x ∷ xs) h = (All-take (λ y. key y ≢ key x) n xs h.0, IsKey-take n xs h.1)

  pub IsKey-keep : (p : A → Bool) (xs : List A) → IsKey key xs → IsKey key (keep p xs)
  IsKey-keep p [] h = tt
  IsKey-keep p (x ∷ xs) h = elim (Bool-cases (p x)) [
    | inl e ↦ rw e (
      All-map (λ y. (key y ≢ key x) × (p y ≡ true)) (λ y. key y ≢ key x) (λ y q. q.0) (keep p xs)
          (All-keep (λ y. key y ≢ key x) p xs h.0),
      IsKey-keep p xs h.1,
    )
    | inr e ↦ rw e (IsKey-keep p xs h.1)
  ]

  All-of_map-eq :
      (Q : ℕ → Type 0) (xs ys : List A)
      → map key xs ≡ map key ys
      → All (λ x. Q (key x)) xs
      → All (λ y. Q (key y)) ys
  All-of_map-eq Q [] [] e h = tt
  All-of_map-eq Q [] (y ∷ ys) e h = cc
  All-of_map-eq Q (x ∷ xs) [] e h = cc
  All-of_map-eq Q (x ∷ xs) (y ∷ ys) e h =
      let first : key x ≡ key y = cc in
      let rest : map key xs ≡ map key ys = cc in (subst Q first h.0, All-of_map-eq Q xs ys rest h.1)

  -- Whether a column is a key depends on that column alone.
  IsKey-of_map-eq : (xs ys : List A) → map key xs ≡ map key ys → IsKey key xs → IsKey key ys
  IsKey-of_map-eq [] [] e h = tt
  IsKey-of_map-eq [] (y ∷ ys) e h = cc
  IsKey-of_map-eq (x ∷ xs) [] e h = cc
  IsKey-of_map-eq (x ∷ xs) (y ∷ ys) e h =
      let first : key x ≡ key y = cc in
      let rest : map key xs ≡ map key ys = cc in
      (
        All-of_map-eq (λ k. k ≢ key y) xs ys rest (subst (λ k. All (λ z. key z ≢ k) xs) first h.0),
        IsKey-of_map-eq xs ys rest h.1,
      )

  pub IsKey-update_where :
      (p : A → Bool) (f : A → A)
      → ((x : A) → key (f x) ≡ key x)
      → (xs : List A) → IsKey key xs
      → IsKey key (update_where p f xs)
  IsKey-update_where p f h xs =
      IsKey-of_map-eq xs (update_where p f xs) (sym (map-key-update_where key p f h xs))

module _ {ℓ} {A : Type ℓ} where
  -- The lists have one length, and rows at one place are related.
  abbrev pub Pairwise : (A → A → Type 0) → List A → List A → Type 0
  Pairwise R [] [] = Unit
  Pairwise R (x ∷ xs) (y ∷ ys) = R x y × Pairwise R xs ys
  Pairwise R _ _ = ⊥

  module _ (p : A → Bool) (f : A → A) where
    pub update_where-Pairwise :
        (R : A → A → Type 0)
        → ((x : A) → p x ≡ true → R x (f x))
        → ((x : A) → p x ≡ false → R x x)
        → (xs : List A) → Pairwise R xs (update_where p f xs)
    update_where-Pairwise R changed same [] = tt
    update_where-Pairwise R changed same (x ∷ xs) = elim (Bool-cases (p x)) [
      | inl e ↦ rw e (changed x e, update_where-Pairwise R changed same xs)
      | inr e ↦ rw e (same x e, update_where-Pairwise R changed same xs)
    ]
