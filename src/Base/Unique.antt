-- ===== src/Base/Unique.antt =====
-- The rows of a keyed table that have an id or a text: one at most.
use Prim.Native.Nat.{ℕ}
use Prim.Native.String.{String}
use mathlib.Core.Path.{◌≡◌, refl}
use mathlib.Core.Logic.{inl, inr}
use mathlib.Core.Bool.{Bool, true, false, ◌&&◌}
use mathlib.Core.Option.{Option, none, some}
use mathlib.Core.List.{List, [], ◌∷◌}
use native.Mathlib.Omega.{arith}
use text.Mathlib.Text.{◌==◌ as str_eq}
use text.Mathlib.TextEquality.{eq_iff}
use fast_api_ddd_template.Base.Booleans.{◌==◌, Bool-cases, if◌then◌else◌}
use fast_api_ddd_template.Base.Lists.{exists, first, where_}
use fast_api_ddd_template.Base.Keyed.{IsKeyed}

abbrev pub to_list {ℓ} : {A : Type ℓ} → Option A → List A
to_list none = []
to_list (some a) = a ∷ []

pub where_none : {A : Type 0} (p : A → Bool) (xs : List A) → exists p xs ≡ false → where_ p xs ≡ []
where_none p [] h = refl
where_none p (x ∷ xs) h = ground (arith, where_none p xs)

pub first-none : {A : Type 0} (p : A → Bool) (xs : List A) → exists p xs ≡ false → first p xs ≡ none
first-none p [] h = refl
first-none p (x ∷ xs) h = ground (arith, first-none p xs)

-- A test that implies another passes no row where the other passes none.
pub exists_of :
    {A : Type 0} (q p : A → Bool) (xs : List A)
    → ((x : A) → q x ≡ true → p x ≡ true)
    → exists p xs ≡ false
    → exists q xs ≡ false
exists_of q p [] k h = refl
exists_of q p (x ∷ xs) k h = elim (Bool-cases (q x)) [
  | inl t ↦ absurd (ground (arith, k x t, h))
  | inr t ↦ rw t (exists_of q p xs k (ground (arith, h)))
]

module _ {A : Type 0} (id : A → ℕ) (key : A → String) where
  -- A test that only rows of one id pass.
  module _ (i : ℕ) (q : A → Bool) (of_id : (x : A) → q x ≡ true → (id x == i) ≡ true) where
    rest_none : (x : A) (xs : List A) → IsKeyed id key (x ∷ xs) → q x ≡ true → exists q xs ≡ false
    rest_none x xs h t =
        exists_of q (λ r. id r == id x) xs (λ y e. ground (arith, of_id x t, of_id y e)) h.0

    pub where-by_id : (xs : List A) → IsKeyed id key xs → where_ q xs ≡ to_list (first q xs)
    where-by_id [] h = refl
    where-by_id (x ∷ xs) h = elim (Bool-cases (q x)) [
      | inl t ↦ rw t (rw (where_none q xs (rest_none x xs h t)))
      | inr t ↦ rw t (where-by_id xs h.2)
    ]

    -- The first row that also passes another test.
    pub first-and :
        (b : A → Bool) (xs : List A)
        → IsKeyed id key xs
        → first (λ x. q x && b x) xs
          ≡ elim (first q xs) [ none ↦ none | some x ↦ if b x then some x else none ]
    first-and b [] h = refl
    first-and b (x ∷ xs) h = elim (Bool-cases (q x)) [
      | inl t ↦ rw t (
          ground (
            arith,
            first-none (λ y. q y && b y) xs
                (exists_of (λ y. q y && b y) q xs (λ y e. ground (arith, e)) (rest_none x xs h t)),
          ))
      | inr t ↦ rw t (first-and b xs h.2)
    ]

  pub where-by_key :
      (k : String) (q : A → Bool)
      → ((x : A) → q x ≡ true → str_eq (key x) k ≡ true)
      → (xs : List A) → IsKeyed id key xs
      → where_ q xs ≡ to_list (first q xs)
  where-by_key k q of_key [] h = refl
  where-by_key k q of_key (x ∷ xs) h = elim (Bool-cases (q x)) [
    | inl t ↦ rw t (
        rw (
          where_none q xs (
            exists_of q (λ r. str_eq (key r) (key x)) xs
              (λ y e. ground (
                arith,
                of_key x t,
                of_key y e,
                eq_iff (key x) k,
                eq_iff (key y) k,
                eq_iff (key y) (key x),
              ))
              h.1)))
    | inr t ↦ rw t (where-by_key k q of_key xs h.2)
  ]
