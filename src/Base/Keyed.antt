-- ===== src/Base/Keyed.antt =====
-- A table with a numeric primary key and a unique text column.
use Prim.Native.Nat.{ℕ}
use Prim.Native.String.{String}
use mathlib.Core.Path.{◌≡◌, refl, ◌∙◌}
use mathlib.Core.Logic.{inl, inr}
use mathlib.Core.Bool.{Bool, true, false, not, ◌&&◌}
use mathlib.Core.Option.{Option, none, some}
use mathlib.Core.List.{List, [], ◌∷◌, ◌++◌}
use native.Mathlib.Omega.{arith}
use text.Mathlib.Text.{◌==◌ as str_eq}
use text.Mathlib.TextEquality.{eq_iff}
use fast_api_ddd_template.Base.Booleans.{◌==◌, if◌then◌else◌, Bool-cases}
use fast_api_ddd_template.Base.Lists.{exists, first, where_, update_where}

module _ {A : Type 0} (id : A → ℕ) (key : A → String) where
  abbrev pub has_id : ℕ → List A → Bool
  has_id i = exists (λ r. id r == i)

  abbrev pub has_key : String → List A → Bool
  has_key k = exists (λ r. str_eq (key r) k)

  -- Another row has the text.
  abbrev pub taken : ℕ → String → List A → Bool
  taken i k = exists (λ r. not (id r == i) && str_eq (key r) k)

  -- No two rows share an id or a text.
  abbrev pub IsKeyed : List A → Type 0
  IsKeyed [] = Unit
  IsKeyed (x ∷ xs) = (has_id (id x) xs ≡ false) × (has_key (key x) xs ≡ false) × IsKeyed xs

  has_id-append :
      (i : ℕ) (xs : List A) (r : A)
      → has_id i xs ≡ false
      → (id r == i) ≡ false
      → has_id i (xs ++ r ∷ []) ≡ false
  has_id-append i [] r h k = ground arith
  has_id-append i (x ∷ xs) r h k = ground (arith, has_id-append i xs r)

  has_key-append :
      (t : String) (xs : List A) (r : A)
      → has_key t xs ≡ false
      → str_eq (key r) t ≡ false
      → has_key t (xs ++ r ∷ []) ≡ false
  has_key-append t [] r h k = ground arith
  has_key-append t (x ∷ xs) r h k = ground (arith, has_key-append t xs r)

  pub append-IsKeyed :
      (xs : List A) (r : A)
      → IsKeyed xs
      → has_id (id r) xs ≡ false
      → taken (id r) (key r) xs ≡ false
      → IsKeyed (xs ++ r ∷ [])
  append-IsKeyed [] r h n t = (refl, refl, tt)
  append-IsKeyed (x ∷ xs) r h n t = (
    ground (arith, has_id-append (id x) xs r),
    ground (arith, has_key-append (key x) xs r, eq_iff (key x) (key r), eq_iff (key r) (key x)),
    append-IsKeyed xs r h.2 (ground arith) (ground arith),
  )

  abbrev pub replace : A → List A → List A
  replace r = update_where (λ o. id o == id r) (λ _. r)

  -- Where no row has the id, nothing is replaced.
  pub replace_none : (r : A) (xs : List A) → has_id (id r) xs ≡ false → replace r xs ≡ xs
  replace_none r [] h = refl
  replace_none r (x ∷ xs) h = ground (arith, replace_none r xs)

  pub has_id-replace : (i : ℕ) (r : A) (xs : List A) → has_id i (replace r xs) ≡ has_id i xs
  has_id-replace i r [] = refl
  has_id-replace i r (x ∷ xs) = ground (arith, has_id-replace i r xs)

  has_key-replace :
      (t : String) (r : A) (xs : List A)
      → has_key t xs ≡ false
      → str_eq (key r) t ≡ false
      → has_key t (replace r xs) ≡ false
  has_key-replace t r [] h k = refl
  has_key-replace t r (x ∷ xs) h k = ground (arith, has_key-replace t r xs)

  -- No row but one with the id has the text.
  has_key_of_taken :
      (r : A) (xs : List A)
      → has_id (id r) xs ≡ false
      → taken (id r) (key r) xs ≡ false
      → has_key (key r) xs ≡ false
  has_key_of_taken r [] h t = refl
  has_key_of_taken r (x ∷ xs) h t = ground (arith, has_key_of_taken r xs)

  pub replace-IsKeyed :
      (xs : List A) (r : A) → IsKeyed xs → taken (id r) (key r) xs ≡ false → IsKeyed (replace r xs)
  replace-IsKeyed [] r h t = tt
  replace-IsKeyed (x ∷ xs) r h t = elim (Bool-cases (id x == id r)) [
    | inl e ↦
        let n : has_id (id r) xs ≡ false = ground (arith, h.0) in
        rw (e, replace_none r xs n) (n, has_key_of_taken r xs n (ground arith), h.2)
    | inr e ↦ rw e (
      has_id-replace (id x) r xs ∙ h.0,
      has_key-replace (key x) r xs h.1
          (ground (arith, eq_iff (key x) (key r), eq_iff (key r) (key x))),
      replace-IsKeyed xs r h.2 (ground arith),
    )
  ]

  -- Rows rewritten with their id and text kept.
  module _ (f : A → A) (p : A → Bool) (same_id : (x : A) → id (f x) ≡ id x)
      (same_key : (x : A) → key (f x) ≡ key x) where
    pub has_id-update : (i : ℕ) (xs : List A) → has_id i (update_where p f xs) ≡ has_id i xs
    has_id-update i [] = refl
    has_id-update i (x ∷ xs) = ground (arith, same_id x, has_id-update i xs)

    has_key-update : (t : String) (xs : List A) → has_key t (update_where p f xs) ≡ has_key t xs
    has_key-update t [] = refl
    has_key-update t (x ∷ xs) = ground (arith, same_key x, has_key-update t xs)

    pub update-IsKeyed : (xs : List A) → IsKeyed xs → IsKeyed (update_where p f xs)
    update-IsKeyed [] h = tt
    update-IsKeyed (x ∷ xs) h = (
      ground (arith, same_id x, has_id-update (id x) xs),
      ground (arith, same_key x, has_key-update (key x) xs),
      update-IsKeyed xs h.2,
    )

  -- Some of the rows.
  has_id-where :
      (p : A → Bool) (i : ℕ) (xs : List A) → has_id i xs ≡ false → has_id i (where_ p xs) ≡ false
  has_id-where p i [] h = refl
  has_id-where p i (x ∷ xs) h = ground (arith, has_id-where p i xs)

  has_key-where :
      (p : A → Bool) (t : String) (xs : List A)
      → has_key t xs ≡ false
      → has_key t (where_ p xs) ≡ false
  has_key-where p t [] h = refl
  has_key-where p t (x ∷ xs) h = ground (arith, has_key-where p t xs)

  pub where-IsKeyed : (p : A → Bool) (xs : List A) → IsKeyed xs → IsKeyed (where_ p xs)
  where-IsKeyed p [] h = tt
  where-IsKeyed p (x ∷ xs) h = elim (Bool-cases (p x)) [
    | inl e ↦
        rw e (has_id-where p (id x) xs h.0, has_key-where p (key x) xs h.1, where-IsKeyed p xs h.2)
    | inr e ↦ rw e (where-IsKeyed p xs h.2)
  ]

  -- What is found by id after a row is added or replaced.
  abbrev pub by_id : ℕ → List A → Option A
  by_id i = first (λ r. id r == i)

  pub by_id-append :
      (i : ℕ) (xs : List A) (r : A)
      → has_id (id r) xs ≡ false
      → by_id i (xs ++ r ∷ []) ≡ (if id r == i then some r else by_id i xs)
  by_id-append i [] r n = refl
  by_id-append i (x ∷ xs) r n = ground (arith, by_id-append i xs r)

  pub by_id-replace_ne :
      (i : ℕ) (xs : List A) (r : A) → (id r == i) ≡ false → by_id i (replace r xs) ≡ by_id i xs
  by_id-replace_ne i [] r n = refl
  by_id-replace_ne i (x ∷ xs) r n = ground (arith, by_id-replace_ne i xs r)

  pub by_id-replace_self :
      (xs : List A) (r : A) → has_id (id r) xs ≡ true → by_id (id r) (replace r xs) ≡ some r
  by_id-replace_self [] r n = cc
  by_id-replace_self (x ∷ xs) r n = ground (arith, by_id-replace_self xs r)

  -- A row that is found by its id is there.
  pub has_id_of_by_id :
      (i : ℕ) (xs : List A) (r : A) → by_id i xs ≡ some r → (has_id i xs ≡ true) × (id r ≡ i)
  has_id_of_by_id i [] r e = cc
  has_id_of_by_id i (x ∷ xs) r e = ground (arith, has_id_of_by_id i xs r)

  pub has_id_of_none : (i : ℕ) (xs : List A) → by_id i xs ≡ none → has_id i xs ≡ false
  has_id_of_none i [] e = refl
  has_id_of_none i (x ∷ xs) e = ground (arith, has_id_of_none i xs)
