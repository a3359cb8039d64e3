-- ===== src/World/Preserves.antt =====
-- The invariant of the tables under an action: one rule for each way to build one.
use fast_api_ddd_template.Base.{◌≡◌, refl, Bool, true, false, if◌then◌else◌, Bool-cases, inl, inr}
use fast_api_ddd_template.Domain.Errors.{Error, Result, ok, err}
use fast_api_ddd_template.Database.Invariant.{IsConsistent}
use fast_api_ddd_template.Database.Ensures.{Returns, Anything}
use fast_api_ddd_template.World.{
  World, Action, Event, ◌>>=◌, pure, raise, lift, write_log, try_except,
}

-- From consistent tables the action ends in consistent tables, and what it returns satisfies `P`.
pub record Preserves {A : Type 0} (P : A → Type 0) (m : Action A) : Type 0 where
  pub at : (w : World) → IsConsistent w.db → IsConsistent (m w).1.db × Returns P (m w).0

module _ {A : Type 0} {P : A → Type 0} where
  pub Preserves-pure : (a : A) → P a → Preserves P (pure a)
  Preserves-pure a p = record { at = λ w h. (h, p) }

  pub Preserves-raise : (e : Error) → Preserves P (raise {A = A} e)
  Preserves-raise e = record { at = λ w h. (h, tt) }

  pub Preserves-lift : (r : Result A) → Returns P r → Preserves P (lift r)
  Preserves-lift r p = record { at = λ w h. (h, p) }

pub Returns-Anything : {A : Type 0} (r : Result A) → Returns Anything r
Returns-Anything (ok a) = tt
Returns-Anything (err e) = tt

pub Preserves-write_log : (e : Event) → Preserves Anything (write_log e)
Preserves-write_log e = record { at = λ w h. (h, tt) }

module _ {A B : Type 0} {P : A → Type 0} {Q : B → Type 0} where
  pub Preserves-bind :
      (m : Action A) (f : A → Action B)
      → Preserves P m
      → ((a : A) → P a → Preserves Q (f a))
      → Preserves Q (m >>= f)
  Preserves-bind m f km kf = record { at = λ w h. go (m w).0 (m w).1 (km.at w h) }
    where
      go :
          (r : Result A) (v : World)
          → IsConsistent v.db × Returns P r
          → let x : Result B × World = elim r [ ok a ↦ f a v | err e ↦ (err e, v) ] in
            IsConsistent x.1.db × Returns Q x.0
      go (ok a) v (h, p) = (kf a p).at v h
      go (err e) v (h, p) = (h, tt)

  pub Preserves-try :
      (m : Action A) (catches : Error → Bool) (on_error : Error → Action B) (rest : A → Action B)
      → Preserves P m
      → ((e : Error) → Preserves Q (on_error e))
      → ((a : A) → P a → Preserves Q (rest a))
      → Preserves Q (try_except m catches on_error rest)
  Preserves-try m catches on_error rest km ke kr = record {
    at = λ w h. go (m w).0 (m w).1 (km.at w h);
  }
    where
      go :
          (r : Result A) (v : World)
          → IsConsistent v.db × Returns P r
          → let x : Result B × World = elim r [
            | ok a ↦ rest a v
            | err e ↦ if catches e then on_error e v else (err e, v)
          ] in
            IsConsistent x.1.db × Returns Q x.0
      go (ok a) v (h, p) = (kr a p).at v h
      go (err e) v (h, p) = elim (Bool-cases (catches e)) [
        | inl c ↦ rw c ((ke e).at v h)
        | inr c ↦ rw c (h, tt)
      ]

module _ {A : Type 0} {P : A → Type 0} where
  -- Both branches of an `if`.
  pub Preserves-if :
      (b : Bool) (m k : Action A)
      → Preserves P m
      → (b ≡ false → Preserves P k)
      → Preserves P (if b then m else k)
  Preserves-if true m k km kk = km
  Preserves-if false m k km kk = kk refl
