-- ===== src/Database/Ensures.antt =====
-- The invariant of the tables under a query: one rule for each way to build one.
use fast_api_ddd_template.Base.{◌≡◌, refl, Bool, if◌then◌else◌, Bool-cases, inl, inr}
use fast_api_ddd_template.Domain.Errors.{Error, Result, ok, err}
use fast_api_ddd_template.Database.{
  Db, Session, Query, ◌>>=◌, pure, raise, lift, select, flush, try_except,
}
use fast_api_ddd_template.Database.Invariant.{IsConsistent}

abbrev pub Returns : {A : Type 0} → (A → Type 0) → Result A → Type 0
Returns P (ok a) = P a
Returns P (err e) = Unit

abbrev pub Anything : {A : Type 0} → A → Type 0
Anything a = Unit

-- From consistent tables the query ends in consistent tables, and what it returns satisfies `P`.
pub record Ensures {A : Type 0} (P : A → Type 0) (q : Query A) : Type 0 where
  pub at : (s : Session) → IsConsistent s.db → IsConsistent (q s).1.db × Returns P (q s).0

module _ {A : Type 0} {P : A → Type 0} where
  pub Ensures-pure : (a : A) → P a → Ensures P (pure a)
  Ensures-pure a p = record { at = λ s h. (h, p) }

  pub Ensures-raise : (e : Error) → Ensures P (raise {A = A} e)
  Ensures-raise e = record { at = λ s h. (h, tt) }

  pub Ensures-lift : (r : Result A) → Returns P r → Ensures P (lift r)
  Ensures-lift r p = record { at = λ s h. (h, p) }

  pub Ensures-select :
      (f : Db → A) → ((db : Db) → IsConsistent db → P (f db)) → Ensures P (select f)
  Ensures-select f p = record { at = λ s h. (h, p s.db h) }

-- A flush, in one session.
pub flush-at :
    (write : Db → Result Db) (s : Session)
    → IsConsistent s.db
    → ((db' : Db) → write s.db ≡ ok db' → IsConsistent db')
    → IsConsistent (flush write s).1.db × Returns (λ _. Unit {0}) (flush write s).0
flush-at write s h k = go (write s.db) refl
  where
    go :
        (r : Result Db)
        → write s.db ≡ r
        → IsConsistent (flush write s).1.db × Returns (λ _. Unit {0}) (flush write s).0
    go (ok db) e = rw (e, flush) (k db e, tt)
    go (err x) e = rw (e, flush) (h, tt)

pub Ensures-flush :
    (write : Db → Result Db)
    → ((db db' : Db) → IsConsistent db → write db ≡ ok db' → IsConsistent db')
    → Ensures (λ _. Unit {0}) (flush write)
Ensures-flush write k = record { at = λ s h. flush-at write s h (λ db' e. k s.db db' h e) }

module _ {A B : Type 0} {P : A → Type 0} {Q : B → Type 0} where
  -- A bind, in one session.
  pub bind-at :
      (m : Query A) (f : A → Query B) (s : Session)
      → IsConsistent (m s).1.db × Returns P (m s).0
      → ((a : A) → P a → Ensures Q (f a))
      → IsConsistent ((m >>= f) s).1.db × Returns Q ((m >>= f) s).0
  bind-at m f s h kf = go (m s).0 (m s).1 h
    where
      go :
          (r : Result A) (t : Session)
          → IsConsistent t.db × Returns P r
          → let x : Result B × Session = elim r [ ok a ↦ f a t | err e ↦ (err e, t) ] in
            IsConsistent x.1.db × Returns Q x.0
      go (ok a) t (h, p) = (kf a p).at t h
      go (err e) t (h, p) = (h, tt)

  pub Ensures-bind :
      (m : Query A) (f : A → Query B)
      → Ensures P m
      → ((a : A) → P a → Ensures Q (f a))
      → Ensures Q (m >>= f)
  Ensures-bind m f km kf = record { at = λ s h. bind-at m f s (km.at s h) kf }

  pub Ensures-try :
      (m : Query A) (catches : Error → Bool) (on_error : Error → Query B) (rest : A → Query B)
      → Ensures P m
      → ((e : Error) → Ensures Q (on_error e))
      → ((a : A) → P a → Ensures Q (rest a))
      → Ensures Q (try_except m catches on_error rest)
  Ensures-try m catches on_error rest km ke kr = record {
    at = λ s h. go (m s).0 (m s).1 (km.at s h);
  }
    where
      go :
          (r : Result A) (t : Session)
          → IsConsistent t.db × Returns P r
          → let x : Result B × Session = elim r [
            | ok a ↦ rest a t
            | err e ↦ if catches e then on_error e t else (err e, t)
          ] in
            IsConsistent x.1.db × Returns Q x.0
      go (ok a) t (h, p) = (kr a p).at t h
      go (err e) t (h, p) = elim (Bool-cases (catches e)) [
        | inl c ↦ rw c ((ke e).at t h)
        | inr c ↦ rw c (h, tt)
      ]

module _ {A B : Type 0} {Q : B → Type 0} where
  -- A query whose first step reads the tables, where what follows relies on the tables read.
  pub Ensures-read :
      (f : Db → A) (g : A → Query B)
      → ((s : Session) (a : A)
          → IsConsistent s.db
          → f s.db ≡ a
          → IsConsistent (g a s).1.db × Returns Q (g a s).0)
      → Ensures Q (select f >>= g)
  Ensures-read f g k = record { at = λ s h. k s (f s.db) h refl }
