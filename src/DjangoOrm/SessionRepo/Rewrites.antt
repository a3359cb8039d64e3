-- ===== src/DjangoOrm/SessionRepo/Rewrites.antt =====
-- Saving named fields of a session on Django, against the flush of SQLAlchemy.
use fast_api_ddd_template.Base.{
  All, All-map, subst, ◌≡◌, refl, arith, ap, Bool, false, some, List, [], ◌∷◌, ◌==◌, exists, first,
  update_where, Bool-cases, inl, inr, ℕ,
}
use fast_api_ddd_template.Base.Keyed.{IsKeyed}
use fast_api_ddd_template.Database.{SessionRow, Db}
use fast_api_ddd_template.Database.Invariant.{IsConsistent, session_id_of, token_hash_of}
use fast_api_ddd_template.Database.Schema.{update_session}
use fast_api_ddd_template.Database.SessionRepo.{session_by_id}
use fast_api_ddd_template.DjangoOrm.SessionRepo.{save}
use fast_api_ddd_template.DjangoOrm.SessionRepo.Owners.{exists_of_first}

update_none :
    {A : Type 0} (p : A → Bool) (f : A → A) (xs : List A)
    → exists p xs ≡ false
    → update_where p f xs ≡ xs
update_none p f [] h = refl
update_none p f (x ∷ xs) h = ground (arith, update_none p f xs)

abbrev pub of_id : SessionRow → SessionRow → Bool
of_id r o = o.id == r.id

-- Where the row of an id is the session itself, rewriting it is writing the new session.
rewrite_row :
    (f : SessionRow → SessionRow) (r : SessionRow) (xs : List SessionRow)
    → IsKeyed session_id_of token_hash_of xs
    → first (of_id r) xs ≡ some r
    → update_where (of_id r) f xs ≡ update_where (of_id r) (λ _. f r) xs
rewrite_row f r [] k e = cc
rewrite_row f r (x ∷ xs) k e = elim (Bool-cases (of_id r x)) [
  | inl t ↦
      let q : x ≡ r = ground (arith, e, t) in
      let others : exists (of_id r) xs ≡ false =
        subst (λ (y : SessionRow). exists (of_id y) xs ≡ false) q k.0 in
      rw (t, update_none (of_id r) f xs others, update_none (of_id r) (λ _. f r) xs others)
        (ap (λ (y : SessionRow). f y ∷ xs) q)
  | inr t ↦
      rw t (ap (λ (ys : List SessionRow). x ∷ ys) (rewrite_row f r xs k.2 (ground (arith, e, t))))
]

-- A loaded session is saved as SQLAlchemy flushes it.
pub save-update_session :
    (f : SessionRow → SessionRow) (r : SessionRow) (db : Db)
    → ((o : SessionRow) → (f o).id ≡ o.id)
    → IsConsistent db
    → session_by_id r.id db ≡ some r
    → save f r db ≡ update_session (f r) db
unfolding update_session
save-update_session f r db i h e = ground (
  arith,
  i r,
  e,
  rewrite_row f r db.sessions h.sessions_keyed e,
  exists_of_first (of_id r) db.sessions,
)

-- Every session of a keyed table is found by its id.
later_found :
    (x y : SessionRow) (xs : List SessionRow)
    → exists (of_id x) xs ≡ false
    → first (of_id y) xs ≡ some y
    → first (of_id y) (x ∷ xs) ≡ some y
later_found x y xs h e = elim (Bool-cases (of_id y x)) [
  | inl t ↦
      let same : x.id ≡ y.id = ground (arith, t) in
      absurd (
        ground (
          arith,
          exists_of_first (of_id y) xs,
          e,
          subst (λ (n : ℕ). exists (λ (o : SessionRow). o.id == n) xs ≡ false) same h,
        ))
  | inr t ↦ rw t e
]

pub each_found :
    (xs : List SessionRow)
    → IsKeyed session_id_of token_hash_of xs
    → All (λ (y : SessionRow). first (of_id y) xs ≡ some y) xs
each_found [] h = tt
each_found (x ∷ xs) h =
    (ground arith, All-map _ _ xs (λ y e. later_found x y xs h.0 e) (each_found xs h.2))
