-- ===== src/Database/SessionRepo/Rotation.antt =====
-- A refresh token's hash after the rotation of its session.
use fast_api_ddd_template.Base.{
  ℕ, ◌≡◌, ◌≢◌, refl, arith, Bool, true, false, none, some, List, [], ◌∷◌, String, ◌==◌, eq_iff,
  update_where, Bool-cases, inl, inr,
}
use fast_api_ddd_template.Base.Keyed.{IsKeyed, has_key, taken}
use fast_api_ddd_template.Database.{Time, UserRow, SessionRow}
use fast_api_ddd_template.Database.Invariant.{session_id_of, token_hash_of}
use fast_api_ddd_template.Database.SessionRepo.{join_by_hash}
use fast_api_ddd_template.Database.SessionRepo.Keeps.{join-cases}

-- Whether a row has the hash, and whether a row of another id has it.
abbrev pub has_hash : String → List SessionRow → Bool
has_hash hash = has_key session_id_of token_hash_of hash

abbrev other_has : ℕ → String → List SessionRow → Bool
other_has i hash = taken session_id_of token_hash_of i hash

pub join_by_hash-none :
    (t : Time) (hash : String) (users : List UserRow) (sessions : List SessionRow)
    → has_hash hash sessions ≡ false
    → join_by_hash t hash users sessions ≡ none
join_by_hash-none t hash users [] h = refl
join_by_hash-none t hash users (x ∷ xs) h = ground (arith, join_by_hash-none t hash users xs)

join_by_hash-has_hash :
    (t : Time) (hash : String) (users : List UserRow) (sessions : List SessionRow) (u : UserRow)
    (r : SessionRow)
    → join_by_hash t hash users sessions ≡ some (u, r)
    → has_hash hash sessions ≡ true
join_by_hash-has_hash t hash users sessions u r e = elim (Bool-cases (has_hash hash sessions)) [
  | inl t' ↦ t'
  | inr f ↦ ground (arith, e, join_by_hash-none t hash users sessions f)
]

other_has-absent :
    (i : ℕ) (hash : String) (sessions : List SessionRow)
    → has_hash hash sessions ≡ false
    → other_has i hash sessions ≡ false
other_has-absent i hash [] h = refl
other_has-absent i hash (x ∷ xs) h = ground (arith, other_has-absent i hash xs)

-- The row that a hash is found in is the only one that has it.
pub join_by_hash_unique :
    (t : Time) (hash : String) (users : List UserRow) (sessions : List SessionRow) (u : UserRow)
    (r : SessionRow)
    → IsKeyed session_id_of token_hash_of sessions
    → join_by_hash t hash users sessions ≡ some (u, r)
    → other_has r.id hash sessions ≡ false
join_by_hash_unique t hash users [] u r k e = refl
join_by_hash_unique t hash users (x ∷ xs) u r k e = elim (join-cases t hash users x xs u r e) [
  | inl rest ↦ ground (
    arith,
    join_by_hash_unique t hash users xs u r k.2 rest,
    join_by_hash-has_hash t hash users xs u r rest,
    k.1,
    eq_iff x.refresh_token_hash hash,
  )
  | inr (q, f, h, l) ↦
      ground (arith, q, h, k.1, other_has-absent r.id hash xs, eq_iff x.refresh_token_hash hash)
]

-- Writing another hash over the row leaves none that has it.
pub has_hash-update :
    (r : SessionRow) (hash : String) (sessions : List SessionRow)
    → r.refresh_token_hash ≢ hash
    → other_has r.id hash sessions ≡ false
    → has_hash hash (update_where (λ (o : SessionRow). o.id == r.id) (λ _. r) sessions) ≡ false
has_hash-update r hash [] n h = refl
has_hash-update r hash (x ∷ xs) n h =
    ground (arith, n, eq_iff r.refresh_token_hash hash, has_hash-update r hash xs n)
