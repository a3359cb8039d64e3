-- ===== src/Database/SessionRepo/Lookup.antt =====
-- The lookups of sessions after a revocation, a rotation and a cleanup.
use fast_api_ddd_template.Base.{
  ℕ, ◌≤◌, ◌≡◌, refl, sym, arith, Bool, true, false, not, ◌&&◌, Option, none, some, List, [], ◌∷◌,
  String, ◌==◌, first, where_, exists, update_where, Bool-cases, inl, inr, ap,
}
use fast_api_ddd_template.Base.Keyed.{IsKeyed, has_id}
use fast_api_ddd_template.Domain.Errors.{Result, ok, err}
use fast_api_ddd_template.Database.{Time, UserRow, SessionRow, Db, Session}
use fast_api_ddd_template.Database.Schema.{update_session}
use fast_api_ddd_template.Database.Invariant.{IsConsistent, session_id_of, token_hash_of}
use fast_api_ddd_template.Database.Invariant.SessionWrites.{update_session-ok}
use fast_api_ddd_template.Database.SessionRepo.{
  Clocks, is_some, is_revoked, active_user, session_by_id, join_by_hash, get_user_if_session_valid,
  get_user_valid_session_by_refresh_token, revoke, delete_expired,
}

-- A session of the id that is not revoked.
abbrev pub unrevoked : ℕ → SessionRow → Bool
unrevoked i s = s.id == i && not (is_some s.revoked_at)

-- No session of the id is left unrevoked.
abbrev pub IsRevoked : ℕ → List SessionRow → Type 0
IsRevoked i sessions = exists (unrevoked i) sessions ≡ false

abbrev joins : Time → ℕ → ℕ → SessionRow → Bool
joins t user_id i s = s.user_id == user_id && s.id == i && not (is_revoked t s)

joins-IsRevoked :
    (t : Time) (user_id i : ℕ) (sessions : List SessionRow)
    → IsRevoked i sessions
    → exists (joins t user_id i) sessions ≡ false
unfolding is_revoked
joins-IsRevoked t user_id i [] h = refl
joins-IsRevoked t user_id i (x ∷ xs) h = ground (arith, joins-IsRevoked t user_id i xs)

first-never :
    {A : Type 0} (p : A → Bool) (xs : List A) → ((x : A) → p x ≡ false) → first p xs ≡ none
first-never p [] h = refl
first-never p (x ∷ xs) h = rw (h x) (first-never p xs h)

pub get_user_if_session_valid-IsRevoked :
    (c : Clocks) (user_id i : ℕ) (s : Session)
    → IsRevoked i s.db.sessions
    → get_user_if_session_valid c user_id i s ≡ (ok none, s)
unfolding get_user_if_session_valid
get_user_if_session_valid-IsRevoked c user_id i s h =
    ap (λ (o : Option UserRow). (ok o, s))
      (first-never _ s.db.users
        (λ r. rw (joins-IsRevoked c.db_now r.id i s.db.sessions h) (never (active_user user_id r))))
  where
    never : (b : Bool) → (b && false) ≡ false
    never true = refl
    never false = refl

-- A row that is not found leaves none unrevoked.
IsRevoked-none :
    (i : ℕ) (sessions : List SessionRow)
    → first (λ (s : SessionRow). s.id == i) sessions ≡ none
    → IsRevoked i sessions
IsRevoked-none i [] h = refl
IsRevoked-none i (x ∷ xs) h = ground (arith, IsRevoked-none i xs)

-- Where ids are unique, a row that is found revoked is the only one of its id.
IsRevoked-absent :
    (i : ℕ) (sessions : List SessionRow)
    → has_id session_id_of token_hash_of i sessions ≡ false
    → IsRevoked i sessions
IsRevoked-absent i [] h = refl
IsRevoked-absent i (x ∷ xs) h = ground (arith, IsRevoked-absent i xs)

IsRevoked-some :
    (i : ℕ) (sessions : List SessionRow) (r : SessionRow)
    → IsKeyed session_id_of token_hash_of sessions
    → first (λ (s : SessionRow). s.id == i) sessions ≡ some r
    → is_some r.revoked_at ≡ true
    → IsRevoked i sessions
IsRevoked-some i [] r k h t = refl
IsRevoked-some i (x ∷ xs) r k h t =
    ground (arith, IsRevoked-some i xs r k.2, IsRevoked-absent i xs, k.0)

-- Writing a revoked row over its id leaves none unrevoked.
IsRevoked-update :
    (r : SessionRow) (sessions : List SessionRow)
    → is_some r.revoked_at ≡ true
    → IsRevoked r.id (update_where (λ (o : SessionRow). o.id == r.id) (λ _. r) sessions)
IsRevoked-update r [] t = refl
IsRevoked-update r (x ∷ xs) t = ground (arith, IsRevoked-update r xs)

first-id :
    (i : ℕ) (sessions : List SessionRow) (r : SessionRow)
    → first (λ (s : SessionRow). s.id == i) sessions ≡ some r
    → r.id ≡ i
first-id i [] r h = cc
first-id i (x ∷ xs) r h = ground (arith, first-id i xs r)

-- After `revoke` returns, no session of the id is left unrevoked.
pub revoke-IsRevoked :
    (c : Clocks) (i : ℕ) (s s' : Session) (b : Bool)
    → IsConsistent s.db
    → revoke c i s ≡ (ok b, s')
    → IsRevoked i s'.db.sessions
unfolding revoke
revoke-IsRevoked c i s s' b k h = found (session_by_id i s.db) refl
  where
    found : (o : Option SessionRow) → session_by_id i s.db ≡ o → IsRevoked i s'.db.sessions
    found none e = let q : s' ≡ s = ground (arith, h, e) in rw q (IsRevoked-none i s.db.sessions e)
    found (some r) e = elim (Bool-cases (is_some r.revoked_at)) [
      | inl t ↦
          let q : s' ≡ s = ground (arith, h, e, t) in
          rw q (IsRevoked-some i s.db.sessions r k.sessions_keyed e t)
      | inr t ↦
          let r' = record r { revoked_at = some c.now } in
          let q : update_session r' s.db ≡ ok s'.db = written e t (update_session r' s.db) refl in
          rw ((update_session-ok r' s.db q).1, sym (first-id i s.db.sessions r e))
            (IsRevoked-update r' s.db.sessions refl)
    ]
      where
        written :
            session_by_id i s.db ≡ some r
            → is_some r.revoked_at ≡ false
            → (w : Result Db) → update_session (record r { revoked_at = some c.now }) s.db ≡ w
            → update_session (record r { revoked_at = some c.now }) s.db ≡ ok s'.db
        written e t (ok db) f = ground (arith, h, e, t, f)
        written e t (err x) f = ground (arith, h, e, t, f)

-- A filter that keeps what a test looks for.
exists-where :
    (p q : SessionRow → Bool) (xs : List SessionRow)
    → ((x : SessionRow) → p x ≡ true → q x ≡ true)
    → exists p (where_ q xs) ≡ exists p xs
exists-where p q [] h = refl
exists-where p q (x ∷ xs) h = elim (Bool-cases (p x)) [
  | inl t ↦ ground (arith, t, h x t)
  | inr t ↦ ground (arith, t, exists-where p q xs h)
]

still_revoked :
    (t t' : Time) (s : SessionRow) → t ≤ t' → is_revoked t' s ≡ false → not (is_revoked t s) ≡ true
unfolding is_revoked
still_revoked t t' s l h = ground (arith, l, h)

joins-delete_expired :
    (t t' : Time) (user_id i : ℕ) (sessions : List SessionRow)
    → t ≤ t'
    → exists (joins t' user_id i) (where_ (λ (s : SessionRow). not (is_revoked t s)) sessions)
      ≡ exists (joins t' user_id i) sessions
joins-delete_expired t t' user_id i sessions l =
    exists-where (joins t' user_id i) (λ (s : SessionRow). not (is_revoked t s)) sessions
      (λ x h. still_revoked t t' x l (ground (arith, h)))

join_by_hash-delete_expired :
    (t t' : Time) (hash : String) (users : List UserRow) (sessions : List SessionRow)
    → t ≤ t'
    → join_by_hash t' hash users (where_ (λ (s : SessionRow). not (is_revoked t s)) sessions)
      ≡ join_by_hash t' hash users sessions
join_by_hash-delete_expired t t' hash users [] l = refl
join_by_hash-delete_expired t t' hash users (x ∷ xs) l = elim (Bool-cases (is_revoked t' x)) [
  | inl r ↦ ground (arith, r, join_by_hash-delete_expired t t' hash users xs l)
  | inr r ↦
      ground (arith, r, still_revoked t t' x l r, join_by_hash-delete_expired t t' hash users xs l)
]

first-ext :
    (p q : UserRow → Bool) (xs : List UserRow)
    → ((x : UserRow) → p x ≡ q x)
    → first p xs ≡ first q xs
first-ext p q [] h = refl
first-ext p q (x ∷ xs) h = ground (arith, h x, first-ext p q xs h)

-- The cleanup of revoked and expired sessions cannot be told by a lookup at that time or later:
-- by the id of a session and of its user, or by the hash of a refresh token.
pub delete_expired-lookup :
    (c c' : Clocks) (user_id session_id : ℕ) (hash : String) (s : Session)
    → c.db_now ≤ c'.db_now
    → ((get_user_if_session_valid c' user_id session_id (delete_expired c s).1).0
        ≡ (get_user_if_session_valid c' user_id session_id s).0)
      × ((get_user_valid_session_by_refresh_token c' hash (delete_expired c s).1).0
          ≡ (get_user_valid_session_by_refresh_token c' hash s).0)
unfolding delete_expired get_user_if_session_valid get_user_valid_session_by_refresh_token
delete_expired-lookup c c' user_id session_id hash s l = (
  ap ok (
      first-ext _ _ s.db.users (λ r.
        ap (λ b. active_user user_id r && b)
          (joins-delete_expired c.db_now c'.db_now r.id session_id s.db.sessions l))),
  ap ok (join_by_hash-delete_expired c.db_now c'.db_now hash s.db.users s.db.sessions l),
)
