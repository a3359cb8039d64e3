-- ===== src/Database/UserRepo/Contract.antt =====
-- The user repository as a map from ids to users.
use fast_api_ddd_template.Base.{
  ℕ, ◌≡◌, ◌≢◌, refl, arith, Bool, true, false, Option, none, some, List, [], ◌∷◌, ◌==◌,
  if◌then◌else◌, Bool-cases, inl, inr, ap, ◌∙◌, subst,
}
use fast_api_ddd_template.Base.Keyed
use fast_api_ddd_template.Domain.Errors.{Result, ok, err, integrity_error}
use fast_api_ddd_template.Domain.Values.{UserId, Username}
use fast_api_ddd_template.Domain.User.{User}
use fast_api_ddd_template.Database.{UserRow, Db, Session}
use fast_api_ddd_template.Database.Schema.{insert_user, update_user}
use fast_api_ddd_template.Database.Mapping.{to_row}
use fast_api_ddd_template.Database.Invariant.{IsConsistent, user_id_of, username_of}
use fast_api_ddd_template.Database.Invariant.UserWrites.{insert_user-ok, update_user-ok}
use fast_api_ddd_template.Database.UserRepo.{
  by_id, by_username, found, get_by_id, get_by_username, add, update,
}
use fast_api_ddd_template.Database.UserRepo.Keeps.{
  read, IsReadable?, first-IsReadable, to_domain-readable,
}

-- The user of an id, in the tables.
abbrev pub stored : UserId → Db → Option User
stored i db = elim (by_id i.value db) [ none ↦ none | some r ↦ some (read r) ]

found-ok :
    (o : Option UserRow) (s : Session)
    → IsReadable? o
    → found o s ≡ (ok (elim o [ none ↦ none | some r ↦ some (read r) ]), s)
found-ok none s h = refl
found-ok (some r) s h = rw (to_domain-readable r h) refl

-- On consistent tables `get_by_id` returns what is stored under the id.
pub get_by_id-stored :
    (i : UserId) (s : Session) → IsConsistent s.db → get_by_id i s ≡ (ok (stored i s.db), s)
unfolding get_by_id
get_by_id-stored i s h = found-ok (by_id i.value s.db) s (first-IsReadable _ s.db _ h refl)

pub get_by_username-stored :
    (n : Username) (s : Session)
    → IsConsistent s.db
    → get_by_username n s
      ≡ (ok (elim (by_username n.value s.db) [ none ↦ none | some r ↦ some (read r) ]), s)
unfolding get_by_username
get_by_username-stored n s h =
    found-ok (by_username n.value s.db) s (first-IsReadable _ s.db _ h refl)

-- How `add` returns.
pub add-ok :
    (u : User) (s s' : Session)
    → add u s ≡ (ok tt, s')
    → (insert_user (to_row u) s.db ≡ ok s'.db) × (s'.failed ≡ s.failed)
unfolding add
add-ok u s s' h = go (insert_user (to_row u) s.db) refl
  where
    go :
        (w : Result Db)
        → insert_user (to_row u) s.db ≡ w
        → (insert_user (to_row u) s.db ≡ ok s'.db) × (s'.failed ≡ s.failed)
    go (ok db) e = ground (arith, h, e)
    go (err (integrity_error x)) e = absurd (ground (arith, h, e))
    go (err x) e = ground (arith, h, e)

abbrev pub read_found : Option UserRow → Option User
read_found none = none
read_found (some r) = some (read r)

read_found-if :
    (b : Bool) (o o' : Option UserRow)
    → read_found (if b then o else o') ≡ (if b then read_found o else read_found o')
read_found-if true o o' = refl
read_found-if false o o' = refl

-- `add`, when it returns, stores the user under its id, where there was none, and leaves what is
-- stored under every other id.
pub add-stored :
    (u : User) (s s' : Session) (i : UserId)
    → add u s ≡ (ok tt, s')
    → (stored u.id s.db ≡ none)
      × (stored i s'.db ≡ (if u.id.value == i.value then some u else stored i s.db))
add-stored u s s' i h =
    let f = insert_user-ok (to_row u) s.db (add-ok u s s' h).0 in
    (
      ap read_found (absent s.db.users f.0),
      rw f.2 (
          ap read_found
            (Keyed.by_id-append user_id_of username_of i.value s.db.users (to_row u) f.0)
          ∙ read_found-if (u.id.value == i.value) (some (to_row u)) (by_id i.value s.db)),
    )
  where
    absent :
        (users : List UserRow)
        → Keyed.has_id user_id_of username_of u.id.value users ≡ false
        → Keyed.by_id user_id_of username_of u.id.value users ≡ none
    absent [] e = refl
    absent (x ∷ xs) e = ground (arith, absent xs)

-- How `update` returns.
pub update-ok :
    (u : User) (s s' : Session)
    → update u s ≡ (ok tt, s')
    → (r : UserRow) × (by_id u.id.value s.db ≡ some r)
      × (update_user (to_row u) s.db ≡ ok s'.db)
      × (s'.failed ≡ s.failed)
unfolding update
update-ok u s s' h = looked (by_id u.id.value s.db) refl
  where
    looked :
        (o : Option UserRow)
        → by_id u.id.value s.db ≡ o
        → (r : UserRow) × (by_id u.id.value s.db ≡ some r)
          × (update_user (to_row u) s.db ≡ ok s'.db)
          × (s'.failed ≡ s.failed)
    looked none e = absurd (ground (arith, h, e))
    looked (some r) e = let f = written r e (update_user (to_row u) s.db) refl in (r, e, f.0, f.1)
      where
        written :
            (r : UserRow)
            → by_id u.id.value s.db ≡ some r
            → (w : Result Db) → update_user (to_row u) s.db ≡ w
            → (update_user (to_row u) s.db ≡ ok s'.db) × (s'.failed ≡ s.failed)
        written r e (ok db) f = ground (arith, h, e, f)
        written r e (err (integrity_error x)) f = absurd (ground (arith, h, e, f))
        written r e (err x) f = ground (arith, h, e, f)

-- `update`, when it returns, replaces the user that is stored under its id, and leaves what is
-- stored under every other id.
pub update-stored :
    (u : User) (s s' : Session) (i : UserId)
    → update u s ≡ (ok tt, s')
    → (stored u.id s.db ≢ none)
      × (stored i s'.db ≡ (if u.id.value == i.value then some u else stored i s.db))
update-stored u s s' i h =
    let (r, e, w, q) = update-ok u s s' h in
    let f = update_user-ok (to_row u) s.db w in
    let has = (Keyed.has_id_of_by_id user_id_of username_of u.id.value s.db.users r e).0 in
    (
      λ z. ground (arith, e, z),
      rw f.1 (elim (Bool-cases (u.id.value == i.value)) [
        | inl t ↦
            let q : u.id.value ≡ i.value = ground (arith, t) in
            rw t (
              ap read_found (
                subst
                  (λ (k : ℕ).
                    Keyed.by_id user_id_of username_of k
                      (Keyed.replace user_id_of username_of (to_row u) s.db.users)
                    ≡ some (to_row u))
                  q (Keyed.by_id-replace_self user_id_of username_of s.db.users (to_row u) has)))
        | inr t ↦ rw t (
            ap read_found
              (Keyed.by_id-replace_ne user_id_of username_of i.value s.db.users (to_row u) t))
      ]),
    )

-- What is stored under an id has that id.
pub stored-id : (i : UserId) (db : Db) (u : User) → stored i db ≡ some u → u.id ≡ i
stored-id i db u h = go (by_id i.value db) refl
  where
    go : (o : Option UserRow) → by_id i.value db ≡ o → u.id ≡ i
    go none e = absurd (ground (arith, h, e))
    go (some r) e =
        let q = (Keyed.has_id_of_by_id user_id_of username_of i.value db.users r e).1 in
        ground (arith, h, e, q)
