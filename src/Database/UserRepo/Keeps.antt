-- ===== src/Database/UserRepo/Keeps.antt =====
-- The invariant of the tables under the methods of `UserRepositorySQL`, and what they return.
use fast_api_ddd_template.Base.{
  ◌≡◌, refl, Bool, Option, none, some, List, [], ◌∷◌, arith, All, All-first, first, String, concat,
  map,
}
use fast_api_ddd_template.Domain.Errors.{Result, ok, err, value_error}
use fast_api_ddd_template.Domain.Values.{UserId, Username, id_text, new_username, new_password_hash}
use fast_api_ddd_template.Domain.User.{User}
use fast_api_ddd_template.Database.{UserRow, Db, Session, Query, raise, lift, select, flush}
use fast_api_ddd_template.Database.Schema.{insert_user, update_user}
use fast_api_ddd_template.Database.Mapping.{to_domain, all_to_domain, to_row}
use fast_api_ddd_template.Database.Invariant.{IsReadable, IsValid, IsConsistent}
use fast_api_ddd_template.Database.Invariant.UserWrites.{
  insert_user-IsConsistent, update_user-IsConsistent,
}
use fast_api_ddd_template.Database.Ensures.{
  Returns, Ensures, Ensures-pure, Ensures-raise, Ensures-lift, Ensures-select, Ensures-flush,
  Ensures-bind,
}
use fast_api_ddd_template.Database.UserRepo.{
  by_id, by_username, found, get_by_id, get_by_username, renamed, as_duplicate, add, update,
  get_all,
}

-- The user that a readable row stands for.
abbrev pub read : UserRow → User
read r = record {
  id = record { value = r.id };
  username = record { value = r.username };
  password_hash = record { value = r.password_hash };
  role = r.role;
  is_active = r.is_active;
}

pub to_domain-readable : (r : UserRow) → IsReadable r → to_domain r ≡ ok (read r)
unfolding to_domain new_username new_password_hash
to_domain-readable r h = ground arith

pub read-IsValid : (r : UserRow) → IsReadable r → IsValid (read r)
read-IsValid r h = record {
  long_enough = h.long_enough;
  short_enough = h.short_enough;
  hash_length = h.hash_length;
}

abbrev pub IsValid? : Option User → Type 0
IsValid? none = Unit
IsValid? (some u) = IsValid u

abbrev pub IsReadable? : Option UserRow → Type 0
IsReadable? none = Unit
IsReadable? (some r) = IsReadable r

found-Ensures : (o : Option UserRow) → IsReadable? o → Ensures IsValid? (found o)
found-Ensures none h = Ensures-pure none tt
found-Ensures (some r) h =
    Ensures-bind (lift (to_domain r)) _
      (Ensures-lift {P = IsValid} (to_domain r) (rw (to_domain-readable r h) (read-IsValid r h)))
      (λ u v. Ensures-pure (some u) v)

pub first-IsReadable :
    (p : UserRow → Bool) (db : Db) (o : Option UserRow)
    → IsConsistent db
    → first p db.users ≡ o
    → IsReadable? o
first-IsReadable p db none h e = tt
first-IsReadable p db (some r) h e = All-first IsReadable p db.users r h.users_readable e

pub get_by_id-Ensures : (i : UserId) → Ensures IsValid? (get_by_id i)
unfolding get_by_id
get_by_id-Ensures i =
    Ensures-bind (select (by_id i.value)) found
      (Ensures-select (by_id i.value) (λ db h. first-IsReadable _ db _ h refl)) found-Ensures

pub get_by_username-Ensures : (n : Username) → Ensures IsValid? (get_by_username n)
unfolding get_by_username
get_by_username-Ensures n =
    Ensures-bind (select (by_username n.value)) found
      (Ensures-select (by_username n.value) (λ db h. first-IsReadable _ db _ h refl)) found-Ensures

as_duplicate-Ensures :
    (text : String) (q : Query (Unit {0}))
    → Ensures (λ _. Unit {0}) q
    → Ensures (λ _. Unit {0}) (as_duplicate text q)
as_duplicate-Ensures text q k = record { at = λ s h. ((k.at s h).0, any (renamed text (q s).0)) }
  where
    any : (r : Result (Unit {0})) → Returns (λ _. Unit {0}) r
    any (ok a) = tt
    any (err e) = tt

pub add-Ensures : (u : User) → IsValid u → Ensures (λ _. Unit {0}) (add u)
unfolding add
add-Ensures u v = as_duplicate-Ensures _ _ (
    Ensures-flush (insert_user (to_row u))
      (λ db db' h e. insert_user-IsConsistent (to_row u) db v.hash_length h e))

-- What `update` does once it has looked for the row.
abbrev pub rewrite_found : User → Option UserRow → Query (Unit {0})
rewrite_found u none =
    raise (value_error (concat "User " (concat (id_text u.id) " not found in database")))
rewrite_found u (some r) =
    as_duplicate (concat "Username " (concat u.username.value " already exists"))
      (flush (update_user (to_row u)))

pub update-Ensures : (u : User) → IsValid u → Ensures (λ _. Unit {0}) (update u)
unfolding update
update-Ensures u v =
    Ensures-bind {P = λ _. Unit {0}} (select (by_id u.id.value)) (rewrite_found u)
      (Ensures-select (by_id u.id.value) (λ db h. tt)) rewrites
  where
    rewrites : (o : Option UserRow) → Unit {0} → Ensures (λ _. Unit {0}) (rewrite_found u o)
    rewrites none _ = Ensures-raise _
    rewrites (some r) _ = as_duplicate-Ensures _ _ (
        Ensures-flush (update_user (to_row u))
          (λ db db' h e. update_user-IsConsistent (to_row u) db v.hash_length h e))

all_to_domain-readable :
    (rs : List UserRow) → All IsReadable rs → all_to_domain rs ≡ ok (map read rs)
unfolding all_to_domain
all_to_domain-readable [] h = refl
all_to_domain-readable (r ∷ rs) h =
    rw (to_domain-readable r h.0, all_to_domain-readable rs h.1) refl

-- From consistent tables `get_all` succeeds: one user for each row, in table order.
pub get_all-ok : (s : Session) → IsConsistent s.db → get_all s ≡ (ok (map read s.db.users), s)
unfolding get_all
get_all-ok s h = rw (all_to_domain-readable s.db.users h.users_readable) refl

pub get_all-Ensures : Ensures (λ (us : List User). Unit {0}) get_all
get_all-Ensures = record { at = λ s h. rw (get_all-ok s h) (h, tt) }
