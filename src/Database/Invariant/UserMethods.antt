-- ===== src/Database/Invariant/UserMethods.antt =====
-- Valid users, under the checks of the value objects and the methods of `User`.
use fast_api_ddd_template.Base.{
  ℕ, ◌≤◌, ◌≡◌, refl, List, String, count, length, Bool-cases, inl, inr,
}
use fast_api_ddd_template.Domain.Errors.{Result, ok, err, ◌>>=◌}
use fast_api_ddd_template.Domain.Values.{
  UserId, Username, UserPasswordHash, UserRole, UserRawPassword, username_eq, password_hash_eq,
  role_eq, new_username, new_password_hash,
}
use fast_api_ddd_template.Domain.Values.Bounds.{new_username_iff, new_password_hash_iff}
use fast_api_ddd_template.Domain.User.{
  User, create, change_username, change_password, change_role, deactivate,
}
use fast_api_ddd_template.Database.Invariant.{IsValid}
use fast_api_ddd_template.Database.Ensures.{Returns}

-- A username, and a hash, that has passed its checks.
abbrev pub IsUsername : Username → Type 0
IsUsername n = (5 ≤ count n.value) × (count n.value ≤ 20)

abbrev pub IsHash : UserPasswordHash → Type 0
IsHash h = length h.value ≡ 60

-- A function that gives hashes of 60 bytes where it returns.
abbrev pub IsHasher : (UserRawPassword → Result UserPasswordHash) → Type 0
IsHasher hash = (raw : UserRawPassword) → Returns IsHash (hash raw)

-- What is returned from the equation of the result.
pub Returns-of :
    {A : Type 0} {P : A → Type 0} (r : Result A) → ((a : A) → r ≡ ok a → P a) → Returns P r
Returns-of (ok a) k = k a refl
Returns-of (err e) k = tt

pub Returns-bind :
    {A B : Type 0} {P : A → Type 0} (Q : B → Type 0) (m : Result A) (f : A → Result B)
    → Returns P m
    → ((a : A) → P a → Returns Q (f a))
    → Returns Q (m >>= f)
Returns-bind Q (ok a) f h k = k a h
Returns-bind Q (err e) f h k = tt

pub new_username-IsUsername : (v : String) → Returns IsUsername (new_username v)
new_username-IsUsername v = Returns-of (new_username v) bounds
  where
    bounds : (n : Username) → new_username v ≡ ok n → IsUsername n
    bounds n e = let b = (new_username_iff v n).0 e in rw b.0 (b.1, b.2)

pub new_password_hash-IsHash : (v : List ℕ) → Returns IsHash (new_password_hash v)
new_password_hash-IsHash v = Returns-of (new_password_hash v) bounds
  where
    bounds : (h : UserPasswordHash) → new_password_hash v ≡ ok h → IsHash h
    bounds h e = let b = (new_password_hash_iff v h).0 e in rw b.0 b.1

pub create-IsValid :
    (i : UserId) (n : Username) (h : UserPasswordHash) (r : UserRole)
    → IsUsername n
    → IsHash h
    → IsValid (create i n h r)
unfolding create
create-IsValid i n h r b l = record { long_enough = b.0; short_enough = b.1; hash_length = l }

pub change_username-IsValid :
    (n : Username) (u : User) → IsUsername n → IsValid u → Returns IsValid (change_username n u)
unfolding change_username
change_username-IsValid n u b v = elim (Bool-cases (username_eq n u.username)) [
  | inl t ↦ rw t tt
  | inr t ↦ rw t (record { long_enough = b.0; short_enough = b.1; hash_length = v.hash_length })
]

pub change_password-IsValid :
    (h : UserPasswordHash) (u : User) → IsHash h → IsValid u → Returns IsValid (change_password h u)
unfolding change_password
change_password-IsValid h u l v = elim (Bool-cases (password_hash_eq h u.password_hash)) [
  | inl t ↦ rw t tt
  | inr t ↦
      rw t (record { long_enough = v.long_enough; short_enough = v.short_enough; hash_length = l })
]

pub change_role-IsValid : (r : UserRole) (u : User) → IsValid u → Returns IsValid (change_role r u)
unfolding change_role
change_role-IsValid r u v = elim (Bool-cases (role_eq r u.role)) [
  | inl t ↦ rw t tt
  | inr t ↦ rw t (record {
    long_enough = v.long_enough;
    short_enough = v.short_enough;
    hash_length = v.hash_length;
  })
]

pub deactivate-IsValid : (u : User) → IsValid u → Returns IsValid (deactivate u)
unfolding deactivate
deactivate-IsValid u v = elim (Bool-cases u.is_active) [
  | inl t ↦ rw t (record {
    long_enough = v.long_enough;
    short_enough = v.short_enough;
    hash_length = v.hash_length;
  })
  | inr t ↦ rw t tt
]
