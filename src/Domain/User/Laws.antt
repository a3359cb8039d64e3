-- ===== src/Domain/User/Laws.antt =====
-- The methods of `User`: when each succeeds, and what it changes.
use fast_api_ddd_template.Base.{
  ◌≡◌, ◌≢◌, ap, sym, refl, ◌⊎◌, inl, inr, Bool-cases, String, List, eq_refl, bytes_eq_refl, Bool,
  true, false, arith, eq_iff, bytes_eq, ℕ, bytes_eq_iff, str_eq,
}
use fast_api_ddd_template.Domain.Errors.{Result, ok, err, domain_error}
use fast_api_ddd_template.Domain.Values.{Username, UserPasswordHash, UserRole, admin, user, role_eq}
use fast_api_ddd_template.Domain.User.{
  User, change_username, change_password, change_role, activate, deactivate,
}

-- A call of one of the methods that mutate a user.
pub data Method : Type 0 where
  renames : Username → Method
  rehashes : UserPasswordHash → Method
  assigns : UserRole → Method
  activates deactivates : Method

unfoldable pub call : Method → User → Result User
call (renames n) u = change_username n u
call (rehashes h) u = change_password h u
call (assigns r) u = change_role r u
call activates u = activate u
call deactivates u = deactivate u

-- The user that a method aims at.
abbrev pub target : Method → User → User
target (renames n) u = record u { username = n }
target (rehashes h) u = record u { password_hash = h }
target (assigns r) u = record u { role = r }
target activates u = record u { is_active = true }
target deactivates u = record u { is_active = false }

-- A method returns its target where that differs from the user.
call-ok : (m : Method) (u : User) → u ≢ target m u → call m u ≡ ok (target m u)
unfolding call change_username change_password change_role activate deactivate
call-ok (renames n) u h = ground (arith, eq_iff n.value u.username.value)
call-ok (rehashes p) u h = ground (arith, bytes_eq_iff p.value u.password_hash.value)
call-ok (assigns admin) u h = ground arith
call-ok (assigns user) u h = ground arith
call-ok activates u h = ground arith
call-ok deactivates u h = ground arith

-- The message of a method that would change nothing.
abbrev pub refusal : Method → String
refusal (renames n) = "New username is identical to current."
refusal (rehashes h) = "New password hash matches the old one."
refusal (assigns r) = "Role is already set to the given value."
refusal activates = "User is already active."
refusal deactivates = "User is already inactive."

role_eq_refl : (r : UserRole) → role_eq r r ≡ true
role_eq_refl admin = refl
role_eq_refl user = refl

-- A method raises where its target is the user as it is.
call-err : (m : Method) (u : User) → u ≡ target m u → call m u ≡ err (domain_error (refusal m))
unfolding call change_username change_password change_role activate deactivate
call-err (renames n) u h = rw (ap (λ (v : User). v.username.value) h, eq_refl n.value)
call-err (rehashes p) u h = rw (ap (λ (v : User). v.password_hash.value) h, bytes_eq_refl p.value)
call-err (assigns r) u h = rw (ap (λ (v : User). v.role) h, role_eq_refl r)
call-err activates u h = rw (ap (λ (v : User). v.is_active) h)
call-err deactivates u h = rw (ap (λ (v : User). v.is_active) h)

role-cases : (q r : UserRole) → (q ≡ r) ⊎ (q ≢ r)
role-cases admin admin = inl refl
role-cases admin user = inr (λ e. ground (arith, e))
role-cases user admin = inr (λ e. ground (arith, e))
role-cases user user = inl refl

-- Whether a method would change the user.
target-cases : (m : Method) (u : User) → (u ≢ target m u) ⊎ (u ≡ target m u)
target-cases (renames n) u = elim (Bool-cases (str_eq n.value u.username.value)) [
  | inl t ↦ inr (
      ap (λ (s : String). record u { username = record { value = s } })
        (sym ((eq_iff n.value u.username.value).0 t)))
  | inr t ↦ inl (λ h.
      ground (arith, t, eq_iff n.value u.username.value, ap (λ (v : User). v.username.value) h))
]
target-cases (rehashes p) u = elim (Bool-cases (bytes_eq p.value u.password_hash.value)) [
  | inl t ↦ inr (
      ap (λ (b : List ℕ). record u { password_hash = record { value = b } })
        (sym ((bytes_eq_iff p.value u.password_hash.value).0 t)))
  | inr t ↦ inl (λ h. ground (
    arith,
    t,
    bytes_eq_iff p.value u.password_hash.value,
    ap (λ (v : User). v.password_hash.value) h,
  ))
]
target-cases (assigns r) u = elim (role-cases u.role r) [
  | inl e ↦ inr (ap (λ (q : UserRole). record u { role = q }) e)
  | inr n ↦ inl (λ h. n (ap (λ (v : User). v.role) h))
]
target-cases activates u = elim (Bool-cases u.is_active) [
  | inl t ↦ inr (ap (λ (b : Bool). record u { is_active = b }) t)
  | inr t ↦ inl (λ h. ground (arith, t, ap (λ (v : User). v.is_active) h))
]
target-cases deactivates u = elim (Bool-cases u.is_active) [
  | inl t ↦ inl (λ h. ground (arith, t, ap (λ (v : User). v.is_active) h))
  | inr t ↦ inr (ap (λ (b : Bool). record u { is_active = b }) t)
]

-- Each mutator of a user aims at the user with one attribute set. Either that differs from the
-- user as it is, and the mutator returns it, the id and every other attribute unchanged; or it
-- does not, and the mutator raises its `DomainError`.
pub call_lem :
    (m : Method) (u : User)
    → ((u ≢ target m u) × (call m u ≡ ok (target m u)))
      ⊎ ((u ≡ target m u) × (call m u ≡ err (domain_error (refusal m))))
call_lem m u = elim (target-cases m u) [
  | inl h ↦ inl (h, call-ok m u h)
  | inr h ↦ inr (h, call-err m u h)
]
