-- ===== src/Domain/Values/Bounds.antt =====
-- What the checks of the value objects accept.
use fast_api_ddd_template.Base.{ℕ, ◌≤◌, ◌≡◌, ◌↔◌, List, String, count, length, arith, eq_iff}
use fast_api_ddd_template.Domain.Errors.{ok}
use fast_api_ddd_template.Domain.Values.{
  Username, UserRawPassword, UserPasswordHash, UserRole, new_username, new_raw_password,
  new_password_hash, new_user_role, role_text,
}

-- `Username(v)` keeps the text and succeeds exactly on 5 to 20 characters.
pub new_username_iff :
    (v : String) (u : Username)
    → (new_username v ≡ ok u) ↔ ((u.value ≡ v) × (5 ≤ count v) × (count v ≤ 20))
unfolding new_username
new_username_iff v u = (λ h. ground arith, λ h. ground arith)

-- `UserRawPassword(v)` keeps the text and succeeds exactly on 6 to 20 characters.
pub new_raw_password_iff :
    (v : String) (p : UserRawPassword)
    → (new_raw_password v ≡ ok p) ↔ ((p.value ≡ v) × (6 ≤ count v) × (count v ≤ 20))
unfolding new_raw_password
new_raw_password_iff v p = (λ h. ground arith, λ h. ground arith)

-- `UserPasswordHash(v)` keeps the bytes and succeeds exactly on 60 of them.
pub new_password_hash_iff :
    (v : List ℕ) (h : UserPasswordHash)
    → (new_password_hash v ≡ ok h) ↔ ((h.value ≡ v) × (length v ≡ 60))
unfolding new_password_hash
new_password_hash_iff v p = (λ h. ground arith, λ h. ground arith)

-- `UserRole(v)` reads exactly the texts of the roles.
pub new_user_role_iff :
    (repr : String → String) (v : String) (r : UserRole)
    → (new_user_role repr v ≡ ok r) ↔ (v ≡ role_text r)
unfolding new_user_role
new_user_role_iff repr v UserRole.admin =
    (λ h. ground (arith, eq_iff v "admin"), λ h. ground (arith, eq_iff v "admin"))
new_user_role_iff repr v UserRole.user = (
  λ h. ground (arith, eq_iff v "admin", eq_iff v "user"),
  λ h. ground (arith, eq_iff v "admin", eq_iff v "user", eq_iff "user" "admin"),
)

-- A value object keeps its value and is made exactly of what the domain allows: a username of 5 to
-- 20 characters, a password of 6 to 20 characters, a hash of 60 bytes, and the text of a role.
pub value_objects_iff :
    (repr : String → String) (t : String) (bytes : List ℕ) (u : Username) (p : UserRawPassword)
    (h : UserPasswordHash) (r : UserRole)
    → ((new_username t ≡ ok u) ↔ ((u.value ≡ t) × (5 ≤ count t) × (count t ≤ 20)))
      × ((new_raw_password t ≡ ok p) ↔ ((p.value ≡ t) × (6 ≤ count t) × (count t ≤ 20)))
      × ((new_password_hash bytes ≡ ok h) ↔ ((h.value ≡ bytes) × (length bytes ≡ 60)))
      × ((new_user_role repr t ≡ ok r) ↔ (t ≡ role_text r))
value_objects_iff repr t bytes u p h r = (
  new_username_iff t u,
  new_raw_password_iff t p,
  new_password_hash_iff bytes h,
  new_user_role_iff repr t r,
)
