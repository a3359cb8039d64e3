-- ===== src/Domain/User.antt =====
-- app/domain/entities: `Entity` of base.py and the aggregate root `User` of user/user.py. A
-- method returns the user with its new attributes, or raises.
pub mod Laws
use fast_api_ddd_template.Base.{Bool, true, false, not, if◌then◌else◌}
use fast_api_ddd_template.Domain.Errors.{Result, ok, err, domain_error, ◌>>◌, raise_if}
use fast_api_ddd_template.Domain.Values.{
  UserId, Username, UserPasswordHash, UserRole, admin, id_eq, username_eq, password_hash_eq,
  role_eq,
}

pub record User : Type 0 where
  pub id : UserId
  pub username : Username
  pub password_hash : UserPasswordHash
  pub role : UserRole
  pub is_active : Bool

-- An assignment `self.name = value`.
pub data Assignment : Type 0 where
  id : UserId → Assignment
  username : Username → Assignment
  password_hash : UserPasswordHash → Assignment
  role : UserRole → Assignment
  is_active : Bool → Assignment

-- `Entity.__setattr__`, on an initialised entity: its id is never `None`.
unfoldable pub set_attr : Assignment → User → Result User
set_attr (Assignment.id i) u = err (domain_error "Changing entity ID is not permitted.")
set_attr (Assignment.username n) u = ok (record u { username = n })
set_attr (Assignment.password_hash h) u = ok (record u { password_hash = h })
set_attr (Assignment.role r) u = ok (record u { role = r })
set_attr (Assignment.is_active b) u = ok (record u { is_active = b })

-- `Entity.__eq__`, of two users.
unfoldable pub entity_eq : User → User → Bool
entity_eq u v = id_eq v.id u.id

-- `User.create`: `UserId.new()` is given, and the activity flag has its default.
unfoldable pub create : UserId → Username → UserPasswordHash → UserRole → User
create new_id n h r = record {
  id = new_id;
  username = n;
  password_hash = h;
  role = r;
  is_active = true;
}

-- `User.from_storage`
unfoldable pub from_storage : UserId → Username → UserPasswordHash → UserRole → Bool → User
from_storage i n h r b = record { id = i; username = n; password_hash = h; role = r; is_active = b }

unfoldable pub is_admin : User → Bool
is_admin u = role_eq u.role admin

unfoldable pub change_username : Username → User → Result User
unfolding set_attr
change_username new u = do
  raise_if (username_eq new u.username) (domain_error "New username is identical to current.")
  set_attr (Assignment.username new) u

unfoldable pub change_password : UserPasswordHash → User → Result User
unfolding set_attr
change_password new_hash u = do
  raise_if (password_hash_eq new_hash u.password_hash)
      (domain_error "New password hash matches the old one.")
  set_attr (Assignment.password_hash new_hash) u

unfoldable pub change_role : UserRole → User → Result User
unfolding set_attr
change_role new u = do
  raise_if (role_eq new u.role) (domain_error "Role is already set to the given value.")
  set_attr (Assignment.role new) u

unfoldable pub activate : User → Result User
unfolding set_attr
activate u = do
  raise_if u.is_active (domain_error "User is already active.")
  set_attr (Assignment.is_active true) u

unfoldable pub deactivate : User → Result User
unfolding set_attr
deactivate u = do
  raise_if (not u.is_active) (domain_error "User is already inactive.")
  set_attr (Assignment.is_active false) u
