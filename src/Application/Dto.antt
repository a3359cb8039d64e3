-- ===== src/Application/Dto.antt =====
-- app/application/dto/dto.py. `GetAllUsersInputDTO` has no field.
use fast_api_ddd_template.Base.{Bool, Option, List, String}
use fast_api_ddd_template.Domain.Values.{id_text, role_text}
use fast_api_ddd_template.Domain.User.{User}

pub record CreateUserInputDto : Type 0 where
  pub username : String
  pub password : String
  pub role : String

pub record CreateUserOutputDto : Type 0 where
  pub id : String
  pub username : String
  pub role : String

pub record AuthRequestDto : Type 0 where
  pub username : String
  pub raw_password : String

pub record AuthResponseDto : Type 0 where
  pub user_id : String
  pub username : String
  pub role : String

pub record UserDto : Type 0 where
  pub id : String
  pub username : String
  pub role : String
  pub is_active : Bool

pub record GetAllUsersOutputDto : Type 0 where
  pub users : List UserDto

pub record GetUserInputDto : Type 0 where
  pub user_id : String

pub record GetUserOutputDto : Type 0 where
  pub user : UserDto

pub record UpdateUserInputDto : Type 0 where
  pub user_id : String
  pub username : Option String
  pub role : Option String

pub record UpdateUserOutputDto : Type 0 where
  pub user : UserDto

pub record ChangePasswordInputDto : Type 0 where
  pub user_id : String
  pub new_password : String

pub record ChangePasswordOutputDto : Type 0 where
  pub user : UserDto

pub record DeleteUserInputDto : Type 0 where
  pub user_id : String

pub record DeleteUserOutputDto : Type 0 where
  pub user : UserDto

-- `UserDTO(id=str(user.id), ...)`, as every use case builds it.
abbrev pub user_dto : User → UserDto
user_dto u = record {
  id = id_text u.id;
  username = u.username.value;
  role = role_text u.role;
  is_active = u.is_active;
}
