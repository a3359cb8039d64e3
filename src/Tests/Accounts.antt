-- ===== src/Tests/Accounts.antt =====
-- Examples of accounts: the repository and the use cases.
use fast_api_ddd_template.Ports.Sql.{sql_ports}
use fast_api_ddd_template.Base.{
  ◌≡◌, ◌≢◌, refl, arith, true, false, none, some, ◌==◌, if◌then◌else◌, str_eq, map,
}
use fast_api_ddd_template.Domain.Errors.{ok, err, not_authenticated_error}
use fast_api_ddd_template.Domain.Values.{
  UserId, UserRawPassword, UserPasswordHash, UserRole, user, admin, id_text, user_id_from_str,
}
use fast_api_ddd_template.Domain.User.{User}
use fast_api_ddd_template.Database.{Session}
use fast_api_ddd_template.Database.Invariant.UserMethods.{IsHasher}
use fast_api_ddd_template.Database.UserRepo.{add, update, get_all}
use fast_api_ddd_template.Database.UserRepo.Keeps.{read, get_all-ok}
use fast_api_ddd_template.Database.UserRepo.Contract.{stored, add-stored, update-stored}
use fast_api_ddd_template.World.{World, Action, pure}
use fast_api_ddd_template.World.Preserves.{Preserves-pure}
use fast_api_ddd_template.Auth.{current_user}
use fast_api_ddd_template.Application.Dto.{
  CreateUserInputDto, CreateUserOutputDto, DeleteUserInputDto, DeleteUserOutputDto, AuthRequestDto,
  user_dto,
}
use fast_api_ddd_template.Application.Presenter.{Presenter, new_presenter, present}
use fast_api_ddd_template.Application.CreateUser.{run_create_user}
use fast_api_ddd_template.Application.GetUser.{run_get_user}
use fast_api_ddd_template.Application.DeleteUser.{run_delete_user}
use fast_api_ddd_template.Application.AuthenticateUser.{authenticate_user}
use fast_api_ddd_template.Application.Registration.{run_create_user-run_get_user}
use fast_api_ddd_template.Application.Credentials.{
  Returning, report, accepted, authenticate_user-accepted,
}
use fast_api_ddd_template.Application.Deactivation.{run_delete_user-current_user}
use fast_api_ddd_template.Tests.Data.{
  root_user, mary_user, two_accounts, two_accounts-IsConsistent, world, start, clocks, repr, hash,
  verify, mary_payload, sevens,
}

abbrev john_user : User
john_user = record {
  id = record { value = 3 };
  username = record { value = "john_brown" };
  password_hash = record { value = sevens 60 };
  role = user;
  is_active = true;
}

abbrev after_add : Session
after_add = (add john_user start).1

adds : add john_user start ≡ (ok tt, after_add)
unfolding add fast_api_ddd_template.Database.Schema.insert_user
adds = refl

add-stored_example :
    (stored john_user.id start.db ≡ none)
    × (stored john_user.id after_add.db ≡ (
        if john_user.id.value == john_user.id.value
        then some john_user
        else stored john_user.id start.db))
add-stored_example = add-stored john_user start after_add john_user.id adds

abbrev promoted : User
promoted = record mary_user { role = admin }

abbrev after_update : Session
after_update = (update promoted start).1

updates : update promoted start ≡ (ok tt, after_update)
unfolding update fast_api_ddd_template.Database.Schema.update_user
updates = refl

update-stored_example :
    (stored promoted.id start.db ≢ none)
    × (stored root_user.id after_update.db ≡ (
        if promoted.id.value == root_user.id.value
        then some promoted
        else stored root_user.id start.db))
update-stored_example = update-stored promoted start after_update root_user.id updates

get_all-ok_example : get_all start ≡ (ok (map read two_accounts.users), start)
get_all-ok_example = get_all-ok start two_accounts-IsConsistent

abbrev john : CreateUserInputDto
john = record { username = "john_brown"; password = "hunter22"; role = "user" }

abbrev created : Presenter CreateUserOutputDto
created =
    present (record { id = id_text john_user.id; username = "john_brown"; role = "user" })
      new_presenter

abbrev after_creation : World
after_creation = (run_create_user repr hash john_user.id john new_presenter world).1

creates :
    run_create_user repr hash john_user.id john new_presenter world ≡ (ok created, after_creation)
unfolding run_create_user fast_api_ddd_template.Domain.Values.new_raw_password
    fast_api_ddd_template.Domain.Values.new_username
    fast_api_ddd_template.Domain.Values.new_user_role fast_api_ddd_template.UnitOfWork.with_repo
    fast_api_ddd_template.InvariantService.ensure_username_unique
    fast_api_ddd_template.Database.UserRepo.get_by_username add
    fast_api_ddd_template.Database.Schema.insert_user
creates = refl

hash-gives_hashes : IsHasher hash
hash-gives_hashes raw = refl

run_create_user-run_get_user_example :
    (created
      ≡ present
          (record { id = id_text john_user.id; username = "john_brown"; role = "user" })
          new_presenter)
    × ((run_get_user (record { user_id = id_text john_user.id }) new_presenter after_creation).0
        ≡ ok (
            present
              (record {
                user = record {
                  id = id_text john_user.id;
                  username = "john_brown";
                  role = "user";
                  is_active = true;
                };
              })
              new_presenter))
run_create_user-run_get_user_example =
    run_create_user-run_get_user repr hash john_user.id john new_presenter created new_presenter
      world after_creation hash-gives_hashes (omega arith) two_accounts-IsConsistent creates refl

verify-Returning : Returning verify
verify-Returning raw h = (str_eq raw.value "correct horse", refl)

abbrev credentials : AuthRequestDto
credentials = record { username = "mary_smith"; raw_password = "correct horse" }

authenticate_user-accepted_example :
    ((authenticate_user verify credentials new_presenter world).0
      ≡ ok (report verify new_presenter (accepted verify credentials world.db)))
    × ((authenticate_user verify credentials new_presenter world).1.db ≡ world.db)
authenticate_user-accepted_example =
    authenticate_user-accepted verify credentials new_presenter world verify-Returning
      two_accounts-IsConsistent

abbrev asking_root : Action User
asking_root = pure root_user

abbrev deletion : DeleteUserInputDto
deletion = record { user_id = id_text mary_user.id }

abbrev after_deletion : World
after_deletion = (run_delete_user asking_root deletion new_presenter world).1

abbrev deleted : Presenter DeleteUserOutputDto
deleted =
    present (record { user = user_dto (record mary_user { is_active = false }) }) new_presenter

deletes : run_delete_user asking_root deletion new_presenter world ≡ (ok deleted, after_deletion)
unfolding run_delete_user user_id_from_str fast_api_ddd_template.Domain.Uuid.parse_uuid
    fast_api_ddd_template.Domain.Uuid.uuid_text
    fast_api_ddd_template.InvariantService.ensure_not_self_deletion
    fast_api_ddd_template.UnitOfWork.with_repo fast_api_ddd_template.Database.UserRepo.get_by_id
    fast_api_ddd_template.Database.Mapping.to_domain
    fast_api_ddd_template.Domain.Values.new_username
    fast_api_ddd_template.Domain.Values.new_password_hash
    fast_api_ddd_template.Domain.User.deactivate update
    fast_api_ddd_template.Database.Schema.update_user
deletes = refl

reads_id : user_id_from_str deletion.user_id ≡ ok mary_user.id
unfolding user_id_from_str fast_api_ddd_template.Domain.Uuid.parse_uuid
    fast_api_ddd_template.Domain.Uuid.uuid_text
reads_id = refl

run_delete_user-current_user_example :
    (current_user clocks mary_payload after_deletion).0
    ≡ err (not_authenticated_error "Not authorized.")
run_delete_user-current_user_example =
    run_delete_user-current_user asking_root deletion new_presenter deleted mary_user.id world
      after_deletion clocks mary_payload (Preserves-pure root_user tt) two_accounts-IsConsistent
      reads_id deletes refl refl
