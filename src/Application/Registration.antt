-- ===== src/Application/Registration.antt =====
-- The creation of an account, and what is found of it afterwards.
use fast_api_ddd_template.Ports.Sql.{sql_ports}
use fast_api_ddd_template.Ports.Sql.Laws.{sql_laws}
use fast_api_ddd_template.Base.{
  ◌<◌, ◌^◌, ◌≡◌, refl, arith, true, false, Option, none, some, String, subst,
}
use fast_api_ddd_template.Domain.Errors.{Result, ok, err, ◌>>=◌ as bind_result}
use fast_api_ddd_template.Domain.Uuid.RoundTrip.{parse_uuid-uuid_text}
use fast_api_ddd_template.Domain.Values.{
  UserId, Username, UserRole, UserRawPassword, UserPasswordHash, id_text, role_text, new_username,
  new_user_role, new_raw_password, user_id_from_str,
}
use fast_api_ddd_template.Domain.Values.Bounds.{new_username_iff, new_user_role_iff}
use fast_api_ddd_template.Domain.User.{User, create}
use fast_api_ddd_template.Database.{Session}
use fast_api_ddd_template.Database.Invariant.{IsConsistent}
use fast_api_ddd_template.Database.UserRepo.{get_by_id, add}
use fast_api_ddd_template.Database.UserRepo.Contract.{
  stored, get_by_id-stored, get_by_username-stored, add-stored,
}
use fast_api_ddd_template.World.{World}
use fast_api_ddd_template.UnitOfWork.{user_repository}
use fast_api_ddd_template.UnitOfWork.Atomic.{with_repo-atomic}
use fast_api_ddd_template.InvariantService.{ensure_username_unique}
use fast_api_ddd_template.Application.Dto.{
  CreateUserInputDto, CreateUserOutputDto, GetUserOutputDto, user_dto,
}
use fast_api_ddd_template.Application.State.{State}
use fast_api_ddd_template.Application.Presenter.{Presenter, present}
use fast_api_ddd_template.Application.CreateUser.{make_user, register, output, run_create_user}
use fast_api_ddd_template.Application.Keeps.{run_create_user-Preserves}
use fast_api_ddd_template.Database.Invariant.UserMethods.{IsHasher}
use fast_api_ddd_template.Application.GetUser.{run_get_user}

-- What precedes a computation that returns, and returned too.
pub before :
    {A B : Type 0} (r : Result A) (k : A → Result B) (b : B)
    → bind_result r k ≡ ok b
    → (a : A) × (r ≡ ok a) × (k a ≡ ok b)
before (ok a) k b e = (a, refl, e)
before (err x) k b e = absurd (ground (arith, e))

module _ (repr : String → String) (hash : UserRawPassword → Result UserPasswordHash) where
  made :
      (new_id : UserId) (n : Username) (d : UserPasswordHash) (r : UserRole)
      (dto : CreateUserInputDto) (u : User)
      → new_username dto.username ≡ ok n
      → new_user_role repr dto.role ≡ ok r
      → ok (create new_id n d r) ≡ ok u
      → (u.id ≡ new_id)
        × (u.username.value ≡ dto.username)
        × (role_text u.role ≡ dto.role)
        × (u.is_active ≡ true)
  unfolding create
  made new_id n d r dto u h3 h4 k =
      let f = (new_username_iff dto.username n).0 h3 in
      let g = (new_user_role_iff repr dto.role r).0 h4 in
      (ground (arith, k), ground (arith, k, f.0), ground (arith, k, g), ground (arith, k))

  -- The user that is made has what was asked for.
  pub make_user-ok :
      (new_id : UserId) (dto : CreateUserInputDto) (u : User)
      → make_user repr hash new_id dto ≡ ok u
      → (u.id ≡ new_id)
        × (u.username.value ≡ dto.username)
        × (role_text u.role ≡ dto.role)
        × (u.is_active ≡ true)
  unfolding make_user
  make_user-ok new_id dto u h =
      let (raw, h1, k1) = before (new_raw_password dto.password) _ u h in
      let (d, h2, k2) = before (hash raw) _ u k1 in
      let (n, h3, k3) = before (new_username dto.username) _ u k2 in
      let (r, h4, k4) = before (new_user_role repr dto.role) _ u k3 in
      made new_id n d r dto u h3 h4 k4

-- The uniqueness check changes nothing.
ensure_username_unique-session :
    (n : Username) (exclude : Option UserId) (s : Session)
    → IsConsistent s.db
    → (ensure_username_unique n exclude s).1 ≡ s
unfolding ensure_username_unique
ensure_username_unique-session n exclude s h = ground (arith, get_by_username-stored n s h)

pub register-ok :
    (u : User) (s s' : Session)
    → IsConsistent s.db
    → register u s ≡ (ok tt, s')
    → add u s ≡ (ok tt, s')
unfolding register
register-ok u s s' k h = ground (arith, h, ensure_username_unique-session u.username none s k)

module _ (repr : String → String) (hash : UserRawPassword → Result UserPasswordHash) where
  -- How `run` succeeds.
  pub run_create_user-ok :
      (new_id : UserId) (dto : CreateUserInputDto) (p p' : Presenter CreateUserOutputDto)
      (w w' : World)
      → run_create_user repr hash new_id dto p w ≡ (ok p', w')
      → p'.state ≡ some State.ok
      → (u : User) × (s' : Session) × (make_user repr hash new_id dto ≡ ok u)
        × (register u (record { db = w.db; failed = false }) ≡ (ok tt, s'))
        × (w'.db ≡ s'.db)
        × (p' ≡ present (output u) p)
  unfolding run_create_user
  run_create_user-ok new_id dto p p' w w' h st = made (make_user repr hash new_id dto) refl
    where
      start : Session
      start = record { db = w.db; failed = false }

      Goal : Type 0
      Goal =
          (u : User) × (s' : Session) × (make_user repr hash new_id dto ≡ ok u)
          × (register u (record { db = w.db; failed = false }) ≡ (ok tt, s'))
          × (w'.db ≡ s'.db)
          × (p' ≡ present (output u) p)

      stored_as :
          (u : User)
          → make_user repr hash new_id dto ≡ ok u
          → (x : Result (Unit {0}) × Session) → register u start ≡ x
          → Goal
      stored_as u e (ok a, s') f =
          let q = with_repo-atomic user_repository (register u) w tt in
          (u, s', e, f, ground (arith, h, st, e, f, q), ground (arith, h, st, e, f, q))
      stored_as u e (err x, s') f =
          absurd (ground (arith, h, st, e, f, with_repo-atomic user_repository (register u) w tt))

      made : (r : Result User) → make_user repr hash new_id dto ≡ r → Goal
      made (ok u) e = stored_as u e (register u start) refl
      made (err x) e = absurd (ground (arith, h, st, e))

  -- What is found under an id at which a user is stored.
  run_get_user-stored :
      (i : UserId) (u : User) (q : Presenter GetUserOutputDto) (w : World)
      → i.value < 2 ^ 128
      → IsConsistent w.db
      → stored i w.db ≡ some u
      → (run_get_user (record { user_id = id_text i }) q w).0
        ≡ ok (present (record { user = user_dto u }) q)
  unfolding run_get_user user_id_from_str
  run_get_user-stored i u q w b k h = ground (
    arith,
    parse_uuid-uuid_text i.value b,
    with_repo-atomic user_repository (get_by_id i) w tt,
    get_by_id-stored i (record { db = w.db; failed = false }) k,
    h,
  )

  -- If the hasher gives hashes of 60 bytes and the fresh id is a number of 128 bits, then on
  -- consistent tables a creation that reports success reports the id, the username and the role
  -- that it was given; and `GetUserUseCase` then finds, under the text of that id, an active user
  -- with that username and that role.
  pub run_create_user-run_get_user :
      (new_id : UserId) (dto : CreateUserInputDto) (p p' : Presenter CreateUserOutputDto)
      (q : Presenter GetUserOutputDto) (w w' : World)
      → IsHasher hash
      → new_id.value < 2 ^ 128
      → IsConsistent w.db
      → run_create_user repr hash new_id dto p w ≡ (ok p', w')
      → p'.state ≡ some State.ok
      → (p' ≡ present (record { id = id_text new_id; username = dto.username; role = dto.role }) p)
        × ((run_get_user (record { user_id = id_text new_id }) q w').0
            ≡ ok (
                present
                  (record {
                    user = record {
                      id = id_text new_id;
                      username = dto.username;
                      role = dto.role;
                      is_active = true;
                    };
                  })
                  q))
  run_create_user-run_get_user new_id dto p p' q w w' is_hasher b k h st =
      let (u, s', e, f, g, t) = run_create_user-ok new_id dto p p' w w' h st in
      let (ui, un, ur, ua) = make_user-ok repr hash new_id dto u e in
      let k' = ((run_create_user-Preserves repr hash is_hasher new_id dto p).at w k).0 in
      let a = (add-stored u _ s' new_id (register-ok u _ s' k f)).1 in
      let kw : IsConsistent w'.db =
        subst (λ (x : Result (Presenter CreateUserOutputDto) × World). IsConsistent x.1.db) h k' in
      let found : stored new_id w'.db ≡ some u = rw g (ground (arith, a, ui)) in
      (
        ground (arith, t, ui, un, ur),
        ground (arith, run_get_user-stored new_id u q w' b kw found, ui, un, ur, ua),
      )
