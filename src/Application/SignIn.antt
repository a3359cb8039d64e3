-- ===== src/Application/SignIn.antt =====
-- The creation of an account with `BcryptHasher`, and a sign-in with its username and password.
use fast_api_ddd_template.Ports.Sql.{sql_ports}
use fast_api_ddd_template.Ports.Sql.Laws.{sql_laws}
use fast_api_ddd_template.Base.{
  ℕ, ◌≡◌, refl, arith, Bool, true, false, Option, none, some, List, [], ◌∷◌, ◌++◌, String, first,
  str_eq, eq_iff, inl, inr, subst,
}
use fast_api_ddd_template.Domain.Errors.{Result, ok}
use fast_api_ddd_template.Domain.Values.{
  UserId, UserRawPassword, UserPasswordHash, id_text, new_username, new_user_role, new_raw_password,
}
use fast_api_ddd_template.Domain.Values.Bounds.{new_password_hash_iff}
use fast_api_ddd_template.Domain.User.{User, create}
use fast_api_ddd_template.Database.{UserRow, Session}
use fast_api_ddd_template.Database.Mapping.{to_row}
use fast_api_ddd_template.Database.Invariant.{IsConsistent}
use fast_api_ddd_template.Database.Invariant.UserWrites.{insert_user-ok}
use fast_api_ddd_template.Database.UserRepo.{by_username}
use fast_api_ddd_template.Database.UserRepo.Contract.{get_by_username-stored, add-ok}
use fast_api_ddd_template.World.{World}
use fast_api_ddd_template.UnitOfWork.{user_repository}
use fast_api_ddd_template.UnitOfWork.Atomic.{with_repo-atomic}
use fast_api_ddd_template.InvariantService.{ensure_username_unique}
use fast_api_ddd_template.Security.Hashing.{hash-IsHasher}
use fast_api_ddd_template.Application.Keeps.{run_create_user-Preserves}
use fast_api_ddd_template.Security.Passwords.{Bcrypt, BcryptHasher, hash, verify}
use fast_api_ddd_template.Application.Dto.{
  CreateUserInputDto, CreateUserOutputDto, AuthRequestDto, AuthResponseDto,
}
use fast_api_ddd_template.Application.State.{State}
use fast_api_ddd_template.Application.Presenter.{Presenter, present}
use fast_api_ddd_template.Application.CreateUser.{make_user, register, run_create_user}
use fast_api_ddd_template.Application.AuthenticateUser.{
  find_account, check_account, authenticate_user, auth_output,
}
use fast_api_ddd_template.Application.Credentials.{find_account-stored}
use fast_api_ddd_template.Application.Registration.{
  before, make_user-ok, register-ok, run_create_user-ok,
}

first-append_fresh :
    {A : Type 0} (p : A → Bool) (xs : List A) (x : A)
    → first p xs ≡ none
    → p x ≡ true
    → first p (xs ++ x ∷ []) ≡ some x
first-append_fresh p [] x n h = ground (arith, h)
first-append_fresh p (y ∷ ys) x n h = ground (arith, n, h, first-append_fresh p ys x)

-- A username that is registered was free.
register-fresh :
    (u : User) (s s' : Session)
    → IsConsistent s.db
    → register u s ≡ (ok tt, s')
    → by_username u.username.value s.db ≡ none
unfolding register ensure_username_unique
register-fresh u s s' k h = go (by_username u.username.value s.db) refl
  where
    go :
        (o : Option UserRow)
        → by_username u.username.value s.db ≡ o
        → by_username u.username.value s.db ≡ none
    go none e = e
    go (some r) e = absurd (ground (arith, h, e, get_by_username-stored u.username s k))

-- The account is found under its username.
registered :
    (u : User) (s s' : Session)
    → IsConsistent s.db
    → register u s ≡ (ok tt, s')
    → by_username u.username.value s'.db ≡ some (to_row u)
registered u s s' k h =
    let (_, _, e) = insert_user-ok (to_row u) s.db (add-ok u s s' (register-ok u s s' k h)).0 in
    rw e (
      first-append_fresh (λ (r : UserRow). str_eq r.username u.username.value) s.db.users (to_row u)
        (register-fresh u s s' k h) ((eq_iff u.username.value u.username.value).1 refl))

-- bcrypt accepts a text for each hash that it made of that text.
abbrev pub IsBcrypt : Bcrypt → Type 0
IsBcrypt b =
    (text : String) (salt digest : List ℕ)
    → b.hashpw text salt ≡ ok digest
    → b.checkpw text digest ≡ ok true

module _ (b : Bcrypt) (hasher : BcryptHasher) (random : List ℕ) (bcrypt : IsBcrypt b) where
  hash-verify :
      (raw : UserRawPassword) (d : UserPasswordHash)
      → hash b hasher random raw ≡ ok d
      → verify b raw d ≡ ok true
  unfolding hash verify
  hash-verify raw d h =
      let (digest, e, k) = before (b.hashpw raw.value (b.gensalt hasher.rounds random)) _ d h in
      let (same, _) = (new_password_hash_iff digest d).0 k in
      rw same (bcrypt raw.value (b.gensalt hasher.rounds random) digest e)

  module _ (repr : String → String) where
    -- The user that is made has a hash of the password that was asked for.
    make_user-verify :
        (new_id : UserId) (dto : CreateUserInputDto) (u : User)
        → make_user repr (hash b hasher random) new_id dto ≡ ok u
        → (raw : UserRawPassword) × (new_raw_password dto.password ≡ ok raw)
          × (verify b raw u.password_hash ≡ ok true)
    unfolding make_user create
    make_user-verify new_id dto u h =
        let (raw, h1, k1) = before (new_raw_password dto.password) _ u h in
        let (d, h2, k2) = before (hash b hasher random raw) _ u k1 in
        let (n, h3, k3) = before (new_username dto.username) _ u k2 in
        let (r, h4, k4) = before (new_user_role repr dto.role) _ u k3 in
        (raw, h1, ground (arith, k4, hash-verify raw d h2))

    -- An active account that is stored under a username, with the password of a text.
    authenticate_user-stored :
        (dto : AuthRequestDto) (q : Presenter AuthResponseDto) (u : User) (raw : UserRawPassword)
        (w : World)
        → IsConsistent w.db
        → by_username dto.username w.db ≡ some (to_row u)
        → u.is_active ≡ true
        → new_raw_password dto.raw_password ≡ ok raw
        → verify b raw u.password_hash ≡ ok true
        → (authenticate_user (verify b) dto q w).0 ≡ ok (present (auth_output u) q)
    unfolding authenticate_user check_account
    authenticate_user-stored dto q u raw w k e a r v =
        let atomic = with_repo-atomic user_repository (find_account dto.username) w tt in
        elim (find_account-stored dto.username (record { db = w.db; failed = false }) k) [
          | inl f ↦ ground (arith, e, a, r, v, f, atomic)
          | inr (x, n, _, _) ↦ absurd (ground (arith, n, e))
        ]

    -- If bcrypt's `checkpw` accepts a text for each hash that `hashpw` made of that text, then on
    -- consistent tables, after a creation with `BcryptHasher` that reports success, a sign-in with
    -- the same username and password is accepted by `AuthenticateUserUseCase` with
    -- `BcryptPasswordVerifier`: it reports the new id, the username and the role.
    pub run_create_user-authenticate_user :
        (new_id : UserId) (dto : CreateUserInputDto) (p p' : Presenter CreateUserOutputDto)
        (q : Presenter AuthResponseDto) (w w' : World)
        → IsConsistent w.db
        → run_create_user repr (hash b hasher random) new_id dto p w ≡ (ok p', w')
        → p'.state ≡ some State.ok
        → (authenticate_user
            (verify b)
            (record { username = dto.username; raw_password = dto.password })
            q
            w').0
          ≡ ok (
              present
                (record { user_id = id_text new_id; username = dto.username; role = dto.role })
                q)
    run_create_user-authenticate_user new_id dto p p' q w w' k h st =
        let start : Session = record { db = w.db; failed = false } in
        let made = hash b hasher random in
        let (u, s', e, f, g, t) = run_create_user-ok repr made new_id dto p p' w w' h st in
        let (ui, un, ur, ua) = make_user-ok repr made new_id dto u e in
        let (raw, r, v) = make_user-verify new_id dto u e in
        let kw : IsConsistent w'.db =
          subst (λ (x : Result (Presenter CreateUserOutputDto) × World). IsConsistent x.1.db) h
            ((run_create_user-Preserves repr made (hash-IsHasher b hasher random) new_id dto p).at w
              k).0 in
        let found : by_username dto.username w'.db ≡ some (to_row u) =
          ground (arith, g, un, registered u start s' k f) in
        let account =
          authenticate_user-stored (record { username = dto.username; raw_password = dto.password })
            q u raw w' kw found ua r v in
        ground (arith, account, ui, un, ur)
