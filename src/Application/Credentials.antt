-- ===== src/Application/Credentials.antt =====
-- The check of credentials, against a specification on the tables.
use fast_api_ddd_template.Ports.Sql.{sql_ports}
use fast_api_ddd_template.Base.{
  ◌≡◌, refl, arith, Bool, true, false, ◌&&◌, Option, none, some, List, [], ◌∷◌, String, leb, count,
  str_eq, eq_iff, first, if◌then◌else◌, subst, ◌⊎◌, inl, inr,
}
use fast_api_ddd_template.Domain.Errors.{Error, Result, ok, err, is_domain_error}
use fast_api_ddd_template.Domain.Values.{
  Username, UserRawPassword, UserPasswordHash, new_username, new_raw_password,
}
use fast_api_ddd_template.Domain.Values.Bounds.{new_username_iff}
use fast_api_ddd_template.Database.{UserRow, Db, Session}
use fast_api_ddd_template.Database.Invariant.{IsConsistent, IsReadable}
use fast_api_ddd_template.Database.UserRepo.{by_username, get_by_username}
use fast_api_ddd_template.Database.UserRepo.Keeps.{read, first-IsReadable}
use fast_api_ddd_template.Database.UserRepo.Contract.{read_found, get_by_username-stored}
use fast_api_ddd_template.World.{World}
use fast_api_ddd_template.UnitOfWork.{user_repository}
use fast_api_ddd_template.UnitOfWork.Atomic.{with_repo-atomic}
use fast_api_ddd_template.Application.Dto.{AuthRequestDto, AuthResponseDto}
use fast_api_ddd_template.Application.Presenter.{Presenter, present, unauthorized}
use fast_api_ddd_template.Application.AuthenticateUser.{
  find_account, check_account, authenticate_user, auth_output,
}

-- A text that is not a username is one of no row.
by_username-none :
    (name : String) (db : Db) (e : Error)
    → IsConsistent db
    → new_username name ≡ err e
    → by_username name db ≡ none
unfolding new_username
by_username-none name db e k h = go (by_username name db) refl
  where
    username :
        (users : List UserRow) (r : UserRow)
        → first (λ (r : UserRow). str_eq r.username name) users ≡ some r
        → r.username ≡ name
    username [] r q = cc
    username (x ∷ xs) r q = ground (arith, username xs r, eq_iff x.username name)

    go : (o : Option UserRow) → by_username name db ≡ o → by_username name db ≡ none
    go none q = q
    go (some r) q =
        let f : IsReadable r = first-IsReadable _ db (some r) k q in
        let n = username db.users r q in
        absurd (ground (arith, h, f.long_enough, f.short_enough, n))

-- What the body of the unit of work finds.
pub find_account-stored :
    (name : String) (s : Session)
    → IsConsistent s.db
    → (find_account name s ≡ (ok (read_found (by_username name s.db)), s))
      ⊎ ((e : Error) × (by_username name s.db ≡ none)
          × (is_domain_error e ≡ true)
          × (find_account name s ≡ (err e, s)))
unfolding find_account new_username
find_account-stored name s k = made (new_username name) refl
  where
    made :
        (r : Result Username)
        → new_username name ≡ r
        → (find_account name s ≡ (ok (read_found (by_username name s.db)), s))
          ⊎ ((e : Error) × (by_username name s.db ≡ none)
              × (is_domain_error e ≡ true)
              × (find_account name s ≡ (err e, s)))
    made (ok n) e =
        let f = (new_username_iff name n).0 e in
        inl (
          ground (
            arith,
            e,
            subst (λ (t : String). get_by_username n s ≡ (ok (read_found (by_username t s.db)), s))
                f.0 (stored_under n),
          ))
      where
        stored_under :
            (n : Username) → get_by_username n s ≡ (ok (read_found (by_username n.value s.db)), s)
        stored_under n = get_by_username-stored n s k
    made (err x) e = inr (x, by_username-none name s.db x k e, ground (arith, e), ground (arith, e))

module _ (verify : UserRawPassword → UserPasswordHash → Result Bool) where
  -- Whether a text is a password of 6 to 20 characters that the hash verifies.
  abbrev pub matches : String → UserPasswordHash → Bool
  matches text h =
      leb 6 (count text)
      && leb (count text) 20
      && (elim (verify (record { value = text }) h) [ ok b ↦ b | err e ↦ false ])

  abbrev pub accept : String → Option UserRow → Option UserRow
  accept password none = none
  accept password (some r) =
      if r.is_active && matches password (record { value = r.password_hash }) then some r else none

  -- The specification: the row of the username, if it is active and the password is its own.
  abbrev pub accepted : AuthRequestDto → Db → Option UserRow
  accepted dto db = accept dto.raw_password (by_username dto.username db)

  -- One text for every reason.
  abbrev pub report : Presenter AuthResponseDto → Option UserRow → Presenter AuthResponseDto
  report p none = unauthorized "Invalid credentials" p
  report p (some r) = present (auth_output (read r)) p

  -- The verifier returns, as bcrypt's does on a stored hash.
  abbrev pub Returning : Type 0
  Returning = (raw : UserRawPassword) (h : UserPasswordHash) → (b : Bool) × (verify raw h ≡ ok b)

  check_account-accept :
      (dto : AuthRequestDto) (p : Presenter AuthResponseDto) (o : Option UserRow) (w : World)
      → Returning
      → ((check_account verify dto p (read_found o) w).0
          ≡ ok (report p (accept dto.raw_password o)))
        × ((check_account verify dto p (read_found o) w).1.db ≡ w.db)
  unfolding check_account new_raw_password
  check_account-accept dto p none w k = (refl, refl)
  check_account-accept dto p (some r) w k =
      let q = (k (record { value = dto.raw_password }) (record { value = r.password_hash })).1 in
      (ground (arith, q), ground (arith, q))

  -- On consistent tables, with a verifier that returns, `AuthenticateUserUseCase` reports the
  -- account that the specification accepts, and otherwise "Invalid credentials", whatever the
  -- reason: a text that is no username, an unknown or inactive account, a text that is no
  -- password, or a password that is not the account's. It changes no table.
  pub authenticate_user-accepted :
      (dto : AuthRequestDto) (p : Presenter AuthResponseDto) (w : World)
      → Returning
      → IsConsistent w.db
      → ((authenticate_user verify dto p w).0 ≡ ok (report p (accepted dto w.db)))
        × ((authenticate_user verify dto p w).1.db ≡ w.db)
  unfolding authenticate_user
  authenticate_user-accepted dto p w v k =
      let q = with_repo-atomic user_repository (find_account dto.username) w tt in
      elim (find_account-stored dto.username (record { db = w.db; failed = false }) k) [
        | inl f ↦
            let c = check_account-accept dto p (by_username dto.username w.db) w v in
            (ground (arith, f, q, c), ground (arith, f, q, c))
        | inr (e, n, d, f) ↦ (ground (arith, e, n, d, f, q), ground (arith, e, n, d, f, q))
      ]
