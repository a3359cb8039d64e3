-- ===== src/Application/Keeps/Updates.antt =====
-- The invariant of the tables under update_user.py and change_password.py.
use fast_api_ddd_template.Ports.{Ports}
use fast_api_ddd_template.Ports.Laws.{IsLawful}
use fast_api_ddd_template.Base.{◌≡◌, refl, arith, Option, none, some, String}
use fast_api_ddd_template.Domain.Errors.{Result, ok, err, ◌>>=◌ as bind_result}
use fast_api_ddd_template.Domain.Values.{
  UserId, UserPasswordHash, UserRawPassword, new_username, new_raw_password, new_user_role,
  user_id_from_str,
}
use fast_api_ddd_template.Domain.User.{User, change_username, change_password, change_role}
use fast_api_ddd_template.Database.{Query}
use fast_api_ddd_template.Database
use fast_api_ddd_template.Database.Invariant.{IsValid, IsConsistent}
use fast_api_ddd_template.Database.Invariant.UserMethods.{
  IsHasher, IsHash, Returns-bind, new_username-IsUsername, change_username-IsValid,
  change_password-IsValid, change_role-IsValid,
}
use fast_api_ddd_template.Database.Ensures.{
  Returns, Anything, Ensures, Ensures-pure, Ensures-lift, Ensures-bind,
}
use fast_api_ddd_template.Database.UserRepo.Keeps.{IsValid?}
use fast_api_ddd_template.World.{World}
use fast_api_ddd_template.World.Preserves.{Preserves, Returns-Anything}
use fast_api_ddd_template.InvariantService.{ensure_username_unique}
use fast_api_ddd_template.Application.Dto.{
  UpdateUserOutputDto, ChangePasswordOutputDto, UpdateUserInputDto, ChangePasswordInputDto,
}
use fast_api_ddd_template.Application.Presenter.{Presenter}
use fast_api_ddd_template.Application.UpdateUser.{update_found, update_body, run_update_user}
use fast_api_ddd_template.Application.UpdateUser.Apply.{apply_username, apply_role, apply_changes}
use fast_api_ddd_template.Application.ChangePassword.{rehash, change_body, run_change_password}
use fast_api_ddd_template.Application.Keeps.{ensure_username_unique-Ensures}

-- What a body does with the user that `get_by_id` finds.
abbrev pub with_found : {A : Type 0} → Query A → (User → Query A) → Option User → Query A
with_found missing k none = missing
with_found missing k (some u) = k u

rename_again-Ensures :
    (text : String) (u : User)
    → IsValid u
    → Ensures IsValid (
        Database.◌>>=◌
          (Database.lift (new_username text))
          (λ n. Database.lift (change_username n u)))
rename_again-Ensures text u v =
    Ensures-bind (Database.lift (new_username text)) (λ n. Database.lift (change_username n u))
      (Ensures-lift (new_username text) (new_username-IsUsername text))
      (λ n b. Ensures-lift (change_username n u) (change_username-IsValid n u b v))

module _ ⦃ports : Ports⦄ ⦃laws : IsLawful ports⦄ where
  pub found-Ensures :
      {A : Type 0} (i : UserId) (missing : Query A) (k : User → Query A)
      → Ensures {A = A} Anything missing
      → ((u : User) → IsValid u → Ensures {A = A} Anything (k u))
      → Ensures {A = A} Anything (Database.◌>>=◌ (ports.get_by_id i) (with_found missing k))
  found-Ensures i missing k km kk =
      Ensures-bind {P = IsValid?} (ports.get_by_id i) (with_found missing k)
        (laws.get_by_id_ensures i) each
    where
      each : (o : Option User) → IsValid? o → Ensures Anything (with_found missing k o)
      each none v = km
      each (some u) v = kk u v

  -- `await repo.update(user)`, and the user.
  abbrev pub persist : User → Query User
  persist u = Database.◌>>◌ (ports.update u) (Database.pure u)

  pub persist-Ensures : (u : User) → IsValid u → Ensures IsValid (persist u)
  persist-Ensures u v =
      Ensures-bind {P = Anything} (ports.update u) (λ _. Database.pure u) (laws.update_ensures u v)
        (λ _ _. Ensures-pure u v)

  apply_username-Ensures :
      (o : Option String) (u : User) → IsValid u → Ensures IsValid (apply_username o u)
  unfolding apply_username
  apply_username-Ensures none u v = Ensures-pure u v
  apply_username-Ensures (some text) u v =
      let again =
        Database.◌>>=◌ (Database.lift (new_username text))
          (λ n. Database.lift (change_username n u)) in
      Ensures-bind {P = Anything} (Database.lift (new_username text))
        (λ n. Database.◌>>=◌ (ensure_username_unique n (some u.id)) (λ _. again))
        (Ensures-lift (new_username text) (Returns-Anything _))
        λ n _.
          Ensures-bind {P = Anything} (ensure_username_unique n (some u.id)) (λ _. again)
            (ensure_username_unique-Ensures n (some u.id)) (λ _ _. rename_again-Ensures text u v)

  module _ (repr : String → String) where
    apply_role-IsValid :
        (o : Option String) (u : User) → IsValid u → Returns IsValid (apply_role repr o u)
    unfolding apply_role
    apply_role-IsValid none u v = v
    apply_role-IsValid (some text) u v =
        Returns-bind {P = Anything} IsValid (new_user_role repr text) (λ role. change_role role u)
          (Returns-Anything _) (λ role _. change_role-IsValid role u v)

    apply_changes-Ensures :
        (dto : UpdateUserInputDto) (u : User)
        → IsValid u
        → Ensures IsValid (apply_changes repr dto u)
    unfolding apply_changes
    apply_changes-Ensures dto u v =
        Ensures-bind (apply_username dto.username u)
          (λ renamed. Database.◌>>=◌ (Database.lift (apply_role repr dto.role renamed)) persist)
          (apply_username-Ensures dto.username u v)
          λ renamed b.
            Ensures-bind (Database.lift (apply_role repr dto.role renamed)) persist
              (Ensures-lift (apply_role repr dto.role renamed)
                (apply_role-IsValid dto.role renamed b))
              persist-Ensures

    update_body-Ensures :
        (dto : UpdateUserInputDto) (p : Presenter UpdateUserOutputDto) (i : UserId)
        → Ensures Anything (update_body repr dto p i)
    unfolding update_body update_found
    update_body-Ensures dto p i =
        found-Ensures i _ (update_found repr dto p) (Ensures-pure _ tt) found
      where
        found : (u : User) → IsValid u → Ensures Anything (update_found repr dto p u)
        found u v = record {
          at = λ s h.
              (ground (arith, ((apply_changes-Ensures dto u v).at s h).0), Returns-Anything _);
        }

    pub run_update_user-Preserves :
        (dto : UpdateUserInputDto) (p : Presenter UpdateUserOutputDto)
        → Preserves Anything (run_update_user repr dto p)
    unfolding run_update_user
    run_update_user-Preserves dto p = record {
      at = λ w h. (keeps w h (user_id_from_str dto.user_id) refl, Returns-Anything _);
    }
      where
        keeps :
            (w : World)
            → IsConsistent w.db
            → (r : Result UserId) → user_id_from_str dto.user_id ≡ r
            → IsConsistent (run_update_user repr dto p w).1.db
        keeps w h (ok i) e = ground (
          arith,
          e,
          ((laws.with_users_preserves (update_body repr dto p i) (update_body-Ensures dto p i)).at w
              h).0,
        )
        keeps w h (err x) e = ground (arith, e)

  module _ (hash : UserRawPassword → Result UserPasswordHash) (is_hasher : IsHasher hash) where
    rehash-Ensures :
        (h : UserPasswordHash) (u : User) → IsHash h → IsValid u → Ensures IsValid (rehash h u)
    unfolding rehash
    rehash-Ensures h u l v =
        Ensures-bind (Database.lift (change_password h u)) persist
          (Ensures-lift (change_password h u) (change_password-IsValid h u l v)) persist-Ensures

    change_body-Ensures :
        (pwd_hash : UserPasswordHash) (p : Presenter ChangePasswordOutputDto) (i : UserId)
        → IsHash pwd_hash
        → Ensures Anything (change_body pwd_hash p i)
    unfolding change_body
    change_body-Ensures pwd_hash p i l = found-Ensures i _ _ (Ensures-pure _ tt) λ u v. record {
      at = λ s h. (ground (arith, ((rehash-Ensures pwd_hash u l v).at s h).0), Returns-Anything _);
    }

    pub run_change_password-Preserves :
        (dto : ChangePasswordInputDto) (p : Presenter ChangePasswordOutputDto)
        → Preserves Anything (run_change_password hash dto p)
    unfolding run_change_password
    run_change_password-Preserves dto p = record {
      at = λ w h. (
        keeps w h (user_id_from_str dto.user_id)
            (bind_result (new_raw_password dto.new_password) hash) refl refl hashed,
        Returns-Anything _,
      );
    }
      where
        hashed : Returns IsHash (bind_result (new_raw_password dto.new_password) hash)
        hashed =
            Returns-bind {P = Anything} IsHash (new_raw_password dto.new_password) hash
              (Returns-Anything _) (λ raw _. is_hasher raw)

        keeps :
            (w : World)
            → IsConsistent w.db
            → (r : Result UserId) (t : Result UserPasswordHash) → user_id_from_str dto.user_id ≡ r
            → bind_result (new_raw_password dto.new_password) hash ≡ t
            → Returns IsHash t
            → IsConsistent (run_change_password hash dto p w).1.db
        keeps w h (ok i) (ok d) e f l = ground (
          arith,
          e,
          f,
          ((laws.with_users_preserves (change_body d p i) (change_body-Ensures d p i l)).at w h).0,
        )
        keeps w h (ok i) (err x) e f l = ground (arith, e, f)
        keeps w h (err x) t e f l = ground (arith, e)
