-- ===== src/Startup/Bootstrap/Once.antt =====
-- The bootstrap script creates the administrator once.
use fast_api_ddd_template.Base.{
  ◌≡◌, refl, arith, Bool, true, false, ◌||◌, String, str_eq, subst, sym,
}
use fast_api_ddd_template.Domain.Errors.{Error, Result, ok, err}
use fast_api_ddd_template.Domain.Values.{
  UserId, Username, UserPasswordHash, new_username, new_password_hash,
}
use fast_api_ddd_template.Domain.Values.Bounds.{new_username_iff, new_password_hash_iff}
use fast_api_ddd_template.Domain.User.{User, create}
use fast_api_ddd_template.Database.Invariant.{IsValid, IsConsistent}
use fast_api_ddd_template.Database.Mapping.{to_row}
use fast_api_ddd_template.Database.Schema.{has_user}
use fast_api_ddd_template.World.{World}
use fast_api_ddd_template.UnitOfWork.Manager.{log_unhandled}
use fast_api_ddd_template.Ports.{Ports}
use fast_api_ddd_template.Startup.Bootstrap.{
  Report, already_exists, exit_status, encode, make_admin, main,
}
use fast_api_ddd_template.Startup.Bootstrap.Adds.{AddsUsers, is_named, named_append}

-- The administrator of the settings, under an id.
record IsAdmin (i : UserId) (name hash : String) (u : User) : Type 0 where
  pub valid : IsValid u
  pub has_id : u.id ≡ i
  pub has_name : u.username.value ≡ name
  pub under_other_id : (j : UserId) → make_admin j name hash ≡ ok (record u { id = j })

make_admin-IsAdmin :
    (i : UserId) (name hash : String) (u : User)
    → make_admin i name hash ≡ ok u
    → IsAdmin i name hash u
unfolding make_admin create
make_admin-IsAdmin i name hash u e = named (new_username name) refl
  where
    hashed :
        (n : Username)
        → new_username name ≡ ok n
        → (o : Result UserPasswordHash) → new_password_hash (encode hash) ≡ o
        → IsAdmin i name hash u
    hashed n q (ok h) p =
        let f = (new_username_iff name n).0 q in
        let g = (new_password_hash_iff (encode hash) h).0 p in
        record {
          valid = record {
            long_enough = ground (arith, e, q, p, f);
            short_enough = ground (arith, e, q, p, f);
            hash_length = ground (arith, e, q, p, g);
          };
          has_id = ground (arith, e, q, p);
          has_name = ground (arith, e, q, p, f);
          under_other_id = λ j. ground (arith, e, q, p);
        }
    hashed n q (err x) p = absurd (ground (arith, e, q, p))

    named : (o : Result Username) → new_username name ≡ o → IsAdmin i name hash u
    named (ok n) q = hashed n q (new_password_hash (encode hash)) refl
    named (err x) q = absurd (ground (arith, e, q))

log_unhandled-same : (e : Error) (w : World) → (log_unhandled e w).db ≡ w.db
log_unhandled-same e w = ground arith

module _ ⦃ports : Ports⦄ ⦃adding : AddsUsers ports⦄ where
  -- Where the username is taken, the script says so and changes nothing.
  main-taken :
      (i : UserId) (name hash : String) (u : User) (w : World)
      → (str_eq name "" || str_eq hash "") ≡ false
      → make_admin i name hash ≡ ok u
      → has_user i.value w.db.users ≡ false
      → is_named name w.db.users ≡ true
      → ((main i name hash w).0 ≡ ok already_exists) × ((main i name hash w).1.db ≡ w.db)
  unfolding main
  main-taken i name hash u w s e f n =
      let a = make_admin-IsAdmin i name hash u e in
      let f' : has_user u.id.value w.db.users ≡ false =
        subst (λ (k : UserId). has_user k.value w.db.users ≡ false) (sym a.has_id) f in
      let n' : is_named u.username.value w.db.users ≡ true =
        subst (λ (t : String). is_named t w.db.users ≡ true) (sym a.has_name) n in
      let (x, d, q) = adding.refuses u w a.valid f' n' in
      (ground (arith, s, e, d, q), ground (arith, s, e, d, q, log_unhandled-same x w))

  -- Where the script succeeds, its settings make an administrator, and the username is then taken.
  main-succeeds :
      (i : UserId) (name hash : String) (r : Report) (w w' : World)
      → IsConsistent w.db
      → has_user i.value w.db.users ≡ false
      → main i name hash w ≡ (ok r, w')
      → exit_status r ≡ 0
      → (u : User) × ((str_eq name "" || str_eq hash "") ≡ false)
        × (make_admin i name hash ≡ ok u)
        × (is_named name w'.db.users ≡ true)
  unfolding main
  main-succeeds i name hash r w w' c f h z = given (str_eq name "" || str_eq hash "") refl
    where
      Goal : Type 0
      Goal =
          (u : User) × ((str_eq name "" || str_eq hash "") ≡ false)
          × (make_admin i name hash ≡ ok u)
          × (is_named name w'.db.users ≡ true)

      stored :
          (u : User)
          → make_admin i name hash ≡ ok u
          → (str_eq name "" || str_eq hash "") ≡ false
          → (b : Bool) → is_named name w.db.users ≡ b
          → Goal
      stored u e s true n =
          let (p, q) = main-taken i name hash u w s e f n in (u, s, e, ground (arith, h, q, n))
      stored u e s false n =
          let a = make_admin-IsAdmin i name hash u e in
          let f' : has_user u.id.value w.db.users ≡ false =
            subst (λ (k : UserId). has_user k.value w.db.users ≡ false) (sym a.has_id) f in
          let n' : is_named u.username.value w.db.users ≡ false =
            subst (λ (t : String). is_named t w.db.users ≡ false) (sym a.has_name) n in
          let q = adding.adds u w a.valid c f' n' in
          let k = named_append name w.db.users (to_row u) a.has_name in
          (u, s, e, ground (arith, h, s, e, q, k))

      made :
          (str_eq name "" || str_eq hash "") ≡ false
          → (o : Result User) → make_admin i name hash ≡ o
          → Goal
      made s (ok u) e = stored u e s (is_named name w.db.users) refl
      made s (err x) e = absurd (ground (arith, h, z, s, e))

      given : (b : Bool) → (str_eq name "" || str_eq hash "") ≡ b → Goal
      given true s = absurd (ground (arith, h, z, s))
      given false s = made s (make_admin i name hash) refl

  -- With ports that add users as `AddsUsers` says, which those of both stacks do, and on
  -- consistent tables: once the script has ended with status 0, the
  -- username of the settings is taken; and run again with the same settings, where the ids that
  -- it draws are fresh, it says that the username exists and changes no table.
  pub bootstrap-once :
      (i j : UserId) (name hash : String) (r : Report) (w w' : World)
      → IsConsistent w.db
      → has_user i.value w.db.users ≡ false
      → has_user j.value w'.db.users ≡ false
      → main i name hash w ≡ (ok r, w')
      → exit_status r ≡ 0
      → (is_named name w'.db.users ≡ true)
        × ((main j name hash w').0 ≡ ok already_exists)
        × ((main j name hash w').1.db ≡ w'.db)
  bootstrap-once i j name hash r w w' c f g h z =
      let (u, s, e, n) = main-succeeds i name hash r w w' c f h z in
      let a = make_admin-IsAdmin i name hash u e in
      let (p, q) = main-taken j name hash (record u { id = j }) w' s (a.under_other_id j) g n in
      (n, p, q)
