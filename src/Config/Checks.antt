-- ===== src/Config/Checks.antt =====
-- What the checks of the settings amount to.
use fast_api_ddd_template.Base.{
  ◌≡◌, ◌↔◌, refl, arith, true, false, List, [], ◌∷◌, String, str_eq, eq_iff, Bool-cases, inl, inr,
  subst, sym, ap, ◌∙◌,
}
use fast_api_ddd_template.Domain.Errors.{ok}
use fast_api_ddd_template.Base.Text.{lower}
use fast_api_ddd_template.Config.{
  ℤ, pos, negsuc, leb_ℤ, ConfigClass, dev_config, test_config, prod_config, Given, Config,
  with_defaults, check_env, failures, new_config, get_settings, contains,
}

abbrev pub name_of : ConfigClass → String
name_of dev_config = "dev"
name_of test_config = "test"
name_of prod_config = "prod"

-- What a class asks of its own fields.
abbrev pub IsOfClass : ConfigClass → Config → Type 0
IsOfClass dev_config c = c.debug ≡ true
IsOfClass test_config c = c.debug ≡ false
IsOfClass prod_config c =
    (c.debug ≡ false) × (contains "secret" c.jwt_secret ≡ false) × (c.cookie_secure ≡ true)

-- The specification: 0 < access expiry < refresh expiry, and the rules of the class.
pub record IsSound (k : ConfigClass) (c : Config) : Type 0 where
  pub access_positive : leb_ℤ c.jwt_token_expiry (pos 0) ≡ false
  pub refresh_longer : leb_ℤ c.refresh_token_expiry c.jwt_token_expiry ≡ false
  pub of_class : IsOfClass k c

positive_of_longer :
    (a b : ℤ) → leb_ℤ a (pos 0) ≡ false → leb_ℤ b a ≡ false → leb_ℤ b (pos 0) ≡ false
positive_of_longer (pos a) (pos b) h k = ground arith
positive_of_longer (pos a) (negsuc b) h k = cc
positive_of_longer (negsuc a) b h k = cc

failures-IsSound :
    (k : ConfigClass) (c : Config) → check_env c.env ≡ ok c.env → failures k c ≡ [] → IsSound k c
unfolding failures
failures-IsSound k c e h = record {
  access_positive = ground (arith, h, e);
  refresh_longer = ground (arith, h, e);
  of_class = rules k h;
}
  where
    rules : (k : ConfigClass) → failures k c ≡ [] → IsOfClass k c
    rules dev_config h = ground (arith, h, e)
    rules test_config h = ground (arith, h, e)
    rules prod_config h = (ground (arith, h, e), ground (arith, h, e), ground (arith, h, e))

IsSound-failures :
    (k : ConfigClass) (c : Config) → check_env c.env ≡ ok c.env → IsSound k c → failures k c ≡ []
unfolding failures
IsSound-failures k c e s =
    let l =
      positive_of_longer c.jwt_token_expiry c.refresh_token_expiry s.access_positive
        s.refresh_longer in
    ground (arith, e, l, s.access_positive, s.refresh_longer, s.of_class)

new_config-ok :
    (k k' : ConfigClass) (g : Given) (c : Config)
    → new_config k g ≡ ok (k', c)
    → (k ≡ k') × (c ≡ with_defaults k g) × (failures k (with_defaults k g) ≡ [])
unfolding new_config
new_config-ok k k' g c h = go (failures k (with_defaults k g)) refl
  where
    go :
        (l : List String)
        → failures k (with_defaults k g) ≡ l
        → (k ≡ k') × (c ≡ with_defaults k g) × (failures k (with_defaults k g) ≡ [])
    go [] e = (ground (arith, h, e), ground (arith, h, e), e)
    go (x ∷ xs) e = absurd (ground (arith, h, e))

-- An ENV that is no literal is refused by the field.
bad_env :
    (k k' : ConfigClass) (g : Given) (c : Config)
    → str_eq g.env "dev" ≡ false
    → str_eq g.env "test" ≡ false
    → str_eq g.env "prod" ≡ false
    → new_config k g ≡ ok (k', c)
    → ⊥
unfolding failures check_env with_defaults
bad_env k k' g c d t p h = ground (arith, d, t, p, new_config-ok k k' g c h)

-- What an ENV selects.
selects : (k : ConfigClass) (g : Given) → g.env ≡ name_of k → get_settings g ≡ new_config k g
unfolding get_settings lower
selects dev_config g e = rw e refl
selects test_config g e = rw e refl
selects prod_config g e = rw e refl

-- Where `get_settings` returns, ENV is a literal.
get_settings-env :
    (g : Given) (k : ConfigClass) (c : Config)
    → get_settings g ≡ ok (k, c)
    → (k' : ConfigClass) × (g.env ≡ name_of k')
unfolding get_settings
get_settings-env g k c h = elim (Bool-cases (str_eq g.env "dev")) [
  | inl d ↦ (dev_config, (eq_iff g.env "dev").0 d)
  | inr d ↦ elim (Bool-cases (str_eq g.env "test")) [
    | inl t ↦ (test_config, (eq_iff g.env "test").0 t)
    | inr t ↦ elim (Bool-cases (str_eq g.env "prod")) [
      | inl p ↦ (prod_config, (eq_iff g.env "prod").0 p)
      | inr p ↦ absurd (
          ground (
            arith,
            h,
            bad_env dev_config k g c d t p,
            bad_env test_config k g c d t p,
            bad_env prod_config k g c d t p,
          ))
    ]
  ]
]

literal-ok : (k : ConfigClass) (v : String) → v ≡ name_of k → check_env v ≡ ok v
unfolding check_env
literal-ok dev_config v e = rw e refl
literal-ok test_config v e = rw e refl
literal-ok prod_config v e = rw e refl

-- `get_settings` returns exactly where ENV is the name of a class, in lower case, and the given
-- values, with the defaults of the class, are sound: the access token expires after a positive
-- time and before the refresh token; DEBUG is set in development and nowhere else; and in
-- production the key of the tokens does not contain "secret", and cookies are secure.
pub get_settings_iff :
    (g : Given) (k : ConfigClass) (c : Config)
    → (get_settings g ≡ ok (k, c)) ↔ ((g.env ≡ name_of k) × (c ≡ with_defaults k g) × IsSound k c)
unfolding new_config with_defaults
get_settings_iff g k c = (sound, back)
  where
    sound : get_settings g ≡ ok (k, c) → (g.env ≡ name_of k) × (c ≡ with_defaults k g) × IsSound k c
    sound h =
        let (k', e) = get_settings-env g k c h in
        let (same, d, f) = new_config-ok k' k g c (sym (selects k' g e) ∙ h) in
        (
          subst (λ (x : ConfigClass). g.env ≡ name_of x) same e,
          subst (λ (x : ConfigClass). c ≡ with_defaults x g) same d,
          subst (λ (x : ConfigClass). IsSound x c) same
              (subst (IsSound k') (sym d)
                (failures-IsSound k' (with_defaults k' g) (literal-ok k' g.env e) f)),
        )

    back : (g.env ≡ name_of k) × (c ≡ with_defaults k g) × IsSound k c → get_settings g ≡ ok (k, c)
    back (e, d, s) =
        let q : failures k (with_defaults k g) ≡ [] =
          IsSound-failures k (with_defaults k g) (literal-ok k g.env e) (subst (IsSound k) d s) in
        let r : new_config k g ≡ ok (k, with_defaults k g) = ground (arith, q) in
        selects k g e ∙ r ∙ ap (λ (x : Config). ok (k, x)) (sym d)
