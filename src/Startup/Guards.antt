-- ===== src/Startup/Guards.antt =====
-- The tests of `NewCaptchaProtect` on the keys, the window, the modes and the routes.
use captcha_protect.Base.{
  ℕ, ◌<◌, ◌%◌, ◌≡◌, ◌≢◌, ◌↔◌, ◌⊎◌, refl, sym, ◌∙◌, inl, inr, Bool, true, false, not, ◌&&◌, ◌==◌,
  List, [], ◌∷◌, length, Option, none, some, Text, codes, text_eq, text_eq_iff, no_text_eq, text_ne,
  arith, Bool-cases, sle64, u64_mod, i64_half, if◌then◌else◌, All, Result, ok, err, ◌>>=◌,
}
use captcha_protect.Config.{Config}
use captcha_protect.Routes.{Regexp}
use captcha_protect.Startup.{
  no_site_key, no_secret_key, bad_window, bad_verification_mode, no_routes, SetupError, bad_regex,
  unknown_mode, refuse, validate_config, compile_all, route_regexes,
}
use captcha_protect.Startup.Wellformed.{bind_ok, refuse_ok}

abbrev pub IsOk : {E A : Type 0} → Result E A → Type 0
IsOk {A} r = (a : A) × (r ≡ ok a)

-- A chain succeeds exactly when each of its steps does.
pub bind_iff :
    {E A B P Q : Type 0} (r : Result E A) (f : A → Result E B)
    → (IsOk r ↔ P)
    → ((a : A) → r ≡ ok a → IsOk (f a) ↔ Q)
    → IsOk (r >>= f) ↔ (P × Q)
bind_iff r f first second = (
  λ (b, h). let (a, e, h') = bind_ok r f h in (first.0 (a, e), (second a e).0 (b, h')),
  λ (p, q). let (a, e) = first.1 p in let (b, h) = (second a e).1 q in (b, rw e h),
)

-- A last step that only builds the result.
pub built_iff :
    {E A B P : Type 0} (r : Result E A) (f : A → B) → IsOk r ↔ P → IsOk (r >>= λ a. ok (f a)) ↔ P
built_iff (ok a) f h = (λ _. h.0 (a, refl), λ p. (f a, refl))
built_iff (err e) f h = (λ (b, k). ground arith, λ p. let (a, k) = h.1 p in ground arith)

-- The first of a list that are all to be found, and the others.
pub found_iff :
    {X P : Type 0} (found : Option X) (e : SetupError) (rest : Result SetupError (List X))
    → IsOk rest ↔ P
    → IsOk (elim found [ none ↦ err e | some x ↦ rest >>= λ xs. ok (x ∷ xs) ])
      ↔ (((x : X) × (found ≡ some x)) × P)
found_iff none e rest h = (λ (xs, k). ground arith, λ ((x, k), p). ground arith)
found_iff (some x) e rest h =
    let (to, from) = built_iff rest (λ xs. x ∷ xs) h in (λ k. ((x, refl), to k), λ (_, p). from p)

-- A test refuses unless a condition holds.
refuse_iff :
    {P Q : Type 0} (test : Bool) (e : SetupError) (next : Result SetupError Config)
    → (test ≡ false) ↔ P
    → IsOk next ↔ Q
    → IsOk (refuse test e next) ↔ (P × Q)
unfolding refuse
refuse_iff true e next g h = (λ (c, k). ground arith, λ (p, q). ground (arith, g.1 p))
refuse_iff false e next g h = (λ k. (g.0 refl, h.0 k), λ (_, q). h.1 q)

pub refuse_last :
    {P : Type 0} (test : Bool) (e : SetupError) (c : Config)
    → (test ≡ false) ↔ P
    → IsOk (refuse test e (ok c)) ↔ P
unfolding refuse
refuse_last true e c g = (λ (d, k). ground arith, λ p. ground (arith, g.1 p))
refuse_last false e c g = (λ k. g.0 refl, λ p. (c, refl))

-- What passes a last test is what it was.
pub refused_only :
    (test : Bool) (e : SetupError) (c : Config) {d : Config} → refuse test e (ok c) ≡ ok d → d ≡ c
refused_only test e c h = let (_, same) = refuse_ok test e (ok c) h in ground arith

-- A number of 64 bits is positive.
abbrev pub IsPositive : ℕ → Type 0
IsPositive n = (0 < n % u64_mod) × (n % u64_mod < i64_half)

-- What is asked of the keys, of the window, of the mode of verification and of the routes.
pub record IsChecked (c : Config) : Type 0 where
  pub has_site_key : c.site_key ≢ []
  pub has_secret_key : c.secret_key ≢ []
  pub has_window : IsPositive c.window
  pub has_verification_mode :
      (c.verification_mode ≡ [])
      ⊎ (c.verification_mode ≡ codes "ip")
      ⊎ (c.verification_mode ≡ codes "session")
  pub has_routes : (c.protect_routes ≢ []) ⊎ (c.mode ≡ codes "suffix")

pub differs_iff : (a b : Text) → (text_eq a b ≡ false) ↔ (a ≢ b)
differs_iff a b = (λ e. text_ne a b e, λ h. no_text_eq a b h)

mode_iff :
    (mode : Text)
    → (not (text_eq mode [])
          && (not (text_eq mode (codes "ip")) && not (text_eq mode (codes "session")))
        ≡ false)
      ↔ ((mode ≡ []) ⊎ (mode ≡ codes "ip") ⊎ (mode ≡ codes "session"))
mode_iff mode =
    let a = text_eq_iff mode [] in
    let b = text_eq_iff mode (codes "ip") in
    let c = text_eq_iff mode (codes "session") in ground arith

routes_iff :
    (routes : List Text) (mode : Text)
    → ((length routes == 0) && not (text_eq mode (codes "suffix")) ≡ false)
      ↔ ((routes ≢ []) ⊎ (mode ≡ codes "suffix"))
routes_iff [] mode = let a = text_eq_iff mode (codes "suffix") in ground arith
routes_iff (r ∷ routes) mode = (λ h. inl (λ e. cc), λ h. ground arith)

pub validate_config_iff : (c : Config) → IsOk (validate_config c) ↔ IsChecked c
unfolding validate_config
validate_config_iff c =
    let window : (sle64 c.window 0 ≡ false) ↔ IsPositive c.window = ground arith in
    let routes = refuse_last _ no_routes c (routes_iff c.protect_routes c.mode) in
    let mode = refuse_iff _ bad_verification_mode _ (mode_iff c.verification_mode) routes in
    let window = refuse_iff _ bad_window _ window mode in
    let secret = refuse_iff _ no_secret_key _ (differs_iff c.secret_key []) window in
    let (to, from) = refuse_iff _ no_site_key _ (differs_iff c.site_key []) secret in
    (
      λ h.
          let (site, (secret, (window, (mode, routes)))) = to h in
          record {
            has_site_key = site;
            has_secret_key = secret;
            has_window = window;
            has_verification_mode = mode;
            has_routes = routes;
          },
      λ r. from (
        r.has_site_key,
        (r.has_secret_key, (r.has_window, (r.has_verification_mode, r.has_routes))),
      ),
    )

regex_prefix : codes "regex" ≢ codes "prefix"
regex_prefix e = ground arith

regex_suffix : codes "regex" ≢ codes "suffix"
regex_suffix e = ground arith

module _ (compile : Text → Option Regexp) where
  -- Every expression is one.
  abbrev pub AreCompiled : List Text → Type 0
  AreCompiled = All (λ r. (regexp : Regexp) × (compile r ≡ some regexp))

  -- What is asked of the mode, and of the routes where they are expressions.
  abbrev pub IsRouted : Config → Type 0
  IsRouted c =
      (c.mode ≡ codes "prefix")
      ⊎ (c.mode ≡ codes "suffix")
      ⊎ ((c.mode ≡ codes "regex") × AreCompiled c.protect_routes × AreCompiled c.exclude_routes)

  compile_all_iff : (routes : List Text) → IsOk (compile_all compile routes) ↔ AreCompiled routes
  unfolding compile_all
  compile_all_iff [] = (λ h. tt, λ h. ([], refl))
  compile_all_iff (r ∷ routes) =
      found_iff (compile r) bad_regex (compile_all compile routes) (compile_all_iff routes)

  -- The expressions for both lists of routes.
  abbrev regexes : Config → Result SetupError (List Regexp × List Regexp)
  regexes c = compile_all compile c.protect_routes >>= λ protect.
      compile_all compile c.exclude_routes >>= λ exclude. ok (protect, exclude)

  regexes_iff :
      (c : Config)
      → IsOk (regexes c) ↔ (AreCompiled c.protect_routes × AreCompiled c.exclude_routes)
  regexes_iff c =
      bind_iff (compile_all compile c.protect_routes)
        (λ protect. compile_all compile c.exclude_routes >>= λ exclude. ok (protect, exclude))
        (compile_all_iff c.protect_routes)
        (λ protect _.
          built_iff (compile_all compile c.exclude_routes) (λ exclude. (protect, exclude))
            (compile_all_iff c.exclude_routes))

  -- The two modes without expressions.
  abbrev without_regexes : Config → Result SetupError (List Regexp × List Regexp)
  without_regexes c =
      if not (text_eq c.mode (codes "prefix")) && not (text_eq c.mode (codes "suffix"))
      then err unknown_mode
      else ok ([], [])

  without_regexes_iff :
      (c : Config) → text_eq c.mode (codes "regex") ≡ false → IsOk (without_regexes c) ↔ IsRouted c
  without_regexes_iff c e = elim (Bool-cases (text_eq c.mode (codes "prefix"))) [
    | inl p ↦ rw p (λ h. inl ((text_eq_iff c.mode (codes "prefix")).0 p), λ h. (([], []), refl))
    | inr p ↦ elim (Bool-cases (text_eq c.mode (codes "suffix"))) [
      | inl q ↦
          rw (p, q)
            (λ h. inr (inl ((text_eq_iff c.mode (codes "suffix")).0 q)), λ h. (([], []), refl))
      | inr q ↦
          rw (p, q)
            (
              λ (pair, k). absurd (ground arith),
              λ h. absurd (elim h [
                | inl same ↦ text_ne c.mode (codes "prefix") p same
                | inr (inl same) ↦ text_ne c.mode (codes "suffix") q same
                | inr (inr (same, _, _)) ↦ text_ne c.mode (codes "regex") e same
              ]),
            )
    ]
  ]

  pub route_regexes_iff : (c : Config) → IsOk (route_regexes compile c) ↔ IsRouted c
  unfolding route_regexes
  route_regexes_iff c = elim (Bool-cases (text_eq c.mode (codes "regex"))) [
    | inr e ↦ rw e (without_regexes_iff c e)
    | inl e ↦
        let regex = (text_eq_iff c.mode (codes "regex")).0 e in
        let (to, from) = regexes_iff c in
        rw e (
          λ h. let (protect, exclude) = to h in inr (inr (regex, protect, exclude)),
          λ h. elim h [
            | inl p ↦ absurd (regex_prefix (sym regex ∙ p))
            | inr (inl p) ↦ absurd (regex_suffix (sym regex ∙ p))
            | inr (inr (_, protect, exclude)) ↦ from (protect, exclude)
          ],
        )
  ]
