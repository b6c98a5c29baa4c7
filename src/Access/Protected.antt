-- ===== src/Access/Protected.antt =====
-- Which paths are protected, in each of the three modes.
use captcha_protect.Base.{
  ◌≡◌, ◌≢◌, ◌↔◌, ◌⊎◌, inl, inr, true, Text, codes, text_eq, text_eq_iff, text_ne, Any, IsPrefix,
  IsSuffix, Bool-cases, arith,
}
use captcha_protect.Routes.{Regexp, clean_path, is_extension_protected}
use captcha_protect.Routes.Match.{
  route_is_protected_prefix_iff, route_is_protected_suffix_iff, route_is_protected_regex_iff,
}
use captcha_protect.Middleware.{Setup}
use captcha_protect.Access.{route_is_protected}

no_mode : {mode : Text} → mode ≡ codes "regex" → mode ≡ codes "suffix" → ⊥
no_mode e f = ground arith

module _ (setup : Setup) (path : Text) where
  -- Some protected expression matches the path, and no excluded one.
  abbrev pub ByRegex : Type 0
  ByRegex =
      Any (λ (r : Regexp). r path ≡ true) setup.protect_routes_regex
      × (¬ Any (λ (r : Regexp). r path ≡ true) setup.exclude_routes_regex)

  -- The path without its extension ends in some protected route, and begins with no excluded one.
  abbrev pub BySuffix : Type 0
  BySuffix =
      Any (λ route. IsSuffix route (clean_path path)) setup.config.protect_routes
      × (¬ Any (λ route. IsPrefix route (clean_path path)) setup.config.exclude_routes)

  -- The path begins with some protected route, and with no excluded one.
  abbrev pub ByPrefix : Type 0
  ByPrefix =
      Any (λ route. IsPrefix route path) setup.config.protect_routes
      × (¬ Any (λ route. IsPrefix route path) setup.config.exclude_routes)

  -- A path is protected exactly when its extension is, and it matches in the configured mode: by
  -- expressions in the mode `regex`, by the end of the path without its extension in the mode
  -- `suffix`, by its beginning in every other mode; and nothing excludes it.
  pub route_is_protected_iff : (route_is_protected setup path ≡ true) ↔ (
      (is_extension_protected setup.config path ≡ true)
      × (((setup.config.mode ≡ codes "regex") × ByRegex)
          ⊎ ((setup.config.mode ≡ codes "suffix") × BySuffix)
          ⊎ ((setup.config.mode ≢ codes "regex")
              × (setup.config.mode ≢ codes "suffix")
              × ByPrefix)))
  unfolding route_is_protected
  route_is_protected_iff = elim (Bool-cases (text_eq setup.config.mode (codes "regex"))) [
    | inl e ↦
        (let mode : setup.config.mode ≡ codes "regex" =
            (text_eq_iff setup.config.mode (codes "regex")).0 e in
          let (to, from) =
            route_is_protected_regex_iff setup.config setup.protect_routes_regex
              setup.exclude_routes_regex path in
          rw e (
            λ h. let (a, b, c) = to h in (c, inl (mode, (a, b))),
            λ (c, cases). elim cases [
              | inl (_, (a, b)) ↦ from (a, b, c)
              | inr (inl (other, _)) ↦ absurd (no_mode mode other)
              | inr (inr (other, _, _)) ↦ absurd (other mode)
            ],
          ))
    | inr e ↦
        (let other : setup.config.mode ≢ codes "regex" =
            text_ne setup.config.mode (codes "regex") e in
          elim (Bool-cases (text_eq setup.config.mode (codes "suffix"))) [
            | inl f ↦
                (let mode : setup.config.mode ≡ codes "suffix" =
                    (text_eq_iff setup.config.mode (codes "suffix")).0 f in
                  let (to, from) = route_is_protected_suffix_iff setup.config path in
                  rw (e, f)
                    (
                      λ h. let (a, b, c) = to h in (c, inr (inl (mode, (a, b)))),
                      λ (c, cases). elim cases [
                        | inl (regex, _) ↦ absurd (other regex)
                        | inr (inl (_, (a, b))) ↦ from (a, b, c)
                        | inr (inr (_, suffix, _)) ↦ absurd (suffix mode)
                      ],
                    ))
            | inr f ↦
                (let other' : setup.config.mode ≢ codes "suffix" =
                    text_ne setup.config.mode (codes "suffix") f in
                  let (to, from) = route_is_protected_prefix_iff setup.config path in
                  rw (e, f)
                    (
                      λ h. let (a, b, c) = to h in (c, inr (inr (other, other', (a, b)))),
                      λ (c, cases). elim cases [
                        | inl (regex, _) ↦ absurd (other regex)
                        | inr (inl (suffix, _)) ↦ absurd (other' suffix)
                        | inr (inr (_, _, (a, b))) ↦ from (a, b, c)
                      ],
                    ))
          ])
  ]
