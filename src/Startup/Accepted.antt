-- ===== src/Startup/Accepted.antt =====
-- Which configurations `NewCaptchaProtect` accepts.
use captcha_protect.Base.{
  ◌≡◌, ◌≢◌, ◌↔◌, refl, inl, inr, Bool, true, false, not, ◌++◌, Option, some, Option-cases, Text,
  codes, text_eq, arith, ok,
}
use captcha_protect.Config.{Config}
use captcha_protect.Destination.{Url}
use captcha_protect.Routes.{Regexp}
use captcha_protect.Middleware.{Setup}
use captcha_protect.Startup.{
  TemplateFile, has_template, template_text, whole_site, bad_template, refuse, validate_config,
  route_regexes, complete_config, private_networks, parse_networks, new_setup,
}
use captcha_protect.Startup.Wellformed.{validate_config-IsValid}
use captcha_protect.Startup.Guards.{
  IsOk, bind_iff, built_iff, refuse_last, refused_only, differs_iff, IsChecked, validate_config_iff,
  IsRouted, route_regexes_iff,
}
use captcha_protect.Startup.Providers.{
  AreNetworks, exempt_iff, IsProvided, default_status_provider_iff,
}

module _ (parse_url : Text → Option Url) (path_escape : Text → Text)
    (compile : Text → Option Regexp) (parses : Text → Bool) (file : TemplateFile) where
  -- What is asked of a configuration.
  pub record IsAccepted (c : Config) : Type 0 where
    pub checked : IsChecked c
    pub routed : IsRouted compile c
    pub not_whole_site : c.challenge_url ≢ codes "/"
    pub has_page : (t : Text) × (template_text file ≡ some t) × (parses t ≡ true)
    pub has_networks : AreNetworks c.exempt_ips
    pub provided : IsProvided parse_url c.captcha_provider c.cap_url c.cap_verify_url

  has_template_iff :
      (not (has_template parses file) ≡ false)
      ↔ ((t : Text) × (template_text file ≡ some t) × (parses t ≡ true))
  unfolding has_template
  has_template_iff = elim (Option-cases (template_text file)) [
    | inl e ↦ rw e (λ h. absurd (ground arith), λ (t, k, p). absurd (ground arith))
    | inr (t, e) ↦ rw e (λ h. (t, refl, ground arith), λ (t', k, p). ground arith)
  ]

  -- The steps in the order of the code.
  new_setup_steps :
      (name : Text) (config : Config)
      → IsOk (new_setup parse_url path_escape compile parses file name config) ↔ (
          IsChecked config
          × (IsRouted compile config
              × ((config.challenge_url ≢ codes "/")
                  × (((t : Text) × (template_text file ≡ some t) × (parses t ≡ true))
                      × (AreNetworks config.exempt_ips
                          × IsProvided parse_url config.captcha_provider config.cap_url
                              config.cap_verify_url)))))
  unfolding new_setup complete_config
  new_setup_steps name config =
      bind_iff (validate_config config) _ (validate_config_iff config) (λ valid checked.
        let same = (validate_config-IsValid config checked).0 in
        rw same (
          bind_iff (route_regexes compile config) _ (route_regexes_iff compile config)
            (λ (protect, exclude) _.
              bind_iff
                (refuse (text_eq config.challenge_url (codes "/")) whole_site
                  (ok (complete_config config)))
                _ (refuse_last _ whole_site _ (differs_iff config.challenge_url (codes "/")))
                (λ c completed.
                  let is_complete = refused_only _ whole_site _ completed in
                  rw is_complete (
                    bind_iff
                      (refuse (not (has_template parses file)) bad_template
                        (ok (complete_config config)))
                      _ (refuse_last _ bad_template _ has_template_iff)
                      (λ c' templated.
                        let is_same = refused_only _ bad_template _ templated in
                        rw is_same (
                          bind_iff (parse_networks (private_networks ++ config.exempt_ips)) _
                            (exempt_iff config.exempt_ips)
                            (λ networks _. built_iff _ _ (
                              default_status_provider_iff parse_url path_escape
                                (complete_config config))))))))))

  -- A middleware starts exactly if its configuration has a site key, a secret key, a positive window, a
  -- mode of verification that is empty, ip or session, and a route to protect, or the mode suffix; if
  -- the mode is prefix or suffix, or regex with expressions for routes that all compile; if its
  -- challenge is not on the whole site; if the template is there, or the default one is taken, and it
  -- parses; if all networks that it exempts are networks; and if the provider is one of hcaptcha,
  -- recaptcha, turnstile and poj, or Cap with an HTTP URL or a root-relative path for the browser,
  -- and an HTTP URL for the middleware, which is the one for the browser where no other is given.
  pub new_setup_iff :
      (name : Text) (config : Config)
      → ((setup : Setup) × (new_setup parse_url path_escape compile parses file name config
            ≡ ok setup))
        ↔ IsAccepted config
  new_setup_iff name config =
      let (to, from) = new_setup_steps name config in
      (
        λ h.
            let (checked, (routed, (part, (page, (networks, provider))))) = to h in
            record {
              checked = checked;
              routed = routed;
              not_whole_site = part;
              has_page = page;
              has_networks = networks;
              provided = provider;
            },
        λ r.
            from (
              r.checked,
              (r.routed, (r.not_whole_site, (r.has_page, (r.has_networks, r.provided)))),
            ),
      )
