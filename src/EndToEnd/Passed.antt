-- ===== src/EndToEnd/Passed.antt =====
-- `main` of ci/cap/main.go ends, and the configuration that it leaves.
use captcha_protect.Verify.{second}
use captcha_protect.Base.{
  ◌∙◌, ◌++◌, codes, ◌*◌, ◌≡◌, ◌||◌, not, refl, inl, inr, Bool, true, false, List, [], ◌∷◌, Option,
  some, Text, text_eq, if◌then◌else◌, arith, text_ne,
}
use captcha_protect.EndToEnd.{
  env_or, Client, Outer, IsClocked, Driver, Run, outside, ensure, pure, ◌>>=◌, ◌>>◌,
}
use captcha_protect.EndToEnd.Helpers.{json_call, post_json}
use captcha_protect.EndToEnd.Configs.{routing_config, keyed_config}
use captcha_protect.EndToEnd.Checks.{
  Login, SiteKey, create_site_key, assert_contained, assert_http_challenge, assert_absent,
  assert_traefik_plugin_logs_clean, prepare, bring_online, check_protection, main,
}
use captcha_protect.EndToEnd.Leaving.{
  IsAnswered, IsKeyPair, weaken-Gives, outside-Gives, carried-Gives, expect-Gives, IsLeft, Gives,
  Leaves, bind-Gives, ensure-Gives, Gives-Leaves, quiet-Leaves, written-Leaves, last-IsLeft,
}
use captcha_protect.EndToEnd.Quiet.{
  IsQuiet, parts, bind-IsQuiet, ensure-IsQuiet, compose-IsQuiet, compose_output-IsQuiet,
  post_json-IsQuiet, request-IsQuiet, wait_for_status-IsQuiet, wait_for_redirect-IsQuiet,
  wait_for_body_contains-IsQuiet,
}

-- The URL that gives Cap's keys, on the port of the environment.
abbrev pub keys_url : (Text → Text) → Text
keys_url getenv =
    (codes "http://localhost:" ++ env_or getenv (codes "CAP_E2E_PORT") (codes "8880"))
    ++ codes "/cap/server/keys"

named :
    (O : Outer) (target : Text) (decode_key : Text → Option SiteKey) (key : SiteKey)
    → IsAnswered O decode_key target key
    → not (text_eq key.site_key [] || text_eq key.secret_key []) ≡ true
    → IsKeyPair O target decode_key key.site_key key.secret_key
named O target decode_key key answered h =
    (answered, text_ne key.site_key [] (ground arith), text_ne key.secret_key [] (ground arith))

module _ {O : Outer} (C : IsClocked O) (getenv : Text → Text) (query_escape : Text → Text)
    (decode_login : Text → Option Login) (decode_key : Text → Option SiteKey) where
  mkdir_all-IsQuiet : IsQuiet {O = O} (outside {O = O} O.mkdir_all)
  mkdir_all-IsQuiet = record { at = λ s. (C.made s.world, refl, tt) }

  if-IsQuiet :
      (b : Bool) {A : Type 0} (m n : Run O A) → IsQuiet m → IsQuiet n → IsQuiet (if b then m else n)
  if-IsQuiet true m n quiet quiet' = quiet
  if-IsQuiet false m n quiet quiet' = quiet'

  create_site_key-IsQuiet : IsQuiet (create_site_key O getenv query_escape decode_login decode_key)
  unfolding create_site_key
  create_site_key-IsQuiet = search (parts, post_json-IsQuiet C)

  assert_contained-IsQuiet :
      (body : Text) (wants : List Text)
      → IsQuiet (assert_contained O getenv query_escape decode_login decode_key body wants)
  unfolding assert_contained
  assert_contained-IsQuiet body [] = search parts
  assert_contained-IsQuiet body (want ∷ wants) =
      bind-IsQuiet (ensure-IsQuiet _ _) (λ _. assert_contained-IsQuiet body wants)

  assert_absent-IsQuiet :
      (output : Text) (failures : List Text)
      → IsQuiet (assert_absent O getenv query_escape decode_login decode_key output failures)
  unfolding assert_absent
  assert_absent-IsQuiet output [] = search parts
  assert_absent-IsQuiet output (failure ∷ failures) =
      bind-IsQuiet (ensure-IsQuiet _ _) (λ _. assert_absent-IsQuiet output failures)

  assert_http_challenge-IsQuiet :
      (site_key : Text)
      → IsQuiet (assert_http_challenge O getenv query_escape decode_login decode_key site_key)
  unfolding assert_http_challenge
  assert_http_challenge-IsQuiet site_key =
      search (parts, assert_contained-IsQuiet, request-IsQuiet C, wait_for_redirect-IsQuiet C) depth
        20

  logs-IsQuiet :
      IsQuiet (assert_traefik_plugin_logs_clean O getenv query_escape decode_login decode_key)
  unfolding assert_traefik_plugin_logs_clean
  logs-IsQuiet = search (parts, compose_output-IsQuiet C, assert_absent-IsQuiet)

  prepare-IsQuiet : IsQuiet (prepare O getenv query_escape decode_login decode_key)
  unfolding prepare
  prepare-IsQuiet = search (parts, compose-IsQuiet C, mkdir_all-IsQuiet) depth 12

  bring_online-IsQuiet : IsQuiet (bring_online O getenv query_escape decode_login decode_key)
  unfolding bring_online
  bring_online-IsQuiet = search (parts, compose-IsQuiet C, wait_for_status-IsQuiet C) depth 12

  check_protection-IsQuiet :
      (site_key : Text)
      → IsQuiet (check_protection O getenv query_escape decode_login decode_key site_key)
  unfolding check_protection
  check_protection-IsQuiet site_key =
      search
        (
          parts,
          if-IsQuiet,
          assert_http_challenge-IsQuiet,
          logs-IsQuiet,
          compose-IsQuiet C,
          wait_for_redirect-IsQuiet C,
          wait_for_body_contains-IsQuiet C,
        )
        depth 30

  -- What `postJSON` gives is decoded from the answer to its call.
  post_json-Gives :
      {A : Type 0} (decode : Text → Option A) (target authorization : Text)
      (payload : List (Text × Text))
      → Gives (IsAnswered O decode target) (post_json O decode target authorization payload)
  unfolding post_json
  post_json-Gives decode target authorization payload =
      let client : Client = record { timeout = 15 * second; follows = true } in
      let call = json_call O target authorization payload in
      bind-Gives (ensure (O.is_url target) (codes "build request")) (λ _.
        carried-Gives (λ sent. (w : O.W) × ((O.send client call w).0 ≡ sent))
          (outside-Gives (O.send client call))
          (λ sent (w, came).
            carried-Gives (λ answer. sent ≡ some answer)
              (expect-Gives sent (codes "request failed"))
              (λ answer is_answer.
                carried-Gives (λ text. answer.body ≡ some text)
                  (expect-Gives answer.body (codes "decode response"))
                  (λ text is_text.
                    weaken-Gives (λ a. decode text ≡ some a)
                      (λ a decoded.
                        (w, client, call, answer, text, refl, came ∙ is_answer, is_text, decoded))
                      (expect-Gives (decode text) (codes "decode response"))))))

  -- The end of `createSiteKey`.
  key_given :
      (target authorization message : Text) (payload : List (Text × Text))
      → Gives
          (λ (keys : Text × Text). IsKeyPair O target decode_key keys.0 keys.1)
          (post_json O decode_key target authorization payload >>= λ key.
            ensure (not (text_eq key.site_key [] || text_eq key.secret_key [])) message
            >> pure (key.site_key, key.secret_key))
  key_given target authorization message payload =
      carried-Gives _ (post_json-Gives decode_key target authorization payload)
        (λ key decoded. ensure-Gives _ message _ (named O target decode_key key decoded))

  create_site_key-Gives :
      Gives
        (λ keys. IsKeyPair O (keys_url getenv) decode_key keys.0 keys.1)
        (create_site_key O getenv query_escape decode_login decode_key)
  unfolding create_site_key
  create_site_key-Gives = search (bind-Gives, key_given)

  -- Where the clock never goes back and a sleep takes its time, the driver ends: no loop that waits
  -- runs out of turns. When it has passed, Traefik has the configuration that protects the sites, with
  -- the site key and the secret key that are decoded from the body of an answer of the network to a
  -- call for the URL of Cap's keys, and they are not empty. When it has failed, the configuration is
  -- whole: the one at the beginning, the one with the routes of Cap, or one that protects the sites
  -- with such keys.
  pub main-IsLeft :
      (s : Driver O)
      → IsLeft O
          (keys_url getenv)
          decode_key
          s
          (main O getenv query_escape decode_login decode_key s)
  unfolding main
  main-IsLeft s =
      let all : Leaves O (keys_url getenv) decode_key s (λ d. d ≡ s.dynamic)
          (main O getenv query_escape decode_login decode_key) =
        quiet-Leaves (keys_url getenv) decode_key (λ d same. inl same) prepare-IsQuiet
          (λ _.
            written-Leaves (keys_url getenv) decode_key routing_config _ (λ d same. inl same)
              (quiet-Leaves (keys_url getenv) decode_key (λ d same. inr (inl same))
                bring_online-IsQuiet
                (λ _.
                  Gives-Leaves (keys_url getenv) decode_key _ (λ d same. inr (inl same))
                    create_site_key-IsQuiet create_site_key-Gives
                    (λ keys pair.
                      written-Leaves (keys_url getenv) decode_key (keyed_config keys.0 keys.1) _
                        (λ d same. inr (inl same))
                        (record {
                          at = λ s' same.
                              last-IsLeft (keys_url getenv) decode_key s s' _
                                (keys.0, keys.1, pair, same)
                                ((check_protection-IsQuiet keys.0).at s');
                        }))))) in
      all.at s refl
