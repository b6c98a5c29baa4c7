-- ===== src/EndToEnd/Helpers.antt =====
-- The helpers of ci/cap/main.go: `compose`, `composeOutput`, `postJSON`, `request`, `waitFor` and what
-- it waits for, and `writeDynamicConfig`.
use captcha_protect.Base.{
  ℕ, zero, suc, ◌+◌, ◌*◌, Bool, true, false, not, ◌&&◌, List, [], ◌∷◌, Option, none, some, Text,
  codes, text_eq, contains_text, ltb, ◌==◌, if◌then◌else◌, ok, err,
}
use captcha_protect.Verify.{second}
use captcha_protect.EndToEnd.{
  exit, spun, Call, Answer, Outer, Run, ◌>>=◌, ◌>>◌, pure, fatal, ensure, expect, outside,
  marshal_map, encode_form,
}

abbrev pub compose_file : Text
compose_file = codes "docker-compose.cap.yml"

module _ (O : Outer) where
  unfoldable pub compose_output : List Text → Run O Text
  compose_output args = do
    done ← outside (O.docker (codes "compose" ∷ codes "-f" ∷ compose_file ∷ args))
    ensure done.0 (codes "docker compose failed")
    pure done.1

  unfoldable pub compose : List Text → Run O (Unit {0})
  compose args = do
    done ← outside (O.docker (codes "compose" ∷ codes "-f" ∷ compose_file ∷ args))
    ensure done.0 (codes "docker compose failed")

  abbrev pub json_call : Text → Text → List (Text × Text) → Call
  json_call target authorization payload = record {
    method = codes "POST";
    target = target;
    header =
        (codes "Content-Type", codes "application/json")
        ∷ (codes "X-Forwarded-For", codes "192.0.2.50")
        ∷ (if not (text_eq authorization [])
            then (codes "Authorization", authorization) ∷ []
            else []);
    content = marshal_map payload;
  }

  -- Where `decode` reads the answer.
  unfoldable pub post_json :
      {A : Type 0} → (Text → Option A) → Text → Text → List (Text × Text) → Run O A
  post_json decode target authorization payload = do
    ensure (O.is_url target) (codes "build request")
    sent ← outside (
        O.send (record { timeout = 15 * second; follows = true })
          (json_call target authorization payload))
    answer ← expect sent (codes "request failed")
    text ← expect answer.body (codes "decode response")
    expect (decode text) (codes "decode response")

  abbrev pub form_call : (Text → Text) → Text → Text → Text → Option (List (Text × Text)) → Call
  form_call query_escape ip method target none = record {
    method = method;
    target = target;
    header = (codes "X-Forwarded-For", ip) ∷ [];
    content = [];
  }
  form_call query_escape ip method target (some form) = record {
    method = method;
    target = target;
    header =
        (codes "X-Forwarded-For", ip)
        ∷ (codes "Content-Type", codes "application/x-www-form-urlencoded")
        ∷ [];
    content = encode_form query_escape form;
  }

  -- A request in the name of an address, which follows no redirect.
  unfoldable pub request :
      (Text → Text) → Text → Text → Text → Option (List (Text × Text)) → Run O (Answer × Text)
  request query_escape ip method target form = do
    ensure (O.is_url target) (codes "build request")
    sent ← outside (
        O.send (record { timeout = 15 * second; follows = false })
          (form_call query_escape ip method target form))
    answer ← expect sent (codes "request failed")
    text ← expect answer.body (codes "read body")
    pure (answer, text)

  -- The loop of `waitFor`, with turns.
  unfoldable pub poll_loop : ℕ → ℕ → Run O Bool → Run O (Unit {0})
  poll_loop zero deadline poll s = (err spun, s)
  poll_loop (suc turns) deadline poll s =
      let again : Run O (Unit {0}) =
        outside (λ w. (tt, O.sleep (2 * second) w)) >> poll_loop turns deadline poll in
      if not (ltb (O.now s.world) deadline)
      then fatal (codes "timed out waiting") s
      else (poll >>= λ done. if done then pure tt else again) s

  abbrev pub max_turns : ℕ
  max_turns = 61

  unfoldable pub wait_for : Run O Bool → Run O (Unit {0})
  wait_for poll s = poll_loop max_turns (O.now s.world + 120 * second) poll s

  unfoldable pub get_status : Text → ℕ → Run O Bool
  get_status target status = do
    sent ← outside (
        O.send (record { timeout = 0; follows = true })
          (record { method = codes "GET"; target = target; header = []; content = [] }))
    pure (elim sent [ none ↦ false | some answer ↦ answer.status == status ])

  unfoldable pub wait_for_status : Text → ℕ → Run O (Unit {0})
  wait_for_status target status = wait_for (get_status target status)

  unfoldable pub wait_for_redirect : (Text → Text) → Text → Text → Text → Run O (Unit {0})
  wait_for_redirect query_escape ip target location = wait_for (do
    got ← request query_escape ip (codes "GET") target none
    pure (got.0.status == 302 && text_eq (got.0.header (codes "Location")) location))

  unfoldable pub wait_for_body_contains : (Text → Text) → Text → Text → Text → Run O (Unit {0})
  wait_for_body_contains query_escape ip target want =
      wait_for (do
        got ← request query_escape ip (codes "GET") target none
        pure (contains_text got.1 want))

  -- The text is written beside the file, which it then replaces.
  unfoldable pub write_dynamic_config : Text → Run O (Unit {0})
  write_dynamic_config content s =
      let (failed, w) = O.write_file content s.world in
      elim failed [
        | some part ↦
            (err (exit (codes "write dynamic config")), record s { world = w; tmp = some part })
        | none ↦
            let (renamed, w') = O.rename w in
            if not renamed
            then (
              err (exit (codes "install dynamic config")),
              record s { world = w'; tmp = some content },
            )
            else (ok tt, record s { world = w'; tmp = none; dynamic = some content })
      ]
