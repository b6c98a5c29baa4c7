-- ===== src/EndToEnd/Leaving.antt =====
-- What the steps of ci/cap/main.go leave as the configuration of Traefik.
use captcha_protect.Base.{
  ◌≡◌, ◌≢◌, ◌⊎◌, not, refl, inl, inr, Bool, true, false, [], Option, none, some, Text, codes,
  if◌then◌else◌, Result, ok, err, Bool-cases,
}
use captcha_protect.EndToEnd.{
  Call, Answer, Client, outside, Outer, Driver, Failure, exit, Run, next, ◌>>=◌, ◌>>◌, pure, ensure,
  expect,
}
use captcha_protect.EndToEnd.Helpers.{write_dynamic_config}
use captcha_protect.EndToEnd.Configs.{routing_config, keyed_config}
use captcha_protect.EndToEnd.Checks.{SiteKey}
use captcha_protect.EndToEnd.Quiet.{IsExit, IsQuiet, IsQuietAt}

-- What is decoded from the body of the answer to a call for a target.
abbrev pub IsAnswered : (O : Outer) {A : Type 0} → (Text → Option A) → Text → A → Type 0
IsAnswered O decode target a =
    (w : O.W) × (c : Client) × (call : Call) × (answer : Answer) × (text : Text) × (call.target
      ≡ target)
    × ((O.send c call w).0 ≡ some answer)
    × (answer.body ≡ some text)
    × (decode text ≡ some a)

module _ (O : Outer) (keys_url : Text) (decode_key : Text → Option SiteKey) where
  -- The keys in an answer of the server to a call for the URL of Cap's keys; they are not empty.
  abbrev pub IsKeyPair : Text → Text → Type 0
  IsKeyPair site_key secret_key =
      IsAnswered O decode_key keys_url (record { site_key = site_key; secret_key = secret_key })
      × (site_key ≢ [])
      × (secret_key ≢ [])

  -- A configuration that protects the sites with them.
  abbrev pub HasKeys : Option Text → Type 0
  HasKeys dynamic =
      (site_key : Text) × (secret_key : Text) × IsKeyPair site_key secret_key
      × (dynamic ≡ some (keyed_config site_key secret_key))

  -- A configuration that Traefik sees when it is another one at the beginning.
  abbrev pub IsSeen : Driver O → Option Text → Type 0
  IsSeen s dynamic = (dynamic ≡ s.dynamic) ⊎ (dynamic ≡ some routing_config) ⊎ HasKeys dynamic

  -- The driver has passed, and the sites are protected; or it has failed with a message, and the
  -- configuration is the one at the beginning, the one with the routes of Cap, or one that protects
  -- the sites.
  abbrev pub IsLeft : Driver O → Result Failure (Unit {0}) × Driver O → Type 0
  IsLeft s (ok _, s') = HasKeys s'.dynamic
  IsLeft s (err e, s') = IsExit e × IsSeen s s'.dynamic

  -- What the rest of the driver leaves, if the configuration meets a condition.
  pub record Leaves (start : Driver O) (P : Option Text → Type 0) (m : Run O (Unit {0}))
      : Type 0 where
    pub at : (s : Driver O) → P s.dynamic → IsLeft start (m s)

-- The text is the configuration now, or writing it has failed and changed nothing.
abbrev pub IsInstalled :
    {O : Outer} → Text → Driver O → Result Failure (Unit {0}) × Driver O → Type 0
IsInstalled content s (ok _, s') = s'.dynamic ≡ some content
IsInstalled content s (err e, s') = IsExit e × (s'.dynamic ≡ s.dynamic)

-- What a run gives meets a condition.
abbrev pub GivesAt : {O : Outer} {A : Type 0} → (A → Type 0) → Result Failure A × Driver O → Type 0
GivesAt P (ok a, s) = P a
GivesAt P (err e, s) = Unit {0}

pub record Gives {O : Outer} {A : Type 0} (P : A → Type 0) (m : Run O A) : Type 0 where
  pub at : (s : Driver O) → GivesAt P (m s)

module _ {O : Outer} where
  write_dynamic_config-IsInstalled :
      (content : Text) (s : Driver O) → IsInstalled content s (write_dynamic_config O content s)
  unfolding write_dynamic_config
  write_dynamic_config-IsInstalled content s = renamed (O.write_file content s.world)
    where
      renamed :
          (written : Option Text × O.W)
          → IsInstalled content s (
              let (failed, w) = written in
              elim failed [
                | some part ↦ (
                  err (exit (codes "write dynamic config")),
                  record s { world = w; tmp = some part },
                )
                | none ↦
                    let (moved, w') = O.rename w in
                    if not moved
                    then (
                      err (exit (codes "install dynamic config")),
                      record s { world = w'; tmp = some content },
                    )
                    else (ok tt, record s { world = w'; tmp = none; dynamic = some content })
              ])
      renamed (some part, w) = (tt, refl)
      renamed (none, w) = elim (Bool-cases (O.rename w).0) [
        | inl e ↦ rw e refl
        | inr e ↦ rw e (tt, refl)
      ]

  next-GivesAt :
      {A B : Type 0} (P : B → Type 0) (r : Result Failure A × Driver O) (f : A → Run O B)
      → ((a : A) → Gives P (f a))
      → GivesAt P (next r f)
  next-GivesAt P (ok a, s) f h = (h a).at s
  next-GivesAt P (err e, s) f h = tt

  pub bind-Gives :
      {A B : Type 0} {P : B → Type 0} (m : Run O A) {f : A → Run O B}
      → ((a : A) → Gives P (f a))
      → Gives P (m >>= f)
  bind-Gives {P} m {f} h = record { at = λ s. next-GivesAt P (m s) f h }

  carried-GivesAt :
      {A B : Type 0} (Q : A → Type 0) (P : B → Type 0) (r : Result Failure A × Driver O)
      (f : A → Run O B)
      → GivesAt Q r
      → ((a : A) → Q a → Gives P (f a))
      → GivesAt P (next r f)
  carried-GivesAt Q P (ok a, s) f h rest = (rest a h).at s
  carried-GivesAt Q P (err e, s) f h rest = tt

  -- What a step gives is known to the next one.
  pub carried-Gives :
      {A B : Type 0} (Q : A → Type 0) {P : B → Type 0} {m : Run O A} {f : A → Run O B}
      → Gives Q m
      → ((a : A) → Q a → Gives P (f a))
      → Gives P (m >>= f)
  carried-Gives Q {P} {m} {f} h rest = record {
    at = λ s. carried-GivesAt Q P (m s) f (h.at s) rest;
  }

  -- What is expected is there.
  pub expect-Gives :
      {A : Type 0} (a : Option A) (message : Text)
      → Gives (λ x. a ≡ some x) (expect {O = O} a message)
  unfolding expect
  expect-Gives (some a) message = record { at = λ s. refl }
  expect-Gives none message = record { at = λ s. tt }

  -- An answer comes from the network.
  pub outside-Gives :
      {A : Type 0} (f : O.W → A × O.W) → Gives (λ a. (w : O.W) × ((f w).0 ≡ a)) (outside {O = O} f)
  outside-Gives f = record { at = λ s. (s.world, refl) }

  -- A consequence of what a run gives.
  pub weaken-Gives :
      {A : Type 0} (Q : A → Type 0) {P : A → Type 0} {m : Run O A}
      → ((a : A) → Q a → P a)
      → Gives Q m
      → Gives P m
  weaken-Gives {A} Q {P} {m} imp h = record { at = λ s. weakened (m s) (h.at s) }
    where
      weakened : (r : Result Failure A × Driver O) → GivesAt Q r → GivesAt P r
      weakened (ok a, s) given = imp a given
      weakened (err e, s) given = tt

  pub ensure-Gives :
      {A : Type 0} {P : A → Type 0} (b : Bool) (message : Text) (a : A)
      → (b ≡ true → P a)
      → Gives P (ensure {O = O} b message >> pure a)
  unfolding ensure
  ensure-Gives true message a h = record { at = λ s. h refl }
  ensure-Gives false message a h = record { at = λ s. tt }

module _ {O : Outer} (keys_url : Text) (decode_key : Text → Option SiteKey) where
  -- After a quiet step, after a configuration is written, and at the end.
  quiet-IsLeft :
      {A : Type 0} (start : Driver O) (P : Option Text → Type 0) (Q : A → Type 0) (s : Driver O)
      (r : Result Failure A × Driver O) (f : A → Run O (Unit {0}))
      → ((d : Option Text) → P d → IsSeen O keys_url decode_key start d)
      → P s.dynamic
      → IsQuietAt s r
      → GivesAt Q r
      → ((a : A) → Q a → Leaves O keys_url decode_key start P (f a))
      → IsLeft O keys_url decode_key start (next r f)
  quiet-IsLeft start P Q s (ok a, s') f seen here (_, same, ends) gives rest =
      (rest a gives).at s' (rw same here)
  quiet-IsLeft start P Q s (err e, s') f seen here (_, same, ends) gives rest =
      (ends, seen s'.dynamic (rw same here))

  pub Gives-Leaves :
      {A : Type 0} {start : Driver O} {P : Option Text → Type 0} (Q : A → Type 0) {m : Run O A}
      {f : A → Run O (Unit {0})}
      → ((d : Option Text) → P d → IsSeen O keys_url decode_key start d)
      → IsQuiet m
      → Gives Q m
      → ((a : A) → Q a → Leaves O keys_url decode_key start P (f a))
      → Leaves O keys_url decode_key start P (m >>= f)
  Gives-Leaves {start} {P} Q {m} {f} seen quiet gives rest = record {
    at = λ s here. quiet-IsLeft start P Q s (m s) f seen here (quiet.at s) (gives.at s) rest;
  }

  given : {A : Type 0} (m : Run O A) → Gives (λ a. Unit {0}) m
  given {A} m = record { at = λ s. anything (m s) }
    where
      anything : (r : Result Failure A × Driver O) → GivesAt (λ a. Unit {0}) r
      anything (ok a, s) = tt
      anything (err e, s) = tt

  pub quiet-Leaves :
      {A : Type 0} {start : Driver O} {P : Option Text → Type 0} {m : Run O A}
      {f : A → Run O (Unit {0})}
      → ((d : Option Text) → P d → IsSeen O keys_url decode_key start d)
      → IsQuiet m
      → ((a : A) → Leaves O keys_url decode_key start P (f a))
      → Leaves O keys_url decode_key start P (m >>= f)
  quiet-Leaves {m} seen quiet rest =
      Gives-Leaves (λ a. Unit {0}) seen quiet (given m) (λ a _. rest a)

  written-IsLeft :
      (start s : Driver O) (content : Text) (r : Result Failure (Unit {0}) × Driver O)
      (f : Unit {0} → Run O (Unit {0}))
      → IsSeen O keys_url decode_key start s.dynamic
      → IsInstalled content s r
      → Leaves O keys_url decode_key start (λ d. d ≡ some content) (f tt)
      → IsLeft O keys_url decode_key start (next r f)
  written-IsLeft start s content (ok a, s') f seen installed rest = rest.at s' installed
  written-IsLeft start s content (err e, s') f seen (ends, same) rest = (ends, rw same seen)

  pub written-Leaves :
      {start : Driver O} {P : Option Text → Type 0} (content : Text)
      (f : Unit {0} → Run O (Unit {0}))
      → ((d : Option Text) → P d → IsSeen O keys_url decode_key start d)
      → Leaves O keys_url decode_key start (λ d. d ≡ some content) (f tt)
      → Leaves O keys_url decode_key start P (write_dynamic_config O content >>= f)
  written-Leaves {start} content f seen rest = record {
    at = λ s here.
        written-IsLeft start s content _ f (seen s.dynamic here)
          (write_dynamic_config-IsInstalled content s) rest;
  }

  pub last-IsLeft :
      (start s : Driver O) (r : Result Failure (Unit {0}) × Driver O)
      → HasKeys O keys_url decode_key s.dynamic
      → IsQuietAt s r
      → IsLeft O keys_url decode_key start r
  last-IsLeft start s (ok a, s') keys (_, same, ends) = rw same keys
  last-IsLeft start s (err e, s') keys (_, same, ends) = (ends, inr (inr (rw same keys)))
