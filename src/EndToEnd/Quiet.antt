-- ===== src/EndToEnd/Quiet.antt =====
-- The helpers of ci/cap/main.go that leave the configuration of Traefik as it is, and end.
use mathlib.Core.Path.{subst}
use captcha_protect.Base.{
  ℕ, ◌*◌, ◌≡◌, ◌∙◌, refl, ◌≤◌, Bool, true, false, List, Option, none, some, Text, Result, ok, err,
  arith,
}
use captcha_protect.Verify.{second}
use captcha_protect.EndToEnd.{
  Call, Client, Outer, IsClocked, Driver, Failure, exit, spun, Run, next, ◌>>=◌, pure, outside,
  ensure, expect,
}
use captcha_protect.EndToEnd.Helpers.{
  compose, compose_output, post_json, request, get_status, wait_for, wait_for_status,
  wait_for_redirect, wait_for_body_contains,
}
use captcha_protect.EndToEnd.Waiting.{
  IsPolled, late, found, broken, again, rested, wait_for-IsPolled,
}

-- A result is not that of a loop without a turn left.
abbrev pub IsExit : Failure → Type 0
IsExit (exit message) = Unit {0}
IsExit spun = ⊥

abbrev pub Ends : {A : Type 0} → Result Failure A → Type 0
Ends (ok a) = Unit {0}
Ends (err e) = IsExit e

-- The clock does not go back, the configuration stays, and no loop runs out of turns.
abbrev pub IsQuietAt : {O : Outer} {A : Type 0} → Driver O → Result Failure A × Driver O → Type 0
IsQuietAt {O} {A} s (r, s') = (O.now s.world ≤ O.now s'.world) × (s'.dynamic ≡ s.dynamic) × Ends r

pub record IsQuiet {O : Outer} {A : Type 0} (m : Run O A) : Type 0 where
  pub at : (s : Driver O) → IsQuietAt s (m s)

module _ {O : Outer} where
  next-IsQuietAt :
      {A B : Type 0} (s : Driver O) (r : Result Failure A × Driver O) (f : A → Run O B)
      → IsQuietAt s r
      → ((a : A) → IsQuiet (f a))
      → IsQuietAt s (next r f)
  next-IsQuietAt s (ok a, s') f (later, same, ends) quiet =
      let (later', same', ends') = (quiet a).at s' in (omega arith, same' ∙ same, ends')
  next-IsQuietAt s (err e, s') f (later, same, ends) quiet = (later, same, ends)

  pub bind-IsQuiet :
      {A B : Type 0} {m : Run O A} {f : A → Run O B}
      → IsQuiet m
      → ((a : A) → IsQuiet (f a))
      → IsQuiet (m >>= f)
  bind-IsQuiet {m} {f} quiet rest = record { at = λ s. next-IsQuietAt s (m s) f (quiet.at s) rest }

  pub pure-IsQuiet : {A : Type 0} {a : A} → IsQuiet {O = O} (pure a)
  pure-IsQuiet = record { at = λ s. (omega arith, refl, tt) }

  pub ensure-IsQuiet : (b : Bool) (message : Text) → IsQuiet {O = O} (ensure b message)
  unfolding ensure
  ensure-IsQuiet true message = record { at = λ s. (omega arith, refl, tt) }
  ensure-IsQuiet false message = record { at = λ s. (omega arith, refl, tt) }

  pub expect-IsQuiet :
      {A : Type 0} (a : Option A) (message : Text) → IsQuiet {O = O} (expect a message)
  unfolding expect
  expect-IsQuiet (some a) message = record { at = λ s. (omega arith, refl, tt) }
  expect-IsQuiet none message = record { at = λ s. (omega arith, refl, tt) }

  -- How quiet parts make a quiet whole.
  pub ruleset parts = (bind-IsQuiet, pure-IsQuiet, ensure-IsQuiet, expect-IsQuiet)

module _ {O : Outer} (C : IsClocked O) where
  pub docker-IsQuiet : (args : List Text) → IsQuiet {O = O} (outside {O = O} (O.docker args))
  docker-IsQuiet args = record { at = λ s. (C.ran args s.world, refl, tt) }

  send-IsQuiet : (c : Client) (call : Call) → IsQuiet {O = O} (outside {O = O} (O.send c call))
  send-IsQuiet c call = record { at = λ s. (C.sent c call s.world, refl, tt) }

  pub compose-IsQuiet : (args : List Text) → IsQuiet (compose O args)
  unfolding compose
  compose-IsQuiet args = search (parts, docker-IsQuiet)

  pub compose_output-IsQuiet : (args : List Text) → IsQuiet (compose_output O args)
  unfolding compose_output
  compose_output-IsQuiet args = search (parts, docker-IsQuiet)

  pub post_json-IsQuiet :
      {A : Type 0} (decode : Text → Option A) (target authorization : Text)
      (payload : List (Text × Text))
      → IsQuiet (post_json O decode target authorization payload)
  unfolding post_json
  post_json-IsQuiet decode target authorization payload = search (parts, send-IsQuiet)

  pub request-IsQuiet :
      (query_escape : Text → Text) (ip method target : Text) (form : Option (List (Text × Text)))
      → IsQuiet (request O query_escape ip method target form)
  unfolding request
  request-IsQuiet query_escape ip method target form = search (parts, send-IsQuiet)

  get_status-IsQuiet : (target : Text) (status : ℕ) → IsQuiet (get_status O target status)
  unfolding get_status
  get_status-IsQuiet target status = search (parts, send-IsQuiet)

  IsPolled-IsQuiet :
      (deadline : ℕ) (poll : Run O Bool)
      → IsQuiet poll
      → (n : ℕ) (s : Driver O) (r : Result Failure (Unit {0}) × Driver O)
      → IsPolled deadline poll n s r
      → IsQuietAt s r
  IsPolled-IsQuiet deadline poll quiet _ _ _ (late s out) = (omega arith, refl, tt)
  IsPolled-IsQuiet deadline poll quiet _ _ _ (found s s' early polled) =
      let (later, same, _) = subst (IsQuietAt s) polled (quiet.at s) in (later, same, tt)
  IsPolled-IsQuiet deadline poll quiet _ _ _ (broken s s' e early polled) =
      let (later, same, ends) = subst (IsQuietAt s) polled (quiet.at s) in (later, same, ends)
  IsPolled-IsQuiet deadline poll quiet _ _ _ (again s s' n r early polled rest) =
      let (later, same, _) = subst (IsQuietAt s) polled (quiet.at s) in
      let (later', same', ends) = IsPolled-IsQuiet deadline poll quiet n (rested s') r rest in
      (omega (arith, later, later', C.slept (2 * second) s'.world), same' ∙ same, ends)

  wait_for-IsQuiet : (poll : Run O Bool) → IsQuiet poll → IsQuiet (wait_for O poll)
  wait_for-IsQuiet poll quiet = record {
    at = λ s.
        let (n, few, polled) = wait_for-IsPolled C poll (λ s'. (quiet.at s').0) s in
        IsPolled-IsQuiet _ poll quiet n s _ polled;
  }

  pub wait_for_status-IsQuiet :
      (target : Text) (status : ℕ) → IsQuiet (wait_for_status O target status)
  unfolding wait_for_status
  wait_for_status-IsQuiet target status = search (wait_for-IsQuiet, get_status-IsQuiet)

  pub wait_for_redirect-IsQuiet :
      (query_escape : Text → Text) (ip target location : Text)
      → IsQuiet (wait_for_redirect O query_escape ip target location)
  unfolding wait_for_redirect
  wait_for_redirect-IsQuiet query_escape ip target location =
      search (parts, wait_for-IsQuiet, request-IsQuiet)

  pub wait_for_body_contains-IsQuiet :
      (query_escape : Text → Text) (ip target want : Text)
      → IsQuiet (wait_for_body_contains O query_escape ip target want)
  unfolding wait_for_body_contains
  wait_for_body_contains-IsQuiet query_escape ip target want =
      search (parts, wait_for-IsQuiet, request-IsQuiet)
