-- ===== src/System/Liveness.antt =====
-- Whoever has passed the challenge reaches the site, in this lifetime and in later ones.
use captcha_protect.Base.{
  ℕ, ◌+◌, ◌≤◌, ◌<◌, ◌≡◌, ◌≢◌, refl, Bool, true, List, [], ◌∷◌, ◌++◌, Option, none, some, Text,
  arith, All, AllPairs, IsNonneg, if_both,
}
use captcha_protect.Cache.{Cache, IsLawful}
use captcha_protect.Snapshot.{CacheEntry}
use captcha_protect.Middleware.{Setup, pass}
use captcha_protect.Access.{verification_key}
use captcha_protect.Persist.Reader.{read_state}
use captcha_protect.Serve.{site, endpoint}
use captcha_protect.Serve.Verified.{is_fallback, site_of_verified}
use captcha_protect.Serve.Visits.{Visit, serve, address, Solves}
use captcha_protect.System.{Machine, Event, visited, AreOver, IsOrdered, step, after, fresh}
use captcha_protect.System.Regular.{IsRegular, window, default-new_state, default-after}
use captcha_protect.System.Kept.{new_state-none}
use captcha_protect.System.Staying.{get-Solves}
use captcha_protect.System.Lasting.{IsAlone, IsBacked, after-Holds}

All-later {ℓ κ} : {A : Type ℓ} (P : A → Type κ) (xs ys : List A) → All P (xs ++ ys) → All P ys
All-later P [] ys h = h
All-later P (x ∷ xs) ys (_, h) = All-later P xs ys h

module _ {C : Cache} (L : IsLawful C) (query_escape : Text → Text) (setup : Setup)
    (unmarshal : Text → Option (List (Text × CacheEntry)))
    (decodes : (t : Text) (entries : List (Text × CacheEntry))
      → read_state t ≡ some entries
      → AllPairs (λ a b. a.0 ≢ b.0) entries
      → unmarshal t ≡ some entries) where
  -- Right after the visit it is remembered.
  remembered :
      (m : Machine C) (earlier : List (Event C)) (v : Visit) (key : Text) (until later : ℕ)
      → 0 < window L query_escape setup unmarshal
      → C.default m.st.verified_cache ≡ window L query_escape setup unmarshal
      → All (IsRegular L query_escape setup unmarshal) (visited v ∷ earlier)
      → Solves C query_escape setup v (after C query_escape setup unmarshal earlier m).st key until
      → later ≤ until
      → C.get
          (after C query_escape setup unmarshal (visited v ∷ earlier) m).st.verified_cache
          later
          key
        ≡ some true
  unfolding after step
  remembered m earlier v key until later positive lasts ((hour, day, _, _), regular) solves soon =
      let st = (after C query_escape setup unmarshal earlier m).st in
      let same : C.default st.verified_cache ≡ window L query_escape setup unmarshal =
        default-after L query_escape setup unmarshal m lasts earlier regular in
      let day' : IsNonneg (v.moment + C.default st.verified_cache) = rw same (omega arith) in
      get-Solves L query_escape setup v st key until later (rw same positive)
        (if_both (λ d. IsNonneg (v.moment + d)) (is_fallback setup st) (omega arith) day') solves
        soon

  -- From a first start without a state file, once a visit has passed the challenge under a key, whatever
  -- came before it, and whatever visits, background work, saves that succeed or fail and starts from
  -- the state file come after it, one after another: a later request for the site with that key reaches
  -- it until the verification is over. No later visit passes the challenge under the key again, and
  -- every later start gets the lock of the file and comes after a save, later than the visit, that has
  -- succeeded. There is a state file; the cache meets its laws, the window is positive, the times end
  -- before the last nanosecond of 63 bits, the addresses of the visits are valid UTF-8, randomness is
  -- bytes, the background leaves the verified visitors alone, and encoding/json reads what the strict
  -- reader reads, where no key comes twice.
  pub serve_http_lifetimes_pass :
      (first : ℕ) (locked : Bool) (earlier events : List (Event C)) (v next : Visit) (key : Text)
      (until : ℕ)
      → setup.config.persistent_state_file ≢ []
      → 0 < window L query_escape setup unmarshal
      → let m = fresh C query_escape setup unmarshal first locked in
        let before = visited v ∷ earlier in
        All (IsRegular L query_escape setup unmarshal) (events ++ before)
        → IsOrdered (events ++ before)
        → Solves C query_escape setup v
            (after C query_escape setup unmarshal earlier m).st
            key
            until
        → IsAlone C query_escape setup unmarshal m before key events
        → IsBacked events
        → AreOver next.moment (events ++ before)
        → IsNonneg next.moment
        → next.moment ≤ until
        → endpoint setup next.request ≡ site
        → verification_key setup next.request (address C query_escape setup next) ≡ key
        → let st = (after C query_escape setup unmarshal (events ++ before) m).st in
          serve C query_escape setup next st ≡ (pass, st)
  serve_http_lifetimes_pass first locked earlier events v next key until on positive regular ordered
        solves alone backed ended fits soon here same =
      let m = fresh C query_escape setup unmarshal first locked in
      let lasts = default-new_state L query_escape setup unmarshal locked none first in
      let (stays, _) =
        after-Holds L next.lookup query_escape setup unmarshal decodes on m (visited v ∷ earlier)
          key until positive lasts
          (λ k later.
            new_state-none L next.lookup query_escape setup unmarshal decodes m locked first later
              k)
          refl events regular ordered alone backed
          (λ later ended fits soon.
            remembered m earlier v key until later positive lasts
              (All-later _ events (visited v ∷ earlier) regular) solves soon) in
      site_of_verified C next.lookup query_escape setup next.out next.moment _ next.request
        {v = true} here (rw same (stays next.moment ended fits soon))
