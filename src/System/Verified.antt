-- ===== src/System/Verified.antt =====
-- Who is verified, in memory and in the state file, has passed the challenge before.
use captcha_protect.Base.{
  ℕ, ◌+◌, ◌<◌, ◌≡◌, ◌≢◌, inl, inr, Bool, List, [], ◌∷◌, Option, none, some, Text, arith, All,
  AllPairs, IsNonneg,
}
use captcha_protect.Cache.{Cache, IsLawful}
use captcha_protect.Snapshot.{CacheEntry}
use captcha_protect.Middleware.{Setup}
use captcha_protect.Persist.Reader.{read_state}
use captcha_protect.Serve.History.{serve_verified}
use captcha_protect.System.{
  Machine, Event, visited, background, saved, restarted, begins, AreOver, IsOrdered, step, after,
}
use captcha_protect.System.Kept.{
  IsKnown, HoldsSaved, IsKnown-later, HoldsSaved-later, new_state-IsKnown, saved-HoldsSaved,
}
use captcha_protect.System.Regular.{IsRegular, window, default-after}

module _ {C : Cache} (L : IsLawful C) (lookup : Text → List Text → Bool)
    (query_escape : Text → Text) (setup : Setup)
    (unmarshal : Text → Option (List (Text × CacheEntry)))
    (decodes : (t : Text) (entries : List (Text × CacheEntry))
      → read_state t ≡ some entries
      → AllPairs (λ a b. a.0 ≢ b.0) entries
      → unmarshal t ≡ some entries)
    (m : Machine C) where
  -- Both hold after every event.
  abbrev pub IsAccounted : List (Event C) → Machine C → Type 0
  IsAccounted events n =
      IsKnown L lookup query_escape setup unmarshal decodes m events n.st.verified_cache
      × HoldsSaved L lookup query_escape setup unmarshal decodes m events n.file

  step-IsAccounted :
      (e : Event C) (events : List (Event C))
      → 0 < window L query_escape setup unmarshal
      → C.default m.st.verified_cache ≡ window L query_escape setup unmarshal
      → IsRegular L query_escape setup unmarshal e
      → All (IsRegular L query_escape setup unmarshal) events
      → AreOver (begins e) events
      → let n = after C query_escape setup unmarshal events m in
        IsAccounted events n → IsAccounted (e ∷ events) (step C query_escape setup unmarshal e n)
  unfolding step
  step-IsAccounted (visited v) events positive lasts (hour, day, _, _) regular ended (known, held) =
      (
        λ key later (here, ended') fits found.
            let n = after C query_escape setup unmarshal events m in
            let same = default-after L query_escape setup unmarshal m lasts events regular in
            let day' : IsNonneg (v.moment + C.default n.st.verified_cache) =
              rw same (omega arith) in
            elim (serve_verified L query_escape setup v n.st key later (rw same positive)
              (omega arith, day') fits found) [
                | inl earlier ↦ inr (known key later ended' fits earlier)
                | inr solves ↦ inl solves
              ],
        HoldsSaved-later L lookup query_escape setup unmarshal decodes m (visited v) events _ held,
      )
  step-IsAccounted (background now effect) events positive lasts (_, quiet) regular ended
        (known, held) =
      (
        λ key later (here, ended') fits found.
            inr (known key later ended' fits (rw (quiet _) at found)),
        HoldsSaved-later L lookup query_escape setup unmarshal decodes m (background now effect)
            events _ held,
      )
  step-IsAccounted (saved now locked renamed) events positive lasts early regular ended
        (known, held) =
      (
        IsKnown-later L lookup query_escape setup unmarshal decodes m (saved now locked renamed)
            events _ known,
        saved-HoldsSaved L lookup query_escape setup unmarshal decodes m now locked renamed events _
            _ early regular ended lasts known held,
      )
  step-IsAccounted (restarted now locked) events positive lasts early regular ended (known, held) =
      (
        new_state-IsKnown L lookup query_escape setup unmarshal decodes m now locked events _ ended
            held,
        HoldsSaved-later L lookup query_escape setup unmarshal decodes m (restarted now locked)
            events _ held,
      )

  pub after-IsAccounted :
      (events : List (Event C))
      → 0 < window L query_escape setup unmarshal
      → C.default m.st.verified_cache ≡ window L query_escape setup unmarshal
      → ((key : Text) (later : ℕ) → C.get m.st.verified_cache later key ≡ none)
      → m.file ≡ none
      → All (IsRegular L query_escape setup unmarshal) events
      → IsOrdered events
      → IsAccounted events (after C query_escape setup unmarshal events m)
  unfolding after
  after-IsAccounted [] positive lasts empty no_file regular ordered =
      (λ key later ended fits found. absurd (found (empty key later)), rw no_file tt)
  after-IsAccounted (e ∷ events) positive lasts empty no_file (here, regular) (ended, ordered) =
      step-IsAccounted e events positive lasts here regular ended
        (after-IsAccounted events positive lasts empty no_file regular ordered)
