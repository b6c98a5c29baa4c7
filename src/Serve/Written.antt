-- ===== src/Serve/Written.antt =====
-- What a response writes: `serveJavaScript`, and the ends of `serveChallengePage` and
-- `serveStatsPage` of main.go. `http.Error` and `http.Redirect` are those of the standard library;
-- the body of a redirect is left out.
use captcha_protect.Base.{
  ◌≡◌, ◌↔◌, arith, ℕ, Bool, List, [], ◌∷◌, ◌++◌, Option, none, some, Text, codes, if◌then◌else◌,
}
use captcha_protect.Middleware.{
  ChallengeData, Cookie, Response, pass, javascript, challenge_page, http_error, redirect, stats,
}
use captcha_protect.Snapshot.{Snapshot}

pub record Written : Type 0 where
  pub status : ℕ
  pub header : List (Text × Text)
  pub cookies : List Cookie
  pub content : Text

abbrev pub serve_java_script : Text → Written
serve_java_script js = record {
  status = 200;
  header =
      (codes "Content-Type", codes "application/javascript")
      ∷ (codes "Cache-Control", codes "no-cache, no-store, must-revalidate")
      ∷ [];
  cookies = [];
  content = js;
}

-- `execute` is `tmpl.Execute`: what it writes, and whether it succeeds.
abbrev pub write_challenge_page : (ChallengeData → Text × Bool) → ℕ → ChallengeData → Written
write_challenge_page execute status page = record {
  status = status;
  header = (codes "Content-Type", codes "text/html; charset=utf-8") ∷ [];
  cookies = [];
  content =
      let (text, executed) = execute page in
      if executed then text else text ++ (10 ∷ codes "<!-- Template execution failed -->");
}

-- `marshal` is `json.Marshal` of the statistics. Nothing is written where the next handler is called.
unfoldable pub written :
    (ChallengeData → Text × Bool) → (Snapshot → Text) → Response → Option Written
written execute marshal pass = none
written execute marshal (javascript js) = some (serve_java_script js)
written execute marshal (challenge_page status page) =
    some (write_challenge_page execute status page)
written execute marshal (http_error status message) = some (record {
  status = status;
  header =
      (codes "Content-Type", codes "text/plain; charset=utf-8")
      ∷ (codes "X-Content-Type-Options", codes "nosniff")
      ∷ [];
  cookies = [];
  content = message ++ (10 ∷ []);
})
written execute marshal (redirect status location cookie) = some (record {
  status = status;
  header = (codes "Location", location) ∷ [];
  cookies = elim cookie [ none ↦ [] | some c ↦ c ∷ [] ];
  content = [];
})
written execute marshal (stats snapshot) = some (record {
  status = 200;
  header = (codes "Content-Type", codes "application/json") ∷ [];
  cookies = [];
  content = marshal snapshot;
})

-- Nothing is written exactly where the next handler is called.
pub written_none_iff :
    (execute : ChallengeData → Text × Bool) (marshal : Snapshot → Text) (response : Response)
    → (written execute marshal response ≡ none) ↔ (response ≡ pass)
unfolding written
written_none_iff execute marshal response = ground arith
