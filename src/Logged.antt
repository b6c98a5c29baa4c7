-- ===== src/Logged.antt =====
-- What is written to the log about the configuration: `redactedConfig` and `ParseHttpMethods` of
-- main.go, and `parseLogLevel` of internal/log/log.go.
use captcha_protect.Base.{
  ℕ, ◌-◌, ◌≡◌, ◌≢◌, refl, Bool, true, false, not, ◌&&◌, ◌||◌, List, [], ◌∷◌, map, any, Text, codes,
  text_eq, if◌then◌else◌, leb, no_text_eq,
}
use captcha_protect.Config.{Config}

abbrev pub redaction : Text
redaction = codes "[REDACTED]"

unfoldable pub redacted_config : Config → Config
redacted_config c = if not (text_eq c.secret_key []) then record c { secret_key = redaction } else c

abbrev known_methods : List Text
known_methods =
    codes "GET"
    ∷ codes "HEAD"
    ∷ codes "POST"
    ∷ codes "PUT"
    ∷ codes "PATCH"
    ∷ codes "DELETE"
    ∷ codes "CONNECT"
    ∷ codes "OPTIONS"
    ∷ codes "TRACE"
    ∷ []

-- The methods that `ParseHttpMethods` warns of.
unfoldable pub parse_http_methods : List Text → List Text
parse_http_methods [] = []
parse_http_methods (method ∷ methods) =
    let rest = parse_http_methods methods in
    if any (λ known. text_eq method known) known_methods then rest else method ∷ rest

pub data Level : Type 0 where
  debug info warning error : Level

unfoldable pub upper_byte : ℕ → ℕ
upper_byte c = if leb b'a' c && leb c b'z' then c - 32 else c

-- The level, and whether it was known.
unfoldable pub parse_log_level : Text → Level × Bool
unfolding upper_byte
parse_log_level level =
    let upper = map upper_byte level in
    if text_eq upper (codes "DEBUG")
    then (debug, true)
    else if text_eq upper (codes "INFO")
    then (info, true)
    else if text_eq upper (codes "WARNING") || text_eq upper (codes "WARN")
    then (warning, true)
    else if text_eq upper (codes "ERROR")
    then (error, true)
    else (info, false)

-- `New`: the level from which on messages are written, and whether it warns of an unknown name.
unfoldable pub new_log : Text → Level × Bool
new_log level = let (log_level, known) = parse_log_level level in (log_level, not known)

-- The log shows the same for every secret key that is not empty, and all else of the configuration
-- as it is.
pub redacted_config_secret :
    (c : Config) (secret : Text)
    → c.secret_key ≢ []
    → secret ≢ []
    → (redacted_config (record c { secret_key = secret }) ≡ redacted_config c)
      × (record (redacted_config c) { secret_key = c.secret_key } ≡ c)
unfolding redacted_config
redacted_config_secret c secret there there' =
    rw (no_text_eq c.secret_key [] there, no_text_eq secret [] there') (refl, refl)
