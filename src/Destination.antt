-- ===== src/Destination.antt =====
-- Where a visitor is sent after a challenge: `normalizeDestination` and `sanitizeDestination` of
-- main.go. `url.Parse` with the methods of its result, and `url.PathUnescape`, are parameters;
-- `none` is a text that they refuse.
pub mod Local
use captcha_protect.Base.{
  ℕ, Bool, true, false, not, ◌&&◌, ◌||◌, List, [], ◌∷◌, Option, none, some, Text, codes,
}
use captcha_protect.Base.{text_eq, starts_with, if◌then◌else◌}

-- A parsed URL: `Scheme`, `Host`, `Path`, `RawQuery`, `Fragment`, and what `RequestURI()` gives.
pub record Url : Type 0 where
  pub scheme : Text
  pub url_host : Text
  pub path : Text
  pub raw_query : Text
  pub fragment : Text
  pub request_uri : Text

-- `IsAbs`
abbrev pub is_abs : Url → Bool
is_abs u = not (text_eq u.scheme [])

module _ (parse_url : Text → Option Url) where
  unfoldable pub sanitize_destination : Text → Text
  sanitize_destination destination =
      if text_eq destination [] then codes "/" else elim (parse_url destination) [
        | none ↦ codes "/"
        | some u ↦
            if is_abs u || not (text_eq u.url_host [])
            then codes "/"
            else if not (starts_with u.path (codes "/"))
            then codes "/"
            else u.request_uri
      ]

module _ (parse_url : Text → Option Url) (path_unescape : Text → Option Text) where
  -- The last step of `normalizeDestination`, for a destination that unescapes to another text.
  unescaped_destination : Text → Text → Text
  unescaped_destination destination unescaped =
      let sanitized = sanitize_destination parse_url unescaped in
      if not (text_eq sanitized (codes "/")) || text_eq unescaped (codes "/")
      then sanitized
      else sanitize_destination parse_url destination

  unfoldable pub normalize_destination : Text → Text
  unfolding unescaped_destination sanitize_destination
  normalize_destination destination =
      if text_eq destination [] then codes "/" else elim (path_unescape destination) [
        | none ↦ sanitize_destination parse_url destination
        | some unescaped ↦
            if not (text_eq unescaped destination)
            then unescaped_destination destination unescaped
            else sanitize_destination parse_url destination
      ]
