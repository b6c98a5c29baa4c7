-- ===== src/Routes.antt =====
-- Which paths and user agents the middleware protects: `isExtensionProtected`,
-- `RouteIsProtectedPrefix`, `RouteIsProtectedSuffix`, `RouteIsProtectedRegex` and
-- `isGoodUserAgent` of main.go. A compiled regular expression is its match function.
pub mod Match
pub mod Extension
pub mod Agents
use captcha_protect.Base.{ℕ, Bool, true, false, not, ◌||◌, List, [], ◌∷◌, reverse, any}
use captcha_protect.Base.{Text, codes, text_eq, starts_with, ends_with, contains_text, to_lower}
use captcha_protect.Base.{trim_suffix, trim_prefix, if◌then◌else◌, ◌==◌}
use captcha_protect.Config.{Config}

-- The loop of `filepath.Ext`, from the last byte back to a dot or a slash.
ext_loop : Text → Text → Text
ext_loop [] found = []
ext_loop (c ∷ before) found =
    let rest = ext_loop before (c ∷ found) in
    if c == b'/' then [] else if c == b'.' then c ∷ found else rest

unfoldable pub file_ext : Text → Text
unfolding ext_loop
file_ext path = ext_loop (reverse path) []

-- `strings.EqualFold`, on ASCII text.
unfoldable pub equal_fold : Text → Text → Bool
equal_fold s t = text_eq (to_lower s) (to_lower t)

unfoldable pub is_extension_protected : Config → Text → Bool
is_extension_protected c path =
    if text_eq c.protect_all_extensions (codes "true")
    then true
    else (let ext = trim_prefix (file_ext path) (codes ".") in
        if text_eq ext [] then true else any (equal_fold ext) c.protect_file_extensions)

-- The loop that the three modes share: a route that does not match, or whose path is excluded,
-- is passed over; the first other one returns the test of the extension.
module _ {ℓ} {R : Type ℓ} (matches : R → Bool) (excluded extension : Bool) where
  pub protected_loop : List R → Bool
  protected_loop [] = false
  protected_loop (route ∷ routes) =
      let rest = protected_loop routes in
      if not (matches route) then rest else if excluded then rest else extension

unfoldable pub route_is_protected_prefix : Config → Text → Bool
unfolding protected_loop
route_is_protected_prefix c path =
    protected_loop (starts_with path) (any (starts_with path) c.exclude_routes)
      (is_extension_protected c path) c.protect_routes

-- The path without its extension.
unfoldable pub clean_path : Text → Text
clean_path path =
    let ext = file_ext path in if not (text_eq ext []) then trim_suffix path ext else path

unfoldable pub route_is_protected_suffix : Config → Text → Bool
unfolding protected_loop
route_is_protected_suffix c path =
    protected_loop (ends_with (clean_path path))
      (any (starts_with (clean_path path)) c.exclude_routes) (is_extension_protected c path)
      c.protect_routes

abbrev pub Regexp : Type 0
Regexp = Text → Bool

unfoldable pub route_is_protected_regex : Config → List Regexp → List Regexp → Text → Bool
unfolding protected_loop
route_is_protected_regex c protect_routes_regex exclude_routes_regex path =
    protected_loop (λ (r : Regexp). r path) (any (λ (r : Regexp). r path) exclude_routes_regex)
      (is_extension_protected c path) protect_routes_regex

-- The configured substrings are in lower case already (`NewCaptchaProtect` lowers them).
unfoldable pub is_good_user_agent : Config → Text → Bool
is_good_user_agent c ua = any (contains_text (to_lower ua)) c.exempt_user_agents
