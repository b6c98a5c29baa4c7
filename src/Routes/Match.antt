-- ===== src/Routes/Match.antt =====
-- When a path is protected in each of the three modes of main.go.
use captcha_protect.Base.{◌≡◌, refl, ◌↔◌, Bool, true, false, not, ◌&&◌, List, [], ◌∷◌, arith}
use captcha_protect.Base.{Text, IsPrefix, IsSuffix, any, Any, any_iff}
use captcha_protect.Base.{any_iff_by, starts_with_iff, ends_with_iff}
use captcha_protect.Config.{Config}
use captcha_protect.Routes.{protected_loop, is_extension_protected, clean_path, Regexp}
use captcha_protect.Routes.{route_is_protected_prefix, route_is_protected_suffix}
use captcha_protect.Routes.{route_is_protected_regex}

module _ {ℓ} {R : Type ℓ} (matches : R → Bool) (excluded extension : Bool) where
  -- The order of the routes does not matter: the exclusion does not depend on the route.
  pub protected_loop_eq :
      (routes : List R)
      → protected_loop matches excluded extension routes
        ≡ (any matches routes && (not excluded && extension))
  unfolding protected_loop any
  protected_loop_eq [] = refl
  protected_loop_eq (_ ∷ routes) = ground (arith, protected_loop_eq routes)

-- A path is protected by rules for routes and exclusions.
abbrev Protected : Type 0 → Type 0 → Bool → Type 0
Protected Matched Excluded extension = Matched × (¬ Excluded) × (extension ≡ true)

and-Protected :
    {Matched Excluded : Type 0} (m x e : Bool)
    → (m ≡ true) ↔ Matched
    → (x ≡ true) ↔ Excluded
    → ((m && (not x && e)) ≡ true) ↔ Protected Matched Excluded e
and-Protected true true e hm hx = (λ h. ground arith, λ h. absurd (h.1 (hx.0 refl)))
and-Protected true false e hm hx = (λ h. (hm.0 refl, (λ x. ground (arith, hx.1 x)), h), λ h. h.2)
and-Protected false x e hm hx = (λ h. ground arith, λ h. ground (arith, hm.1 h.0))

-- In prefix mode a path is protected exactly when some protected route is a prefix of it, no
-- excluded route is one, and its extension is protected.
pub route_is_protected_prefix_iff :
    (c : Config) (path : Text)
    → (route_is_protected_prefix c path ≡ true) ↔ (
        Any (λ route. IsPrefix route path) c.protect_routes
        × (¬ Any (λ route. IsPrefix route path) c.exclude_routes)
        × (is_extension_protected c path ≡ true))
unfolding route_is_protected_prefix
route_is_protected_prefix_iff c path = rw protected_loop_eq (
    and-Protected _ _ _ (any_iff_by _ _ c.protect_routes (starts_with_iff path))
      (any_iff_by _ _ c.exclude_routes (starts_with_iff path)))

-- In suffix mode a path is protected exactly when, without its extension, it ends in some
-- protected route and begins with no excluded route, and its extension is protected.
pub route_is_protected_suffix_iff :
    (c : Config) (path : Text)
    → (route_is_protected_suffix c path ≡ true) ↔ (
        Any (λ route. IsSuffix route (clean_path path)) c.protect_routes
        × (¬ Any (λ route. IsPrefix route (clean_path path)) c.exclude_routes)
        × (is_extension_protected c path ≡ true))
unfolding route_is_protected_suffix
route_is_protected_suffix_iff c path = rw protected_loop_eq (
    and-Protected _ _ _ (any_iff_by _ _ c.protect_routes (ends_with_iff (clean_path path)))
      (any_iff_by _ _ c.exclude_routes (starts_with_iff (clean_path path))))

-- In regex mode a path is protected exactly when some protected expression matches it, no
-- excluded one does, and its extension is protected.
pub route_is_protected_regex_iff :
    (c : Config) (protect exclude : List Regexp) (path : Text)
    → (route_is_protected_regex c protect exclude path ≡ true) ↔ (
        Any (λ (r : Regexp). r path ≡ true) protect
        × (¬ Any (λ (r : Regexp). r path ≡ true) exclude)
        × (is_extension_protected c path ≡ true))
unfolding route_is_protected_regex
route_is_protected_regex_iff c protect exclude path =
    rw protected_loop_eq (and-Protected _ _ _ (any_iff _ protect) (any_iff _ exclude))
