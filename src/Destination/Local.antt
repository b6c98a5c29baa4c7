-- ===== src/Destination/Local.antt =====
-- A visitor is never sent to another site.
use captcha_protect.Base.{◌≡◌, ◌≢◌, refl, ◌⊎◌, inl, inr, [], Option, some, Text, codes, text_eq}
use captcha_protect.Base.{
  text_eq_iff, starts_with, starts_with_iff, IsPrefix, arith, Bool-cases, Option-cases,
  text_eq_refl, if_both, if◌then◌else◌, not, ◌||◌,
}
use captcha_protect.Destination.{
  Url, is_abs, sanitize_destination, normalize_destination, unescaped_destination,
}

module _ (parse_url : Text → Option Url) where
  -- The root, or the path and query of a URL that some text parses to, with no scheme, no host
  -- and a path that begins with a slash.
  abbrev pub IsLocal : Text → Type 0
  IsLocal t =
      (t ≡ codes "/")
      ⊎ ((source : Text) × (u : Url) × (parse_url source ≡ some u)
          × (u.scheme ≡ [])
          × (u.url_host ≡ [])
          × IsPrefix (codes "/") u.path
          × (t ≡ u.request_uri))

  IsLocal-url :
      (source : Text) (u : Url)
      → parse_url source ≡ some u
      → IsLocal (
          if is_abs u || not (text_eq u.url_host [])
          then codes "/"
          else (if not (starts_with u.path (codes "/")) then codes "/" else u.request_uri))
  IsLocal-url source u parsed = elim (Bool-cases (is_abs u || not (text_eq u.url_host []))) [
    | inl away ↦ rw away (inl refl)
    | inr here ↦ elim (Bool-cases (starts_with u.path (codes "/"))) [
      | inr bare ↦ rw (here, bare) (inl refl)
      | inl rooted ↦
          rw (here, rooted)
            (inr (
              source,
              u,
              parsed,
              ground (arith, text_eq_iff u.scheme [], text_eq_iff u.url_host []),
              ground (arith, text_eq_iff u.scheme [], text_eq_iff u.url_host []),
              (starts_with_iff u.path (codes "/")).0 rooted,
              refl,
            ))
    ]
  ]

  sanitize-IsLocal : (t : Text) → IsLocal (sanitize_destination parse_url t)
  unfolding sanitize_destination
  sanitize-IsLocal t = elim (Bool-cases (text_eq t [])) [
    | inl e ↦ rw e (inl refl)
    | inr e ↦ elim (Option-cases (parse_url t)) [
      | inl bad ↦ rw (e, bad) (inl refl)
      | inr (u, parsed) ↦ rw (e, parsed) (IsLocal-url t u parsed)
    ]
  ]

module _ (parse_url : Text → Option Url) (path_unescape : Text → Option Text) where
  unescaped_destination-IsLocal :
      (t u : Text) → IsLocal parse_url (unescaped_destination parse_url path_unescape t u)
  unfolding unescaped_destination
  unescaped_destination-IsLocal t u =
      if_both (IsLocal parse_url) _ (sanitize-IsLocal parse_url u) (sanitize-IsLocal parse_url t)

  -- Whatever a visitor asks for, the destination after a challenge is the root, or the path and
  -- query of a URL with no scheme, no host and a path that begins with a slash.
  pub normalize_destination-IsLocal :
      (t : Text) → IsLocal parse_url (normalize_destination parse_url path_unescape t)
  unfolding normalize_destination
  normalize_destination-IsLocal t = elim (Bool-cases (text_eq t [])) [
    | inl e ↦ rw e (inl refl)
    | inr e ↦ elim (Option-cases (path_unescape t)) [
      | inl bad ↦ rw (e, bad) (sanitize-IsLocal parse_url t)
      | inr (u, good) ↦
          rw (e, good)
            (if_both (IsLocal parse_url) _ (unescaped_destination-IsLocal t u)
              (sanitize-IsLocal parse_url t))
    ]
  ]

  -- A destination on this site, with a path that begins with a slash and nothing left to unescape,
  -- is kept as the path and query of its URL.
  pub normalize_destination_kept :
      (t : Text) (u : Url)
      → t ≢ []
      → path_unescape t ≡ some t
      → parse_url t ≡ some u
      → u.scheme ≡ []
      → u.url_host ≡ []
      → IsPrefix (codes "/") u.path
      → normalize_destination parse_url path_unescape t ≡ u.request_uri
  unfolding normalize_destination
  normalize_destination_kept t u given same parsed no_scheme no_host rooted =
      let root = (starts_with_iff u.path (codes "/")).1 rooted in
      rw (same, parsed, root, text_eq_refl t)
        (ground (arith, text_eq_iff t [], text_eq_iff u.scheme [], text_eq_iff u.url_host []))
