-- ===== src/Routes/Extension.antt =====
-- What `filepath.Ext` finds, and which extensions are protected.
use captcha_protect.Base.{ℕ, ◌≡◌, refl, ◌∙◌, ◌↔◌, ◌⊎◌, ◌≢◌, true, arith}
use captcha_protect.Base.{[], ◌∷◌, ◌++◌, reverse, All, Text, codes, text_eq_iff}
use captcha_protect.Base.{All-reverse, if_if_iff, Any, any_iff_by, to_lower, trim_prefix}
use mathlib.Core.List.{reverse-append, reverse-reverse, reverse-cons, append_assoc, append-nil}
use captcha_protect.Config.{Config}
use captcha_protect.Routes.{ext_loop, file_ext, equal_fold, is_extension_protected}

-- A byte of an extension: neither a dot nor a slash.
abbrev IsExtByte : ℕ → Type 0
IsExtByte c = (c ≢ b'.') × (c ≢ b'/')

-- Over bytes of an extension the loop only gathers them.
ext_loop-skip :
    (bytes before found : Text)
    → All IsExtByte bytes
    → ext_loop (bytes ++ before) found ≡ ext_loop before (reverse bytes ++ found)
unfolding ext_loop
ext_loop-skip [] before found h = refl
ext_loop-skip (c ∷ bytes) before found ((dot, slash), h) =
    rw (reverse-cons, append_assoc) (ground (arith, ext_loop-skip bytes before (c ∷ found) h))

-- The extension of a path that ends in a dot and bytes of an extension.
file_ext_dot : (stem e : Text) → All IsExtByte e → file_ext (stem ++ (b'.' ∷ e)) ≡ b'.' ∷ e
unfolding file_ext
file_ext_dot stem e h =
    rw (reverse-append, reverse-cons, append_assoc)
      (ext_loop-skip (reverse e) (b'.' ∷ reverse stem) [] (All-reverse IsExtByte e h)
        ∙ rw (reverse-reverse, append-nil) refl)

-- A path with an extension, in which there is neither a dot nor a slash, is protected exactly when
-- all extensions are, or the extension is empty, or the list names it in some mixture of cases.
pub is_extension_protected_iff :
    (c : Config) (stem e : Text)
    → All IsExtByte e
    → (is_extension_protected c (stem ++ (b'.' ∷ e)) ≡ true) ↔ (
        (c.protect_all_extensions ≡ codes "true")
        ⊎ (e ≡ [])
        ⊎ Any (λ name. to_lower e ≡ to_lower name) c.protect_file_extensions)
unfolding is_extension_protected trim_prefix equal_fold
is_extension_protected_iff c stem e h = rw (file_ext_dot stem e h) (
    if_if_iff _ _ _ (text_eq_iff _ _) (text_eq_iff e [])
      (any_iff_by _ _ c.protect_file_extensions (λ name. text_eq_iff (to_lower e) (to_lower name))))
