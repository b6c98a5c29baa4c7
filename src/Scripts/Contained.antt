-- ===== src/Scripts/Contained.antt =====
-- The configured URL stays within its literal in the script of Cap.
use captcha_protect.Base.{◌≡◌, ◌++◌, true, some, Text, codes, All}
use captcha_protect.Encoding.{valid_string, marshal_string}
use captcha_protect.Encoding.Reading.{read_string-marshal_string}
use captcha_protect.Encoding.Harmless.{IsHarmless, marshal_string-IsHarmless}
use captcha_protect.Persist.Reader.{◌>>=◌, expect, read_string}
use captcha_protect.Persist.Entries.{expect-append}
use captcha_protect.Scripts.{get_cap_js, cap_js_begin, cap_js_body}

-- Whatever URL of valid UTF-8 is configured, it cannot break out of the script of Cap: the literal
-- after the fixed beginning is read as the URL and ends where the fixed rest begins, and it has no
-- control character and none of `<`, `>` and `&`.
pub get_cap_js_contained :
    (cap_url : Text)
    → valid_string cap_url ≡ true
    → ((expect cap_js_begin (get_cap_js cap_url) >>= read_string)
        ≡ some (cap_url, codes ";\n" ++ cap_js_body))
      × All IsHarmless (marshal_string cap_url)
unfolding get_cap_js
get_cap_js_contained cap_url ok = (
  rw (expect-append cap_js_begin (marshal_string cap_url ++ (codes ";\n" ++ cap_js_body)))
      (read_string-marshal_string (codes ";\n" ++ cap_js_body) cap_url ok),
  marshal_string-IsHarmless cap_url,
)
