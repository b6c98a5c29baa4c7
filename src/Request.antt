-- ===== src/Request.antt =====
-- The parts of an `http.Request` that the middleware reads. Each stands for a call of the
-- standard library on the request: `Header.Get`, `Cookie`, `FormValue`, `URL.Query`.
use captcha_protect.Base.{Bool, List, Text, codes, Option}

pub record Request : Type 0 where
  pub method : Text
  pub url_path : Text
  pub url_query : List (Text × Text)  -- URL.Query(), flattened in the order of the keys
  pub url_host : Text
  pub host : Text
  pub request_uri : Text
  pub remote_addr : Text
  pub tls : Bool  -- TLS is not nil
  pub header : Text → Text
  pub cookie : Text → Option Text
  pub form_value : Text → Text

-- `UserAgent()`
abbrev pub user_agent : Request → Text
user_agent r = r.header (codes "User-Agent")
