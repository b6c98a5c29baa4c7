-- ===== src/Routes/Agents.antt =====
-- Which user agents are exempt.
use captcha_protect.Base.{◌≡◌, ◌↔◌, true, Text, to_lower, IsInfix, Any, any_iff_by}
use captcha_protect.Base.{contains_text_iff}
use captcha_protect.Config.{Config}
use captcha_protect.Routes.{is_good_user_agent}

-- A user agent is exempt exactly when, in lower case, it has some configured text inside.
pub is_good_user_agent_iff :
    (c : Config) (ua : Text)
    → (is_good_user_agent c ua ≡ true)
      ↔ Any (λ name. IsInfix name (to_lower ua)) c.exempt_user_agents
unfolding is_good_user_agent
is_good_user_agent_iff c ua = any_iff_by _ _ c.exempt_user_agents (contains_text_iff (to_lower ua))
