-- ===== src/Scripts.antt =====
-- The scripts that are served, and the default template: `GetCapJS` of internal/helper/cap.go,
-- `GetPojJS` of internal/helper/poj.go and `GetDefaultTmpl` of internal/helper/tmpl.go.
pub mod Contained
use captcha_protect.Base.{Text, List, [], ◌∷◌, ◌++◌, codes}
use captcha_protect.Encoding.{marshal_string}

-- Lines, with a line break between each two.
unfoldable pub join_lines : List Text → Text
join_lines [] = []
join_lines (l ∷ []) = l
join_lines (l ∷ k ∷ ls) = l ++ (10 ∷ join_lines (k ∷ ls))

unfoldable pub cap_js_body : Text
unfolding join_lines
cap_js_body = join_lines (
    codes ""
    ∷ codes "    if (!window.CAP_CUSTOM_WASM_URL) {"
    ∷ codes "        window.CAP_CUSTOM_WASM_URL = CAP_URL + \"/assets/cap_wasm_bg.wasm\";"
    ∷ codes "    }"
    ∷ codes ""
    ∷ codes "    function initCap() {"
    ∷ codes "        var box = document.querySelector(\"[data-callback]\");"
    ∷ codes "        var form = document.getElementById(\"captcha-form\");"
    ∷ codes "        if (!box || !form) {"
    ∷ codes "            console.error(\"Cap: captcha div or form not found\");"
    ∷ codes "            return;"
    ∷ codes "        }"
    ∷ codes ""
    ∷ codes "        var callback = window[box.getAttribute(\"data-callback\")];"
    ∷ codes "        var siteKey = box.getAttribute(\"data-sitekey\");"
    ∷ codes "        if (typeof callback !== \"function\" || !siteKey) {"
    ∷ codes "            console.error(\"Cap: missing callback or site key\");"
    ∷ codes "            return;"
    ∷ codes "        }"
    ∷ codes ""
    ∷ codes "        var input = form.querySelector('input[name=\"cap-response\"]');"
    ∷ codes "        if (!input) {"
    ∷ codes "            input = document.createElement(\"input\");"
    ∷ codes "            input.type = \"hidden\";"
    ∷ codes "            input.name = \"cap-response\";"
    ∷ codes "            form.appendChild(input);"
    ∷ codes "        }"
    ∷ codes ""
    ∷ codes
        "        // Like Turnstile's data-execution: \"render\" (default) solves as soon as the widget"
    ∷ codes "        // loads, \"execute\" waits for the visitor to click it."
    ∷ codes "        var autoSolve = box.getAttribute(\"data-execution\") !== \"execute\";"
    ∷ codes
        "        // Cap never needs interaction, so interaction-only means the widget is never shown."
    ∷ codes "        var hidden = box.getAttribute(\"data-appearance\") === \"interaction-only\";"
    ∷ codes "        if (hidden && !autoSolve) {"
    ∷ codes
        "            console.warn('Cap: data-execution=\"execute\" needs a visible widget; ignoring data-appearance=\"interaction-only\"');"
    ∷ codes "            hidden = false;"
    ∷ codes "        }"
    ∷ codes ""
    ∷ codes "        var widget = document.createElement(\"cap-widget\");"
    ∷ codes
        "        widget.setAttribute(\"data-cap-api-endpoint\", CAP_URL + \"/\" + encodeURIComponent(siteKey) + \"/\");"
    ∷ codes "        if (hidden) {"
    ∷ codes "            widget.style.display = \"none\";"
    ∷ codes "        }"
    ∷ codes "        widget.addEventListener(\"solve\", function(e) {"
    ∷ codes "            input.value = e.detail.token;"
    ∷ codes "            callback(e.detail.token);"
    ∷ codes "        });"
    ∷ codes "        widget.addEventListener(\"error\", function() {"
    ∷ codes "            // Let the visitor retry by clicking the widget."
    ∷ codes "            widget.style.display = \"\";"
    ∷ codes "        });"
    ∷ codes "        box.appendChild(widget);"
    ∷ codes ""
    ∷ codes "        var script = document.createElement(\"script\");"
    ∷ codes "        script.src = CAP_URL + \"/assets/widget.js\";"
    ∷ codes "        script.onload = function() {"
    ∷ codes "            if (!autoSolve) {"
    ∷ codes "                // the widget's own checkbox starts the challenge"
    ∷ codes "                return;"
    ∷ codes "            }"
    ∷ codes "            customElements.whenDefined(\"cap-widget\").then(function() {"
    ∷ codes "                return widget.solve();"
    ∷ codes "            }).catch(function(e) {"
    ∷ codes "                console.error(\"Cap: solve failed\", e);"
    ∷ codes "            });"
    ∷ codes "        };"
    ∷ codes "        script.onerror = function() {"
    ∷ codes
        "            box.textContent = \"Unable to load the verification widget. Please try again later.\";"
    ∷ codes "            console.error(\"Cap: failed to load \" + script.src);"
    ∷ codes "        };"
    ∷ codes "        document.head.appendChild(script);"
    ∷ codes "    }"
    ∷ codes ""
    ∷ codes "    if (document.readyState === \"loading\") {"
    ∷ codes "        document.addEventListener(\"DOMContentLoaded\", initCap);"
    ∷ codes "    } else {"
    ∷ codes "        initCap();"
    ∷ codes "    }"
    ∷ codes "})();"
    ∷ [])

-- What comes before the URL in the script of Cap.
abbrev pub cap_js_begin : Text
cap_js_begin = codes "// Cap adapter for captcha-protect\n(function() {\n    var CAP_URL = "

unfoldable pub get_cap_js : Text → Text
get_cap_js cap_url = cap_js_begin ++ (marshal_string cap_url ++ (codes ";\n" ++ cap_js_body))

unfoldable pub get_poj_js : Text
unfolding join_lines
get_poj_js = join_lines (
    codes "// Proof of Javascript CAPTCHA"
    ∷ codes "(function() {"
    ∷ codes "    function initPoJ() {"
    ∷ codes "        var captchaDiv = document.querySelector('[data-callback]');"
    ∷ codes "        if (!captchaDiv) {"
    ∷ codes "            console.error('PoW: captcha div not found');"
    ∷ codes "            return;"
    ∷ codes "        }"
    ∷ codes ""
    ∷ codes "        var callbackName = captchaDiv.getAttribute('data-callback');"
    ∷ codes ""
    ∷ codes "        if (!callbackName || typeof window[callbackName] !== 'function') {"
    ∷ codes "            console.error('PoW: missing callback or challenge');"
    ∷ codes "            return;"
    ∷ codes "        }"
    ∷ codes "        var form = document.getElementById(\"captcha-form\");"
    ∷ codes "        var captchaDiv = document.querySelector('[data-callback]');"
    ∷ codes "        var frontendKey = captchaDiv.className;"
    ∷ codes ""
    ∷ codes "        // Create hidden input for the token if it doesn't exist"
    ∷ codes "        var inputName = frontendKey + \"-response\";"
    ∷ codes "        var existingInput = form.querySelector('input[name=\"' + inputName + '\"]');"
    ∷ codes "        if (!existingInput) {"
    ∷ codes "            var input = document.createElement(\"input\");"
    ∷ codes "            input.type = \"hidden\";"
    ∷ codes "            input.name = inputName;"
    ∷ codes "            input.value = \"foo\";"
    ∷ codes "            form.appendChild(input);"
    ∷ codes "        }"
    ∷ codes "        window[callbackName](\"foo\");"
    ∷ codes "    }"
    ∷ codes ""
    ∷ codes "    if (document.readyState === 'loading') {"
    ∷ codes "        document.addEventListener('DOMContentLoaded', initPoJ);"
    ∷ codes "    } else {"
    ∷ codes "        initPoJ();"
    ∷ codes "    }"
    ∷ codes "})();"
    ∷ [])

unfoldable pub get_default_tmpl : Text
unfolding join_lines
get_default_tmpl = join_lines (
    codes "<html>"
    ∷ codes "  <head>"
    ∷ codes "    <title>Verifying connection</title>"
    ∷ codes
        "    <script src=\"{{ .FrontendJS }}\" async defer referrerpolicy=\"no-referrer\"></script>"
    ∷ codes "  </head>"
    ∷ codes "  <body>"
    ∷ codes "    <h1>Verifying connection</h1>"
    ∷ codes "    <p>One moment while we verify your network connection.</p>"
    ∷ codes
        "    <form action=\"{{ .ChallengeURL }}\" method=\"post\" id=\"captcha-form\" accept-charset=\"UTF-8\">"
    ∷ codes "        <div"
    ∷ codes "            data-callback=\"captchaCallback\""
    ∷ codes "            class=\"{{ .FrontendKey }}\""
    ∷ codes "            data-sitekey=\"{{ .SiteKey }}\""
    ∷ codes "            data-theme=\"auto\""
    ∷ codes "            data-size=\"normal\""
    ∷ codes "            data-language=\"auto\""
    ∷ codes "            data-retry=\"auto\""
    ∷ codes "            interval=\"8000\""
    ∷ codes "            data-appearance=\"always\">"
    ∷ codes "        </div>"
    ∷ codes "        <input type=\"hidden\" name=\"destination\" value=\"{{ .Destination }}\">"
    ∷ codes "    </form>"
    ∷ codes "    <script type=\"text/javascript\">"
    ∷ codes "        function captchaCallback(token) {"
    ∷ codes "            setTimeout(function() {"
    ∷ codes "                document.getElementById(\"captcha-form\").submit();"
    ∷ codes "            }, 1000);"
    ∷ codes "        }"
    ∷ codes "    </script>"
    ∷ codes "  </body>"
    ∷ codes "</html>"
    ∷ [])
