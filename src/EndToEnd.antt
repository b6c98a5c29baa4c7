-- ===== src/EndToEnd.antt =====
-- The driver of the end-to-end test, ci/cap/main.go: what it uses of Docker, the network, the clock
-- and the disk, how its steps follow one another, `envOr` and `fatal`.
pub mod Configs
pub mod Helpers
pub mod Checks
pub mod Waiting
pub mod Quiet
pub mod Leaving
pub mod Passed
use captcha_protect.Base.{
  ℕ, ◌+◌, ◌-◌, ◌*◌, ◌/◌, ◌%◌, ◌≤◌, Bool, true, false, not, List, [], ◌∷◌, ◌++◌, Option, none, some,
  Text, codes, text_eq, ltb, ◌==◌, if◌then◌else◌, Result, ok, err,
}
use captcha_protect.Encoding.{marshal_string}

-- Why the driver ends before its end: `fatal`, with its message, or a loop without a turn left, which
-- never happens.
pub data Failure : Type 0 where
  exit : Text → Failure
  spun : Failure

pub record Call : Type 0 where
  pub method : Text
  pub target : Text
  pub header : List (Text × Text)
  pub content : Text

-- The body is `none` where reading it fails.
pub record Answer : Type 0 where
  pub status : ℕ
  pub header : Text → Text
  pub body : Option Text

-- An `http.Client`: its timeout, none for 0, and whether it follows redirects.
pub record Client : Type 0 where
  pub timeout : ℕ
  pub follows : Bool

-- What the driver asks of the world: the clock; commands of Docker, which succeed or not, with their
-- output; requests; and the disk, where a write that fails leaves a part of the text.
pub record Outer : Type 1 where
  pub W : Type 0
  pub now : W → ℕ
  pub sleep : ℕ → W → W
  pub docker : List Text → W → (Bool × Text) × W
  pub is_url : Text → Bool
  pub send : Client → Call → W → Option Answer × W
  pub mkdir_all : W → Bool × W
  pub write_file : Text → W → Option Text × W
  pub rename : W → Bool × W

-- The clock never goes back, and a sleep takes its time.
pub record IsClocked (O : Outer) : Type 0 where
  pub slept : (d : ℕ) (w : O.W) → O.now w + d ≤ O.now (O.sleep d w)
  pub ran : (args : List Text) (w : O.W) → O.now w ≤ O.now (O.docker args w).1
  pub sent : (c : Client) (call : Call) (w : O.W) → O.now w ≤ O.now (O.send c call w).1
  pub made : (w : O.W) → O.now w ≤ O.now (O.mkdir_all w).1
  pub wrote : (text : Text) (w : O.W) → O.now w ≤ O.now (O.write_file text w).1
  pub moved : (w : O.W) → O.now w ≤ O.now (O.rename w).1

-- The world, with the files dynamic.yml.tmp and dynamic.yml of the directory that Traefik reads.
pub record Driver (O : Outer) : Type 0 where
  pub world : O.W
  pub tmp : Option Text
  pub dynamic : Option Text

abbrev pub Run : Outer → Type 0 → Type 0
Run O A = Driver O → Result Failure A × Driver O

infixl 5 ◌>>=◌ ◌>>◌
abbrev pub next :
    {O : Outer} {A B : Type 0}
    → Result Failure A × Driver O
    → (A → Run O B)
    → Result Failure B × Driver O
next (ok a, s) f = f a s
next (err e, s) f = (err e, s)

abbrev pub ◌>>=◌ : {O : Outer} {A B : Type 0} → Run O A → (A → Run O B) → Run O B
◌>>=◌ m f s = next (m s) f

abbrev pub ◌>>◌ : {O : Outer} {A B : Type 0} → Run O A → Run O B → Run O B
m >> k = m >>= λ _. k

abbrev pub pure : {O : Outer} {A : Type 0} → A → Run O A
pure a s = (ok a, s)

abbrev pub fatal : {O : Outer} {A : Type 0} → Text → Run O A
fatal message s = (err (exit message), s)

-- It goes on if a test holds, or with a value that is there.
unfoldable pub ensure : {O : Outer} → Bool → Text → Run O (Unit {0})
ensure true message = pure tt
ensure false message = fatal message

unfoldable pub expect : {O : Outer} {A : Type 0} → Option A → Text → Run O A
expect (some a) message = pure a
expect none message = fatal message

-- A call that changes the world.
abbrev pub outside : {O : Outer} {A : Type 0} → (O.W → A × O.W) → Run O A
outside f s = let (a, w) = f s.world in (ok a, record s { world = w })

-- `json.Marshal` of a map of texts, with its keys in order.
unfoldable pub marshal_entries : List (Text × Text) → Text
marshal_entries [] = []
marshal_entries ((k, v) ∷ []) = marshal_string k ++ (codes ":" ++ marshal_string v)
marshal_entries ((k, v) ∷ e ∷ es) =
    marshal_string k ++ (codes ":" ++ (marshal_string v ++ (codes "," ++ marshal_entries (e ∷ es))))

unfoldable pub marshal_map : List (Text × Text) → Text
marshal_map entries = codes "{" ++ (marshal_entries entries ++ codes "}")

-- `url.Values.Encode`, with the keys in order.
unfoldable pub encode_form : (Text → Text) → List (Text × Text) → Text
encode_form query_escape [] = []
encode_form query_escape ((k, v) ∷ []) = query_escape k ++ (codes "=" ++ query_escape v)
encode_form query_escape ((k, v) ∷ e ∷ es) =
    query_escape k
    ++ (codes "=" ++ (query_escape v ++ (codes "&" ++ encode_form query_escape (e ∷ es))))

-- `base64.StdEncoding.EncodeToString`: three bytes are four digits, and `=` fills up.
abbrev pub base64_digit : ℕ → ℕ
base64_digit n =
    if ltb n 26
    then n + 65
    else if ltb n 52
    then n + 71
    else if ltb n 62
    then n - 4
    else if n == 62
    then b'+'
    else b'/'

unfoldable pub base64 : Text → Text
base64 [] = []
base64 (a ∷ []) = base64_digit (a / 4) ∷ base64_digit (a % 4 * 16) ∷ codes "=="
base64 (a ∷ b ∷ []) =
    base64_digit (a / 4)
    ∷ base64_digit (a % 4 * 16 + b / 16)
    ∷ base64_digit (b % 16 * 4)
    ∷ codes "="
base64 (a ∷ b ∷ c ∷ t) =
    base64_digit (a / 4)
    ∷ base64_digit (a % 4 * 16 + b / 16)
    ∷ base64_digit (b % 16 * 4 + c / 64)
    ∷ base64_digit (c % 64)
    ∷ base64 t

-- `envOr`, with the environment as a function.
unfoldable pub env_or : (Text → Text) → Text → Text → Text
env_or getenv key fallback = if not (text_eq (getenv key) []) then getenv key else fallback
