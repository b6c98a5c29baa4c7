-- ===== src/ClientIp/Forwarded.antt =====
-- Which component of the forwarded header is taken for the client.
use captcha_protect.Base.{ℕ, zero, suc, ◌<◌, ◌≡◌, refl, ◌≢◌, sym, ◌∙◌, Bool, true, not}
use captcha_protect.Base.{
  List, [], ◌∷◌, ◌++◌, reverse, map, length, arith, Text, text_eq, trim_space,
}
use captcha_protect.Base.{
  split, split-append, if◌then◌else◌, filter_by, filter_by-append, Bool-cases, inl, inr, u64_mod,
  text_eq_iff,
}
use mathlib.Core.List.{reverse-append, map-append}
use captcha_protect.Net.{IpNet}
use captcha_protect.Config.{Config}
use captcha_protect.Request.{Request}
use captcha_protect.ClientIp.{is_ip_excluded, forwarded_loop, strip_port, get_client_ip}

-- The text at a position, or the empty one.
abbrev pub text_at : List Text → ℕ → Text
text_at [] i = []
text_at (t ∷ ts) zero = t
text_at (t ∷ ts) (suc i) = text_at ts i

-- The addresses of the header that are not exempt, from the last one.
abbrev pub candidates : (Text → Bool) → Text → List Text
candidates excluded value =
    filter_by (λ a. not (excluded a)) (map trim_space (reverse (split b',' value)))

pub forwarded_loop_eq :
    (excluded : Text → Bool) (components : List Text) (depth : ℕ)
    → depth < u64_mod
    → forwarded_loop excluded components depth
      ≡ text_at (filter_by (λ a. not (excluded a)) (map trim_space components)) depth
unfolding forwarded_loop filter_by
forwarded_loop_eq excluded [] depth h = refl
forwarded_loop_eq excluded (c ∷ components) zero h =
    ground (arith, forwarded_loop_eq excluded components zero)
forwarded_loop_eq excluded (c ∷ components) (suc depth) h = ground (
  arith,
  forwarded_loop_eq excluded components (suc depth),
  forwarded_loop_eq excluded components depth,
)

text_at-append : (xs ys : List Text) (i : ℕ) → i < length xs → text_at (xs ++ ys) i ≡ text_at xs i
text_at-append [] ys i h = elim h [ ]
text_at-append (x ∷ xs) ys zero h = refl
text_at-append (x ∷ xs) ys (suc i) h = text_at-append xs ys i (omega arith)

candidates-append :
    (excluded : Text → Bool) (far near : Text)
    → candidates excluded (far ++ (b',' ∷ near))
      ≡ candidates excluded near ++ candidates excluded far
candidates-append excluded far near =
    rw (split-append, reverse-append, map-append, filter_by-append) refl

-- With a forwarded header that is configured and present, and a depth that is a 64-bit number, the
-- client is the address at that depth among the addresses of the header that are not exempt,
-- counted from the last, or the remote address if there is none so deep; a port is dropped.
pub get_client_ip_forwarded :
    (c : Config) (exempt_ips : List IpNet) (req : Request)
    → c.ip_depth < u64_mod
    → c.ip_forwarded_header ≢ []
    → req.header c.ip_forwarded_header ≢ []
    → let found =
        text_at
          (candidates (λ a. is_ip_excluded a exempt_ips) (req.header c.ip_forwarded_header))
          c.ip_depth in
      get_client_ip c exempt_ips req
      ≡ strip_port (if text_eq found [] then req.remote_addr else found)
unfolding get_client_ip
get_client_ip_forwarded c exempt_ips req word configured present = rw forwarded_loop_eq (
    ground (
      arith,
      text_eq_iff c.ip_forwarded_header [],
      text_eq_iff (req.header c.ip_forwarded_header) [],
      forwarded_loop_eq (λ a. is_ip_excluded a exempt_ips)
          (reverse (split b',' (req.header c.ip_forwarded_header))) c.ip_depth,
    ))

-- Without a configured header the client is the remote address.
get_client_ip_direct :
    (c : Config) (exempt_ips : List IpNet) (req : Request)
    → text_eq c.ip_forwarded_header [] ≡ true
    → get_client_ip c exempt_ips req ≡ strip_port req.remote_addr
unfolding get_client_ip
get_client_ip_direct c exempt_ips req off = rw off refl

append-ne-nil : (far : Text) (x : ℕ) (near : Text) → far ++ (x ∷ near) ≢ []
append-ne-nil [] x near e = cc
append-ne-nil (y ∷ far) x near e = cc

-- What a client puts in front of the trusted part of the header, with a comma after it, has no
-- influence: if that part is present and holds more addresses that are not exempt than the
-- configured depth, a 64-bit number, then it and the remote address decide alone.
pub get_client_ip-spoofed :
    (c : Config) (exempt_ips : List IpNet) (req spoofed : Request) (far : Text)
    → c.ip_depth < u64_mod
    → req.header c.ip_forwarded_header ≢ []
    → c.ip_depth
      < length (candidates (λ a. is_ip_excluded a exempt_ips) (req.header c.ip_forwarded_header))
    → spoofed.remote_addr ≡ req.remote_addr
    → spoofed.header c.ip_forwarded_header ≡ far ++ (b',' ∷ req.header c.ip_forwarded_header)
    → get_client_ip c exempt_ips spoofed ≡ get_client_ip c exempt_ips req
get_client_ip-spoofed c exempt_ips req spoofed far word present deep same_remote same_header =
    elim (Bool-cases (text_eq c.ip_forwarded_header [])) [
      | inl off ↦
          get_client_ip_direct c exempt_ips spoofed off
          ∙ rw same_remote (sym (get_client_ip_direct c exempt_ips req off))
      | inr on ↦
          let configured : c.ip_forwarded_header ≢ [] =
            λ e. ground (arith, text_eq_iff c.ip_forwarded_header []) in
          let there : spoofed.header c.ip_forwarded_header ≢ [] =
            λ e. append-ne-nil far b',' (req.header c.ip_forwarded_header) (sym same_header ∙ e) in
          let same : text_at
                (candidates (λ a. is_ip_excluded a exempt_ips)
                  (spoofed.header c.ip_forwarded_header))
                c.ip_depth
              ≡ text_at
                  (candidates (λ a. is_ip_excluded a exempt_ips) (req.header c.ip_forwarded_header))
                  c.ip_depth =
            rw
              (
                same_header,
                candidates-append (λ a. is_ip_excluded a exempt_ips) far
                    (req.header c.ip_forwarded_header),
              )
              (text_at-append _ _ c.ip_depth deep) in
          rw
            (
              get_client_ip_forwarded c exempt_ips spoofed word configured there,
              get_client_ip_forwarded c exempt_ips req word configured present,
              same,
              same_remote,
            )
            refl
    ]
