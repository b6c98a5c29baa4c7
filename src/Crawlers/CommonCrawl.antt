-- ===== src/Crawlers/CommonCrawl.antt =====
-- What is taken over from Common Crawl.
use native.Mathlib.Nat.{
  pow-suc, add-div_right, mul-add-div_right, mul-div_cancel, div-eq_of_lt, div-mul-le_self,
  lt-div-mul-add,
}
use captcha_protect.Base.{
  ℕ, zero, suc, ◌+◌, ◌*◌, ◌/◌, ◌≤◌, ◌↔◌, ◌⊎◌, sym, ◌∙◌, Any, ◌-◌, ◌^◌, ◌<◌, ◌≡◌, refl, inl, inr,
  Bool, true, false, Bool-cases, List, [], ◌∷◌, some, Text, arith, All, ltb,
}
use captcha_protect.Net.{v4, Prefix, masked, prefix_contains, prefix_string, addr_string, mask_to}
use captcha_protect.Crawlers.{expand_loop, expand}

pow_pos : (k : ℕ) → 0 < 2 ^ k
pow_pos zero = omega arith
pow_pos (suc k) = let smaller = pow_pos k in rw pow-suc (omega arith)

-- The address after the last one of a masked prefix lies outside.
end_outside :
    (a bits : ℕ)
    → prefix_contains
        (masked (record { addr = v4 a; bits = bits }))
        (v4 (mask_to 32 bits a + 2 ^ (32 - bits)))
      ≡ false
unfolding prefix_contains masked
end_outside a bits = rw (add-div_right (mask_to 32 bits a) (pow_pos (32 - bits))) (ground arith)

-- The addresses from the first to the last one of a masked prefix are those inside.
inside_iff :
    (a bits x : ℕ)
    → (prefix_contains (masked (record { addr = v4 a; bits = bits })) (v4 x) ≡ true)
      ↔ ((mask_to 32 bits a ≤ x) × (x < mask_to 32 bits a + 2 ^ (32 - bits)))
unfolding prefix_contains masked
inside_iff a bits x =
    let size = 2 ^ (32 - bits) in
    let positive : 0 < size = pow_pos (32 - bits) in
    let same : mask_to 32 bits a / size ≡ a / size = mul-div_cancel (a / size) positive in
    let low : x / size * size ≤ x = div-mul-le_self x size in
    let high : x < x / size * size + size = lt-div-mul-add positive in
    (
      λ h.
          let agree : mask_to 32 bits a / size ≡ x / size = ground arith in
          let e : a / size ≡ x / size = sym same ∙ agree in rw e (low, high),
      λ (from, to).
          let rest = x - mask_to 32 bits a in
          let split : x ≡ a / size * size + rest = omega arith in
          let none_left : rest / size ≡ 0 = div-eq_of_lt (omega arith) in
          let quotient : x / size ≡ a / size =
            rw split (mul-add-div_right positive (a / size) rest ∙ omega arith) in
          let agree : mask_to 32 bits a / size ≡ x / size = same ∙ sym quotient in ground arith,
    )

Any-All : {A : Type 0} (P : A → Type 0) (xs : List A) (x : A) → All P xs → Any (λ y. y ≡ x) xs → P x
Any-All P [] x all member = absurd member
Any-All P (y ∷ xs) x (h, all) (inl same) = rw (← same) h
Any-All P (y ∷ xs) x (h, all) (inr member) = Any-All P xs x all member

first_or_later : (ip x : ℕ) → ip ≤ x → (x ≡ ip) ⊎ (suc ip ≤ x)
first_or_later ip x h = ground arith

-- The range of one address.
abbrev pub single : ℕ → Text
single ip = prefix_string (record { addr = v4 ip; bits = 32 })

module _ (verified : Text → Bool) where
  -- A range of one address, which lies in the prefix and is verified.
  abbrev pub IsVerified : Prefix → Text → Type 0
  IsVerified prefix cidr =
      (ip : ℕ) × (ip < 2 ^ 32)
      × (cidr ≡ single ip)
      × (prefix_contains prefix (v4 ip) ≡ true)
      × (verified (addr_string (v4 ip)) ≡ true)

  -- What the loop gives from an address on to the last one of a prefix.
  abbrev Expanded : Prefix → ℕ → ℕ → List Text → Type 0
  Expanded prefix ip last cidrs =
      All (IsVerified prefix) cidrs
      × ((x : ℕ)
          → ip ≤ x
          → x < last
          → x < 2 ^ 32
          → verified (addr_string (v4 x)) ≡ true
          → Any (λ c. c ≡ single x) cidrs)

  -- The loop ends before its fuel does where the prefix does, and passes over no address.
  expand_loop-Expanded :
      (n fuel : ℕ) (prefix : Prefix) (ip last : ℕ)
      → n < fuel
      → last ≡ ip + n
      → prefix_contains prefix (v4 last) ≡ false
      → ((x : ℕ) → ip ≤ x → x < last → prefix_contains prefix (v4 x) ≡ true)
      → (cidrs : List Text) × (expand_loop (λ a. false) verified fuel prefix ip ≡ some cidrs)
        × Expanded prefix ip last cidrs
  unfolding expand_loop
  expand_loop-Expanded n zero prefix ip last h at_end ends inside = absurd (omega arith)
  expand_loop-Expanded zero (suc fuel) prefix ip last h at_end ends inside =
      let same : last ≡ ip = omega arith in
      let here : prefix_contains prefix (v4 ip) ≡ false = rw same at ends in
      ([], ground arith, (tt, λ x from to valid v. absurd (omega arith)))
  expand_loop-Expanded (suc n) (suc fuel) prefix ip last h at_end ends inside =
      let (cidrs, found, (all, complete)) =
        expand_loop-Expanded n fuel prefix (suc ip) last (omega arith) (omega arith) ends
          (λ x from to. inside x (omega arith) to) in
      let c = inside ip (omega arith) (omega arith) in
      elim (Bool-cases (ltb ip (2 ^ 32))) [
        | inr e ↦ rw e ([], refl, (tt, λ x from to valid v. absurd (ground arith)))
        | inl e ↦ elim (Bool-cases (verified (addr_string (v4 ip)))) [
          | inr v ↦
              rw (e, c, v)
                (
                  cidrs,
                  found,
                  (
                    all,
                    λ x from to valid v'. elim (first_or_later ip x from) [
                      | inl same ↦ let here = rw same at v' in absurd (ground arith)
                      | inr later ↦ complete x later to valid v'
                    ],
                  ),
                )
          | inl v ↦
              rw (e, c, v)
                (
                  single ip ∷ cidrs,
                  rw found refl,
                  (
                    ((ip, ground arith, refl, c, v), all),
                    λ x from to valid v'. elim (first_or_later ip x from) [
                      | inl same ↦ inl (rw same refl)
                      | inr later ↦ inr (complete x later to valid v')
                    ],
                  ),
                )
        ]
      ]

  -- Where the context is not canceled, expanding a published IPv4 prefix succeeds, however long it
  -- is, and gives the range of exactly each address of the prefix that the reverse lookup
  -- confirms.
  pub expand_iff :
      (a bits : ℕ)
      → let prefix = masked (record { addr = v4 a; bits = bits }) in
        (cidrs : List Text) × (expand (λ a. false) verified prefix ≡ some cidrs)
        × ((cidr : Text) → Any (λ c. c ≡ cidr) cidrs ↔ IsVerified prefix cidr)
  unfolding expand masked
  expand_iff a bits =
      let size = 2 ^ (32 - bits) in
      let prefix = masked (record { addr = v4 a; bits = bits }) in
      let (cidrs, found, (all, complete)) =
        expand_loop-Expanded size (size + 1) prefix (mask_to 32 bits a) (mask_to 32 bits a + size)
          (omega arith) refl (end_outside a bits)
          (λ x from to. (inside_iff a bits x).1 (from, to)) in
      (
        cidrs,
        found,
        λ cidr. (
          λ member. Any-All (IsVerified prefix) cidrs cidr all member,
          λ (ip, valid, same, inside, v).
              let (from, to) = (inside_iff a bits ip).0 inside in
              rw same (complete ip from to valid v),
        ),
      )
