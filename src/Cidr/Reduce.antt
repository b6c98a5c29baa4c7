-- ===== src/Cidr/Reduce.antt =====
-- What `ReduceCIDRs` keeps: the same addresses, no prefix that another one covers.
use captcha_protect.Base.{
  ◌≡◌, refl, ◌∙◌, Bool, true, false, ◌||◌, List, [], ◌∷◌, ◌++◌, any, any-append, All,
}
use captcha_protect.Base.{
  AllPairs, AllPairs-map, AllPairs-snoc, All-map, All-append, All-zip, AllPairs-middle, any-false,
  any-none, Bool-cases, inl, inr, arith,
}
use mathlib.Core.List.{append-nil, append_assoc}
use captcha_protect.Net.{Prefix, Addr, prefix_contains}
use captcha_protect.Cidr.{sort, covers, reduce_loop, reduce_prefixes}
use captcha_protect.Cidr.Order.{Before, any-sort, sort-AllPairs, sort_sorted}
use captcha_protect.Cidr.Cover.{covers-contains, covers_of_covers_back}

-- Some prefix of the list contains the address.
abbrev pub contained : Addr → List Prefix → Bool
contained a prefixes = any (λ p. prefix_contains p a) prefixes

abbrev covered : List Prefix → Prefix → Bool
covered reduced candidate = any (λ existing. covers existing candidate) reduced

covered-contained :
    (reduced : List Prefix) (candidate : Prefix) (a : Addr)
    → covered reduced candidate ≡ true
    → prefix_contains candidate a ≡ true
    → contained a reduced ≡ true
unfolding any
covered-contained [] candidate a h k = cc
covered-contained (e ∷ reduced) candidate a h k = elim (Bool-cases (covers e candidate)) [
  | inl now ↦ rw (covers-contains e candidate a now k) refl
  | inr later ↦
      let rest : contained a reduced ≡ true =
        covered-contained reduced candidate a (ground arith) k in
      ground arith
]

reduce_loop-contained :
    (a : Addr) (reduced prefixes : List Prefix)
    → contained a (reduce_loop reduced prefixes) ≡ (contained a reduced || contained a prefixes)
unfolding reduce_loop any
reduce_loop-contained a reduced [] = ground arith
reduce_loop-contained a reduced (c ∷ prefixes) = elim (Bool-cases (covered reduced c)) [
  | inl e ↦
      rw (e, reduce_loop-contained a reduced prefixes)
        (ground (arith, covered-contained reduced c a e))
  | inr e ↦
      rw (e, reduce_loop-contained a (reduced ++ (c ∷ [])) prefixes, any-append) (ground arith)
]

-- Reducing keeps exactly the addresses that some prefix contains.
pub reduce_prefixes-contained :
    (a : Addr) (prefixes : List Prefix)
    → contained a (reduce_prefixes prefixes) ≡ contained a prefixes
unfolding reduce_prefixes any
reduce_prefixes-contained a prefixes =
    reduce_loop-contained a [] (sort prefixes) ∙ any-sort (λ p. prefix_contains p a) prefixes

-- Earlier in the order, and not covering.
abbrev Apart : Prefix → Prefix → Type 0
Apart p q = Before p q × (covers p q ≡ false)

reduce_loop-Apart :
    (reduced prefixes : List Prefix)
    → AllPairs Apart reduced
    → All (λ p. All (Before p) prefixes) reduced
    → AllPairs Before prefixes
    → AllPairs Apart (reduce_loop reduced prefixes)
unfolding reduce_loop
reduce_loop-Apart reduced [] apart before sorted = apart
reduce_loop-Apart reduced (c ∷ prefixes) apart before (first, sorted) =
    let later =
      All-map (λ p. All (Before p) (c ∷ prefixes)) (λ p. All (Before p) prefixes) reduced
        (λ p h. h.1) before in
    elim (Bool-cases (covered reduced c)) [
      | inl e ↦ rw e (reduce_loop-Apart reduced prefixes apart later sorted)
      | inr e ↦ rw e (
          reduce_loop-Apart (reduced ++ (c ∷ [])) prefixes
            (AllPairs-snoc Apart reduced c apart (
              All-zip (λ p. Before p c) (λ p. covers p c ≡ false) reduced
                (All-map (λ p. All (Before p) (c ∷ prefixes)) (λ p. Before p c) reduced (λ p h. h.0)
                  before)
                (any-false (λ p. covers p c) reduced e)))
            (All-append (λ p. All (Before p) prefixes) reduced (c ∷ []) later (first, tt)) sorted)
    ]

reduce_prefixes-Apart : (prefixes : List Prefix) → AllPairs Apart (reduce_prefixes prefixes)
unfolding reduce_prefixes
reduce_prefixes-Apart prefixes = reduce_loop-Apart [] (sort prefixes) tt tt (sort-AllPairs prefixes)

Apart-both : (p q : Prefix) → Apart p q → (covers p q ≡ false) × (covers q p ≡ false)
Apart-both p q (before, apart) = elim (Bool-cases (covers q p)) [
  | inl e ↦ cc (covers_of_covers_back p q before e)
  | inr e ↦ (apart, e)
]

-- No prefix of the result covers another one, in either order.
pub reduce_prefixes-antichain :
    (prefixes : List Prefix)
    → AllPairs (λ p q. (covers p q ≡ false) × (covers q p ≡ false)) (reduce_prefixes prefixes)
reduce_prefixes-antichain prefixes =
    AllPairs-map Apart (λ p q. (covers p q ≡ false) × (covers q p ≡ false))
      (reduce_prefixes prefixes) Apart-both (reduce_prefixes-Apart prefixes)

reduce_loop_kept :
    (reduced prefixes : List Prefix)
    → AllPairs Apart (reduced ++ prefixes)
    → reduce_loop reduced prefixes ≡ reduced ++ prefixes
unfolding reduce_loop
reduce_loop_kept reduced [] h = rw append-nil refl
reduce_loop_kept reduced (c ∷ prefixes) h =
    let none_covers =
      any-none (λ p. covers p c) reduced
        (All-map (λ p. Apart p c) (λ p. covers p c ≡ false) reduced (λ p k. k.1)
          (AllPairs-middle Apart reduced c prefixes h)) in
    let e = append_assoc reduced (c ∷ []) prefixes in
    rw none_covers (reduce_loop_kept (reduced ++ (c ∷ [])) prefixes (rw e h) ∙ e)

-- Reducing twice is reducing once.
pub reduce_prefixes_idem :
    (prefixes : List Prefix) → reduce_prefixes (reduce_prefixes prefixes) ≡ reduce_prefixes prefixes
unfolding reduce_prefixes
reduce_prefixes_idem prefixes =
    let apart : AllPairs Apart (reduce_loop [] (sort prefixes)) = reduce_prefixes-Apart prefixes in
    let sorted = AllPairs-map Apart Before (reduce_loop [] (sort prefixes)) (λ p q h. h.0) apart in
    rw (sort_sorted _ sorted) (reduce_loop_kept [] _ apart)
