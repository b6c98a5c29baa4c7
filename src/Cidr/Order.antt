-- ===== src/Cidr/Order.antt =====
-- The order of the prefixes, and sorting by it.
use captcha_protect.Base.{◌≡◌, refl, inl, inr, Bool, true, false, ◌||◌, List, [], ◌∷◌, any, All}
use captcha_protect.Base.{AllPairs, All-map, Bool-cases, arith}
use captcha_protect.Net.{Prefix, addr_less}
use captcha_protect.Cidr.{less, insert, sort}

-- `p` may stand before `q`.
abbrev pub Before : Prefix → Prefix → Type 0
Before p q = less q p ≡ false

pub Before-trans : (p q r : Prefix) → Before p q → Before q r → Before p r
unfolding less addr_less
Before-trans p q r h k = ground arith

pub Before-of_less : (p q : Prefix) → less p q ≡ true → Before p q
unfolding less addr_less
Before-of_less p q h = ground arith

any-insert :
    (t : Prefix → Bool) (p : Prefix) (qs : List Prefix) → any t (insert p qs) ≡ (t p || any t qs)
unfolding insert any
any-insert t p [] = refl
any-insert t p (q ∷ qs) = ground (arith, any-insert t p qs)

-- Sorting keeps the members.
pub any-sort : (t : Prefix → Bool) (ps : List Prefix) → any t (sort ps) ≡ any t ps
unfolding sort any
any-sort t [] = refl
any-sort t (p ∷ ps) = ground (arith, any-insert t p (sort ps), any-sort t ps)

All-insert :
    (P : Prefix → Type 0) (p : Prefix) (qs : List Prefix) → P p → All P qs → All P (insert p qs)
unfolding insert
All-insert P p [] h hs = (h, tt)
All-insert P p (q ∷ qs) h (k, hs) = elim (Bool-cases (less q p)) [
  | inl e ↦ rw e (k, All-insert P p qs h hs)
  | inr e ↦ rw e (h, (k, hs))
]

pub All-sort : (P : Prefix → Type 0) (ps : List Prefix) → All P ps → All P (sort ps)
unfolding sort
All-sort P [] h = tt
All-sort P (p ∷ ps) (h, hs) = All-insert P p (sort ps) h (All-sort P ps hs)

insert-AllPairs :
    (p : Prefix) (qs : List Prefix) → AllPairs Before qs → AllPairs Before (insert p qs)
unfolding insert
insert-AllPairs p [] h = (tt, tt)
insert-AllPairs p (q ∷ qs) (h, hs) = elim (Bool-cases (less q p)) [
  | inl e ↦ rw e (All-insert (Before q) p qs (Before-of_less q p e) h, insert-AllPairs p qs hs)
  | inr e ↦ rw e ((e, All-map (Before q) (Before p) qs (λ r k. Before-trans p q r e k) h), (h, hs))
]

-- A sorted list has every prefix before the later ones.
pub sort-AllPairs : (ps : List Prefix) → AllPairs Before (sort ps)
unfolding sort
sort-AllPairs [] = tt
sort-AllPairs (p ∷ ps) = insert-AllPairs p (sort ps) (sort-AllPairs ps)

insert_sorted : (p : Prefix) (qs : List Prefix) → All (Before p) qs → insert p qs ≡ p ∷ qs
unfolding insert
insert_sorted p [] h = refl
insert_sorted p (q ∷ qs) (h, hs) = rw h refl

-- Sorting leaves a sorted list alone.
pub sort_sorted : (ps : List Prefix) → AllPairs Before ps → sort ps ≡ ps
unfolding sort
sort_sorted [] h = refl
sort_sorted (p ∷ ps) (h, hs) = rw (sort_sorted ps hs) (insert_sorted p ps h)
