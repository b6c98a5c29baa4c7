-- ===== src/Lock/Owners.antt =====
-- The owners of the lock.
use captcha_protect.Base.{
  ℕ, ◌+◌, ◌<◌, ◌≡◌, ◌∙◌, sym, ap, refl, [], ◌++◌, some, Text, arith, u64_mod, add64,
}
use captcha_protect.Lock.{new_file_lock, new_lock_owner}
use captcha_protect.Persist.{format_uint}
use captcha_protect.Persist.Reader.{read_natural}
use captcha_protect.Persist.Decimal.{Stops, read_natural-format_uint}

-- Where a number and what stands behind it is the same, the numbers are.
format_uint_split :
    (n n' : ℕ) (rest rest' : Text)
    → n < u64_mod
    → n' < u64_mod
    → Stops rest
    → Stops rest'
    → format_uint n ++ rest ≡ format_uint n' ++ rest'
    → (n ≡ n') × (rest ≡ rest')
format_uint_split n n' rest rest' fits fits' stops stops' same =
    let reads : some (n, rest) ≡ some (n', rest') =
      sym (read_natural-format_uint n rest fits stops)
      ∙ ap read_natural same
      ∙ read_natural-format_uint n' rest' fits' stops' in
    (cc reads, cc reads)

-- Two locks have the same owner only if they were made by the same process with the same value of
-- the counter, as long as the counter does not wrap around and process numbers fit in 64 bits.
pub new_file_lock-inj :
    (path path' : Text) (pid pid' counter counter' : ℕ)
    → pid < u64_mod
    → pid' < u64_mod
    → counter + 1 < u64_mod
    → counter' + 1 < u64_mod
    → (new_file_lock path pid counter).0.owner ≡ (new_file_lock path' pid' counter').0.owner
    → (pid ≡ pid') × (counter ≡ counter')
unfolding new_file_lock new_lock_owner
new_file_lock-inj path path' pid pid' counter counter' fits fits' low low' same =
    let (process, rest) = format_uint_split pid pid' _ _ fits fits' refl refl same in
    let number : format_uint (add64 counter 1) ≡ format_uint (add64 counter' 1) = cc rest in
    let (next, _) =
      format_uint_split (add64 counter 1) (add64 counter' 1) [] [] (omega arith) (omega arith) tt tt
        (ap (λ t. t ++ []) number) in
    (process, omega arith)
