-- ===== src/Persist/Written.antt =====
-- What is written to the state file is the JSON of the state.
use mathlib.Core.List.{append_assoc}
use captcha_protect.Base.{
  ℕ, zero, suc, ◌≤◌, ◌<◌, ◌≡◌, refl, Bool, true, false, List, [], ◌∷◌, ◌++◌, some, none, Text,
  codes, length, arith, u64_mod, add64, text_eq, length-append,
}
use captcha_protect.Cache.{Item}
use captcha_protect.Snapshot.{
  CacheEntry, get_cache_entries, get_state, map_size, string_size, item_size,
}
use captcha_protect.Persist.{write_entries, write_cache_entry_map, write_state_json}
use captcha_protect.Persist.Json.{write_cache_entry_map-memory}
use captcha_protect.Persist.Decimal.{read_uint64-format_uint}
use captcha_protect.Persist.Reader.{expect, read_entry, read_entries, read_map, read_state}
use captcha_protect.Persist.Entries.{
  expect-append, AreWritable, read_string-write_json_string, entry_text, entry_of, read_entry_lem,
  no_brace,
}

counted_fits :
    (items : List (Text × Item)) (memory : ℕ)
    → memory < u64_mod
    → (get_cache_entries items memory).1 < u64_mod
unfolding get_cache_entries
counted_fits [] memory fits = fits
counted_fits ((key, item) ∷ items) memory fits = counted_fits items _ (omega arith)

-- The memory counted after a key.
abbrev counted : ℕ → Text → ℕ
counted memory key = add64 (add64 (add64 memory string_size) item_size) (length key)

write_entries_first :
    (key : Text) (item : Item) (items : List (Text × Item)) (memory : ℕ) (t : Text)
    → (write_entries ((key, item) ∷ items) true memory).0 ++ t
      ≡ entry_text key item ((write_entries items false (counted memory key)).0 ++ t)
unfolding write_entries
write_entries_first key item items memory t = simp (append_assoc)

write_entries_comma :
    (key : Text) (item : Item) (items : List (Text × Item)) (memory : ℕ)
    → (write_entries ((key, item) ∷ items) false memory).0
      ≡ b',' ∷ (write_entries ((key, item) ∷ items) true memory).0
unfolding write_entries
write_entries_comma key item items memory = refl

read_entries_last :
    (fuel : ℕ) (t rest : Text) (e : Text × CacheEntry)
    → read_entry t ≡ some (e, b'}' ∷ rest)
    → read_entries (suc fuel) t ≡ some (e ∷ [], rest)
unfolding read_entries expect
read_entries_last fuel t rest e h = rw h refl

read_entries_more :
    (fuel : ℕ) (t rest t' : Text) (e : Text × CacheEntry) (es : List (Text × CacheEntry))
    → read_entry t ≡ some (e, b',' ∷ rest)
    → read_entries fuel rest ≡ some (es, t')
    → read_entries (suc fuel) t ≡ some (e ∷ es, t')
unfolding read_entries expect
read_entries_more fuel t rest t' e es h more = rw (h, more) refl

read_entries-write_entries :
    (fuel : ℕ) (key : Text) (item : Item) (items : List (Text × Item)) (memory : ℕ) (rest : Text)
    → length items < fuel
    → AreWritable ((key, item) ∷ items)
    → read_entries fuel ((write_entries ((key, item) ∷ items) true memory).0 ++ (b'}' ∷ rest))
      ≡ some ((get_cache_entries ((key, item) ∷ items) memory).0, rest)
unfolding get_cache_entries
read_entries-write_entries zero key item items memory rest enough w = absurd (omega arith)
read_entries-write_entries (suc fuel) key item [] memory rest enough ((w, fits), ws) =
    rw (write_entries_first key item [] memory (b'}' ∷ rest)) (
      unfold write_entries in
      read_entries_last fuel _ rest (key, entry_of item)
        (read_entry_lem key item (b'}' ∷ rest) w fits))
read_entries-write_entries (suc fuel) key item ((k, i) ∷ items) memory rest enough ((w, fits), ws) =
    let more =
      read_entries-write_entries fuel k i items (counted memory key) rest (omega arith) ws in
    rw
      (
        write_entries_first key item ((k, i) ∷ items) memory (b'}' ∷ rest),
        write_entries_comma k i items (counted memory key),
      )
      (read_entries_more fuel _ _ rest (key, entry_of item) _ (read_entry_lem key item _ w fits)
        more)

-- Every entry takes some of the text.
length-write_entries :
    (items : List (Text × Item)) (first : Bool) (memory : ℕ)
    → length items ≤ length (write_entries items first memory).0
unfolding write_entries
length-write_entries [] first memory = omega arith
length-write_entries ((key, item) ∷ items) first memory =
    let shorter = length-write_entries items false (counted memory key) in
    simp (length-append) (omega arith)

read_map_entries :
    (body : Text) (r : List (Text × CacheEntry) × Text)
    → expect (codes "}") body ≡ none
    → read_entries (length body) body ≡ some r
    → read_map (b'{' ∷ body) ≡ some r
unfolding read_map expect
read_map_entries body r first entries = rw (first, entries) refl

read_map-write_cache_entry_map :
    (items : List (Text × Item)) (rest : Text)
    → AreWritable items
    → read_map ((write_cache_entry_map items).0 ++ rest) ≡ some ((get_state items).verified, rest)
unfolding write_cache_entry_map get_state
read_map-write_cache_entry_map [] rest w =
    unfold read_map in unfold write_entries in unfold expect in unfold get_cache_entries in refl
read_map-write_cache_entry_map ((key, item) ∷ items) rest ((w, fits), ws) =
    let body = (write_entries ((key, item) ∷ items) true map_size).0 in
    let begins = write_entries_first key item items map_size (b'}' ∷ rest) in
    let first : expect (codes "}") (body ++ (b'}' ∷ rest)) ≡ none =
      rw begins (no_brace _ (read_string-write_json_string key _ w)) in
    let shorter = length-write_entries ((key, item) ∷ items) true map_size in
    let enough : length items < length (body ++ (b'}' ∷ rest)) =
      omega (arith, length-append body (b'}' ∷ rest)) in
    rw (append_assoc) (
      read_map_entries (body ++ (b'}' ∷ rest)) _ first
        (read_entries-write_entries _ key item items map_size rest enough ((w, fits), ws)))

memory_fits : (items : List (Text × Item)) → (get_state items).memory < u64_mod
unfolding get_state
memory_fits items = counted_fits items map_size (omega arith)

-- Where every key of the verified visitors is valid UTF-8 and every expiration is below 2^64, what is
-- written to the state file is the JSON of the verified visitors, and nothing else: the strict reader
-- gives every one of them back, with the value and the expiration, in their order.
pub read_state-write_state_json :
    (items : List (Text × Item))
    → AreWritable items
    → read_state (write_state_json items) ≡ some (get_state items).verified
unfolding read_state write_state_json text_eq
read_state-write_state_json items w =
    let memory = (write_cache_entry_map items).1 in
    let fits : memory < u64_mod = rw (write_cache_entry_map-memory items) (memory_fits items) in
    rw
      (
        expect-append,
        read_map-write_cache_entry_map items _ w,
        expect-append,
        read_uint64-format_uint memory (codes "}}") fits refl,
        expect-append (codes "}}") [],
      )
      refl
