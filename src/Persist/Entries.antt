-- ===== src/Persist/Entries.antt =====
-- The keys and entries of the state file, read as they are written.
use mathlib.Core.List.{append_assoc, append-nil, reverse-cons}
use captcha_protect.Base.{
  ◌<◌, ◌≡◌, refl, inl, inr, Bool, true, false, List, [], ◌∷◌, ◌++◌, reverse, some, none, Text,
  codes, arith, All, Bool-cases, u64_mod,
}
use captcha_protect.Cache.{Item}
use captcha_protect.Snapshot.{CacheEntry}
use captcha_protect.Encoding.{valid_string}
use captcha_protect.Encoding.Reading.{read_string-marshal_string}
use captcha_protect.Persist.{is_plain_json_string, write_json_string, write_bool, format_int}
use captcha_protect.Persist.Json.{IsPlainByte, is_plain_json_string_iff}
use captcha_protect.Persist.Decimal.{read_int64-format_int}
use captcha_protect.Persist.Reader.{expect, read_bool, read_body, plain, read_string, read_entry}

pub expect-append : (p rest : Text) → expect p (p ++ rest) ≡ some rest
unfolding expect
expect-append [] rest = refl
expect-append (c ∷ p) rest = ground (arith, expect-append p rest)

read_body_plain :
    (value found rest : Text)
    → All IsPlainByte value
    → read_body plain found (value ++ (b'"' ∷ rest)) ≡ some (reverse found ++ value, rest)
unfolding read_body
read_body_plain [] found rest h = rw append-nil refl
read_body_plain (c ∷ value) found rest ((slash, quote, high), h) =
    let next = read_body_plain value (c ∷ found) rest h in
    let next' = rw (reverse-cons, append_assoc) at next in ground (arith, next')

read_bool-write_bool : (b : Bool) (rest : Text) → read_bool (write_bool b ++ rest) ≡ some (b, rest)
unfolding read_bool write_bool expect
read_bool-write_bool true rest = refl
read_bool-write_bool false rest = refl

-- A key that is valid UTF-8 is read as it is written, with escapes or without.
pub read_string-write_json_string :
    (key rest : Text)
    → valid_string key ≡ true
    → read_string (write_json_string key ++ rest) ≡ some (key, rest)
unfolding write_json_string
read_string-write_json_string key rest ok = elim (Bool-cases (is_plain_json_string key)) [
  | inr e ↦ rw e (read_string-marshal_string rest key ok)
  | inl e ↦
      (let (bytes, _) = (is_plain_json_string_iff key).0 e in
        let body = read_body_plain key [] rest bytes in
        rw (e, append_assoc) (unfold read_string in ground (arith, body)))
]

-- An entry as it is written, without the comma before it.
abbrev pub entry_text : Text → Item → Text → Text
entry_text key item rest =
    write_json_string key
    ++ (codes ":{\"value\":"
        ++ (write_bool item.object
            ++ (codes ",\"expiration\":" ++ (format_int item.expiration ++ (b'}' ∷ rest)))))

abbrev pub entry_of : Item → CacheEntry
entry_of item = record { value = item.object; expiration = item.expiration }

pub read_entry_lem :
    (key : Text) (item : Item) (rest : Text)
    → valid_string key ≡ true
    → item.expiration < u64_mod
    → read_entry (entry_text key item rest) ≡ some ((key, entry_of item), rest)
unfolding read_entry
read_entry_lem key item rest writable fits =
    let number = read_int64-format_int item.expiration (b'}' ∷ rest) fits refl in
    rw
      (
        read_string-write_json_string key _ writable,
        expect-append,
        read_bool-write_bool item.object,
        expect-append,
        number,
        expect-append (codes "}") rest,
      )
      refl

-- A string is no closing brace.
pub no_brace : (t : Text) {r : Text × Text} → read_string t ≡ some r → expect (codes "}") t ≡ none
unfolding read_string expect
no_brace [] h = cc
no_brace (c ∷ t) h = ground arith

-- The keys can be written, and the expirations are 64-bit patterns.
abbrev pub AreWritable : List (Text × Item) → Type 0
AreWritable items = All (λ e. (valid_string e.0 ≡ true) × (e.1.expiration < u64_mod)) items
