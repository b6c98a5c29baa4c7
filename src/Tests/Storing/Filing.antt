-- ===== src/Tests/Storing/Filing.antt =====
-- Tests of the state file and the save loop, with the theorems at concrete data.
use captcha_protect.Base.{
  ℕ, ◌*◌, ◌<◌, ◌≡◌, ◌⊎◌, ◌↔◌, refl, List, [], ◌∷◌, ◌++◌, none, some, Bool, true, false, Text, codes,
  text_eq, arith, All,
}
use captcha_protect.Cache.{Item}
use captcha_protect.Cache.Memory.{memory_cache, memory_cache-IsLawful}
use captcha_protect.Snapshot.{get_state}
use captcha_protect.Verify.{second}
use captcha_protect.Saving.{has_unsaved_state, unsaved_state_changes, save_state_now}
use captcha_protect.Saving.Trace.{
  idle, remembered, marked, save_began, save_ended, file_written, Event, steps, World, file-steps,
}
use captcha_protect.Encoding.{valid_string, marshal_string}
use captcha_protect.Persist.{
  is_plain_json_string, write_cache_entry_map, write_state_json, format_int, save_state_to_file,
  load_state_from_file,
}
use mathlib.Core.List.{append-nil}
use captcha_protect.Persist.Reader.{read_state, read_natural, read_digits, read_map, expect}
use captcha_protect.Persist.Entries.{AreWritable}
use captcha_protect.Persist.Written.{read_state-write_state_json}
use captcha_protect.Persist.Atomic.{
  Calls, Disk, create_temp, write, remove, perform_all, atomic_write_state_file,
}
use captcha_protect.Persist.Atomic.Crash.{
  IsWhole, joined, succeeds, atomic_write_state_file-IsWhole,
}
use captcha_protect.Persist.Atomic.Step.{save_state_to_file-atomic}
use captcha_protect.Persist.Reload.{load_state_from_file-save_state_to_file}
use captcha_protect.Tests.Storing.{saving_config, empty_state}

-- A visitor is remembered while the file is being written, and saved by the next save.
abbrev overlapping : List Event
overlapping =
    remembered 0 (codes "a") 0
    ∷ marked
    ∷ save_began
    ∷ remembered 0 (codes "b") 0
    ∷ file_written true
    ∷ marked
    ∷ save_ended
    ∷ save_began
    ∷ file_written true
    ∷ save_ended
    ∷ []

abbrev overlapped : World memory_cache
overlapped =
    (steps saving_config overlapping
      (record { st = empty_state; pending = 0; file = empty_state.verified_cache }) idle).0

settled : overlapped.pending ≡ 0
unfolding steps captcha_protect.Saving.Trace.step
settled = refl

all_saved : has_unsaved_state overlapped.st ≡ false
unfolding has_unsaved_state steps captcha_protect.Saving.Trace.step
    captcha_protect.Verify.mark_state_dirty text_eq
all_saved = refl

file-steps_example : overlapped.file ≡ overlapped.st.verified_cache
file-steps_example =
    file-steps saving_config overlapping empty_state (λ e. ground arith) refl (omega arith) settled
      all_saved

abbrev visitors : memory_cache.State
visitors =
    memory_cache.set
      (memory_cache.set (memory_cache.empty (86400 * second)) 0 (codes "203.0.113.7") true 0) 0
      (codes "a\"b") true second

json_run :
    write_state_json (memory_cache.items visitors second)
    ≡ codes
        "{\"verified\":{\"a\\\"b\":{\"value\":true,\"expiration\":1000000000},\"203.0.113.7\":{\"value\":true,\"expiration\":86400000000000}},\"memory\":{\"verified\":102}}"
unfolding write_state_json write_cache_entry_map captcha_protect.Persist.write_entries
    captcha_protect.Cache.Memory.live_items captcha_protect.Persist.write_json_string
    is_plain_json_string captcha_protect.Persist.plain_loop captcha_protect.Persist.write_bool
    captcha_protect.Persist.decimal_digits captcha_protect.Cache.Memory.without text_eq
    marshal_string captcha_protect.Encoding.encode_loop captcha_protect.Encoding.rune_tail
    captcha_protect.Encoding.escape_ascii
json_run = refl

nonneg : All (λ e. e.1.expiration < 0x8000_0000_0000_0000) (memory_cache.items visitors second)
unfolding captcha_protect.Cache.Memory.live_items captcha_protect.Cache.Memory.without text_eq
nonneg = (omega arith, (omega arith, _))

-- The visitors with both their keys, of which one needs an escape.
abbrev items : List (Text × Item)
items = memory_cache.items visitors second

writable : All (λ e. valid_string e.0 ≡ true) items
unfolding captcha_protect.Cache.Memory.live_items captcha_protect.Cache.Memory.without text_eq
    captcha_protect.Encoding.valid_loop captcha_protect.Encoding.rune_tail
writable = (refl, (refl, tt))

are_writable : AreWritable items
unfolding captcha_protect.Cache.Memory.live_items captcha_protect.Cache.Memory.without text_eq
are_writable = ((writable.0, omega arith), ((writable.1.0, omega arith), tt))

read_state-write_state_json_example :
    read_state (write_state_json items) ≡ some (get_state items).verified
read_state-write_state_json_example = read_state-write_state_json items are_writable

-- `\n`, `<`, `é` and U+2028, and a byte that is no UTF-8.
marshal_runs :
    (marshal_string (10 ∷ b'<' ∷ 0xc3 ∷ 0xa9 ∷ 0xe2 ∷ 0x80 ∷ 0xa8 ∷ [])
      ≡ codes "\"\\n\\u003c" ++ (0xc3 ∷ 0xa9 ∷ codes "\\u2028\""))
    × (marshal_string (0xc3 ∷ []) ≡ codes "\"\\ufffd\"")
unfolding marshal_string captcha_protect.Encoding.encode_loop captcha_protect.Encoding.rune_tail
    captcha_protect.Encoding.escape_ascii captcha_protect.Base.hex_char
    captcha_protect.Encoding.tail_of captcha_protect.Encoding.trailing
    captcha_protect.Encoding.separator
marshal_runs = (refl, refl)

-- A file that is not the JSON of a state.
refused_runs :
    (read_state (codes "{\"verified\":{},\"memory\":{\"verified\":08}}") ≡ none)
    × (read_state (codes "{\"verified\":{}") ≡ none)
    × (read_state (codes "{\"verified\":{},\"memory\":{\"verified\":8}}") ≡ some [])
unfolding read_state expect read_map read_natural read_digits text_eq
refused_runs = (refl, refl, refl)

load_state_from_file-save_state_to_file_example :
    let (_, file') = save_state_to_file memory_cache true true visitors second none in
    let (done, cache) =
      load_state_from_file memory_cache read_state true file'
        (60 * second)
        (memory_cache.empty second) in
    (done ≡ true)
    × (memory_cache.get cache (70 * second) (codes "203.0.113.7")
        ≡ memory_cache.get visitors (70 * second) (codes "203.0.113.7"))
load_state_from_file-save_state_to_file_example =
    load_state_from_file-save_state_to_file memory_cache-IsLawful (60 * second) (70 * second)
      read_state visitors second second none (codes "203.0.113.7") (omega arith) (omega arith)
      (omega arith) nonneg writable (λ t entries reads distinct. reads)

-- A save whose second write fails halfway, and the one that is tried again.
abbrev failing : Calls
failing = record {
  created = true;
  writes = (codes "{\"verified\"", true) ∷ (codes ":{},\"mem", false) ∷ [];
  chmodded = true;
  closed = true;
  renamed = true;
  removed = true;
}

abbrev old_file : Disk
old_file = record { state_file = some (codes "{}"); temporary = none }

failing_effects :
    create_temp ∷ write (codes "{\"verified\"") ∷ [] ++ (write (codes ":{},\"mem") ∷ remove ∷ [])
    ≡ (atomic_write_state_file failing).0
unfolding atomic_write_state_file captcha_protect.Persist.Atomic.write_all
    captcha_protect.Persist.Atomic.deferred
failing_effects = refl

atomic_write_state_file-IsWhole_example :
    IsWhole
      (some (codes "{}"))
      (joined failing.writes)
      (perform_all (create_temp ∷ write (codes "{\"verified\"") ∷ []) old_file)
atomic_write_state_file-IsWhole_example =
    atomic_write_state_file-IsWhole failing old_file
      (create_temp ∷ write (codes "{\"verified\"") ∷ []) (write (codes ":{},\"mem") ∷ remove ∷ [])
      failing_effects

abbrev working : Calls
working = record {
  created = true;
  writes = (write_state_json items, true) ∷ [];
  chmodded = true;
  closed = true;
  renamed = true;
  removed = true;
}

in_one_piece : joined working.writes ≡ write_state_json items
in_one_piece = append-nil _

save_state_to_file-atomic_example :
    let (effects, done) = atomic_write_state_file working in
    let disk = perform_all effects (record { state_file = none; temporary = none }) in
    (done ≡ succeeds working)
    × (save_state_to_file memory_cache true (succeeds working) visitors second none
        ≡ (done, disk.state_file))
    × ((disk.temporary ≡ none) ⊎ ((done ≡ false) × (working.removed ≡ false)))
save_state_to_file-atomic_example =
    save_state_to_file-atomic memory_cache visitors second none working in_one_piece
