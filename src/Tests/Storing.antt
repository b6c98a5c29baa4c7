-- ===== src/Tests/Storing.antt =====
-- A configuration with a state file, and the state at its start.
mod Filing
mod Locking
mod Starting
use captcha_protect.Base.{
  ℕ, ◌+◌, ◌*◌, ◌<◌, ◌≤◌, ◌≡◌, ◌≢◌, ◌↔◌, ◌⊎◌, inl, inr, refl, List, [], ◌∷◌, ◌++◌, Option, none,
  some, Bool, true, false, Text, codes, text_eq, if◌then◌else◌, arith, All, Any, ltb, u64_mod, ok,
  err,
}
use captcha_protect.Config.{Config}
use captcha_protect.Cache.{Item}
use captcha_protect.Cache.Memory.{memory_cache, memory_cache-IsLawful}
use captcha_protect.Circuit.{new_breaker, turnstile_config}
use captcha_protect.Destination.{Url}
use captcha_protect.Net.{parse_ip, parse_cidr}
use captcha_protect.Snapshot.{CacheEntry, get_state}
use captcha_protect.Middleware.{Setup, State}
use captcha_protect.Access.{should_apply}
use captcha_protect.Verify.{second}
use captcha_protect.Saving.{has_unsaved_state, unsaved_state_changes, save_state_now}
use captcha_protect.Saving.Trace.{
  idle, remembered, marked, save_began, save_ended, file_written, Event, steps, World, file-steps,
}
use captcha_protect.Persist.{
  is_plain_json_string, write_cache_entry_map, write_state_json, save_state_to_file,
  load_state_from_file,
}
use captcha_protect.Persist.Json.{
  IsPlainByte, is_plain_json_string_iff, write_cache_entry_map-memory,
}
use captcha_protect.Persist.Reload.{load_state_from_file-save_state_to_file}
use captcha_protect.Lock.{FileSystem, LockFile, Moment, lock, close}
use captcha_protect.Lock.Exclusion.{Call, lock_turned, unlocking, perform_all, perform_all_held}
use captcha_protect.Lock.Release.{close-lock, lock-stale_turn}
use captcha_protect.Startup.{new_setup, private_networks}
use captcha_protect.Startup.Exempt.{InNetwork, should_apply-new_setup}
use captcha_protect.Tests.{wiki_config, request_for}

abbrev pub saving_config : Config
saving_config = record wiki_config { persistent_state_file = codes "/state.json" }

abbrev pub empty_state : State memory_cache
empty_state = record {
  verified_cache = memory_cache.empty (86400 * second);
  bot_cache = memory_cache.empty 0;
  breaker = new_breaker;
  googlebot_ips = none;
  common_crawl_ips = none;
  uptime_robot_ips = none;
  state_dirty = 5;
  state_saved_dirty = 5;
}
