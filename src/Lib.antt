-- ===== src/Lib.antt =====
-- captcha-protect, a Traefik middleware that challenges visitors with a captcha: the decisions it
-- makes on a request, what a solved challenge changes, and the address ranges, bots and circuit
-- breaker these decisions rest on.
--
-- Parts, each with the code it is about:
--
--   Config, Middleware   main.go: `Config`, `CreateConfig`; the fields of `CaptchaProtect`, in two
--     records: `Setup` for what `NewCaptchaProtect` fixes, `State` for what changes.
--   Serve                main.go: `ServeHTTP`, `serveChallengePage`, `serveStatsPage`.
--     Serve/Written: `serveJavaScript`, and what each response writes.
--   Access               main.go: `shouldApply`, `isGoodBot`.
--   Routes               main.go: `RouteIsProtectedPrefix`, `RouteIsProtectedSuffix`,
--     `RouteIsProtectedRegex`, `isExtensionProtected`, `isGoodUserAgent`.
--   ClientIp             main.go: `getClientIP`; internal/helper/ip.go: `IsIpExcluded`.
--   Verify               main.go: `verifyChallengePage`, `captchaValidationHostname`,
--     `usesTurnstileTestKeys`, `markStateDirty`.
--   Session              main.go: `randomUUID`, `sessionCookieName`.
--   Destination          main.go: `normalizeDestination`, `sanitizeDestination`.
--   Circuit              main.go: `getCaptchaConfig`, `getActiveCaptchaConfig`,
--     `performHealthCheckContext`, `recordHealthCheckSuccess`, `recordHealthCheckFailure`.
--     Circuit/Watch: `healthCheckLoop`.
--   Bots                 internal/helper/ip.go: `IsIpGoodBotContext`, `matchesGoodBotDomain`.
--   Cidr                 internal/helper/google.go: `ReduceCIDRs`.
--   Snapshot             internal/state/state.go: `GetState`, `getCacheEntries`.
--   Startup              main.go: `NewCaptchaProtect`, `newCapCaptchaConfig`, `isHTTPURL`,
--     `isRootRelativePath`. Startup/Guards, Startup/Providers and Startup/Accepted: which
--     configurations are accepted. Startup/Restart: a stop, and a start from the state file.
--   System               the middleware over its lifetimes: visits, saves, crashes and starts, in any
--     order.
--   Logged               main.go: `redactedConfig`, `ParseHttpMethods`; internal/log/log.go:
--     `parseLogLevel`, `New`.
--   EndToEnd             ci/cap/main.go, the driver of the end-to-end test. EndToEnd/Configs: its two
--     configurations for Traefik. EndToEnd/Helpers: `compose`, `composeOutput`, `postJSON`, `request`,
--     `waitFor`, `waitForStatus`, `waitForRedirect`, `waitForBodyContains`, `writeDynamicConfig`.
--     EndToEnd/Checks: `createSiteKey`, `assertHTTPChallenge`, `assertTraefikPluginLogsClean`, `main`.
--   Scripts              internal/helper/cap.go: `GetCapJS`; internal/helper/poj.go: `GetPojJS`;
--     internal/helper/tmpl.go: `GetDefaultTmpl`.
--   Encoding             what is used of utf8 and encoding/json of the standard library:
--     `utf8.ValidString` and `json.Marshal` of a text.
--   Saving               main.go: `saveStateNow`, `hasUnsavedState`, `unsavedStateChanges`,
--     `currentStateDirty`, `markStateSaved`. Saving/Loop: `saveState`. Saving/Jitter:
--     `stateSaveJitter`, `fallbackStateSaveJitter`.
--   Persist              internal/state/state.go: `SaveStateToFileWithMetrics`, `writeStateJSON`,
--     `writeCacheEntryMap`, `isPlainJSONString`, `LoadStateFromFile`,
--     `loadPersistentBoolEntries`. Persist/Atomic: `atomicWriteStateFile`, call by call.
--     Persist/Restored: `SetState`, `loadCacheEntries`. Persist/Reader: a strict reader of the JSON,
--     with which what is written is compared.
--   Lock                 internal/state/lock.go: `FileLock` with `Lock`, `removeStaleLock`,
--     `writeLockPID`, `Unlock`, `Close`, `NewFileLock`.
--   Crawlers             internal/helper/google.go, commoncrawl.go, uptimerobot.go: the downloads
--     and refreshes of published address ranges. Crawlers/Refreshing: `googlebotIPCheckLoop`,
--     `uptimeRobotIPCheckLoop`, `commonCrawlIPCheckLoop` of main.go.
--   Cache                the expiring map of the package go-cache, as an interface: its calls, and
--     laws for what its documentation says. Cache/Memory meets them.
--   Request, Net, Base   what is used of the standard library: requests, addresses and networks,
--     byte strings, 64-bit words.
--   Tests                runs on concrete data, and the theorems applied to them.
--     Tests/Visits/Driven runs the driver of the end-to-end test against the middleware.
--
-- A request is handled by `serve_http`: `ClientIp` finds the visitor's address, `endpoint` chooses a
-- handler, and the site's requests are decided by `Access.should_apply`, which asks the cache of
-- verified visitors, the exempt networks, the bots (published ranges, then a lookup through the cache
-- of bots), the user agents and the routes. A challenge that is answered goes to
-- `Verify.verify_challenge_page`, which asks the provider that the circuit breaker names, and
-- remembers the visitor in the cache of verified visitors. The state is passed explicitly: a handler
-- takes the state and gives the answer and the next state.
--
-- Texts are lists of bytes. Go's integers are 64-bit patterns: their sums wrap around, and the signed
-- comparisons are written out (Base/Words). Times are nanoseconds, at the moment of the call. Loops
-- are recursion on the list they run over. Fuel is used where there is no list: `hex_digits` has
-- the 16 digits of a 64-bit number, `decimal_digits` its 20, and `Crawlers.expand` gives the loop
-- over the addresses of a prefix one turn more than there are, and `EndToEnd.Helpers.wait_for` 61
-- turns, of two seconds each, to a deadline of 120 seconds; running out of them counts as an error
-- there. `Lock.lock` takes the turns of its loop as a list, and the loops in the background take
-- what wakes them, a tick or the end of the context.
--
-- What runs at the same time is a sequence of whole steps in any order: health checks and requests
-- (Circuit/Trips), requests and a save (Saving/Trace), the calls of several owners of the lock
-- (Lock/Exclusion), visits with anything in the background between them (Serve/Visits), and visits,
-- saves, crashes and starts from the state file (System). A crash during a write of the file is a
-- run of effects on the disk that stops anywhere (Persist/Atomic/Crash). The steps
-- are those that hold a mutex or are one call of the system.
--
-- Parameters, and not modelled: the network (the provider's answer, the DNS lookups, the published
-- ranges), randomness, regular expressions, the parsing of URLs, times and templates, and the messages
-- of the log. `json.Unmarshal` is a parameter too, with what is relied on as a hypothesis: it reads
-- what the strict reader reads. Upper case is folded in ASCII only, and a zone of an IPv6 address is
-- not accepted.
pub mod Base
pub mod Saving
pub mod Persist
pub mod Lock
pub mod Logged
pub mod Startup
pub mod System
pub mod EndToEnd
pub mod Crawlers
mod Tests
pub mod Net
pub mod Config
pub mod Cidr
pub mod Request
pub mod ClientIp
pub mod Routes
pub mod Bots
pub mod Cache
pub mod Destination
pub mod Encoding
pub mod Scripts
pub mod Snapshot
pub mod Middleware
pub mod Access
pub mod Verify
pub mod Serve
pub mod Session
pub mod Circuit
