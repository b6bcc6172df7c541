-- ===== src/Lib.antt =====
-- regbot deletes old container images from registries by policies. This library models how it
-- decides what is deleted, how it carries the deletions out, what it asks the registries for that, and
-- the commands, the server and the scheduler around it.
--
-- The parts, and how they work together. `Engine.Plan` (internal/engine/engine.go) takes each policy
-- of the configuration (internal/config/config.go) by name, compiles it to a rule, asks the client of
-- each target's registry (pkg/provider/provider.go) for artifacts, parses their tags and evaluates the
-- rule on them (pkg/policy/policy.go). Whatever a decision keeps is protected for good; what is left
-- is a plan of actions (pkg/plan/plan.go), if no target exceeds its rule's safety limits.
-- `Engine.Apply` then checks that the plan is not stale and sends its deletions through a pool of
-- goroutines. The clients speak the protocols of OCI registries and of GitHub over HTTP
-- (internal/provider); the commands (internal/cli/root.go), `POST /run` (internal/server/server.go) and
-- the scheduler (internal/scheduler/scheduler.go) call the engine.
--
-- Which file models which part:
--   Base        Go's numbers, texts (lists of bytes), slices, sorts and results; no code of the program
--   Provider    pkg/provider/provider.go and the parts of time that the program uses: a time is the
--               number of nanoseconds since the zero time
--   Plan        pkg/plan/plan.go: the types
--   Config      internal/config/config.go: Types, Rules (`Policy.Rule`), Validate (`Config.Validate`),
--               Secrets (`Secret`), Valid (what `Config.Validate` means for `Policy.Rule`), Load
--   Policy      pkg/policy/policy.go: Types, Numbers, Dates and Calendar (`ParseCalendar`), Regex
--               (`ValidateRegexParser`, `ParseRegex`), Order (`newer` and the helpers), Judge (the body
--               of the inner loop of `Evaluate`), Evaluate (its loops),
--               Globs (`MatchRepository`)
--   Engine      internal/engine/engine.go: Parsing (`parseArtifact`), Safety (`safetyLimit`; Share says what its
--               `percent` is by exact numbers, Kept what a limit that passes means), State (the
--               maps of `Plan` and its loop over decisions), Planning (`Plan`; Exact has an abstract view
--               of it), Apply (`Apply`), Safe
--               (both together), Preflight (`Validate`)
--   Http        the computations that send requests, with rules for which they send (Sends), and the loop
--               `pages` of both clients (Paging)
--   Oci         internal/provider/oci/oci.go: Digest (`validDigest`, `referrersTag`), Links (the small
--               functions at its end), Requests (`do`, `bearerToken`), Referrers, Client (`Preflight`,
--               `List`, `Delete`) with Grouping and Deletion, Setup (`New`)
--   Github      internal/provider/github/github.go: Tags (`sameTags`), Requests (`do`, `retryDelay`) with
--               Retries, Client (`Preflight`, `List`, `Delete`) with Deletion, Setup (`New`)
--   Effects     programs that leave a trace of events; no code of the program
--   Metrics     internal/metrics/metrics.go: `New`, `NewScheduler`, `Observe`
--   Scheduler   internal/scheduler/scheduler.go: `loop`, `execute`, `skippedOccurrences` with Gauge, Skipped;
--               Settings and Serving (`ListenAndServe`)
--   Factory     internal/factory/factory.go: `Providers`, with Clients
--   Hook        internal/hook/webhook.go: `Deliver`
--   Cli         internal/cli/root.go: the exit codes of `Execute`, Hooks (`deliverHook`), Commands (the
--               bodies of the commands), Runs (what they do), Loading (`load`, `healthcheck`), Files
--               (`writeJSONAtomic`, `readPlan`), Services (`serve`, `scheduler`, `version`), Whole
--               (`run` over the engine), Flags (the commands that `New` adds, with their flags)
--   Server      internal/server/server.go: `validateBinding` and `authorized`, Run (what the handler of
--               `POST /run` does), Turns (its flag and lock, with any number of requests at once),
--               Routes, Serving (the end of `ListenAndServe`)
--   Report      internal/report/report.go: the text of the tables
--   Examples    runs of the models at concrete inputs
-- A function of the source has the name of its definition in snake case: `Evaluate` is `evaluate`,
-- `Engine.Plan` is `make_plan`, `Policy.Rule` is `rule_of`, `safetyLimit.validate` is
-- `validate_limit`. `Engine.Apply` is the relation `Applies`: its goroutines are one machine (`Run`),
-- whose moves (`Move`, `next`) are the points where they meet, in any order.
--
-- What is a parameter: regexp.Compile, the order in which Go visits a map (`visit_order`; `VisitsAll`
-- says that it visits each key once), SHA-256 (`fingerprint`), float64 (`Float64`, with the
-- laws of IEEE 754 on exact integers, `IsRounded`, where a theorem is about shares), cron expressions,
-- time zones, and what the registries answer: a client's answer to `List` depends on the number of calls
-- before it, and the answer of `Delete` is any. A registry that is not configured, whose client is nil,
-- is an error `nil_client` of `make_plan`, where the program stops with a nil dereference.
--
-- Of HTTP, a parameter says what each request is answered, which may depend on all requests before it; JSON
-- and MIME decoders, Go's resolving of URLs, the waits of timers and the ends of contexts are parameters
-- too. Commands and the scheduler leave a trace of events, and what the world answers may depend on it.
--
-- Bounds and loops. The loops are recursive on their slices. `time.Date` carries months and days on fuel
-- that is the day of the month, which is more than the months carried. A run of `Apply` is of any length.
-- `pages`, the scheduler's loop and `skippedOccurrences` take a number of rounds, and end as `endless` or
-- `none` when it is used up: for `pages` the number of pages is enough, for `skippedOccurrences` one round
-- for each nanosecond and two more. `do` of GitHub has the four attempts of the source.
-- Durations saturate at the ends of an int64, `ParseUint` and `Atoi` refuse what
-- does not fit 64 bits, a `Retry-After` wraps around; lengths and counts of artifacts are natural numbers.
--
-- Files are known by the calls that succeed: what a path holds follows from them, and a renaming replaces a
-- file at once. The ends of the two servers are relations of steps, in which the context may end and
-- handlers may come and go at any time.
--
-- Not modelled: logs; how Cobra reads the flags; SHA-256 and the JSON of plans (`Fingerprint`, `ID`); the
-- layout that `text/tabwriter` gives the tables; the decoding of plans, durations and configurations, which
-- are parameters of the commands.
pub mod Base
pub mod Provider
pub mod Policy
pub mod Config
pub mod Plan
pub mod Engine
pub mod Http
pub mod Oci
pub mod Github
pub mod Effects
pub mod Metrics
pub mod Scheduler
pub mod Hook
pub mod Cli
pub mod Factory
pub mod Server
pub mod Report
pub mod Examples
