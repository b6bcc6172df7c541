-- ===== src/Cli.antt =====
-- internal/cli/root.go: what the commands do, and the exit code of `Execute`. `F` is float64.
pub mod Commands
pub mod Hooks
pub mod Runs
pub mod Loading
pub mod Files
pub mod Adds
pub mod Services
pub mod Whole
pub mod Flags
use regbot.Base.{
  Bool, true, false, ℕ, List, [], ◌∷◌, Str, Option, none, some, Result, ok, err, codes, str_eq,
  if◌then◌else◌, ◌≡◌, refl, arith,
}
use regbot.Provider.{Time}
use regbot.Plan.{Plan, ApplyResult, ActionOutcome}
use regbot.Config.Types.{Config}
use regbot.Engine.Planning.{
  PlanError, unsafe, bad_rule, nil_client, discovery, no_artifacts, unsupported_parser,
}
use regbot.Engine.Apply.{ApplyError, stale_plan, partial_apply}
use regbot.Config.Secrets.{SecretError}
use regbot.Engine.Preflight.{PreflightError}
use regbot.Hook.{Notice, Codec}
use regbot.Scheduler.Settings.{Settings}

pub data HookError : Type 0 where
  no_secret : SecretError → HookError
  undelivered : Str → HookError

-- What the commands do to the world. `served` is the start of the HTTP server with an address and a
-- token, behind the check of the two, `started_scheduler` that of the
-- scheduler.
pub data Event : Type 0 where
  validated : Event
  planned : Event
  applied : Plan → Event
  wrote : Str → Plan → Event
  printed_plan : Str → Plan → Event
  printed_result : Str → ApplyResult → Event
  posted : Notice → Event
  logged_failure : ActionOutcome → Event
  logged_hook : HookError → Event
  announced : Str → Event
  served : Str → Str → Event
  started_scheduler : Settings → Event

abbrev pub Trace : Type 0
Trace = List Event

-- `invalid` is an error in `configError`.
pub data CommandError : Type 0 where
  invalid : Str → CommandError
  planning : PlanError → CommandError
  applying : ApplyError → CommandError
  unready : PreflightError → CommandError
  other : Str → CommandError

-- What the world answers: the configuration, the engine, files, the output, the environment, the hook's
-- endpoint and the clock.
pub record World (F : Type 0) : Type 0 where
  pub load : Result Str (Config F)
  pub validate : Trace → Result PreflightError (Unit {0})
  pub plan : Trace → Result PlanError Plan
  pub apply : Trace → Plan → ApplyResult × Option ApplyError
  pub read_plan : Str → Result Str Plan
  pub write : Trace → Str → Plan → Option Str
  pub print : Trace → Option Str
  pub environment : Str → Option Str
  pub codec : Codec
  pub post : Trace → Notice → Result Str (ℕ × Str)
  pub now : Trace → Time

abbrev pub Command {ℓ} : Type ℓ → Type ℓ
Command A = Trace → Result CommandError A × Trace

abbrev pub continue {ℓ κ} :
    {A : Type ℓ} {B : Type κ}
    → Result CommandError A × Trace
    → (A → Command B)
    → Result CommandError B × Trace
continue (ok a, h) f = f a h
continue (err e, h) f = (err e, h)

infixl 5 ◌>>=◌
abbrev pub ◌>>=◌ {ℓ κ} : {A : Type ℓ} {B : Type κ} → Command A → (A → Command B) → Command B
◌>>=◌ m f h = continue (m h) f

infixl 5 ◌>>◌
abbrev pub ◌>>◌ {κ} : {B : Type κ} → Command (Unit {0}) → Command B → Command B
m >> k = m >>= λ u. k

abbrev pub give {ℓ} : {A : Type ℓ} → A → Command A
give a h = (ok a, h)

abbrev pub fail {ℓ} : {A : Type ℓ} → CommandError → Command A
fail e h = (err e, h)

abbrev pub emit : Event → Command (Unit {0})
emit e h = (ok tt, e ∷ h)

-- What the world answers.
abbrev pub ask {ℓ} : {A : Type ℓ} → (Trace → A) → Command A
ask f h = (ok (f h), h)

abbrev pub lift {ℓ} : {E : Type 0} {A : Type ℓ} → (E → CommandError) → Result E A → Command A
lift relabel (ok a) = give a
lift relabel (err e) = fail (relabel e)

-- `if err != nil { return err }`
abbrev pub refuse : {E : Type 0} → (E → CommandError) → Option E → Command (Unit {0})
refuse relabel none = give tt
refuse relabel (some e) = fail (relabel e)

-- The exit code of `Execute`.
unfoldable pub exit_code : Result CommandError (Unit {0}) → ℕ
exit_code (ok u) = 0
exit_code (err (invalid e)) = 2
exit_code (err (planning (unsafe e))) = 4
exit_code (err (planning (bad_rule e))) = 1
exit_code (err (planning (nil_client e))) = 1
exit_code (err (planning (discovery p r e))) = 1
exit_code (err (planning (no_artifacts p r))) = 1
exit_code (err (planning (unsupported_parser p))) = 1
exit_code (err (applying stale_plan)) = 5
exit_code (err (applying partial_apply)) = 6
exit_code (err (unready e)) = 1
exit_code (err (other e)) = 1

-- A chain that succeeds is one whose parts do.
pub >>=-eq-ok {ℓ κ} :
    {A : Type ℓ} {B : Type κ} (r : Result CommandError A × Trace) (f : A → Command B) {b : B}
    {h' : Trace}
    → continue r f ≡ (ok b, h')
    → (a : A) × (h1 : Trace) × (r ≡ (ok a, h1)) × (f a h1 ≡ (ok b, h'))
>>=-eq-ok (ok a, h) f e = (a, h, refl, e)
>>=-eq-ok (err x, h) f e = cc

pub exit_code-zero : (r : Result CommandError (Unit {0})) → exit_code r ≡ 0 → r ≡ ok tt
unfolding exit_code
exit_code-zero (ok tt) e = refl
exit_code-zero (err (invalid x)) e = absurd (omega (arith, e))
exit_code-zero (err (planning (unsafe x))) e = absurd (omega (arith, e))
exit_code-zero (err (planning (bad_rule x))) e = absurd (omega (arith, e))
exit_code-zero (err (planning (nil_client x))) e = absurd (omega (arith, e))
exit_code-zero (err (planning (discovery p r x))) e = absurd (omega (arith, e))
exit_code-zero (err (planning (no_artifacts p r))) e = absurd (omega (arith, e))
exit_code-zero (err (planning (unsupported_parser p))) e = absurd (omega (arith, e))
exit_code-zero (err (applying stale_plan)) e = absurd (omega (arith, e))
exit_code-zero (err (applying partial_apply)) e = absurd (omega (arith, e))
exit_code-zero (err (unready x)) e = absurd (omega (arith, e))
exit_code-zero (err (other x)) e = absurd (omega (arith, e))
