-- ===== src/Cli/Files.antt =====
-- `writeJSONAtomic` and `readPlan` of internal/cli/root.go, over the events of a file system, the last
-- one first: what a path holds follows from the events.
pub mod Writing
pub mod Atomic
pub mod Plans
use regbot.Base.{
  true, false, ℕ, List, [], ◌∷◌, ◌++◌, Str, Option, none, some, Result, ok, err, codes, str_eq,
  take, if◌then◌else◌,
}
use regbot.Plan.{Plan}
use regbot.Effects.{Act, ◌>>=◌, ◌>>◌, give, emit, ask}
use mathlib.Core.Option

-- The calls that succeed. `wrote` is with the bytes that were written.
pub data FileEvent : Type 0 where
  created restricted synced closed removed : Str → FileEvent
  wrote : Str → Str → FileEvent
  renamed : Str → Str → FileEvent

-- What a path holds, where `files` was there in the beginning.
abbrev pub content : (Str → Option Str) → List FileEvent → Str → Option Str
content files [] path = files path
content files (created name ∷ h) path = if str_eq path name then some [] else content files h path
content files (restricted name ∷ h) path = content files h path
content files (synced name ∷ h) path = content files h path
content files (closed name ∷ h) path = content files h path
content files (removed name ∷ h) path = if str_eq path name then none else content files h path
content files (wrote name bytes ∷ h) path =
    let rest = content files h path in
    if str_eq path name then Option.map (λ held. held ++ bytes) rest else rest
content files (renamed from to ∷ h) path =
    let moved = content files h from in
    let rest = content files h path in
    if str_eq path to then moved else if str_eq path from then none else rest

-- What the file system answers to the calls: an error, or that they succeed. `create` is
-- `os.CreateTemp(filepath.Dir(path), ".regbot-plan-*")`, by the path; a write that fails may have
-- written some of its bytes.
pub record FileSystem : Type 0 where
  pub create : List FileEvent → Str → Result Str Str
  pub chmod : List FileEvent → Str → Option Str
  pub write : List FileEvent → Str → Str → Option (ℕ × Str)
  pub sync : List FileEvent → Str → Option Str
  pub close : List FileEvent → Str → Option Str
  pub rename : List FileEvent → Str → Str → Option Str
  pub remove : List FileEvent → Str → Option Str

module _ (fs : FileSystem) where
  -- A call whose error is dropped.
  abbrev pub attempt : (List FileEvent → Option Str) → FileEvent → Act FileEvent (Unit {0})
  attempt answer event = ask answer >>= done
    where
      done : Option Str → Act FileEvent (Unit {0})
      done none = emit event
      done (some e) = give tt

  -- A call, and `if err != nil { temp.Close(); return err }` with or without the `Close`.
  abbrev pub check :
      (List FileEvent → Option Str)
      → FileEvent
      → Act FileEvent (Unit {0})
      → Act FileEvent (Option Str)
      → Act FileEvent (Option Str)
  check answer event abandon next = ask answer >>= go_on
    where
      go_on : Option Str → Act FileEvent (Option Str)
      go_on none = emit event >> next
      go_on (some e) = abandon >> give (some e)

  abbrev pub close_quietly : Str → Act FileEvent (Unit {0})
  close_quietly temp = attempt (λ h. fs.close h temp) (closed temp)

  abbrev pub check_write : Str → Str → Act FileEvent (Option Str) → Act FileEvent (Option Str)
  check_write temp bytes next = ask (λ h. fs.write h temp bytes) >>= go_on
    where
      go_on : Option (ℕ × Str) → Act FileEvent (Option Str)
      go_on none = emit (wrote temp bytes) >> next
      go_on (some (n, e)) =
          emit (wrote temp (take n bytes)) >> (close_quietly temp >> give (some e))

  abbrev pub rename_step : Str → Str → Act FileEvent (Option Str)
  rename_step path temp =
      check (λ h. fs.rename h temp path) (renamed temp path) (give tt) (give none)

  -- From `temp.Close` on, and so on.
  abbrev pub close_step : Str → Str → Act FileEvent (Option Str)
  close_step path temp =
      check (λ h. fs.close h temp) (closed temp) (give tt) (rename_step path temp)

  abbrev pub sync_step : Str → Str → Act FileEvent (Option Str)
  sync_step path temp =
      check (λ h. fs.sync h temp) (synced temp) (close_quietly temp) (close_step path temp)

  -- From `temp.Chmod` on.
  unfoldable pub fill : Str → Str → Str → Act FileEvent (Option Str)
  fill path bytes temp =
      check (λ h. fs.chmod h temp) (restricted temp) (close_quietly temp)
        (check_write temp bytes (sync_step path temp))

  -- From `os.CreateTemp` on, with the deferred `os.Remove`.
  unfoldable pub replace_file : Str → Str → Act FileEvent (Option Str)
  unfolding fill
  replace_file path bytes = ask (λ h. fs.create h path) >>= go_on
    where
      go_on : Result Str Str → Act FileEvent (Option Str)
      go_on (err e) = give (some e)
      go_on (ok temp) =
          emit (created temp)
          >> (fill path bytes temp >>= λ answer.
              attempt (λ h. fs.remove h temp) (removed temp) >> give answer)

  -- `marshal` is `json.MarshalIndent`.
  unfoldable pub write_json_atomic :
      (Plan → Result Str Str) → Str → Plan → Act FileEvent (Option Str)
  unfolding replace_file
  write_json_atomic marshal path proposal = elim (marshal proposal) [
    | err e ↦ give (some e)
    | ok bytes ↦ replace_file path (bytes ++ (10 ∷ []))
  ]

-- `decode` is the JSON decoder, which refuses unknown fields.
unfoldable pub read_plan :
    (Str → Option Str) → (Str → Result Str Plan) → Str → List FileEvent → Result Str Plan
read_plan files decode path h = elim (content files h path) [
  | none ↦ err (codes "no such file")
  | some bytes ↦ elim (decode bytes) [
    | ok proposal ↦ ok proposal
    | err e ↦ err (codes "decode plan: " ++ e)
  ]
]
