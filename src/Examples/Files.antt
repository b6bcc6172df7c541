-- ===== src/Examples/Files.antt =====
-- Runs of `writeJSONAtomic` and `readPlan` of internal/cli/root.go.
use regbot.Base.{
  Bool, true, false, ap, sym, ◌∙◌, [], ◌∷◌, ◌++◌, Str, Option, none, some, Result, ok, err, ◌≡◌,
  refl, codes, str_eq, if◌then◌else◌,
}
use regbot.Plan.{Plan}
use regbot.Cli.Files.{FileSystem, content, fill, replace_file, write_json_atomic, read_plan}
use regbot.Cli.Files.Atomic.{IsReplaced, CreatesFresh}
use regbot.Cli.Files.Plans.{write_json_atomic-IsReplaced, read_plan-write_json_atomic}
use regbot.Examples.Sample.{sample_plan}

abbrev plan_path : Str
plan_path = codes "plan.json"

abbrev old_files : Str → Option Str
old_files path = if str_eq path plan_path then some (codes "old") else none

-- The name of a new file is `t`, unless there is one or it is the path.
abbrev pick : Option Str → Bool → Result Str Str
pick none false = ok (codes "t")
pick none true = err (codes "busy")
pick (some held) b = err (codes "busy")

pick-eq-ok :
    (o : Option Str) (b : Bool) {temp : Str}
    → pick o b ≡ ok temp
    → (o ≡ none) × (b ≡ false) × (codes "t" ≡ temp)
pick-eq-ok none false e = (refl, refl, same_name e)
  where
    same_name : {s t : Str} → ◌≡◌ {A = Result Str Str} (ok s) (ok t) → s ≡ t
    same_name q = cc
pick-eq-ok none true e = cc
pick-eq-ok (some held) b e = cc

abbrev disk : FileSystem
disk = record {
  create = λ h path. pick (content old_files h (codes "t")) (str_eq path (codes "t"));
  chmod = λ h temp. none;
  write = λ h temp bytes. none;
  sync = λ h temp. none;
  close = λ h temp. none;
  rename = λ h temp path. none;
  remove = λ h temp. some (codes "no such file");
}

disk-CreatesFresh : CreatesFresh old_files disk
disk-CreatesFresh h path temp e =
    let (free, apart, t) =
      pick-eq-ok (content old_files h (codes "t")) (str_eq path (codes "t")) e in
    record {
      free = ap (content old_files h) (sym t) ∙ free;
      apart = ap (str_eq path) (sym t) ∙ apart;
    }

abbrev encode : Plan → Result Str Str
encode p = ok (codes "plan of " ++ p.config_fingerprint)

write_json_atomic-IsReplaced_example :
    IsReplaced old_files plan_path
      (codes "plan of policy" ++ (10 ∷ []))
      []
      (write_json_atomic disk encode plan_path sample_plan []).0
      (write_json_atomic disk encode plan_path sample_plan []).1
write_json_atomic-IsReplaced_example =
    write_json_atomic-IsReplaced old_files disk disk-CreatesFresh encode plan_path
      (codes "plan of policy") sample_plan [] refl

abbrev decode_sample : Str → Result Str Plan
decode_sample bytes =
    if str_eq bytes (codes "plan of policy" ++ (10 ∷ []))
    then ok sample_plan
    else err (codes "not a plan")

read_plan-write_json_atomic_example :
    read_plan old_files decode_sample plan_path
      (write_json_atomic disk encode plan_path sample_plan []).1
    ≡ ok sample_plan
unfolding write_json_atomic replace_file fill str_eq
read_plan-write_json_atomic_example =
    read_plan-write_json_atomic old_files disk disk-CreatesFresh encode decode_sample plan_path
      sample_plan [] (λ bytes e. ap decode_sample (ap (λ b. b ++ (10 ∷ [])) (sym (same_text e))))
      refl
  where
    same_text : {s t : Str} → ◌≡◌ {A = Result Str Str} (ok s) (ok t) → s ≡ t
    same_text q = cc
