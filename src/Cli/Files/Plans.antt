-- ===== src/Cli/Files/Plans.antt =====
-- `regbot plan --out` and `regbot apply --plan` of internal/cli/root.go: the plan that one writes is the
-- plan that the other reads.
use regbot.Base.{[], ◌∷◌, ◌++◌, List, Str, Option, none, some, Result, ok, err, ◌≡◌, refl, ◌∙◌}
use regbot.Plan.{Plan}
use regbot.Cli.Files.{FileEvent, FileSystem, content, replace_file, write_json_atomic, read_plan}
use regbot.Cli.Files.Atomic.{IsReplaced, CreatesFresh, replace_file-IsReplaced}

module _ (fs : FileSystem) (marshal : Plan → Result Str Str) (path : Str) (proposal : Plan)
    (h : List FileEvent) where
  encoded :
      (bytes : Str)
      → marshal proposal ≡ ok bytes
      → write_json_atomic fs marshal path proposal h ≡ replace_file fs path (bytes ++ (10 ∷ [])) h
  unfolding write_json_atomic
  encoded bytes e = rw (write_json_atomic, e) refl

  -- What is not encoded is not written.
  is_encoded :
      (write_json_atomic fs marshal path proposal h).0 ≡ none
      → (bytes : Str) × (marshal proposal ≡ ok bytes)
  unfolding write_json_atomic
  is_encoded done = by_answer (marshal proposal) refl done
    where
      by_answer :
          (r : Result Str Str)
          → marshal proposal ≡ r
          → (write_json_atomic fs marshal path proposal h).0 ≡ none
          → (bytes : Str) × (marshal proposal ≡ ok bytes)
      by_answer (ok bytes) e done' = (bytes, e)
      by_answer (err x) e done' = absurd (failed (rw (write_json_atomic, e) at done'))
        where
          failed : some x ≡ none → ⊥
          failed f = cc

module _ (files : Str → Option Str) (fs : FileSystem) (fresh : CreatesFresh files fs)
    (marshal : Plan → Result Str Str) where
  -- If a new file gets a name that no file has and that is not the path, `writeJSONAtomic` replaces the
  -- file by the encoded plan and a newline as a whole, or leaves it as it was: at each moment of a run
  -- the path holds what it held before, or all the bytes; at the end it holds the bytes if there is no
  -- error, and what it held before if there is one; and no other file that there was is changed. The
  -- temporary file stays only behind an error.
  pub write_json_atomic-IsReplaced :
      (path bytes : Str) (proposal : Plan) (h : List FileEvent)
      → marshal proposal ≡ ok bytes
      → IsReplaced files path
          (bytes ++ (10 ∷ []))
          h
          (write_json_atomic fs marshal path proposal h).0
          (write_json_atomic fs marshal path proposal h).1
  write_json_atomic-IsReplaced path bytes proposal h e =
      rw (encoded fs marshal path proposal h bytes e)
        (replace_file-IsReplaced files fs fresh path (bytes ++ (10 ∷ [])) h)

  -- If a new file gets a name that no file has and that is not the path, and the decoder reads what the
  -- encoder makes of a plan, then
  -- `readPlan` reads that plan when `writeJSONAtomic` has written it without an error.
  pub read_plan-write_json_atomic :
      (decode : Str → Result Str Plan) (path : Str) (proposal : Plan) (h : List FileEvent)
      → ((bytes : Str) → marshal proposal ≡ ok bytes → decode (bytes ++ (10 ∷ [])) ≡ ok proposal)
      → (write_json_atomic fs marshal path proposal h).0 ≡ none
      → read_plan files decode path (write_json_atomic fs marshal path proposal h).1 ≡ ok proposal
  unfolding read_plan replace_file
  read_plan-write_json_atomic decode path proposal h decodes done =
      let (bytes, e) = is_encoded fs marshal path proposal h done in
      let same = encoded fs marshal path proposal h bytes e in
      let whole = bytes ++ (10 ∷ []) in
      let held : content files (replace_file fs path whole h).1 path ≡ some whole =
        (replace_file-IsReplaced files fs fresh path whole h).behind ∙ rw (rw same at done) refl in
      rw (same, held, decodes bytes e) refl
