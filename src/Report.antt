-- ===== src/Report.antt =====
-- `PlanTable` and `ResultTable` of internal/report/report.go: the text that they give to Go's
-- `text/tabwriter`, whose answer to it is a parameter.
use regbot.Base.{List, [], ◌∷◌, ◌++◌, Str, Option, codes, length, ℤ, pos, negsuc, suc, join}
use regbot.Plan.{Plan, Action, ApplyResult, ActionOutcome, status_text}
use regbot.Policy.Calendar.Decimals.{decimal}

-- `%d`
abbrev pub integer_text : ℤ → Str
integer_text (pos n) = decimal n
integer_text (negsuc n) = b'-' ∷ decimal (suc n)

-- `%v` of a slice of texts.
abbrev pub list_text : List Str → Str
list_text texts = b'[' ∷ (join b' ' texts ++ (b']' ∷ []))

-- Cells with tabs between them, and the end of the line.
abbrev pub line : List Str → Str
line cells = join 9 cells ++ (10 ∷ [])

abbrev pub action_line : Action → Str
action_line a = line (
    codes "DELETE"
    ∷ a.artifact.registry
    ∷ a.artifact.repository
    ∷ list_text a.artifact.tags
    ∷ a.artifact.id
    ∷ list_text a.reason_codes
    ∷ [])

abbrev pub action_lines : List Action → Str
action_lines [] = []
action_lines (a ∷ actions) = action_line a ++ action_lines actions

-- `plan_id` is the plan's `ID`.
unfoldable pub plan_text : Str → Plan → Str
plan_text plan_id p =
    line (
      codes "ACTION"
      ∷ codes "REGISTRY"
      ∷ codes "REPOSITORY"
      ∷ codes "TAGS"
      ∷ codes "DIGEST/ID"
      ∷ codes "REASON"
      ∷ [])
    ++ (action_lines p.actions
        ++ (10
            ∷ line (
                (codes "Discovered: " ++ decimal p.discovered_count)
                ∷ (codes "Protected: " ++ decimal p.protected_count)
                ∷ (codes "Planned deletions: " ++ decimal (length p.actions))
                ∷ (codes "Plan ID: " ++ plan_id)
                ∷ [])))

-- `flush` is what the writer of tables answers to all of the text.
unfoldable pub plan_table : (Str → Option Str) → Str → Plan → Option Str
plan_table flush plan_id p = flush (plan_text plan_id p)

abbrev pub outcome_line : ActionOutcome → Str
outcome_line o = line (
    status_text o.status
    ∷ o.action.artifact.registry
    ∷ o.action.artifact.repository
    ∷ o.action.artifact.id
    ∷ o.error
    ∷ [])

abbrev pub outcome_lines : List ActionOutcome → Str
outcome_lines [] = []
outcome_lines (o ∷ outcomes) = outcome_line o ++ outcome_lines outcomes

unfoldable pub result_text : ApplyResult → Str
result_text r =
    line (codes "STATUS" ∷ codes "REGISTRY" ∷ codes "REPOSITORY" ∷ codes "ID" ∷ codes "ERROR" ∷ [])
    ++ (outcome_lines r.outcomes
        ++ (10
            ∷ line (
                (codes "Planned: " ++ decimal r.planned)
                ∷ (codes "Deleted: " ++ decimal r.deleted)
                ∷ (codes "Skipped: " ++ integer_text r.skipped)
                ∷ (codes "Failed: " ++ decimal r.failed)
                ∷ [])))

unfoldable pub result_table : (Str → Option Str) → ApplyResult → Option Str
result_table flush r = flush (result_text r)
