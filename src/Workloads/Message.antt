-- ===== src/Workloads/Message.antt =====
-- internal/webhook/workloads/validator.go: the text of a denial.
use Prim.Native.String.{◌++◌}
use kube_freeze_operator.Common.{
  ℕ, String, Bool, not, Option, none, some, List, [], ◌∷◌, if◌then◌else◌,
}
use kube_freeze_operator.Common.Texts.{◌==◌}
use kube_freeze_operator.Api.Kinds.{policy_kind_name}
use kube_freeze_operator.External.{Library}
use kube_freeze_operator.Policy.Types.{PolicyRef, Decision}

abbrev pub ref_name : Option PolicyRef → String
ref_name none = ""
ref_name (some p) = p.name

-- strings.Join.
unfoldable pub join : List String → String → String
join [] sep = ""
join (x ∷ []) sep = x
join (x ∷ (y ∷ ys)) sep = x ++ (sep ++ join (y ∷ ys) sep)

-- `append(parts, …)`: a part that is there goes to the end.
abbrev add_part : Option String → List String → List String
add_part none parts = parts
add_part (some p) parts = p ∷ parts

abbrev policy_part : Option PolicyRef → Option String
policy_part none = none
policy_part (some p) = some ("Denied by " ++ (policy_kind_name p.kind ++ ("/" ++ p.name)))

abbrev reason_part : String → Option String
reason_part reason = if not (reason == "") then some reason else none

abbrev time_part : Library → Option ℕ → Option ℕ → Option String
time_part lib (some t) freeze_end = some ("Next allowed at " ++ lib.format_rfc3339 t)
time_part lib none (some t) = some ("Allowed after " ++ lib.format_rfc3339 t)
time_part lib none none = none

unfoldable pub git_ops_message : Library → Decision → String
git_ops_message lib dec = elim dec.freeze_end_time [
  | some t ↦
      "[freeze-operator] sync blocked by "
      ++ (ref_name dec.matched_policy ++ (" until " ++ lib.format_rfc3339 t))
  | none ↦ "[freeze-operator] sync blocked by " ++ ref_name dec.matched_policy
]

unfoldable pub message_parts : Library → Decision → List String
message_parts lib dec = add_part (policy_part dec.matched_policy) (
    add_part (reason_part dec.reason)
      (add_part (time_part lib dec.next_allowed_time dec.freeze_end_time) []))

unfoldable pub format_deny_message : Library → Decision → Bool → String
format_deny_message lib dec is_git_ops =
    if is_git_ops then git_ops_message lib dec else join (message_parts lib dec) ": "
