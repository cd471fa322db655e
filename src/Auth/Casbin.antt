-- ===== src/Auth/Casbin.antt =====
-- pkg/casbin/casbin.go: the wrapper of the Casbin enforcer. The enforcer itself is third-party code:
-- its decision is a function of the request, given as a parameter.
use personal_assistant.Base.{ℕ, Bool, ◌||◌, ◌∷◌, ◌++◌, Option, none, some, if◌then◌else◌}
use personal_assistant.Base.Text.{Text, lit, is_nil, trim_space}
use personal_assistant.Base.Decimal.{show_nat}
use personal_assistant.Base.Result.{Result, ok, err}

pub data CasbinError : Type 0 where
  enforcer_is_nil argument_is_empty enforcer_failed : CasbinError

-- The enforcer's answer to a subject, an object and an action; `none` is an error it reports.
abbrev pub Enforcer : Type 0
Enforcer = Text → Text → Text → Option Bool

abbrev pub action_access : Text
action_access = lit "access"

abbrev pub action_operate : Text
action_operate = lit "operate"

-- fmt.Sprintf("%d@%d", userID, orgID)
unfoldable pub build_subject : ℕ → ℕ → Text
build_subject user_id org_id = show_nat user_id ++ 64 ∷ show_nat org_id

abbrev pub require_enforcer : Option Enforcer → Result CasbinError Enforcer
require_enforcer none = err enforcer_is_nil
require_enforcer (some enforcer) = ok enforcer

abbrev pub answer : Option Bool → Result CasbinError Bool
answer none = err enforcer_failed
answer (some allowed) = ok allowed

abbrev pub enforce_trimmed : Enforcer → Text → Text → Text → Result CasbinError Bool
enforce_trimmed enforcer subject object action =
    if is_nil subject || is_nil object || is_nil action
    then err argument_is_empty
    else answer (enforcer subject object action)

unfoldable pub has_permission : Option Enforcer → Text → Text → Text → Result CasbinError Bool
has_permission held subject object action = elim (require_enforcer held) [
  | err problem ↦ err problem
  | ok enforcer ↦
      enforce_trimmed enforcer (trim_space subject) (trim_space object) (trim_space action)
]
