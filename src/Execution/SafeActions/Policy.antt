-- ===== src/Execution/SafeActions/Policy.antt =====
-- safe_action_policy.py: what a mode allows. `is_allowed` gives the reason of a denial, or none. The
-- environment of `from_env` comes as the lower-cased profile and the lower-cased live flag.
use quant_embrace_v.Common.{
  ◌≢◌, ◌↔◌, ◌≡◌, ◌⊎◌, Bool, true, false, not, Option, none, some, List, [], ◌∷◌, ◌++◌, ◌||◌, member,
  if◌then◌else◌, arith,
}
use quant_embrace_v.Execution.SafeActions.Models.{
  ActionType, run_reconciliation, attach_exit_policy_paper, repair_paper_zero_qty_open,
  update_paper_direction_from_quantity, force_paper_square_off, block_new_entries,
  pause_strategy_entries, activate_kill_switch, mark_live_readiness_blocked,
  generate_runbook_command, forbidden, type_code, ActionScope, read_only, paper_only,
  risk_reduction, live_human_gated, forbidden_scope, scope_code, TradingMode, paper, backtest,
  live_disabled, live_stage_1, live_full_blocked, Reason, always_forbidden, scope_forbidden,
  scope_not_permitted, type_denied,
}

unfoldable pub always_forbidden_types : List ActionType
always_forbidden_types = forbidden ∷ []

unfoldable pub paper_only_types : List ActionType
paper_only_types =
    attach_exit_policy_paper ∷ repair_paper_zero_qty_open ∷ update_paper_direction_from_quantity
    ∷ force_paper_square_off ∷ []

unfoldable pub mode_allowed_scopes : TradingMode → List ActionScope
mode_allowed_scopes paper = read_only ∷ paper_only ∷ risk_reduction ∷ live_human_gated ∷ []
mode_allowed_scopes backtest = read_only ∷ []
mode_allowed_scopes live_disabled = read_only ∷ risk_reduction ∷ live_human_gated ∷ []
mode_allowed_scopes live_stage_1 = read_only ∷ risk_reduction ∷ live_human_gated ∷ []
mode_allowed_scopes live_full_blocked = read_only ∷ []

unfoldable pub mode_denied_types : TradingMode → List ActionType
mode_denied_types paper = []
mode_denied_types backtest =
    activate_kill_switch ∷ block_new_entries ∷ pause_strategy_entries ∷ mark_live_readiness_blocked
    ∷ force_paper_square_off ∷ run_reconciliation ∷ []
mode_denied_types live_disabled = paper_only_types
mode_denied_types live_stage_1 = paper_only_types
mode_denied_types live_full_blocked =
    paper_only_types ++ block_new_entries ∷ pause_strategy_entries ∷ []

unfoldable pub always_human_gated_scopes : List ActionScope
always_human_gated_scopes = live_human_gated ∷ []

unfoldable pub always_human_gated_types : List ActionType
always_human_gated_types = generate_runbook_command ∷ []

abbrev pub type_in : ActionType → List ActionType → Bool
type_in = member type_code

abbrev pub scope_in : ActionScope → List ActionScope → Bool
scope_in = member scope_code

unfoldable pub is_allowed : TradingMode → ActionType → ActionScope → Option Reason
is_allowed mode type scope =
    if type_in type always_forbidden_types
    then some always_forbidden
    else if scope_in scope (forbidden_scope ∷ [])
    then some scope_forbidden
    else if not (scope_in scope (mode_allowed_scopes mode))
    then some scope_not_permitted
    else if type_in type (mode_denied_types mode)
    then some type_denied
    else none

unfoldable pub needs_approval : ActionType → ActionScope → Bool
needs_approval type scope =
    scope_in scope always_human_gated_scopes || type_in type always_human_gated_types

-- `RISK_PROFILE`: the two names that matter, or another one.
pub data Profile : Type 0 where
  paper_profile tiny_live other_profile : Profile

-- `QE_EXECUTION_LIVE_TRADING_ENABLED`: one of 1, true, yes, or anything else.
pub data LiveFlag : Type 0 where
  one yes true_text other_text : LiveFlag

unfoldable pub live_enabled : LiveFlag → Bool
live_enabled one = true
live_enabled yes = true
live_enabled true_text = true
live_enabled other_text = false

abbrev is_paper_profile : Profile → Bool
is_paper_profile paper_profile = true
is_paper_profile tiny_live = false
is_paper_profile other_profile = false

abbrev is_tiny_live : Profile → Bool
is_tiny_live paper_profile = false
is_tiny_live tiny_live = true
is_tiny_live other_profile = false

unfoldable pub from_env : Profile → LiveFlag → TradingMode
from_env profile flag =
    if not (live_enabled flag)
    then (if is_paper_profile profile then paper else live_disabled)
    else if is_tiny_live profile
    then live_stage_1
    else live_full_blocked

-- What an allowed action is not: its type and its scope are not the forbidden ones, and a type
-- that repairs paper state is allowed in no live mode, whatever scope the action claims.
pub allowed_is_confined :
    (mode : TradingMode) (type : ActionType) (scope : ActionScope)
    → is_allowed mode type scope ≡ none
    → (type ≢ forbidden)
      × (scope ≢ forbidden_scope)
      × ((type_in type paper_only_types ≡ false) ⊎ (mode ≡ paper) ⊎ (mode ≡ backtest))
unfolding is_allowed mode_denied_types always_forbidden_types paper_only_types
allowed_is_confined mode type scope h = ground arith

-- The environment gives a mode in which paper state may be repaired only while the live flag is
-- off, and the first live stage only where the flag is on and the profile is tiny-live.
pub from_env_cases :
    (profile : Profile) (flag : LiveFlag)
    → ((from_env profile flag ≡ paper) ↔ (profile ≡ paper_profile) × (flag ≡ other_text))
      × ((from_env profile flag ≡ live_stage_1) ↔ (profile ≡ tiny_live) × (flag ≢ other_text))
      × (from_env profile flag ≢ backtest)
unfolding from_env live_enabled
from_env_cases profile flag = ground arith
