-- ===== src/Execution/SafeActions/Classifier.antt =====
-- safe_action_classifier.py: the response to a finding of the monitoring agent or to a raw
-- observation. A code or a key is one of those in the tables, or an unknown one; the reasoning text is left out.
use quant_embrace_v.Common.{
  ◌≡◌, ◌≢◌, ◌↔◌, ◌⊎◌, Bool, true, false, Option, none, some, List, [], ◌∷◌, arith,
}
use quant_embrace_v.Execution.SafeActions.Models.{
  ActionType, read_runtime_state, send_alert, run_reconciliation, attach_exit_policy_paper,
  repair_paper_zero_qty_open, update_paper_direction_from_quantity, block_new_entries,
  activate_kill_switch, mark_live_readiness_blocked, generate_runbook_command, forbidden,
  ClassificationResult, alert_only, paper_repair, reduce_risk, block_entries, kill_switch, never,
  Subject, ai_engine, execution_engine, risk_engine, other_service,
}
use quant_embrace_v.Execution.SafeActions.Policy.{type_in, paper_only_types}

pub data FindingCode : Type 0 where
  service_down service_degraded : FindingCode
  kafka_unreachable kafka_missing_topics kafka_group_idle kafka_group_lag_critical : FindingCode
  kafka_group_lag_warning kafka_group_offset_read_error : FindingCode
  dynamodb_down dynamodb_degraded : FindingCode
  broker_state_unknown broker_no_fresh_prices broker_feed_very_stale broker_feed_stale : FindingCode
  docker_restart_loop docker_restarting docker_down logs_errors_present : FindingCode
  unknown_code : FindingCode

pub data ObservationKey : Type 0 where
  reconciliation_required_live reconciliation_required_paper kill_switch_active : ObservationKey
  paper_position_missing_exit_policy paper_position_zero_qty_open : ObservationKey
  paper_position_direction_mismatch unmanaged_live_position stale_ltp_market_hours : ObservationKey
  unknown_key : ObservationKey

pub record Classified : Type 0 where
  pub classification : ClassificationResult
  pub proposed_action_types : List ActionType
  pub suppress_docker_restart : Bool

verdict : ClassificationResult → List ActionType → Classified
verdict c ts = record {
  classification = c;
  proposed_action_types = ts;
  suppress_docker_restart = true;
}

abbrev Entry : Type 0
Entry = ClassificationResult × List ActionType

unfoldable pub code_table : FindingCode → Option Entry
code_table service_down = some (kill_switch, activate_kill_switch ∷ send_alert ∷ [])
code_table service_degraded = some (alert_only, send_alert ∷ [])
code_table kafka_unreachable = some (kill_switch, activate_kill_switch ∷ send_alert ∷ [])
code_table kafka_missing_topics = some (block_entries, block_new_entries ∷ send_alert ∷ [])
code_table kafka_group_idle = some (alert_only, send_alert ∷ read_runtime_state ∷ [])
code_table kafka_group_lag_critical = some (block_entries, block_new_entries ∷ send_alert ∷ [])
code_table kafka_group_lag_warning = some (alert_only, send_alert ∷ [])
code_table kafka_group_offset_read_error = some (alert_only, send_alert ∷ [])
code_table dynamodb_down = some (kill_switch, activate_kill_switch ∷ send_alert ∷ [])
code_table dynamodb_degraded = some (block_entries, block_new_entries ∷ send_alert ∷ [])
code_table broker_state_unknown = some (alert_only, send_alert ∷ read_runtime_state ∷ [])
code_table broker_no_fresh_prices = some (block_entries, block_new_entries ∷ send_alert ∷ [])
code_table broker_feed_very_stale = some (block_entries, block_new_entries ∷ send_alert ∷ [])
code_table broker_feed_stale = some (alert_only, send_alert ∷ [])
code_table docker_restart_loop = some (alert_only, send_alert ∷ generate_runbook_command ∷ [])
code_table docker_restarting = some (alert_only, send_alert ∷ [])
code_table docker_down = some (alert_only, send_alert ∷ generate_runbook_command ∷ [])
code_table logs_errors_present = some (alert_only, send_alert ∷ [])
code_table unknown_code = none

-- The three keys of the dictionary; every other pair is not in it.
ai_override : FindingCode → Option Entry
ai_override service_down = some (alert_only, block_new_entries ∷ send_alert ∷ [])
ai_override docker_down =
    some (alert_only, block_new_entries ∷ send_alert ∷ generate_runbook_command ∷ [])
ai_override docker_restart_loop =
    some (alert_only, block_new_entries ∷ send_alert ∷ generate_runbook_command ∷ [])
ai_override service_degraded = none
ai_override kafka_unreachable = none
ai_override kafka_missing_topics = none
ai_override kafka_group_idle = none
ai_override kafka_group_lag_critical = none
ai_override kafka_group_lag_warning = none
ai_override kafka_group_offset_read_error = none
ai_override dynamodb_down = none
ai_override dynamodb_degraded = none
ai_override broker_state_unknown = none
ai_override broker_no_fresh_prices = none
ai_override broker_feed_very_stale = none
ai_override broker_feed_stale = none
ai_override docker_restarting = none
ai_override logs_errors_present = none
ai_override unknown_code = none

unfoldable pub subject_override : Subject → FindingCode → Option Entry
unfolding ai_override
subject_override ai_engine code = ai_override code
subject_override execution_engine code = none
subject_override risk_engine code = none
subject_override other_service code = none

unfoldable pub raw_observation_table : ObservationKey → Option Entry
raw_observation_table reconciliation_required_live =
    some (block_entries, block_new_entries ∷ send_alert ∷ mark_live_readiness_blocked ∷ [])
raw_observation_table reconciliation_required_paper =
    some (reduce_risk, run_reconciliation ∷ send_alert ∷ [])
raw_observation_table kill_switch_active = some (alert_only, send_alert ∷ [])
raw_observation_table paper_position_missing_exit_policy =
    some (paper_repair, attach_exit_policy_paper ∷ send_alert ∷ [])
raw_observation_table paper_position_zero_qty_open =
    some (paper_repair, repair_paper_zero_qty_open ∷ send_alert ∷ [])
raw_observation_table paper_position_direction_mismatch =
    some (paper_repair, update_paper_direction_from_quantity ∷ send_alert ∷ [])
raw_observation_table unmanaged_live_position =
    some (kill_switch, activate_kill_switch ∷ send_alert ∷ [])
raw_observation_table stale_ltp_market_hours =
    some (block_entries, block_new_entries ∷ send_alert ∷ [])
raw_observation_table unknown_key = none

unfoldable pub classify_finding : FindingCode → Subject → Classified
unfolding verdict
classify_finding code subject = elim (subject_override subject code) [
  | some e ↦ verdict e.0 e.1
  | none ↦ elim (code_table code) [
    | some e ↦ verdict e.0 e.1
    | none ↦ verdict alert_only (send_alert ∷ [])
  ]
]

unfoldable pub classify_raw : ObservationKey → Classified
unfolding verdict
classify_raw key = elim (raw_observation_table key) [
  | some e ↦ verdict e.0 e.1
  | none ↦ verdict alert_only (send_alert ∷ [])
]

unfoldable pub classify_forbidden_context : Classified
unfolding verdict
classify_forbidden_context = verdict never (forbidden ∷ [])

abbrev pub proposes : ActionType → Classified → Bool
proposes type o = type_in type o.proposed_action_types

-- A verdict on a finding is of one piece with its proposals: an alert is always among them, the
-- kill switch is proposed exactly under its own verdict, entries are blocked under their own
-- verdict and for a failing ai_engine, and neither a paper repair nor the forbidden type is proposed.
pub classify_finding_coherent :
    (code : FindingCode) (subject : Subject) (type : ActionType)
    → let o = classify_finding code subject in
      (proposes send_alert o ≡ true)
      × (o.suppress_docker_restart ≡ true)
      × ((proposes activate_kill_switch o ≡ true) ↔ (o.classification ≡ kill_switch))
      × ((proposes block_new_entries o ≡ false)
          ⊎ (o.classification ≡ block_entries)
          ⊎ (subject ≡ ai_engine))
      × ((proposes type o ≡ false) ⊎ (type_in type paper_only_types ≡ false) × (type ≢ forbidden))
unfolding classify_finding code_table subject_override paper_only_types
classify_finding_coherent code subject type = ground arith

-- When the ai_engine itself or its container fails, the kill switch stays off: entries are blocked
-- and the verdict is an alert.
pub ai_engine_never_kills :
    (code : FindingCode)
    → (code ≡ service_down) ⊎ (code ≡ docker_down) ⊎ (code ≡ docker_restart_loop)
    → let o = classify_finding code ai_engine in
      (o.classification ≡ alert_only)
      × (proposes block_new_entries o ≡ true)
      × (proposes activate_kill_switch o ≡ false)
unfolding classify_finding subject_override
ai_engine_never_kills code h = ground arith

-- A verdict on a raw observation is of one piece with its proposals: an alert is always among
-- them, the kill switch is proposed exactly under its own verdict, a type that repairs paper state
-- only under the verdict of a paper repair, and the forbidden type never.
pub classify_raw_coherent :
    (key : ObservationKey) (type : ActionType)
    → let o = classify_raw key in
      (proposes send_alert o ≡ true)
      × ((proposes activate_kill_switch o ≡ true) ↔ (o.classification ≡ kill_switch))
      × ((proposes type o ≡ false)
          ⊎ (type ≢ forbidden)
            × ((type_in type paper_only_types ≡ false) ⊎ (o.classification ≡ paper_repair)))
unfolding classify_raw raw_observation_table paper_only_types
classify_raw_coherent key type = ground arith
