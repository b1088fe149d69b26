-- ===== src/Metrics/Manager.antt =====
-- public/metrics/DetectorMetricsManager.ts: which steps of the creation of a detector are reported.
pub mod Masks
pub mod Steps
use Prim.Native.Nat.{bit_and, bit_or}
use wazuh_dashboard_security.Base.{
  ℕ, String, Bool, not, ◌&&◌, nat_eq, ◌==◌, Option, none, some, if◌then◌else◌,
}

-- CreateDetectorSteps
pub data Step : Type 0 where
  not_started started source_selected log_type_configured rules_configured : Step
  field_mappings_configured threat_intel_configured step_two_initiated trigger_configured : Step
  create_clicked : Step

-- CreateDetectorStepValue
abbrev pub step_value : Step → ℕ
step_value not_started = 0
step_value started = 1
step_value source_selected = 2
step_value log_type_configured = 4
step_value rules_configured = 8
step_value field_mappings_configured = 16
step_value threat_intel_configured = 32
step_value step_two_initiated = 64
step_value trigger_configured = 128
step_value create_clicked = 256

abbrev pub step_name : Step → String
step_name not_started = "notStarted"
step_name started = "started"
step_name source_selected = "sourceSelected"
step_name log_type_configured = "logTypeConfigured"
step_name rules_configured = "rulesConfigured"
step_name field_mappings_configured = "fieldMappingsConfigured"
step_name threat_intel_configured = "threatIntelConfigured"
step_name step_two_initiated = "stepTwoInitiated"
step_name trigger_configured = "triggerConfigured"
step_name create_clicked = "createClicked"

-- The state is the mask stepsLogged.
abbrev pub initial_checkpoint : ℕ
initial_checkpoint = step_value not_started

unfoldable pub metric_emitted_for_step : ℕ → ℕ → Bool
metric_emitted_for_step steps_logged value = nat_eq (bit_and steps_logged value) value

-- stepNameForCounter || step
abbrev pub counter_name : Option String → Step → String
counter_name none step = step_name step
counter_name (some name) step = if name == "" then step_name step else name

-- The metric that is reported, if one is, and the mask after it.
unfoldable pub send_metrics : Step → Option String → ℕ → Option String × ℕ
unfolding metric_emitted_for_step
send_metrics step name steps_logged =
    let value = step_value step in
    if not (nat_eq value (step_value started))
      && not (metric_emitted_for_step steps_logged (step_value started))
    then (none, steps_logged)
    else (if metric_emitted_for_step steps_logged value
        then (none, steps_logged)
        else (some (counter_name name step), bit_or steps_logged value))

unfoldable pub reset_metrics : ℕ → ℕ
reset_metrics steps_logged = initial_checkpoint
