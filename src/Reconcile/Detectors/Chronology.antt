-- ===== src/Reconcile/Detectors/Chronology.antt =====
-- When the detectors of src/intent_engineering/reconcile/detectors.py fire.
use intent_engineer.Base.{String, true, none, ◌≡◌, arith, is_some}
use intent_engineer.Reconcile.Drift.{DetectionInput, Payload, order}
use intent_engineer.Reconcile.Detectors.{
  requirement_lags, code_lags, detect_requirement_lag, detect_code_lag,
}

-- By the time stamps alone, a requirement cannot be both behind its implementation and ahead of it:
-- where the requirement is found to lag, the code is not.
lags_exclusive :
    (digest : Payload → String) (input : DetectionInput)
    → input.requirement_implementation_order ≡ none
    → input.decision_requirement_order ≡ none
    → input.implementation_decision_order ≡ none
    → is_some (detect_requirement_lag digest input) ≡ true
    → detect_code_lag digest input ≡ none
unfolding detect_requirement_lag detect_code_lag requirement_lags code_lags order
lags_exclusive digest input ri dr id lag = ground arith
