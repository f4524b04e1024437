-- ===== src/Fsm/Examples.antt =====
-- A path of the default blueprint.
use magi_system.Prelude.{List, [], ◌∷◌, ◌≡◌, ◌↔◌}
use magi_system.Entity.Case.{CaseStatus, draft, normalizing, context_building}
use magi_system.Fsm.{default_fsm_blueprint, validate_path}
use magi_system.Fsm.Paths.{Walk, validate_path-Walk}

abbrev first_steps : List CaseStatus
first_steps = draft ∷ normalizing ∷ context_building ∷ []

validate_path-Walk_example :
    (validate_path default_fsm_blueprint first_steps ≡ []) ↔ Walk default_fsm_blueprint first_steps
validate_path-Walk_example = validate_path-Walk default_fsm_blueprint first_steps
