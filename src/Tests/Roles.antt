-- ===== src/Tests/Roles.antt =====
-- An agent that may search, and that an override lets write code for low severities.
use swe_squad.Prelude.{◌≡◌, refl, ◌↔◌, true, [], ◌∷◌, lookup}
use swe_squad.Access.{
  RbacEngine, check_permission, check_overrides, override_applies, has_permission, enforce, passes,
}
use swe_squad.Access.Grants.{IsGranted, check_permission_iff}

abbrev engine : RbacEngine
engine = record {
  roles =
      ("aider", record { enabled = true; permissions = "search" ∷ []; deny = "commit" ∷ [] }) ∷ [];
  overrides =
      record {
        rule = "small fixes";
        tasks = "code_generation" ∷ [];
        severities = "low" ∷ [];
        allow_agents = "aider" ∷ [];
        is_strict = true;
      }
      ∷ [];
}

-- The override holds although nothing is known of the severity.
unknown_severity : (check_permission "aider" "code_generation" "" engine).0 ≡ true
unfolding check_permission check_overrides override_applies has_permission lookup
unknown_severity = refl

check_permission_iff_example :
    (((check_permission "aider" "code_generation" "" engine).0 ≡ true)
      ↔ IsGranted "aider" "code_generation" "" engine)
    × ((enforce "aider" "code_generation" "" engine ≡ passes)
        ↔ IsGranted "aider" "code_generation" "" engine)
check_permission_iff_example = check_permission_iff "aider" "code_generation" "" engine
