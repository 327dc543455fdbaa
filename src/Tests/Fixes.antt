-- ===== src/Tests/Fixes.antt =====
-- A fix of two files of one module.
use swe_squad.Prelude.{String, ◌≡◌, refl, true, false, none, List, [], ◌∷◌, str_eq, if◌then◌else◌}
use swe_squad.Complexity.{
  is_in, distinct, outside, changes_dependencies, module_for_path, check_fix_complexity,
}
use swe_squad.Complexity.Modules.{is_valid}

abbrev plain : String → String
plain path = path

-- The parts of the two paths below.
abbrev split : String → List String
split path =
    if str_eq path "src/a/x.py" then "src" ∷ "a" ∷ "x.py" ∷ [] else "src" ∷ "a" ∷ "y.py" ∷ []

abbrev files : List String
files = "src/a/x.py" ∷ "src/a/y.py" ∷ []

valid : is_valid plain split files 120 5 200 none false ≡ true
unfolding check_fix_complexity outside changes_dependencies distinct is_in module_for_path
valid = refl

x_not_tests : str_eq "tests" (module_for_path split "src/a/x.py") ≡ false
unfolding module_for_path
x_not_tests = refl

y_not_tests : str_eq "tests" (module_for_path split "src/a/y.py") ≡ false
unfolding module_for_path
y_not_tests = refl
