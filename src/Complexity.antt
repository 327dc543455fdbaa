-- ===== src/Complexity.antt =====
-- `check_fix_complexity` of src/swe_team/governance.py. What `pathlib` makes of a path, its
-- POSIX form and its parts, are parameters. Sets are lists, and the texts of the reasons are
-- reduced to their kinds.
pub mod Modules
use swe_squad.Prelude.{
  ℕ, String, Bool, true, false, ◌&&◌, not, Option, none, some, List, [], ◌∷◌, length, map, any,
  filter, ltb, str_eq, if◌then◌else◌,
}

pub data Reason : Type 0 where
  passed no_files too_many_files too_many_lines dependency_changes cross_module : Reason

-- `_DEPENDENCY_FILES`
abbrev pub dependency_files : List String
dependency_files =
    "requirements.txt" ∷ "requirements.in" ∷ "pyproject.toml" ∷ "poetry.lock" ∷ "Pipfile"
    ∷ "Pipfile.lock" ∷ "setup.cfg" ∷ "setup.py" ∷ []

unfoldable pub is_in : String → List String → Bool
is_in x xs = any (λ y. str_eq y x) xs

-- A list as a set: each name once.
unfoldable pub distinct : List String → List String
distinct [] = []
distinct (x ∷ xs) = let rest = distinct xs in if is_in x rest then rest else x ∷ rest

abbrev pub is_empty : List String → Bool
is_empty [] = true
is_empty (_ ∷ _) = false

-- `set(allowed_modules or set())`
abbrev pub allowed_or_empty : Option (List String) → List String
allowed_or_empty none = []
allowed_or_empty (some ms) = ms

abbrev pub module_of : List String → String
module_of [] = "unknown"
module_of (p ∷ []) =
    if str_eq p "tests" then "tests" else if str_eq p "scripts" then "scripts" else p
module_of (p ∷ q ∷ rest) =
    if str_eq p "src"
    then q
    else if str_eq p "tests"
    then "tests"
    else if str_eq p "scripts"
    then "scripts"
    else p

unfoldable pub changes_dependencies : (String → String) → List String → Bool
changes_dependencies as_posix files = any (λ f. is_in (as_posix f) dependency_files) files

-- `_module_for_path`
unfoldable pub module_for_path : (String → List String) → String → String
module_for_path parts path = module_of (parts path)

-- The modules of the changed files that are not in `allowed`.
unfoldable pub outside : (String → List String) → List String → List String → List String
outside parts allowed files =
    filter (λ m. not (is_in m allowed)) (distinct (map (module_for_path parts) files))

unfoldable pub check_fix_complexity :
    (as_posix : String → String) (parts : String → List String) (files_changed : List String)
    (lines_changed max_files max_lines : ℕ) (allowed_modules : Option (List String))
    (allow_dependency_changes : Bool)
    → Bool × Reason
check_fix_complexity as_posix parts files lines max_files max_lines allowed_modules
      allow_dependency_changes =
    let allowed = allowed_or_empty allowed_modules in
    if is_empty files
    then (false, no_files)
    else if ltb max_files (length files)
    then (false, too_many_files)
    else if ltb max_lines lines
    then (false, too_many_lines)
    else if not allow_dependency_changes && changes_dependencies as_posix files
    then (false, dependency_changes)
    else if not (is_empty allowed)
    then (if not (is_empty (outside parts ("tests" ∷ allowed) files))
        then (false, cross_module)
        else (true, passed))
    else if ltb 1 (length (outside parts ("tests" ∷ []) files))
    then (false, cross_module)
    else (true, passed)
