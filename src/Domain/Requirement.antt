-- ===== src/Domain/Requirement.antt =====
-- internal/domain/requirement.go: the least machine that an arrow asks for.
use quiver_core.Prelude.{
  ℤ, pos, lt_int, not, ◌&&◌, Bool, true, Option, none, some, if◌then◌else◌, ◌≡◌, ◌↔◌, arith,
}

abbrev min_cpu_cores : ℤ
min_cpu_cores = pos 1

abbrev min_memory_gb : ℤ
min_memory_gb = pos 1

abbrev min_disk_gb : ℤ
min_disk_gb = pos 1

pub record Requirement : Type 0 where
  pub cpu_cores : ℤ
  pub memory_gb : ℤ
  pub disk_gb : ℤ

unfoldable pub is_valid : Requirement → Bool
is_valid r =
    not (lt_int r.cpu_cores min_cpu_cores)
    && (not (lt_int r.memory_gb min_memory_gb) && not (lt_int r.disk_gb min_disk_gb))

pub data RequirementErr : Type 0 where
  cpu_cores_below memory_gb_below disk_gb_below : ℤ → RequirementErr

unfoldable pub validate : Requirement → Option RequirementErr
validate r =
    if lt_int r.cpu_cores min_cpu_cores
    then some (cpu_cores_below r.cpu_cores)
    else if lt_int r.memory_gb min_memory_gb
    then some (memory_gb_below r.memory_gb)
    else if lt_int r.disk_gb min_disk_gb
    then some (disk_gb_below r.disk_gb)
    else none

-- A requirement is valid just when its validation returns no error.
pub is_valid-validate : (r : Requirement) → (is_valid r ≡ true) ↔ (validate r ≡ none)
unfolding is_valid validate
is_valid-validate r =
    by_tests (lt_int r.cpu_cores min_cpu_cores) (lt_int r.memory_gb min_memory_gb)
      (lt_int r.disk_gb min_disk_gb)
  where
    by_tests :
        (c m d : Bool)
        → ((not c && (not m && not d)) ≡ true) ↔ (
            (if c
              then some (cpu_cores_below r.cpu_cores)
              else if m
              then some (memory_gb_below r.memory_gb)
              else if d
              then some (disk_gb_below r.disk_gb)
              else none)
            ≡ none)
    by_tests c m d = ground arith
