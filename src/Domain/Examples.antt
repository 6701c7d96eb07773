-- ===== src/Domain/Examples.antt =====
-- The laws of the domain types at concrete values.
use quiver_core.Prelude.{
  pos, negsuc, Occurs, inl, subst, sym, str_eq, List, codes, false, true, [], ◌∷◌, ◌++◌, ◌≡◌, ◌≢◌,
  none, some, refl, cut, if◌then◌else◌, split, onto_first,
}
use quiver_core.Domain.Execution.{Namespace}
use quiver_core.Domain.Requirement.{Requirement}
use quiver_core.Domain.Selector.{RefSnapshot}
use quiver_core.Domain.Portable.{
  PortableApp, PortableRecord, merge, carry, carried, consumed, add_new, incoming, has_name,
  has_entry, Origin, merge-Origin, merge-has_entry,
}
use quiver_core.Domain.Identity.{
  bare_namespace, validate, is_quiver_hosted, get_quid, get_auid, parts, check_segments,
  validate-get_quid,
}
use quiver_core.Domain.Step.{Step, resolve, resolve-resolve}

abbrev interrupt : Step
interrupt = Step.signal (record {
  basic = record { step_type = codes "signal"; exit_on_failure = false; title = [] };
  signal = record {
    default = codes "graceful";
    os_arch = (codes "windows/amd64", codes "kill") ∷ [];
  };
  timeout = record { default = codes "5s"; os_arch = [] };
})

resolve-resolve_example :
    resolve (resolve interrupt (codes "windows/amd64")) (codes "linux/arm64")
    ≡ resolve interrupt (codes "windows/amd64")
resolve-resolve_example = resolve-resolve interrupt (codes "windows/amd64") (codes "linux/arm64")

abbrev hosted : Namespace
hosted = codes "git.io/u/repo/game@v1"

has_reference : (cut 64 hosted).1 ≢ some []
unfolding cut
has_reference e = cc

hosted_validates : validate hosted ≡ none
unfolding validate parts bare_namespace cut split onto_first check_segments
hosted_validates = refl

validate-get_quid_example : bare_namespace hosted ≡ (
    if is_quiver_hosted hosted then get_quid hosted ++ (47 ∷ get_auid hosted) else get_quid hosted)
validate-get_quid_example = validate-get_quid hosted hosted_validates

abbrev app_a : PortableApp
app_a = record { name = codes "a"; entry = codes "bin/a"; icon = [] }

abbrev app_b : PortableApp
app_b = record { name = codes "b"; entry = codes "bin/b"; icon = [] }

abbrev old_apps : PortableRecord
old_apps = record { apps = app_a ∷ app_b ∷ [] }

abbrev new_apps : List PortableApp
new_apps = record app_a { icon = codes "i" } ∷ record app_b { entry = codes "lib/b" } ∷ []

merged : (merge old_apps new_apps).apps ≡ new_apps
unfolding merge carry carried consumed add_new incoming has_name str_eq
merged = refl

in_merged : Occurs (record app_a { icon = codes "i" }) (merge old_apps new_apps).apps
in_merged = subst (Occurs (record app_a { icon = codes "i" })) (sym merged) (inl refl)

merge-Origin_example : Origin (record app_a { icon = codes "i" }) (app_a ∷ app_b ∷ []) new_apps
merge-Origin_example = merge-Origin old_apps new_apps (record app_a { icon = codes "i" }) in_merged

has_lib : has_entry (codes "lib/b") new_apps ≡ true
unfolding has_entry str_eq
has_lib = refl

merge-has_entry_example : has_entry (codes "lib/b") (merge old_apps new_apps).apps ≡ true
merge-has_entry_example = merge-has_entry old_apps new_apps (codes "lib/b") has_lib

abbrev modest : Requirement
modest = record { cpu_cores = pos 2; memory_gb = pos 4; disk_gb = negsuc 0 }

abbrev snapshot : RefSnapshot
snapshot = record { tags = []; branches = (codes "main", codes "beef") ∷ []; head = codes "main" }
