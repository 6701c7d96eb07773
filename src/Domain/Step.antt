-- ===== src/Domain/Step.antt =====
-- internal/domain/runtime/step: the steps of a method, and their overrides per platform.
use quiver_core.Prelude.{Str, Bool, Option, none, some, List, [], Dict, lookup, ◌≡◌, refl}

-- A value with overrides by OS/arch.
pub record Overrideable (A : Type 0) : Type 0 where
  pub default : A
  pub os_arch : Dict A

unfoldable pub value_or {ℓ} : {A : Type ℓ} → Option A → A → A
value_or (some v) d = v
value_or none d = d

-- `Overrideable.Resolve`
unfoldable pub resolve_value : {A : Type 0} → Overrideable A → Str → A
unfolding value_or
resolve_value o os_arch = value_or (lookup os_arch o.os_arch) o.default

-- `Overrideable[T]{Default: v}`
unfoldable pub only_default : {A : Type 0} → A → Overrideable A
only_default v = record { default = v; os_arch = [] }

pub record BasicStep : Type 0 where
  pub step_type : Str
  pub exit_on_failure : Bool
  pub title : Str

pub record UiOptions : Type 0 where
  pub title : Str
  pub path : Str
  pub listen : List Str
  pub static : Str

pub record RunStep : Type 0 where
  pub basic : BasicStep
  pub command : Overrideable Str
  pub elevated : Overrideable Bool
  pub timeout : Overrideable Str
  pub ui : Option UiOptions

pub record FetchStep : Type 0 where
  pub basic : BasicStep
  pub url : Overrideable Str
  pub to : Overrideable Str
  pub checksum : Overrideable Str
  pub timeout : Overrideable Str

pub record ExtractStep : Type 0 where
  pub basic : BasicStep
  pub from : Overrideable Str
  pub to : Overrideable Str
  pub timeout : Overrideable Str

pub record PortableStep : Type 0 where
  pub basic : BasicStep
  pub from : Overrideable Str
  pub to : Overrideable Str
  pub timeout : Overrideable Str
  pub name : Str

-- The kind of a signal is one of three strings.
pub record SignalStep : Type 0 where
  pub basic : BasicStep
  pub signal : Overrideable Str
  pub timeout : Overrideable Str

pub record ExposeStep : Type 0 where
  pub basic : BasicStep
  pub kind : Str
  pub name : Str
  pub path : Str
  pub icon : Str
  pub categories : List Str
  pub media_icon : Str

-- The types that implement the interface `Step`.
pub data Step : Type 0 where
  run : RunStep → Step
  fetch : FetchStep → Step
  extract : ExtractStep → Step
  portable : PortableStep → Step
  signal : SignalStep → Step
  dependencies : BasicStep → Step
  expose : ExposeStep → Step
  unexpose : BasicStep → Step

-- `Step.Resolve` of each type.
unfoldable pub resolve : Step → Str → Step
unfolding resolve_value only_default
resolve (run s) os = run (record s {
  command = only_default (resolve_value s.command os);
  elevated = only_default (resolve_value s.elevated os);
  timeout = only_default (resolve_value s.timeout os);
})
resolve (fetch s) os = fetch (record s {
  url = only_default (resolve_value s.url os);
  to = only_default (resolve_value s.to os);
  checksum = only_default (resolve_value s.checksum os);
  timeout = only_default (resolve_value s.timeout os);
})
resolve (extract s) os = extract (record s {
  from = only_default (resolve_value s.from os);
  to = only_default (resolve_value s.to os);
  timeout = only_default (resolve_value s.timeout os);
})
resolve (portable s) os = portable (record s {
  from = only_default (resolve_value s.from os);
  to = only_default (resolve_value s.to os);
  timeout = only_default (resolve_value s.timeout os);
})
resolve (signal s) os = signal (record s {
  signal = only_default (resolve_value s.signal os);
  timeout = only_default (resolve_value s.timeout os);
})
resolve (dependencies b) os = dependencies b
resolve (expose s) os = expose s
resolve (unexpose b) os = unexpose b

-- Resolving twice is resolving once: for any two platforms, what the first resolution chose stays.
pub resolve-resolve : (s : Step) (os other : Str) → resolve (resolve s os) other ≡ resolve s os
unfolding resolve lookup
resolve-resolve (run s) os other = refl
resolve-resolve _ os other = refl
