-- ===== src/Domain/ArrowState.antt =====
-- internal/domain/arrow.go, the states of an arrow, and the reserved method names.
use quiver_core.Prelude.{
  Str, codes, str_eq, str_eq_iff, Bool, true, false, ◌||◌, List, [], ◌∷◌, ◌≡◌, refl, arith,
  if◌then◌else◌,
}

abbrev pub method_install : Str
method_install = codes "_install"

abbrev pub method_uninstall : Str
method_uninstall = codes "_uninstall"

abbrev pub method_update : Str
method_update = codes "_update"

abbrev pub method_execute : Str
method_execute = codes "_execute"

abbrev pub method_stop : Str
method_stop = codes "_stop"

-- `ArrowState` is an open string type: a manifest may spell a state that is none of the constants.
pub data ArrowState : Type 0 where
  absent installing updating ready running stopping draining : ArrowState
  detached uninstalling removed outdated : ArrowState
  unknown : Str → ArrowState

-- `==` of two states.
unfoldable pub state_eq : ArrowState → ArrowState → Bool
state_eq absent absent = true
state_eq installing installing = true
state_eq updating updating = true
state_eq ready ready = true
state_eq running running = true
state_eq stopping stopping = true
state_eq draining draining = true
state_eq detached detached = true
state_eq uninstalling uninstalling = true
state_eq removed removed = true
state_eq outdated outdated = true
state_eq (unknown s) (unknown t) = str_eq s t
state_eq _ _ = false

pub state_eq_sound : (a b : ArrowState) → state_eq a b ≡ true → a ≡ b
unfolding state_eq
state_eq_sound absent absent h = refl
state_eq_sound (unknown s) (unknown t) h = ground (arith, str_eq_iff s t)
state_eq_sound _ _ h = ground arith

-- The table `transitions`; a state that is no key of it has no entry.
unfoldable pub transitions : ArrowState → List ArrowState
transitions absent = ready ∷ []
transitions ready = running ∷ installing ∷ uninstalling ∷ updating ∷ outdated ∷ []
transitions running = stopping ∷ detached ∷ []
transitions stopping = ready ∷ draining ∷ []
transitions draining = ready ∷ []
transitions detached = ready ∷ stopping ∷ running ∷ []
transitions installing = ready ∷ absent ∷ []
transitions uninstalling = absent ∷ ready ∷ []
transitions updating = ready ∷ absent ∷ []
transitions removed = []
transitions outdated = ready ∷ running ∷ uninstalling ∷ []
transitions (unknown s) = []

unfoldable pub contains_state : List ArrowState → ArrowState → Bool
contains_state [] target = false
contains_state (allowed ∷ rest) target =
    if state_eq allowed target then true else contains_state rest target

unfoldable pub can_transition_to : ArrowState → ArrowState → Bool
unfolding transitions contains_state state_eq
can_transition_to s target = contains_state (transitions s) target

unfoldable pub is_active : ArrowState → Bool
unfolding state_eq
is_active s =
    state_eq s running
    || state_eq s stopping
    || state_eq s draining
    || state_eq s installing
    || state_eq s updating
