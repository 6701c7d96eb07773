-- ===== src/Netbridge/Service/Released.antt =====
-- An owner's ports are released, and no others.
use quiver_core.Prelude.{
  ℕ, true, false, Option, none, some, List, [], ◌∷◌, Str, Bool-cases, ◌==◌, ==_iff, ◌≡◌, ◌≢◌, ◌⊎◌,
  inl, inr, refl, sym, ap, ◌∙◌, subst, arith, str_eq, str_eq_iff, Occurs,
}
use quiver_core.Netbridge.Port.{
  PortAllocation, is_live, deallocate_validate, deallocate_emit, find_by_owner,
}
use quiver_core.Netbridge.Search.{Err}
use quiver_core.Netbridge.Service.{
  Service, World, store_released, send_deallocate, and_then, release_all, deallocate_by_owner,
}
use quiver_core.Netbridge.Service.Fresh.{
  store_event_same, store_event_other, IsFreePort, is_live-IsFreePort,
}

-- None of the allocations is live any more.
abbrev AllReleased : List PortAllocation → Service → Type 0
AllReleased [] n = Unit
AllReleased (a ∷ rest) n = (is_live (n.events a.port) ≡ false) × AllReleased rest n

-- A port is as before, or it has no live allocation.
abbrev KeptOrFreed : Service → Service → Type 0
KeptOrFreed n n' = (q : ℕ) → (n'.events q ≡ n.events q) ⊎ (is_live (n'.events q) ≡ false)

-- No listed allocation has the port.
abbrev Unlisted : ℕ → List PortAllocation → Type 0
Unlisted q [] = Unit
Unlisted q (a ∷ rest) = (q ≢ a.port) × Unlisted q rest

-- What one release that succeeds does.
record IsFreed (n n' : Service) (port : ℕ) : Type 0 where
  freed : is_live (n'.events port) ≡ false
  others : (q : ℕ) → q ≢ port → n'.events q ≡ n.events q

store_released-IsFreed :
    (w : World) (n : Service) (port : ℕ) (error : Option Str)
    → (store_released w n port error).1 ≡ none
    → IsFreed n (store_released w n port error).0 port
unfolding store_released deallocate_emit
store_released-IsFreed w n port (some e) h = cc
store_released-IsFreed w n port none h = record {
  freed = ap is_live (store_event_same n.events port _) ∙ unfold is_live in refl;
  others = λ q ne. store_event_other n.events port q _ ne;
}

send_deallocate-IsFreed :
    (w : World) (n : Service) (port : ℕ)
    → (send_deallocate w n port).1 ≡ none
    → IsFreed n (send_deallocate w n port).0 port
unfolding send_deallocate
send_deallocate-IsFreed w n port h = elim (Bool-cases (deallocate_validate (n.events port))) [
  | inl e ↦
      subst (λ r. IsFreed n r.0 port) (sym (validated e))
        (store_released-IsFreed w n port (w.send_error port)
          (subst (λ r. r.1 ≡ none) (validated e) h))
  | inr e ↦ ground (arith, e, h)
]
  where
    validated :
        deallocate_validate (n.events port) ≡ true
        → send_deallocate w n port ≡ store_released w n port (w.send_error port)
    validated e = rw e refl

-- What all the releases do.
record IsReleased (listed : List PortAllocation) (n n' : Service) : Type 0 where
  released : AllReleased listed n'
  kept_or_freed : KeptOrFreed n n'
  unlisted : (q : ℕ) → Unlisted q listed → n'.events q ≡ n.events q

KeptOrFreed-step : (n n' : Service) (port : ℕ) → IsFreed n n' port → KeptOrFreed n n'
KeptOrFreed-step n n' port f q = elim (Bool-cases (q == port)) [
  | inl e ↦ inr (ap (λ k. is_live (n'.events k)) ((==_iff q port).0 e) ∙ f.freed)
  | inr e ↦ inl (f.others q (λ same. cc ((==_iff q port).1 same)))
]

IsReleased-step :
    (a : PortAllocation) (rest : List PortAllocation) (n m n' : Service)
    → IsFreed n m a.port
    → IsReleased rest m n'
    → IsReleased (a ∷ rest) n n'
IsReleased-step a rest n m n' f r = record {
  released = (
    elim (r.kept_or_freed a.port) [ inl same ↦ ap is_live same ∙ f.freed | inr dead ↦ dead ],
    r.released,
  );
  kept_or_freed = λ q. elim (r.kept_or_freed q) [
    | inr dead ↦ inr dead
    | inl same ↦ elim (KeptOrFreed-step n m a.port f q) [
      | inl before ↦ inl (same ∙ before)
      | inr dead ↦ inr (ap is_live same ∙ dead)
    ]
  ];
  unlisted = λ q free. r.unlisted q free.1 ∙ f.others q free.0;
}

and_then-none :
    (r : Service × Option Err) (rest : Service → Service × Option Err)
    → (and_then r rest).1 ≡ none
    → (r.1 ≡ none) × (and_then r rest ≡ rest r.0)
unfolding and_then
and_then-none (n, some e) rest h = cc
and_then-none (n, none) rest h = (refl, refl)

release_all-IsReleased :
    (w : World) (listed : List PortAllocation) (n : Service)
    → (release_all w listed n).1 ≡ none
    → IsReleased listed n (release_all w listed n).0
unfolding release_all
release_all-IsReleased w [] n h = record {
  released = tt;
  kept_or_freed = λ q. inl refl;
  unlisted = λ q free. refl;
}
release_all-IsReleased w (a ∷ rest) n h =
    let (first, same) = and_then-none (send_deallocate w n a.port) (release_all w rest) h in
    let next = (send_deallocate w n a.port).0 in
    let later = release_all-IsReleased w rest next (subst (λ r. r.1 ≡ none) same h) in
    subst (λ r. IsReleased (a ∷ rest) n r.0) (sym same)
      (IsReleased-step a rest n next (release_all w rest next).0
        (send_deallocate-IsFreed w n a.port first) later)

find_by_owner_own :
    (owner : Str) (b : PortAllocation) (rest : List PortAllocation)
    → str_eq b.owner_key owner ≡ true
    → find_by_owner owner (b ∷ rest) ≡ b ∷ find_by_owner owner rest
unfolding find_by_owner
find_by_owner_own owner b rest e = rw e refl

find_by_owner_other :
    (owner : Str) (b : PortAllocation) (rest : List PortAllocation)
    → str_eq b.owner_key owner ≡ false
    → find_by_owner owner (b ∷ rest) ≡ find_by_owner owner rest
unfolding find_by_owner
find_by_owner_other owner b rest e = rw e refl

AllReleased-Occurs :
    (owner : Str) (read_model : List PortAllocation) (n : Service) (a : PortAllocation)
    → AllReleased (find_by_owner owner read_model) n
    → Occurs a read_model
    → a.owner_key ≡ owner
    → is_live (n.events a.port) ≡ false
unfolding find_by_owner
AllReleased-Occurs owner [] n a all at same = absurd at
AllReleased-Occurs owner (b ∷ rest) n a all (inl e) same =
    let own : str_eq b.owner_key owner ≡ true = (str_eq_iff b.owner_key owner).1 (cc) in
    let listed : AllReleased (b ∷ find_by_owner owner rest) n =
      subst (λ t. AllReleased t n) (find_by_owner_own owner b rest own) all in
    ap (λ c. is_live (n.events c.port)) e ∙ listed.0
AllReleased-Occurs owner (b ∷ rest) n a all (inr at) same =
    elim (Bool-cases (str_eq b.owner_key owner)) [
      | inl own ↦
          let listed : AllReleased (b ∷ find_by_owner owner rest) n =
            subst (λ t. AllReleased t n) (find_by_owner_own owner b rest own) all in
          AllReleased-Occurs owner rest n a listed.1 at same
      | inr other ↦
          AllReleased-Occurs owner rest n a
            (subst (λ t. AllReleased t n) (find_by_owner_other owner b rest other) all) at same
    ]

-- No port of the owner in the read model has the number.
abbrev pub IsNotOwned : Str → List PortAllocation → ℕ → Type 0
IsNotOwned owner read_model q =
    (a : PortAllocation) → Occurs a read_model → a.owner_key ≡ owner → q ≢ a.port

Unlisted-IsNotOwned :
    (owner : Str) (read_model : List PortAllocation) (q : ℕ)
    → IsNotOwned owner read_model q
    → Unlisted q (find_by_owner owner read_model)
unfolding find_by_owner
Unlisted-IsNotOwned owner [] q free = tt
Unlisted-IsNotOwned owner (b ∷ rest) q free =
    let later = Unlisted-IsNotOwned owner rest q (λ a at same. free a (inr at) same) in
    elim (Bool-cases (str_eq b.owner_key owner)) [
      | inl own ↦
          let listed : Unlisted q (b ∷ find_by_owner owner rest) =
            (free b (inl refl) ((str_eq_iff b.owner_key owner).0 own), later) in
          subst (Unlisted q) (sym (find_by_owner_own owner b rest own)) listed
      | inr other ↦ subst (Unlisted q) (sym (find_by_owner_other owner b rest other)) later
    ]

-- A release of an owner's ports that succeeds frees every port that the read model has for the
-- owner, and does not change the record of a port that it does not have for the owner.
pub deallocate_by_owner-IsFreePort :
    (list_error : Option Err) (w : World) (owner : Str) (n : Service)
    → (deallocate_by_owner list_error w owner n).1 ≡ none
    → ((a : PortAllocation)
        → Occurs a n.read_model
        → a.owner_key ≡ owner
        → IsFreePort ((deallocate_by_owner list_error w owner n).0.events a.port))
      × ((q : ℕ)
          → IsNotOwned owner n.read_model q
          → (deallocate_by_owner list_error w owner n).0.events q ≡ n.events q)
unfolding deallocate_by_owner
deallocate_by_owner-IsFreePort (some e) w owner n h = cc
deallocate_by_owner-IsFreePort none w owner n h =
    let r = release_all-IsReleased w (find_by_owner owner n.read_model) n h in
    (
      λ a at same.
          is_live-IsFreePort _ (AllReleased-Occurs owner n.read_model _ a r.released at same),
      λ q free. r.unlisted q (Unlisted-IsNotOwned owner n.read_model q free),
    )
