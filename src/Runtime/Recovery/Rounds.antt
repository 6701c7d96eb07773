-- ===== src/Runtime/Recovery/Rounds.antt =====
-- internal/app/repositories/runtime/internal/recovery.go: the rounds of a recovery, for one aggregate.
use quiver_core.Prelude.{
  contains, Bool, true, false, Option, none, some, List, [], ◌∷◌, str_eq, str_eq_iff, Dict, lookup,
  lookup-insert, if◌then◌else◌, Bool-cases, ◌≡◌, inl, inr, refl, ap, ◌∙◌, subst,
}
use quiver_core.Domain.Execution.{Namespace, ArrowRuntime}
use quiver_core.Runtime.Recovery.Collected.{IsOnce, collect-IsOnce}
use quiver_core.Runtime.Recovery.{
  World, Recovered, collect_recovery_namespaces, recover, put_runtime, recover_one, recover_all,
  recover_transients,
}

-- What stands in the store for an aggregate after a round.
abbrev pub put_or : Option ArrowRuntime → Option ArrowRuntime → Option ArrowRuntime
put_or none current = current
put_or (some rt) current = some rt

lookup-put_runtime :
    (ns other : Namespace) (o : Option ArrowRuntime) (runtimes : Dict ArrowRuntime)
    → lookup other (put_runtime ns o runtimes)
      ≡ (if str_eq ns other then put_or o (lookup other runtimes) else lookup other runtimes)
unfolding put_runtime
lookup-put_runtime ns other (some rt) runtimes = lookup-insert ns other rt runtimes
lookup-put_runtime ns other none runtimes = same (str_eq ns other)
  where
    same :
        (b : Bool)
        → lookup other runtimes ≡ (if b then lookup other runtimes else lookup other runtimes)
    same true = refl
    same false = refl

-- The state of an aggregate after a round of its own.
abbrev pub settled_by : World → Namespace → Option ArrowRuntime → Option ArrowRuntime
settled_by w ns current = put_or (recover w ns current) current

lookup-recover_one :
    (w : World) (s : Recovered) (ns other : Namespace)
    → lookup other (recover_one w s ns).runtimes ≡ (
        if str_eq ns other
        then settled_by w other (lookup other s.runtimes)
        else lookup other s.runtimes)
unfolding recover_one
lookup-recover_one w s ns other =
    lookup-put_runtime ns other (recover w ns (lookup ns s.runtimes)) s.runtimes
    ∙ elim (Bool-cases (str_eq ns other)) [
      | inl e ↦ rw e (
          ap (λ n. put_or (recover w n (lookup n s.runtimes)) (lookup other s.runtimes))
            ((str_eq_iff ns other).0 e))
      | inr e ↦ rw e refl
    ]

-- A round for each namespace of a list takes each aggregate once.
lookup-recover_all :
    (w : World) (s : Recovered) (list : List Namespace) (ns : Namespace)
    → IsOnce list
    → lookup ns (recover_all w s list).runtimes
      ≡ (if contains list ns then settled_by w ns (lookup ns s.runtimes) else lookup ns s.runtimes)
unfolding recover_all contains
lookup-recover_all w s [] ns once = refl
lookup-recover_all w s (m ∷ rest) ns (fresh, once) =
    let ih = lookup-recover_all w (recover_one w s m) rest ns once in
    let here = lookup-recover_one w s m ns in
    elim (Bool-cases (str_eq m ns)) [
      | inl e ↦
          let absent_later : contains rest ns ≡ false =
            subst (λ n. contains rest n ≡ false) ((str_eq_iff m ns).0 e) fresh in
          ih ∙ rw (absent_later, e) (here ∙ rw e refl)
      | inr e ↦ ih ∙ rw (e, here, e) refl
    ]

pub lookup-recover_transients :
    (w : World) (arrows : Option (List (List Namespace))) (aggregates : Option (List Namespace))
    (runtimes : Dict ArrowRuntime) (ns : Namespace)
    → lookup ns (recover_transients w arrows aggregates runtimes).runtimes ≡ (
        if contains (collect_recovery_namespaces arrows aggregates) ns
        then settled_by w ns (lookup ns runtimes)
        else lookup ns runtimes)
unfolding recover_transients
lookup-recover_transients w arrows aggregates runtimes ns =
    lookup-recover_all w (record { runtimes = runtimes; closed = [] })
      (collect_recovery_namespaces arrows aggregates) ns (collect-IsOnce arrows aggregates)
