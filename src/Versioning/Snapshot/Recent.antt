-- ===== src/Versioning/Snapshot/Recent.antt =====
-- internal/engine/manifold/versioning/internal/snapshot: where a snapshot comes from.
use quiver_core.Prelude.{
  ℕ, ◌+◌, ◌-◌, ◌≤◌, ltb, Bool, true, false, Option, none, some, List, [], ◌∷◌, str_eq, str_eq_iff,
  Dict, lookup, lookup-insert, Occurs, if◌then◌else◌, Bool-cases, ◌≡◌, ◌⊎◌, inl, inr, refl, sym, ap,
  ◌∙◌, subst, arith,
}
use quiver_core.Domain.Execution.{Namespace}
use quiver_core.Domain.Identity.{bare_namespace}
use quiver_core.Domain.Selector.{RefSnapshot}
use quiver_core.Versioning.Snapshot.{
  Entry, if_fresh, cached_snapshot, live_snapshot, cached_or, snapshot, fresh_snapshot,
  SnapshotCall, to_snapshot, to_fresh_snapshot, after_call, after_calls,
}

-- The lister was asked for a repository by a call, answered a snapshot, and the time was then `t`.
abbrev pub IsAnswered : Namespace → RefSnapshot → ℕ → SnapshotCall → Type 0
IsAnswered bare s t (to_snapshot refs now later ns) =
    (bare_namespace ns ≡ bare) × (refs bare ≡ some s) × (later ≡ t)
IsAnswered bare s t (to_fresh_snapshot refs later ns) =
    (bare_namespace ns ≡ bare) × (refs bare ≡ some s) × (later ≡ t)

-- What a live answer stores: an entry that was there, or the answer.
live_snapshot-lookup :
    (o : Option RefSnapshot) (now : ℕ) (asked bare : Namespace) (cache : Dict Entry) (e : Entry)
    → lookup bare (live_snapshot o now asked cache).1 ≡ some e
    → (lookup bare cache ≡ some e) ⊎ ((asked ≡ bare) × (o ≡ some e.snap) × (now ≡ e.cached_at))
unfolding live_snapshot
live_snapshot-lookup none now asked bare cache e h = inl h
live_snapshot-lookup (some s) now asked bare cache e h =
    go (str_eq asked bare) refl
      (sym (lookup-insert asked bare (record { snap = s; cached_at = now }) cache) ∙ h)
  where
    go :
        (b : Bool)
        → str_eq asked bare ≡ b
        → (if b then some (record { snap = s; cached_at = now }) else lookup bare cache) ≡ some e
        → (lookup bare cache ≡ some e)
          ⊎ ((asked ≡ bare) × (some s ≡ some e.snap) × (now ≡ e.cached_at))
    go true same k =
        let at : record { snap = s; cached_at = now } ≡ e = cc k in
        inr (
          (str_eq_iff asked bare).0 same,
          ap (λ (x : Entry). some x.snap) at,
          ap (λ (x : Entry). x.cached_at) at,
        )
    go false apart k = inl k

after_call-lookup :
    (ttl : ℕ) (c : SnapshotCall) (bare : Namespace) (cache : Dict Entry) (e : Entry)
    → lookup bare (after_call ttl c cache) ≡ some e
    → (lookup bare cache ≡ some e) ⊎ IsAnswered bare e.snap e.cached_at c
unfolding after_call snapshot fresh_snapshot
after_call-lookup ttl (to_fresh_snapshot refs later ns) bare cache e h =
    elim (live_snapshot-lookup (refs (bare_namespace ns)) later (bare_namespace ns) bare cache e
      h) [ inl k ↦ inl k | inr (same, answer, at) ↦ inr (same, sym (ap refs same) ∙ answer, at) ]
after_call-lookup ttl (to_snapshot refs now later ns) bare cache e h =
    go (cached_snapshot ttl now (bare_namespace ns) cache) h
  where
    go :
        (o : Option RefSnapshot)
        → lookup bare
            (cached_or o cache
              (live_snapshot (refs (bare_namespace ns)) later (bare_namespace ns) cache)).1
          ≡ some e
        → (lookup bare cache ≡ some e)
          ⊎ IsAnswered bare e.snap e.cached_at (to_snapshot refs now later ns)
    go (some cached) k = inl (unfold cached_or in k)
    go none k =
        elim (live_snapshot-lookup (refs (bare_namespace ns)) later (bare_namespace ns) bare cache e
          (unfold cached_or in k)) [
            | inl old ↦ inl old
            | inr (same, answer, at) ↦ inr (same, sym (ap refs same) ∙ answer, at)
          ]

after_calls-lookup :
    (ttl : ℕ) (calls : List SnapshotCall) (bare : Namespace) (cache : Dict Entry) (e : Entry)
    → lookup bare (after_calls ttl calls cache) ≡ some e
    → (lookup bare cache ≡ some e)
      ⊎ ((c : SnapshotCall) × Occurs c calls × IsAnswered bare e.snap e.cached_at c)
unfolding after_calls
after_calls-lookup ttl [] bare cache e h = inl h
after_calls-lookup ttl (c ∷ calls) bare cache e h =
    elim (after_calls-lookup ttl calls bare (after_call ttl c cache) e h) [
      | inr (d, o, answered) ↦ inr (d, inr o, answered)
      | inl k ↦ elim (after_call-lookup ttl c bare cache e k) [
        | inl old ↦ inl old
        | inr answered ↦ inr (c, inl refl, answered)
      ]
    ]

live_snapshot-answer :
    (o : Option RefSnapshot) (later : ℕ) (bare : Namespace) (cache : Dict Entry) (s : RefSnapshot)
    → (live_snapshot o later bare cache).0 ≡ some s
    → o ≡ some s
unfolding live_snapshot
live_snapshot-answer none later bare cache s h = h
live_snapshot-answer (some x) later bare cache s h = h

if_fresh-entry :
    (ttl now : ℕ) (o : Option Entry) (s : RefSnapshot)
    → if_fresh ttl now o ≡ some s
    → (e : Entry) × (o ≡ some e) × (e.snap ≡ s) × (now ≤ e.cached_at + ttl)
unfolding if_fresh
if_fresh-entry ttl now none s h = cc
if_fresh-entry ttl now (some e) s h = elim (Bool-cases (ltb ttl (now - e.cached_at))) [
  | inl old ↦ cc (sym (ap (λ b. if b then none else some e.snap) old) ∙ h)
  | inr young ↦ (
    e,
    refl,
    cc (sym (ap (λ b. if b then none else some e.snap) young) ∙ h),
    ground (arith, young),
  )
]

cached_or-cases :
    (o : Option RefSnapshot) (cache : Dict Entry) (live : Option RefSnapshot × Dict Entry)
    (s : RefSnapshot)
    → (cached_or o cache live).0 ≡ some s
    → (o ≡ some s) ⊎ (live.0 ≡ some s)
unfolding cached_or
cached_or-cases none cache live s h = inr h
cached_or-cases (some x) cache live s h = inl h

-- A snapshot that is served is what the lister answers now, or what it answered to an earlier call for
-- the repository, no longer ago than the time to live.
pub snapshot-recent :
    (ttl now later : ℕ) (refs : Namespace → Option RefSnapshot) (calls : List SnapshotCall)
    (ns : Namespace) (s : RefSnapshot)
    → (snapshot ttl refs now later ns (after_calls ttl calls [])).0 ≡ some s
    → (refs (bare_namespace ns) ≡ some s)
      ⊎ ((c : SnapshotCall) × (t : ℕ) × Occurs c calls
          × IsAnswered (bare_namespace ns) s t c
          × (now ≤ t + ttl))
unfolding snapshot cached_snapshot
snapshot-recent ttl now later refs calls ns s h =
    let bare = bare_namespace ns in
    let cache = after_calls ttl calls [] in
    let live = live_snapshot (refs bare) later bare cache in
    elim (cached_or-cases (if_fresh ttl now (lookup bare cache)) cache live s h) [
      | inr answer ↦ inl (live_snapshot-answer (refs bare) later bare cache s answer)
      | inl cached ↦
          let (e, stored, same, young) = if_fresh-entry ttl now (lookup bare cache) s cached in
          elim (after_calls-lookup ttl calls bare [] e stored) [
            | inl none_there ↦ absurd (unfold lookup in cc none_there)
            | inr (c, o, answered) ↦ inr (
              c,
              e.cached_at,
              o,
              subst (λ x. IsAnswered bare x e.cached_at c) same answered,
              young,
            )
          ]
    ]
