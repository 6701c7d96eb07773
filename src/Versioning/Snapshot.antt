-- ===== src/Versioning/Snapshot.antt =====
-- internal/engine/manifold/versioning/internal/snapshot: the refs of a repository, cached for a time.
pub mod Recent
use quiver_core.Prelude.{
  ℕ, ◌+◌, ◌-◌, ltb, Bool, true, false, Option, none, some, List, [], ◌∷◌, Dict, lookup, insert,
  if◌then◌else◌,
}
use quiver_core.Domain.Execution.{Namespace}
use quiver_core.Domain.Identity.{bare_namespace}
use quiver_core.Domain.Selector.{RefSnapshot}

-- Times are counted from a fixed start, and a clock that goes back gives no age.
pub record Entry : Type 0 where
  pub snap : RefSnapshot
  pub cached_at : ℕ

unfoldable pub if_fresh : ℕ → ℕ → Option Entry → Option RefSnapshot
if_fresh ttl now none = none
if_fresh ttl now (some cached) = if ltb ttl (now - cached.cached_at) then none else some cached.snap

unfoldable pub cached_snapshot : ℕ → ℕ → Namespace → Dict Entry → Option RefSnapshot
unfolding if_fresh lookup
cached_snapshot ttl now bare cache = if_fresh ttl now (lookup bare cache)

-- `liveSnapshot` for what the lister of refs answers, or none for its error, stored at a time.
unfoldable pub live_snapshot :
    Option RefSnapshot → ℕ → Namespace → Dict Entry → Option RefSnapshot × Dict Entry
unfolding insert
live_snapshot none now bare cache = (none, cache)
live_snapshot (some snap) now bare cache =
    (some snap, insert bare (record { snap = snap; cached_at = now }) cache)

unfoldable pub cached_or :
    Option RefSnapshot
    → Dict Entry
    → Option RefSnapshot × Dict Entry
    → Option RefSnapshot × Dict Entry
cached_or (some cached) cache live = (some cached, cache)
cached_or none cache live = live

-- `refs` is what the lister would answer; the clock is read before it is asked and after.
unfoldable pub snapshot :
    ℕ
    → (Namespace → Option RefSnapshot)
    → ℕ
    → ℕ
    → Namespace
    → Dict Entry
    → Option RefSnapshot × Dict Entry
unfolding bare_namespace cached_snapshot live_snapshot cached_or
snapshot ttl refs now later ns cache =
    let bare = bare_namespace ns in
    cached_or (cached_snapshot ttl now bare cache) cache
      (live_snapshot (refs bare) later bare cache)

unfoldable pub fresh_snapshot :
    (Namespace → Option RefSnapshot) → ℕ → Namespace → Dict Entry → Option RefSnapshot × Dict Entry
unfolding bare_namespace live_snapshot
fresh_snapshot refs later ns cache =
    let bare = bare_namespace ns in live_snapshot (refs bare) later bare cache

-- A call, with what the lister would answer and the readings of the clock.
pub data SnapshotCall : Type 0 where
  to_snapshot : (refs : Namespace → Option RefSnapshot) (now later : ℕ) → Namespace → SnapshotCall
  to_fresh_snapshot : (refs : Namespace → Option RefSnapshot) (later : ℕ) → Namespace → SnapshotCall

unfoldable pub after_call : ℕ → SnapshotCall → Dict Entry → Dict Entry
unfolding snapshot fresh_snapshot
after_call ttl (to_snapshot refs now later ns) cache = (snapshot ttl refs now later ns cache).1
after_call ttl (to_fresh_snapshot refs later ns) cache = (fresh_snapshot refs later ns cache).1

unfoldable pub after_calls : ℕ → List SnapshotCall → Dict Entry → Dict Entry
unfolding after_call
after_calls ttl [] cache = cache
after_calls ttl (c ∷ calls) cache = after_calls ttl calls (after_call ttl c cache)
