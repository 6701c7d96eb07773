-- ===== src/Logring/Delivery.antt =====
-- internal/core/logring: what one reader of a ring gets, whatever else happens to the ring.
pub mod GapFree
pub mod Held
use quiver_core.Prelude.{
  ℕ, ◌+◌, ◌%◌, ℤ, ◌==◌, Bool, true, Option, none, some, List, [], ◌∷◌, ◌++◌, take, drop, modify,
  get_elem?, if◌then◌else◌,
}
use quiver_core.Logring.Subscriber.{Record, Subscriber, remove, notify}
use quiver_core.Logring.Ring.{Ring, u64, append, open_stream, unsubscribe}

-- What can happen to a ring: a record is logged, a stream opens or closes, and a reader receives
-- from its channel. The readers' side of a channel is Go's: the oldest record is taken out, also
-- after the channel is closed.
pub data Event (A : Type 0) : Type 0 where
  log : ℤ → A → Event A
  open_at : (since : ℕ) → ℤ → Event A
  close : ℕ → Event A
  receive : ℕ → Event A

module _ {A : Type 0} where
  pub receive_one : Subscriber A → Subscriber A
  receive_one sub = record sub { records = drop 1 sub.records }

  unfoldable pub step : Ring A → Event A → Ring A
  unfolding receive_one
  step r (log level content) = append r level content
  step r (open_at since level) = (open_stream r since level).0
  step r (close id) = unsubscribe r id
  step r (receive id) = record r { subscribers = modify r.subscribers id receive_one }

  unfoldable pub channel : Ring A → ℕ → List (Record A)
  channel r id = elim (get_elem? r.subscribers id) [ none ↦ [] | some sub ↦ sub.records ]

  -- What a reader gets out of its channel by an event.
  unfoldable pub gets : Ring A → ℕ → Event A → List (Record A)
  unfolding channel
  gets r id (receive j) = if j == id then take 1 (channel r id) else []
  gets r id _ = []

  unfoldable pub run : Ring A → List (Event A) → Ring A
  run r [] = r
  run r (e ∷ es) = run (step r e) es

  unfoldable pub received : Ring A → ℕ → List (Event A) → List (Record A)
  received r id [] = []
  received r id (e ∷ es) = gets r id e ++ received (step r e) id es

  -- The record that an event logs.
  unfoldable pub logs : Ring A → Event A → List (Record A)
  logs r (log level content) =
      record { seq = (r.seq + 1) % u64; level = level; content = content } ∷ []
  logs r _ = []

  -- All that a run logs, in order.
  unfoldable pub all_logs : Ring A → List (Event A) → List (Record A)
  all_logs r [] = []
  all_logs r (e ∷ es) = logs r e ++ all_logs (step r e) es
