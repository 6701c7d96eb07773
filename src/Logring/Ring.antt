-- ===== src/Logring/Ring.antt =====
-- internal/core/logring/ring_buffer.go: the ring, its replay and its streams.
pub mod Replay
use quiver_core.Prelude.{
  ℕ, zero, suc, ◌+◌, ◌-◌, ◌%◌, ◌^◌, min, max, ℤ, lt_int, ltb, ◌==◌, Bool, true, false, List, [],
  ◌∷◌, ◌++◌, map, modify, length, if◌then◌else◌,
}
use quiver_core.Logring.Subscriber.{Record, Subscriber, new_subscriber, remove, notify}

abbrev pub capacity : ℕ
capacity = 5000

abbrev pub replay_last : ℕ
replay_last = 500

-- A uint64 holds values below this.
abbrev pub u64 : ℕ
u64 = 2 ^ 64

-- `records` gives the slot at each index below `capacity`; a subscriber is its place in
-- `subscribers`, which stands for its pointer.
pub record Ring (A : Type 0) : Type 0 where
  pub records : ℕ → Record A
  pub seq : ℕ
  pub subscribers : List (Subscriber A)

-- A stream: `subscriber` is the reader's place among the ring's subscribers.
pub record Stream (A : Type 0) : Type 0 where
  pub subscriber : ℕ
  pub replayed : List (Record A)
  pub seq : ℕ
  pub reset : Bool

-- `limit` in `replay`
unfoldable pub replay_limit : ℕ → ℕ
replay_limit since = if since == 0 then replay_last else capacity

module _ {A : Type 0} where
  unfoldable pub new_ring : Record A → Ring A
  new_ring blank = record { records = λ i. blank; seq = 0; subscribers = [] }

  -- `r.records[i] = rec`
  unfoldable pub store : (ℕ → Record A) → ℕ → Record A → ℕ → Record A
  store records i rec j = if i == j then rec else records j

  unfoldable pub append_at_level : Ring A → List (Record A) → ℕ → ℤ → List (Record A)
  append_at_level r replay seq level =
      let rec = r.records (seq % capacity) in
      if lt_int rec.level level then replay else replay ++ (rec ∷ [])

  -- The loop of `replay`, with the rounds that are left.
  unfoldable pub replay_loop : Ring A → ℤ → ℕ → ℕ → List (Record A) → List (Record A)
  replay_loop r level zero seq replay = replay
  replay_loop r level (suc rounds) seq replay =
      replay_loop r level rounds ((seq + 1) % u64) (append_at_level r replay seq level)

  -- The first sequence number that `replay` reads.
  unfoldable pub replay_start : Ring A → ℕ → ℕ
  unfolding replay_limit
  replay_start r since =
      max ((since + 1) % u64) ((r.seq - min r.seq (replay_limit since) + 1) % u64)

  -- The loop runs while `seq <= r.seq`, so for `r.seq + 1 - start` rounds.
  unfoldable pub replay : Ring A → ℕ → ℤ → List (Record A)
  replay r since level =
      replay_loop r level (r.seq + 1 - replay_start r since) (replay_start r since) []

  -- `Stream`: a `since` that is newer than the ring is read as 0.
  unfoldable pub open_stream : Ring A → ℕ → ℤ → Ring A × Stream A
  open_stream r since level =
      let reset = ltb r.seq since in
      let from = (if reset then 0 else since) in
      (
        record r { subscribers = r.subscribers ++ (new_subscriber level ∷ []) },
        record {
          subscriber = length r.subscribers;
          replayed = replay r from level;
          seq = r.seq;
          reset = reset;
        },
      )

  -- `append` of a record with a level and a content; its number is the ring's next.
  unfoldable pub append : Ring A → ℤ → A → Ring A
  unfolding store
  append r level content =
      let seq = (r.seq + 1) % u64 in
      let rec : Record A = record { seq = seq; level = level; content = content } in
      record {
        records = store r.records (seq % capacity) rec;
        seq = seq;
        subscribers = map (notify rec) r.subscribers;
      }

  -- `unsubscribe`, which a stream's `Close` calls.
  unfoldable pub unsubscribe : Ring A → ℕ → Ring A
  unsubscribe r id = record r { subscribers = modify r.subscribers id remove }
