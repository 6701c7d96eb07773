-- ===== src/Logring/Ring/Replay.antt =====
-- What a ring replays, against the list of all records that were ever logged.
use quiver_core.Prelude.{
  ℕ, zero, suc, ◌+◌, ◌-◌, ◌%◌, ◌<◌, ◌≤◌, max, ℤ, lt_int, ◌==◌, some, List, [], ◌∷◌, ◌++◌, length,
  drop, keep, get_elem?, if◌then◌else◌, ◌≡◌, ◌≢◌, arith, length-append, get_elem?-append_left,
  get_elem?-append_last, drop-cons, drop-length, sym, ◌∙◌, Bool-cases, inl, inr,
}
use native.Mathlib.Numerals.{add-one}
use native.Mathlib.Decide.{ℕ_discrete}
use mathlib.Core.List.{append-nil, append_assoc}
use quiver_core.Logring.Subscriber.{Record, wants}
use quiver_core.Logring.Ring.{
  Ring, capacity, replay_last, u64, append, append_at_level, replay_loop, replay_limit,
  replay_start, replay,
}

-- The slots of two records less than `capacity` apart differ.
slots-ne : (n k : ℕ) → k < n → n + 1 ≤ k + capacity → suc n % capacity ≢ suc k % capacity
slots-ne n k lt near = omega arith

-- A number that fits does not wrap.
pub no_wrap : (n : ℕ) → n < u64 → n % u64 ≡ n
no_wrap n h = omega arith

-- How many of a log's records come before the first that a stream replays: those up to `since`,
-- and those older than the latest 500, or than the latest 5000 where `since` is given.
abbrev pub skipped : ℕ → ℕ → ℕ
skipped n since = max since (n - (if since == 0 then replay_last else capacity))

pub skipped_le : (n since : ℕ) → since ≤ n → skipped n since ≤ n
skipped_le n since h = ground arith

skipped_near : (n since : ℕ) → n ≤ skipped n since + capacity
skipped_near n since = ground arith

module _ {A : Type 0} where
  -- The ring holds the latest `capacity` records of a log: the log's length is the last number, and
  -- the record at position `k`, numbered `k + 1`, stands in slot `(k + 1) % capacity`.
  pub record Holds (r : Ring A) (log : List (Record A)) : Type 0 where
    pub counted : r.seq ≡ length log
    pub held :
        (k : ℕ)
        → k < length log
        → length log ≤ k + capacity
        → get_elem? log k ≡ some (r.records (suc k % capacity))

  -- The record that the ring makes of a level and a content.
  abbrev pub logged : Ring A → ℤ → A → Record A
  logged r level content = record { seq = r.seq + 1; level = level; content = content }

  next_seq : (r : Ring A) (n : ℕ) → r.seq ≡ n → n + 1 < u64 → (r.seq + 1) % u64 ≡ suc n
  next_seq r n e bound = omega arith

  append-held :
      (r : Ring A) (log : List (Record A)) (level : ℤ) (content : A)
      → Holds r log
      → length log + 1 < u64
      → (k : ℕ) → k < length log + 1
      → length log + 1 ≤ k + capacity
      → get_elem? (log ++ (logged r level content ∷ [])) k
        ≡ some ((append r level content).records (suc k % capacity))
  unfolding append
  append-held r log level content h bound k lt near = elim (ℕ_discrete k (length log)) [
    | yes e ↦ rw e (
        get_elem?-append_last log (logged r level content)
        ∙ ground (arith, next_seq r (length log) h.counted))
    | no ne ↦
        get_elem?-append_left log (logged r level content ∷ []) k (omega arith)
        ∙ h.held k (omega arith) (omega arith)
        ∙ ground (arith, next_seq r (length log) h.counted, slots-ne (length log) k)
  ]

  -- Logging one more record, while the numbers fit, makes the ring hold the longer log.
  pub append-Holds :
      (r : Ring A) (log : List (Record A)) (level : ℤ) (content : A)
      → Holds r log
      → length log + 1 < u64
      → Holds (append r level content) (log ++ (logged r level content ∷ []))
  append-Holds r log level content h bound = record {
    counted =
        unfold append in
        next_seq r (length log) h.counted bound
        ∙ omega (arith, length-append log (logged r level content ∷ []));
    held = λ k lt near.
        append-held r log level content h bound k
          (omega (arith, length-append log (logged r level content ∷ [])))
          (omega (arith, length-append log (logged r level content ∷ [])));
  }

  append_at_level-eq :
      (r : Ring A) (log : List (Record A)) (level : ℤ) (out : List (Record A)) (k : ℕ)
      → get_elem? log k ≡ some (r.records (suc k % capacity))
      → append_at_level r out (suc k) level ++ keep (wants level) (drop (suc k) log)
        ≡ out ++ keep (wants level) (drop k log)
  unfolding append_at_level wants
  append_at_level-eq r log level out k h =
      rw (drop-cons log k h) (elim (Bool-cases (lt_int rec.level level)) [
        | inl low ↦ rw low
        | inr high ↦ rw high (append_assoc out (rec ∷ []) (keep (wants level) (drop (suc k) log)))
      ])
    where
      rec : Record A
      rec = r.records (suc k % capacity)

  -- The loop from position `k` appends what stands there and after it at the level.
  replay_loop-eq :
      (r : Ring A) (log : List (Record A)) (level : ℤ) (rounds k : ℕ) (out : List (Record A))
      → Holds r log
      → length log < u64 - 1
      → k + rounds ≡ length log
      → length log ≤ k + capacity
      → replay_loop r level rounds (suc k) out ≡ out ++ keep (wants level) (drop k log)
  unfolding replay_loop
  replay_loop-eq r log level zero k out h bound all near =
      rw (drop-length log k (omega arith)) (sym (append-nil out))
  replay_loop-eq r log level (suc rounds) k out h bound all near =
      rw (no_wrap (suc k + 1) (omega arith), add-one (suc k))
        (replay_loop-eq r log level rounds (suc k) (append_at_level r out (suc k) level) h bound
            (omega arith) (omega arith)
          ∙ append_at_level-eq r log level out k (h.held k (omega arith) near))

  replay_start-eq :
      (r : Ring A) (n since : ℕ)
      → r.seq ≡ n
      → n < u64 - 1
      → since ≤ n
      → replay_start r since ≡ suc (skipped n since)
  unfolding replay_start replay_limit
  replay_start-eq r n since e bound le = ground (arith, no_wrap (since + 1))

  -- A replay after the record numbered `since` is what the log holds, at the level, after that
  -- record and among the latest 500 (`since` 0) or 5000 of all that was ever logged, in order.
  pub replay-eq :
      (r : Ring A) (log : List (Record A)) (since : ℕ) (level : ℤ)
      → Holds r log
      → length log < u64 - 1
      → since ≤ length log
      → replay r since level ≡ keep (wants level) (drop (skipped (length log) since) log)
  unfolding replay
  replay-eq r log since level h bound le =
      rw (replay_start-eq r (length log) since h.counted bound le) (
        replay_loop-eq r log level (r.seq + 1 - suc k) k [] h bound
          (omega (arith, h.counted, skipped_le (length log) since le))
          (skipped_near (length log) since))
    where
      k : ℕ
      k = skipped (length log) since
