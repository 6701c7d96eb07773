-- ===== src/Logring/Examples.antt =====
-- A ring at work, and the theorems at it.
use quiver_core.Prelude.{
  ℕ, ◌%◌, ◌<◌, ◌≤◌, ◌+◌, zero, suc, ℤ, pos, negsuc, some, true, List, [], ◌∷◌, ◌++◌, drop, keep,
  get_elem?, ◌≡◌, ◌⊎◌, refl, arith,
}
use quiver_core.Logring.Subscriber.{Record, Subscriber, wants}
use quiver_core.Logring.Ring.{
  Ring, capacity, new_ring, append, replay, replay_loop, replay_start, append_at_level, open_stream,
}
use quiver_core.Logring.Ring.Replay.{Holds, replay-eq, skipped}
use quiver_core.Logring.Delivery.{Event, run, received, logs, all_logs}
use quiver_core.Logring.Delivery.Held.{run-Holds}
use quiver_core.Logring.Delivery.GapFree.{stream_gap_free}

abbrev blank : Record ℕ
blank = record { seq = 0; level = pos 0; content = 0 }

abbrev entry : ℕ → ℤ → ℕ → Record ℕ
entry seq level content = record { seq = seq; level = level; content = content }

abbrev first_ring : Ring ℕ
first_ring = append (new_ring blank) (pos 4) 7

abbrev two_logged : Ring ℕ
two_logged = append first_ring (negsuc 3) 8

abbrev past : List (Record ℕ)
past = entry 1 (pos 4) 7 ∷ entry 2 (negsuc 3) 8 ∷ []

-- The held records, checked slot by slot.
Holds-past : Holds two_logged past
unfolding append new_ring
Holds-past = record { counted = refl; held = slots }
  where
    slots :
        (k : ℕ)
        → k < 2
        → 2 ≤ k + capacity
        → get_elem? past k ≡ some (two_logged.records (suc k % capacity))
    slots zero lt near = refl
    slots (suc zero) lt near = refl
    slots (suc (suc k)) lt near = absurd (omega arith)

replayed : replay two_logged 0 (pos 0) ≡ entry 1 (pos 4) 7 ∷ []
unfolding append new_ring replay replay_loop replay_start append_at_level
replayed = refl

replay-eq_example :
    replay two_logged 1 (negsuc 3) ≡ keep (wants (negsuc 3)) (drop (skipped 2 1) past)
replay-eq_example = replay-eq two_logged past 1 (negsuc 3) Holds-past (omega arith) (omega arith)

abbrev later : List (Event ℕ)
later = Event.log (pos 8) 5 ∷ Event.receive 0 ∷ Event.close 0 ∷ Event.log (pos 8) 6 ∷ []

stream_gap_free_example :
    let (opened, stream) = open_stream two_logged 0 (pos 0) in
    (last : Subscriber ℕ) × (get_elem? (run opened later).subscribers stream.subscriber ≡ some last)
    × (lost : List (Record ℕ)) × (stream.replayed
          ++ (received opened stream.subscriber later ++ (last.records ++ lost))
        ≡ keep (wants (pos 0)) (drop (skipped 2 0) (past ++ all_logs opened later)))
    × ((lost ≡ []) ⊎ (last.closed ≡ true))
stream_gap_free_example =
    stream_gap_free two_logged past 0 (pos 0) later Holds-past (omega arith) (omega arith)

run-Holds_example : Holds (run (new_ring blank) later) (all_logs (new_ring blank) later)
unfolding all_logs logs
run-Holds_example = run-Holds blank later (omega arith)
