-- ===== src/Logring/Delivery/Held.antt =====
-- A ring holds the latest of all that was ever logged to it.
use quiver_core.Prelude.{
  ◌+◌, ◌<◌, List, [], ◌∷◌, ◌++◌, length, ◌≡◌, refl, arith, ◌∙◌, length-append,
}
use mathlib.Core.List.{append-nil, append_assoc}
use quiver_core.Logring.Subscriber.{Record}
use quiver_core.Logring.Ring.{Ring, u64, new_ring, open_stream, unsubscribe}
use quiver_core.Logring.Ring.Replay.{Holds, append-Holds, no_wrap}
use quiver_core.Logring.Delivery.{Event, log, open_at, close, receive, step, run, logs, all_logs}

module _ {A : Type 0} where
  -- Only a logged record touches what `Holds` speaks of.
  same-Holds :
      {r s : Ring A} (past : List (Record A))
      → s.records ≡ r.records
      → s.seq ≡ r.seq
      → Holds r past
      → Holds s (past ++ [])
  same-Holds past same count h =
      rw (append-nil past)
        (record { counted = count ∙ h.counted; held = λ k lt near. rw same (h.held k lt near) })

  step-Holds :
      (r : Ring A) (past : List (Record A)) (e : Event A)
      → Holds r past
      → length past + length (logs r e) < u64
      → Holds (step r e) (past ++ logs r e)
  unfolding step logs
  step-Holds r past (log level content) h bound =
      rw (no_wrap (r.seq + 1) (omega (arith, h.counted)))
        (append-Holds r past level content h bound)
  step-Holds r past (open_at since level) h bound =
      unfold open_stream in same-Holds past refl refl h
  step-Holds r past (close id) h bound = unfold unsubscribe in same-Holds past refl refl h
  step-Holds r past (receive id) h bound = same-Holds past refl refl h

  run_from-Holds :
      (r : Ring A) (past : List (Record A)) (es : List (Event A))
      → Holds r past
      → length past + length (all_logs r es) < u64
      → Holds (run r es) (past ++ all_logs r es)
  unfolding run all_logs
  run_from-Holds r past [] h bound = rw (append-nil past) h
  run_from-Holds r past (e ∷ es) h bound =
      let sum = length-append (logs r e) (all_logs (step r e) es) in
      rw (← append_assoc past (logs r e) (all_logs (step r e) es)) (
        run_from-Holds (step r e) (past ++ logs r e) es (step-Holds r past e h (omega (arith, sum)))
          (omega (arith, sum, length-append past (logs r e))))

  -- Whatever is logged, opened, closed and received, in any order: the ring's number is that of the
  -- records ever logged, and each of the latest 5000 stands in its slot, while the numbers fit a
  -- uint64.
  pub run-Holds :
      (blank : Record A) (es : List (Event A))
      → length (all_logs (new_ring blank) es) < u64
      → Holds (run (new_ring blank) es) (all_logs (new_ring blank) es)
  unfolding new_ring
  run-Holds blank es bound =
      run_from-Holds (new_ring blank) [] es
        (record { counted = refl; held = λ k lt near. absurd (omega arith) }) (omega arith)
