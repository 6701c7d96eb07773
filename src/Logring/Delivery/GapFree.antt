-- ===== src/Logring/Delivery/GapFree.antt =====
-- A reader misses no record and sees none twice, until the ring closes its channel.
use quiver_core.Prelude.{
  ℕ, ◌+◌, ◌-◌, ◌%◌, ◌<◌, ◌≤◌, ℤ, ◌==◌, true, false, some, List, [], ◌∷◌, ◌++◌, take, drop, keep,
  get_elem?, length, if◌then◌else◌, ◌≡◌, ◌⊎◌, inl, inr, refl, arith, sym, ap, ◌∙◌, get_elem?-map,
  get_elem?-modify, get_elem?-append_left, lt_of_get_elem?, ltb, get_elem?-append_last, drop-append,
  keep-append,
}
use mathlib.Core.List.{append-nil, append_assoc}
use quiver_core.Logring.Subscriber.{
  Record, Subscriber, remove, notify, wants, deliver, offer, has_room, new_subscriber,
}
use quiver_core.Logring.Ring.{Ring, u64, append, open_stream, unsubscribe}
use quiver_core.Logring.Ring.Replay.{Holds, skipped, skipped_le, replay-eq}
use quiver_core.Logring.Delivery.{
  Event, log, open_at, close, receive, receive_one, step, gets, run, received, logs, all_logs,
}

module _ {A : Type 0} where
  -- What an event makes of one subscriber.
  react : Ring A → ℕ → Event A → Subscriber A → Subscriber A
  react r id (log level content) sub =
      notify (record { seq = (r.seq + 1) % u64; level = level; content = content }) sub
  react r id (open_at since level) sub = sub
  react r id (close j) sub = if j == id then remove sub else sub
  react r id (receive j) sub = if j == id then receive_one sub else sub

  step-react :
      (r : Ring A) (id : ℕ) (e : Event A) {sub : Subscriber A}
      → get_elem? r.subscribers id ≡ some sub
      → get_elem? (step r e).subscribers id ≡ some (react r id e sub)
  unfolding step react
  step-react r id (log level content) h = unfold append in rw (get_elem?-map, h)
  step-react r id (open_at since level) h =
      unfold open_stream in
      get_elem?-append_left r.subscribers (new_subscriber level ∷ []) id
        (lt_of_get_elem? r.subscribers id h)
      ∙ h
  step-react r id (close j) h =
      unfold unsubscribe in ground (arith, get_elem?-modify r.subscribers j id remove)
  step-react r id (receive j) h = ground (arith, get_elem?-modify r.subscribers j id receive_one)

  -- Two stretches of an equation about what came out, joined.
  splice :
      (g t q b s k l : List (Record A))
      → t ++ q ≡ b ++ l
      → g ++ b ≡ s ++ k
      → (g ++ t) ++ q ≡ s ++ (k ++ l)
  splice g t q b s k l later now =
      append_assoc g t q
      ∙ ap (λ u. g ++ u) later
      ∙ sym (append_assoc g b l)
      ∙ ap (λ u. u ++ l) now
      ∙ append_assoc s k l

  take-drop_one : (xs : List (Record A)) → take 1 xs ++ drop 1 xs ≡ xs
  take-drop_one [] = refl
  take-drop_one (x ∷ xs) = refl

  -- A subscriber that left the ring's map has a closed channel.
  abbrev IsGone : Subscriber A → Type 0
  IsGone sub = (sub.subscribed ≡ false) × (sub.closed ≡ true)

  -- An event neither adds to nor takes from what a gone subscriber will have got.
  react-IsGone :
      (r : Ring A) (id : ℕ) (e : Event A) (sub : Subscriber A)
      → get_elem? r.subscribers id ≡ some sub
      → IsGone sub
      → IsGone (react r id e sub) × (gets r id e ++ (react r id e sub).records ≡ sub.records)
  unfolding react gets notify remove receive_one
  react-IsGone r id (log level content) sub h gone = ground arith
  react-IsGone r id (open_at since level) sub h gone = ground arith
  react-IsGone r id (close j) sub h gone = ground arith
  react-IsGone r id (receive j) sub h gone = ground (arith, take-drop_one sub.records)

  -- An event gives a live subscriber what it logs at the level, or the channel is closed.
  react-live :
      (r : Ring A) (id : ℕ) (e : Event A) (sub : Subscriber A)
      → get_elem? r.subscribers id ≡ some sub
      → sub.subscribed ≡ true
      → let next = react r id e sub in
        (next.level ≡ sub.level)
        × (((next.subscribed ≡ true)
              × (gets r id e ++ next.records ≡ sub.records ++ keep (wants sub.level) (logs r e)))
            ⊎ (IsGone next × (gets r id e ++ next.records ≡ sub.records)))
  unfolding react gets notify remove receive_one offer deliver has_room logs
  react-live r id (log level content) sub h live = ground (arith, append-nil sub.records)
  react-live r id (open_at since level) sub h live = ground (arith, append-nil sub.records)
  react-live r id (close j) sub h live = ground (arith, append-nil sub.records)
  react-live r id (receive j) sub h live =
      ground (arith, append-nil sub.records, take-drop_one sub.records)

  run-gone :
      (r : Ring A) (id : ℕ) (es : List (Event A)) (sub : Subscriber A)
      → get_elem? r.subscribers id ≡ some sub
      → IsGone sub
      → (last : Subscriber A) × (get_elem? (run r es).subscribers id ≡ some last)
        × (received r id es ++ last.records ≡ sub.records)
        × (last.closed ≡ true)
  unfolding run received
  run-gone r id [] sub h gone = (sub, h, refl, gone.1)
  run-gone r id (e ∷ es) sub h gone =
      let (still, kept) = react-IsGone r id e sub h gone in
      let (last, at, rest, closed) =
        run-gone (step r e) id es (react r id e sub) (step-react r id e h) still in
      (
        last,
        at,
        append_assoc (gets r id e) (received (step r e) id es) last.records
            ∙ ap (λ t. gets r id e ++ t) rest
            ∙ kept,
        closed,
      )

  -- What a live subscriber gets, what its channel still holds, and what it loses if its channel is
  -- closed.
  run-live :
      (r : Ring A) (id : ℕ) (es : List (Event A)) (sub : Subscriber A)
      → get_elem? r.subscribers id ≡ some sub
      → sub.subscribed ≡ true
      → (last : Subscriber A) × (get_elem? (run r es).subscribers id ≡ some last)
        × (lost : List (Record A)) × (received r id es ++ (last.records ++ lost)
            ≡ sub.records ++ keep (wants sub.level) (all_logs r es))
        × ((lost ≡ []) ⊎ (last.closed ≡ true))
  unfolding run received all_logs
  run-live r id [] sub h live = (sub, h, [], refl, inl refl)
  run-live r id (e ∷ es) sub h live = elim (react-live r id e sub h live).1 [
    | inl (on, now) ↦
        let next = react r id e sub in
        let (last, at, lost, rest, end) =
          run-live (step r e) id es (react r id e sub) (step-react r id e h) on in
        (
          last,
          at,
          lost,
          rw (keep-append (wants sub.level) (logs r e) (all_logs (step r e) es)) (
              splice (gets r id e) (received (step r e) id es) (last.records ++ lost) next.records
                sub.records (keep (wants sub.level) (logs r e))
                (keep (wants sub.level) (all_logs (step r e) es))
                (rest
                  ∙ ap (λ v. next.records ++ keep (wants v) (all_logs (step r e) es))
                      (react-live r id e sub h live).0)
                now),
          end,
        )
    | inr (gone, now) ↦
        let (last, at, rest, closed) =
          run-gone (step r e) id es (react r id e sub) (step-react r id e h) gone in
        let missed = keep (wants sub.level) (all_logs r (e ∷ es)) in
        (
          last,
          at,
          missed,
          sym (append_assoc (gets r id e ++ received (step r e) id es) last.records missed)
              ∙ ap (λ u. u ++ missed)
                  (append_assoc (gets r id e) (received (step r e) id es) last.records
                    ∙ ap (λ u. gets r id e ++ u) rest
                    ∙ now),
          inr closed,
        )
  ]

-- A stream that opens on a ring which holds the latest records of a log: whatever happens to the
-- ring afterwards, what it replays, then what its reader received, then what its channel still
-- holds, then the records that were lost, are in order the records at its level after the record
-- numbered `since` and among the latest 500 or 5000, of the log and of all that is logged later;
-- and nothing was lost unless the channel is closed.
pub stream_gap_free :
    {A : Type 0} (r : Ring A) (past : List (Record A)) (since : ℕ) (level : ℤ) (es : List (Event A))
    → Holds r past
    → length past < u64 - 1
    → since ≤ length past
    → let (opened, stream) = open_stream r since level in
      (last : Subscriber A) × (get_elem? (run opened es).subscribers stream.subscriber ≡ some last)
      × (lost : List (Record A)) × (stream.replayed
            ++ (received opened stream.subscriber es ++ (last.records ++ lost))
          ≡ keep (wants level) (drop (skipped (length past) since) (past ++ all_logs opened es)))
      × ((lost ≡ []) ⊎ (last.closed ≡ true))
unfolding open_stream new_subscriber
stream_gap_free {A} r past since level es holds bound le =
    let (last, at, lost, got, end) =
      run-live opened (length r.subscribers) es (new_subscriber level)
        (get_elem?-append_last r.subscribers (new_subscriber level)) refl in
    (
      last,
      at,
      lost,
      rw (
        not_newer,
        replay-eq r past since level holds bound le,
        got,
        drop-append past (all_logs opened es) (skipped (length past) since)
            (skipped_le (length past) since le),
        keep-append (wants level) (drop (skipped (length past) since) past) (all_logs opened es),
      ),
      end,
    )
  where
    opened : Ring A
    opened = (open_stream r since level).0

    not_newer : ltb r.seq since ≡ false
    not_newer = ground (arith, holds.counted)
