-- ===== src/Netbridge/Search/First.antt =====
-- The search finds the preferred port, or else the first of the range that is free.
use quiver_core.Prelude.{
  ℕ, zero, suc, ◌+◌, ◌-◌, ◌<◌, ◌≤◌, ◌==◌, Bool, true, false, none, some, List, [], ◌∷◌, ℤ, pos,
  negsuc, Bool-cases, Option-cases, ◌≡◌, ◌≢◌, ◌⊎◌, inl, inr, refl, sym, ap, ◌∙◌, subst, arith,
  ==_iff,
}
use quiver_core.Netbridge.Port.{
  Protocol, tcp, udp, tcp_udp, other, PortAllocation, find_by_port, out_of_range,
}
use quiver_core.Netbridge.Search.{
  no_port_available, Result, ok, failed, Answers, os_bind_test, bind_unless_found,
  is_port_available, or_next, scan, try_preferred, find_available_port,
}

or_next_found :
    (port p : ℕ) (test : Result Bool) (rest : Result ℕ)
    → or_next port test rest ≡ ok p
    → ((p ≡ port) × (test ≡ ok true)) ⊎ ((test ≡ ok false) × (rest ≡ ok p))
unfolding or_next
or_next_found port p (failed e) rest h = cc
or_next_found port p (ok true) rest h = inl (cc, refl)
or_next_found port p (ok false) rest h = inr (refl, h)

or_next_none :
    (port : ℕ) (test : Result Bool) (rest : Result ℕ)
    → test ≢ failed no_port_available
    → or_next port test rest ≡ failed no_port_available
    → (test ≡ ok false) × (rest ≡ failed no_port_available)
unfolding or_next
or_next_none port (failed e) rest ne h = absurd (ne (cc h))
or_next_none port (ok true) rest ne h = cc
or_next_none port (ok false) rest ne h = (refl, h)

-- No allocation of a list has the port, or one has.
abbrev pub IsUnheld : ℕ → List PortAllocation → Type 0
IsUnheld q [] = Unit
IsUnheld q (a ∷ rest) = (a.port ≢ q) × IsUnheld q rest

abbrev pub IsHeld : ℕ → List PortAllocation → Type 0
IsHeld q [] = ⊥
IsHeld q (a ∷ rest) = (a.port ≡ q) ⊎ IsHeld q rest

-- The listeners that a protocol needs open, or one of them does not.
abbrev pub Listens : Answers → ℕ → Protocol → Type 0
Listens answers q tcp = answers.listen_tcp q ≡ true
Listens answers q udp = answers.listen_udp q ≡ true
Listens answers q tcp_udp = (answers.listen_tcp q ≡ true) × (answers.listen_udp q ≡ true)
Listens answers q (other s) = Unit

abbrev pub IsRefused : Answers → ℕ → Protocol → Type 0
IsRefused answers q tcp = answers.listen_tcp q ≡ false
IsRefused answers q udp = answers.listen_udp q ≡ false
IsRefused answers q tcp_udp = (answers.listen_tcp q ≡ false) ⊎ (answers.listen_udp q ≡ false)
IsRefused answers q (other s) = ⊥

find_by_port-IsUnheld :
    (q : ℕ) (read_model : List PortAllocation)
    → find_by_port q read_model ≡ none
    → IsUnheld q read_model
unfolding find_by_port
find_by_port-IsUnheld q [] h = tt
find_by_port-IsUnheld q (a ∷ rest) h = elim (Bool-cases (a.port == q)) [
  | inl e ↦ ground (arith, e, h)
  | inr e ↦ (
    λ same. cc ((==_iff a.port q).1 same),
    find_by_port-IsUnheld q rest (subst (λ t. t ≡ none) (rw e refl) h),
  )
]

find_by_port-IsHeld :
    (q : ℕ) (read_model : List PortAllocation) (a : PortAllocation)
    → find_by_port q read_model ≡ some a
    → IsHeld q read_model
unfolding find_by_port
find_by_port-IsHeld q [] a h = cc
find_by_port-IsHeld q (b ∷ rest) a h = elim (Bool-cases (b.port == q)) [
  | inl e ↦ inl ((==_iff b.port q).0 e)
  | inr e ↦ inr (find_by_port-IsHeld q rest a (subst (λ t. t ≡ some a) (rw e refl) h))
]

os_bind_test-Listens :
    (answers : Answers) (q : ℕ) (protocol : Protocol)
    → os_bind_test answers q protocol ≡ true
    → Listens answers q protocol
unfolding os_bind_test
os_bind_test-Listens answers q tcp h = h
os_bind_test-Listens answers q udp h = h
os_bind_test-Listens answers q tcp_udp h = (ground arith, ground arith)
os_bind_test-Listens answers q (other s) h = tt

os_bind_test-IsRefused :
    (answers : Answers) (q : ℕ) (protocol : Protocol)
    → os_bind_test answers q protocol ≡ false
    → IsRefused answers q protocol
unfolding os_bind_test
os_bind_test-IsRefused answers q tcp h = h
os_bind_test-IsRefused answers q udp h = h
os_bind_test-IsRefused answers q tcp_udp h = ground arith
os_bind_test-IsRefused answers q (other s) h = cc

module _ (answers : Answers) (protocol : Protocol) (read_model : List PortAllocation) where
  abbrev available : ℕ → Result Bool
  available port = is_port_available answers protocol read_model port

  -- A lookup that fails does not fail for want of a port.
  available_failed : (port : ℕ) → available port ≢ failed no_port_available
  unfolding is_port_available
  available_failed port e = elim (Option-cases (answers.lookup_error port)) [
    | inl n ↦ ground (arith, n, e)
    | inr (x, s) ↦ ground (arith, s, e)
  ]

  -- The read model does not have the port, and its listeners open.
  abbrev pub IsFree : ℕ → Type 0
  IsFree q = IsUnheld q read_model × Listens answers q protocol

  -- The read model has the port, or a listener of it does not open.
  abbrev pub IsTaken : ℕ → Type 0
  IsTaken q = IsHeld q read_model ⊎ IsRefused answers q protocol

  available-IsFree : (q : ℕ) → available q ≡ ok true → IsFree q
  unfolding is_port_available bind_unless_found
  available-IsFree q h = elim (Option-cases (answers.lookup_error q)) [
    | inr (x, e) ↦ ground (arith, e, h)
    | inl e ↦ elim (Option-cases (find_by_port q read_model)) [
      | inr (a, found) ↦ ground (arith, e, found, h)
      | inl unheld ↦ (
        find_by_port-IsUnheld q read_model unheld,
        os_bind_test-Listens answers q protocol (ground (arith, e, unheld, h)),
      )
    ]
  ]

  available-IsTaken : (q : ℕ) → available q ≡ ok false → IsTaken q
  unfolding is_port_available bind_unless_found
  available-IsTaken q h = elim (Option-cases (answers.lookup_error q)) [
    | inr (x, e) ↦ ground (arith, e, h)
    | inl e ↦ elim (Option-cases (find_by_port q read_model)) [
      | inr (a, found) ↦ inl (find_by_port-IsHeld q read_model a found)
      | inl unheld ↦ inr (os_bind_test-IsRefused answers q protocol (ground (arith, e, unheld, h)))
    ]
  ]

  -- All candidates of a range are taken.
  abbrev pub AllTaken : ℕ → ℕ → Type 0
  AllTaken first end = (q : ℕ) → first ≤ q → q < end → IsTaken q

  AllTaken-cons : (first end : ℕ) → IsTaken first → AllTaken (suc first) end → AllTaken first end
  AllTaken-cons first end e all q low high = elim (Bool-cases (first == q)) [
    | inl same ↦ subst IsTaken ((==_iff first q).0 same) e
    | inr differ ↦ all q (ground arith) high
  ]

  scan_found :
      (rounds candidate p : ℕ)
      → scan answers protocol read_model rounds candidate ≡ ok p
      → (candidate ≤ p) × (p < candidate + rounds) × IsFree p × AllTaken candidate p
  unfolding scan
  scan_found zero candidate p h = cc
  scan_found (suc rounds) candidate p h =
      elim (or_next_found candidate p (available candidate) _ h) [
        | inl (same, free) ↦ (
          omega arith,
          omega arith,
          available-IsFree p (ap available same ∙ free),
          λ q low high. absurd (omega arith),
        )
        | inr (taken, later) ↦
            let (low, high, free, all) = scan_found rounds (suc candidate) p later in
            (
              omega arith,
              omega arith,
              free,
              AllTaken-cons candidate p (available-IsTaken candidate taken) all,
            )
      ]

  scan_none :
      (rounds candidate : ℕ)
      → scan answers protocol read_model rounds candidate ≡ failed no_port_available
      → AllTaken candidate (candidate + rounds)
  unfolding scan
  scan_none zero candidate h = λ q low high. absurd (omega arith)
  scan_none (suc rounds) candidate h =
      let (taken, later) =
        or_next_none candidate (available candidate) _ (available_failed candidate) h in
      let all = scan_none rounds (suc candidate) later in
      AllTaken-cons candidate (candidate + suc rounds) (available-IsTaken candidate taken)
        (λ q low high. all q low (omega arith))

  -- The preferred port is set, and taken, or none is set.
  abbrev pub PreferredTaken : ℤ → Type 0
  PreferredTaken preferred = (preferred ≡ pos 0) ⊎ ((n : ℕ) × (preferred ≡ pos n) × IsTaken n)

  try_preferred_found :
      (preferred : ℤ) (rest : Result ℕ) (p : ℕ)
      → out_of_range preferred ≡ false
      → try_preferred answers protocol read_model preferred rest ≡ ok p
      → ((preferred ≡ pos p) × IsFree p) ⊎ (PreferredTaken preferred × (rest ≡ ok p))
  unfolding try_preferred out_of_range
  try_preferred_found (negsuc n) rest p r h = cc
  try_preferred_found (pos n) rest p r h = elim (Bool-cases (n == 0)) [
    | inl e ↦ inr (inl (ap pos ((==_iff n 0).0 e)), subst (λ t. t ≡ ok p) (rw e refl) h)
    | inr e ↦ elim (or_next_found n p (available n) rest (subst (λ t. t ≡ ok p) (rw e refl) h)) [
      | inl (same, free) ↦ inl (ap pos (sym same), available-IsFree p (ap available same ∙ free))
      | inr (taken, later) ↦ inr (inr (n, refl, available-IsTaken n taken), later)
    ]
  ]

  try_preferred_none :
      (preferred : ℤ) (rest : Result ℕ)
      → out_of_range preferred ≡ false
      → try_preferred answers protocol read_model preferred rest ≡ failed no_port_available
      → PreferredTaken preferred × (rest ≡ failed no_port_available)
  unfolding try_preferred out_of_range
  try_preferred_none (negsuc n) rest r h = cc
  try_preferred_none (pos n) rest r h = elim (Bool-cases (n == 0)) [
    | inl e ↦
        (inl (ap pos ((==_iff n 0).0 e)), subst (λ t. t ≡ failed no_port_available) (rw e refl) h)
    | inr e ↦
        let (taken, later) =
          or_next_none n (available n) rest (available_failed n)
            (subst (λ t. t ≡ failed no_port_available) (rw e refl) h) in
        (inr (n, refl, available-IsTaken n taken), later)
  ]

  module _ (preferred : ℤ) (port_start port_end : ℕ) where
    -- The port that the search finds is free: the read model does not have it, and every listener that
    -- the protocol needs opens on it. It is the preferred one, or, where none is preferred or the
    -- preferred one is taken, it is of the range and all before it in the range are taken: the read
    -- model has them, or a listener that the protocol needs does not open.
    pub find_available_port-AllTaken :
        {p : ℕ}
        → find_available_port answers protocol read_model preferred port_start port_end ≡ ok p
        → IsFree p
          × ((preferred ≡ pos p)
              ⊎ (PreferredTaken preferred
                  × (port_start ≤ p)
                  × (p ≤ port_end)
                  × AllTaken port_start p))
    unfolding find_available_port
    find_available_port-AllTaken {p} h = elim (Bool-cases (out_of_range preferred)) [
      | inl bad ↦ ground (arith, bad, h)
      | inr fine ↦
          elim (try_preferred_found preferred
            (scan answers protocol read_model (port_end + 1 - port_start) port_start) p fine
            (subst (λ t. t ≡ ok p) (rw fine refl) h)) [
              | inl (same, free) ↦ (free, inl same)
              | inr (taken, found) ↦
                  let (low, high, free, all) =
                    scan_found (port_end + 1 - port_start) port_start p found in
                  (free, inr (taken, low, omega arith, all))
            ]
    ]

    -- Where the search finds no port available, the preferred port, if there is one, and all ports of
    -- the range are taken: the read model has the port, or a listener that the protocol needs does not
    -- open on it.
    pub find_available_port_none :
        find_available_port answers protocol read_model preferred port_start port_end
          ≡ failed no_port_available
        → PreferredTaken preferred × AllTaken port_start (port_end + 1)
    unfolding find_available_port
    find_available_port_none h = elim (Bool-cases (out_of_range preferred)) [
      | inl bad ↦ ground (arith, bad, h)
      | inr fine ↦
          let (taken, found) =
            try_preferred_none preferred
              (scan answers protocol read_model (port_end + 1 - port_start) port_start) fine
              (subst (λ t. t ≡ failed no_port_available) (rw fine refl) h) in
          let all = scan_none (port_end + 1 - port_start) port_start found in
          (taken, λ q low high. all q low (omega arith))
    ]
