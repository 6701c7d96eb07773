-- ===== src/Netbridge/Service/Fresh.antt =====
-- No port is given twice.
use quiver_core.Prelude.{
  ℕ, zero, suc, ◌==◌, not, Bool, true, false, ◌||◌, Option, none, some, Str, ℤ, Bool-cases,
  Option-cases, ==_iff, ◌≡◌, ◌≢◌, inl, inr, refl, sym, ap, ◌∙◌, subst, arith,
}
use quiver_core.Netbridge.Port.{Protocol, PortAllocation, is_live, allocate_validate, allocate_emit}
use quiver_core.Netbridge.Search.{Result, ok, failed}
use quiver_core.Netbridge.Service.{
  Service, World, store_event, forward, send_allocate, adopt_if_claimed, attempt, after_adoption,
  adopt, store_allocated, max_allocate_attempts, allocate_loop, allocate,
}

-- A port's record says that nobody holds it: there is none, or one that was released.
abbrev pub IsFreePort : Option PortAllocation → Type 0
IsFreePort none = Unit
IsFreePort (some a) = a.port ≡ 0

pub is_live-IsFreePort : (o : Option PortAllocation) → is_live o ≡ false → IsFreePort o
unfolding is_live
is_live-IsFreePort none h = tt
is_live-IsFreePort (some a) h = ground arith

-- The port was free, is now recorded for the owner, and no other port changed.
pub record IsFresh (owner : Str) (protocol : Protocol) (n n' : Service) (p : ℕ) : Type 0 where
  pub was_free : IsFreePort (n.events p)
  pub allocated :
      (a : PortAllocation) × (n'.events p ≡ some a)
      × (a.port ≡ p)
      × (a.protocol ≡ protocol)
      × (a.owner_key ≡ owner)
  pub others : (q : ℕ) → q ≢ p → n'.events q ≡ n.events q

pub store_event_same :
    (events : ℕ → Option PortAllocation) (p : ℕ) (a : PortAllocation)
    → store_event events p a p ≡ some a
unfolding store_event
store_event_same events p a = ground arith

pub store_event_other :
    (events : ℕ → Option PortAllocation) (p q : ℕ) (a : PortAllocation)
    → q ≢ p
    → store_event events p a q ≡ events q
unfolding store_event
store_event_other events p q a ne = elim (Bool-cases (q == p)) [
  | inl e ↦ absurd (ne ((==_iff q p).0 e))
  | inr e ↦ rw e refl
]

module _ (owner : Str) (protocol : Protocol) (preferred : ℤ) where
  abbrev Fresh : Service → Service × Result ℕ → Type 0
  Fresh n r = (p : ℕ) → r.1 ≡ ok p → IsFresh owner protocol n r.0 p

  store_allocated-Fresh :
      (w : World) (n : Service) (port : ℕ) (forwarded : Bool) (error : Option Str)
      → is_live (n.events port) ≡ false
      → Fresh n (store_allocated w n port (allocate_emit port protocol owner forwarded) error)
  unfolding store_allocated
  store_allocated-Fresh w n port forwarded (some e) free p h = cc
  store_allocated-Fresh w n port forwarded none free p h =
      let e : p ≡ port = ok_eq h in
      record {
        was_free = is_live-IsFreePort (n.events p) (ap (λ k. is_live (n.events k)) e ∙ free);
        allocated = (
          emitted p,
          subst (λ k. store_event n.events port (emitted port) k ≡ some (emitted k)) (sym e)
              (store_event_same n.events port (emitted port)),
          unfold allocate_emit in refl,
          unfold allocate_emit in refl,
          unfold allocate_emit in refl,
        );
        others =
            λ q ne. store_event_other n.events port q (emitted port) (λ same. ne (same ∙ sym e));
      }
    where
      emitted : ℕ → PortAllocation
      emitted k = allocate_emit k protocol owner forwarded

      ok_eq : {a b : ℕ} → ok a ≡ ok b → b ≡ a
      ok_eq e = cc

  send-Fresh :
      (w : World) (n : Service) (port : ℕ) (forwarded : Bool)
      → Fresh n (send_allocate w n port (allocate_emit port protocol owner forwarded))
  unfolding send_allocate allocate_validate
  send-Fresh w n port forwarded p h = elim (Bool-cases (is_live (n.events port))) [
    | inl live ↦ ground (arith, live, h)
    | inr free ↦
        subst (λ r. Fresh n r) (sym (validated free))
          (store_allocated-Fresh w n port forwarded (w.send_error port) free) p h
  ]
    where
      validated :
          is_live (n.events port) ≡ false
          → send_allocate w n port (allocate_emit port protocol owner forwarded)
            ≡ store_allocated w n port
                (allocate_emit port protocol owner forwarded)
                (w.send_error port)
      validated free = rw free refl

  adopt-events :
      (save_fails : Bool) (n n' : Service) (current : Option PortAllocation)
      → adopt save_fails n current ≡ some n'
      → n'.events ≡ n.events
  unfolding adopt
  adopt-events save_fails n n' none h = cc
  adopt-events true n n' (some current) h = cc
  adopt-events false n n' (some current) h = sym (ap (λ o. events_of o) h)
    where
      events_of : Option Service → ℕ → Option PortAllocation
      events_of none = n.events
      events_of (some m) = m.events

  adopt_if_claimed-events :
      (w : World) (n n' : Service) (port : ℕ)
      → adopt_if_claimed w n port ≡ some n'
      → n'.events ≡ n.events
  unfolding adopt_if_claimed
  adopt_if_claimed-events w n n' port h =
      elim (Bool-cases (w.get_fails port || not (is_live (n.events port)))) [
        | inl e ↦ ground (arith, e, h)
        | inr e ↦
            adopt-events w.save_fails n n' (n.events port) (subst (λ o. o ≡ some n') (rw e refl) h)
      ]

  Fresh-events :
      (n n' : Service) (r : Service × Result ℕ) → n'.events ≡ n.events → Fresh n' r → Fresh n r
  Fresh-events n n' r e fresh p h =
      let f = fresh p h in
      record {
        was_free = subst (λ events. IsFreePort (events p)) e f.was_free;
        allocated = f.allocated;
        others = λ q ne. f.others q ne ∙ ap (λ events. events q) e;
      }

  attempt-Fresh :
      (w : World) (n : Service) (found : Result ℕ) (again : Service → Service × Result ℕ)
      → ((n' : Service) → Fresh n' (again n'))
      → Fresh n (attempt owner protocol w n found again)
  unfolding attempt after_adoption
  attempt-Fresh w n (failed e) again later p h = cc
  attempt-Fresh w n (ok port) again later p h = elim (Option-cases (adopt_if_claimed w n port)) [
    | inl e ↦
        subst (Fresh n) (sym (ap (after_adoption owner protocol w n port again) e))
          (send-Fresh w n port (forward w.forwards port protocol)) p h
    | inr (n', e) ↦
        subst (Fresh n) (sym (ap (after_adoption owner protocol w n port again) e))
          (Fresh-events n n' (again n') (adopt_if_claimed-events w n n' port e) (later n')) p h
  ]

  loop-Fresh :
      (worlds : ℕ → World) (rounds : ℕ) (n : Service)
      → Fresh n (allocate_loop owner protocol preferred worlds rounds n)
  unfolding allocate_loop
  loop-Fresh worlds zero n p h = cc
  loop-Fresh worlds (suc rounds) n p h =
      attempt-Fresh (worlds rounds) n _ (allocate_loop owner protocol preferred worlds rounds)
        (loop-Fresh worlds rounds) p h

  -- An allocation that succeeds gives a port that had no record or a released one, whatever the read
  -- model had missed and the outside answers; the port's record then has the port's number, the owner
  -- and the protocol that were asked for, and the records of the other ports are as before.
  pub allocate-IsFresh :
      (worlds : ℕ → World) (n : Service) (p : ℕ)
      → (allocate owner protocol preferred worlds n).1 ≡ ok p
      → IsFresh owner protocol n (allocate owner protocol preferred worlds n).0 p
  unfolding allocate
  allocate-IsFresh worlds n p h = loop-Fresh worlds max_allocate_attempts n p h
