-- ===== src/Locking/Heartbeat.antt =====
-- The heartbeat of one lease.
use football_prediction_craw.Prelude.{
  ℕ, ◌+◌, ◌≤◌, ◌<◌, ◌≡◌, refl, ◌≢◌, true, false, none, some, String, eq_iff, List, [], ◌∷◌, arith,
  Option-cases, inl, inr,
}
use football_prediction_craw.Store.{Expiring}
use football_prediction_craw.Locking.{RedisLease, owns, acquire, renew, release, run}

module _ (redis : Expiring String) (lease : RedisLease) where
  open redis use {State, get, set, get-set, set_nx_free, get-del, get-expire}

  -- the store names the owner from `now` until the deadline
  abbrev pub Held : ℕ → ℕ → State → Type 0
  Held now deadline s =
      (later : ℕ) → now ≤ later → later < deadline → get later lease.key s ≡ some lease.token

  acquire-Held :
      (now : ℕ) (s : State)
      → get now lease.key s ≡ none
      → ((acquire redis lease now s).0 ≡ true)
        × Held now (now + lease.ttl_seconds) (acquire redis lease now s).1
  unfolding acquire
  acquire-Held now s free =
      let e = set_nx_free now lease.key lease.token lease.ttl_seconds s free in
      rw e (
        refl,
        λ later p q. ground (
          arith,
          get-set now later lease.key lease.key lease.token lease.ttl_seconds s p,
          eq_iff lease.key lease.key,
        ),
      )

  owns_when_named :
      (now : ℕ) (s : State) → get now lease.key s ≡ some lease.token → owns redis lease now s ≡ true
  unfolding owns
  owns_when_named now s e = ground (arith, eq_iff lease.token lease.token)

  renew-Held :
      (now : ℕ) (s : State)
      → get now lease.key s ≡ some lease.token
      → ((renew redis lease now s).0 ≡ true)
        × Held now (now + lease.ttl_seconds) (renew redis lease now s).1
  unfolding renew
  renew-Held now s e = rw (owns_when_named now s e) (
    refl,
    λ later p q. ground (
      arith,
      get-expire now later lease.key lease.key lease.token lease.ttl_seconds s p e,
      eq_iff lease.key lease.key,
    ),
  )

  -- each wake-up before the time to live that began at the one before is over
  abbrev pub Paced : ℕ → List ℕ → Type 0
  Paced now [] = Unit
  Paced now (t ∷ ts) = (now ≤ t) × (t < now + lease.ttl_seconds) × Paced t ts

  abbrev pub last_of : ℕ → List ℕ → ℕ
  last_of t [] = t
  last_of t (u ∷ us) = last_of u us

  run-Held :
      (now : ℕ) (times : List ℕ) (s : State)
      → Held now (now + lease.ttl_seconds) s
      → Paced now times
      → Held (last_of now times) (last_of now times + lease.ttl_seconds) (run redis lease times s)
  unfolding run
  run-Held now [] s h p = h
  run-Held now (t ∷ ts) s h p =
      let (kept, next) = renew-Held t s (h t p.0 p.1) in
      rw kept (run-Held t ts (renew redis lease t s).1 next p.2)

  -- A lease that is acquired when its key is free, and renewed by its heartbeat at times each
  -- within the time to live of the one before, is held by its owner until the time to live of the
  -- last renewal is over; a release before that succeeds and frees the key.
  pub lease_cycle :
      (now later : ℕ) (times : List ℕ) (s : State)
      → get now lease.key s ≡ none
      → Paced now times
      → last_of now times ≤ later
      → later < last_of now times + lease.ttl_seconds
      → let (taken, s₁) = acquire redis lease now s in
        let s₂ = run redis lease times s₁ in
        let (freed, s₃) = release redis lease later s₂ in
        (taken ≡ true)
        × (get later lease.key s₂ ≡ some lease.token)
        × (freed ≡ true)
        × (get later lease.key s₃ ≡ none)
  unfolding release
  lease_cycle now later times s free paced p q =
      let (taken, held) = acquire-Held now s free in
      let s₂ = run redis lease times (acquire redis lease now s).1 in
      let named : get later lease.key s₂ ≡ some lease.token =
        run-Held now times _ held paced later p q in
      let owned : owns redis lease later s₂ ≡ true = owns_when_named later s₂ named in
      rw owned (
        taken,
        named,
        refl,
        ground (arith, get-del later lease.key lease.key s₂, eq_iff lease.key lease.key),
      )

  not_owned :
      (now : ℕ) (s : State)
      → get now lease.key s ≢ some lease.token
      → owns redis lease now s ≡ false
  unfolding owns
  not_owned now s other = elim (Option-cases (get now lease.key s)) [
    | inl e ↦ rw (e, owns)
    | inr (t, e) ↦ rw (e, owns) (ground (arith, eq_iff t lease.token))
  ]

  -- Once another owner or none is named when the heartbeat wakes, it ends: it changes nothing, and
  -- neither does the release of the lease at that time.
  pub lost_lease_is_left_alone :
      (now : ℕ) (times : List ℕ) (s : State)
      → get now lease.key s ≢ some lease.token
      → (run redis lease (now ∷ times) s ≡ s) × (release redis lease now s ≡ (false, s))
  unfolding run renew release
  lost_lease_is_left_alone now times s other =
      let f : owns redis lease now s ≡ false = not_owned now s other in (rw f refl, rw f refl)
