-- ===== src/Locking/Exclusion.antt =====
-- No two owners hold a lease of one key at one time.
use football_prediction_craw.Prelude.{
  ℕ, ◌≤◌, ◌<◌, ◌≡◌, none, some, String, eq_iff, arith, Option-cases, inl, inr,
}
use football_prediction_craw.Store.{Expiring}
use football_prediction_craw.Locking.{RedisLease, owns, acquire, renew, release}
use football_prediction_craw.Locking.World.{
  World, believe, acquired, renewed, released, Step, acquires, renews, releases, waits, Reach, here,
  next,
}

module _ (redis : Expiring String) where
  open redis use {
    State, get, set, set_nx, del, expire, get-set, set_nx_free, set_nx_taken, get-del, get-expire,
  }

  -- Up to its deadline, the store names each owner that counts on a key.
  pub record IsSafe (w : World redis) : Type 0 where
    pub held :
        (k t : String) (d later : ℕ)
        → w.beliefs k t ≡ some d
        → w.now ≤ later
        → later < d
        → get later k w.store ≡ some t

  acquired-IsSafe :
      (lease : RedisLease) (w : World redis) → IsSafe w → IsSafe (acquired redis lease w)
  unfolding acquired acquire believe
  acquired-IsSafe lease w v = record {
    held = λ k t d later b p q. elim (Option-cases (get w.now lease.key w.store)) [
      | inl free ↦ ground (
        arith,
        get-set w.now later lease.key k lease.token lease.ttl_seconds w.store p,
        set_nx_free w.now lease.key lease.token lease.ttl_seconds w.store free,
        v.held k t d later,
        v.held k t d w.now,
        eq_iff lease.key k,
        eq_iff lease.token t,
      )
      | inr (owner, taken) ↦ ground (
        arith,
        set_nx_taken w.now lease.key lease.token owner lease.ttl_seconds w.store taken,
        v.held k t d later,
        v.held k t d w.now,
        eq_iff lease.key k,
        eq_iff lease.token t,
      )
    ];
  }

  renewed-IsSafe :
      (lease : RedisLease) (w : World redis) → IsSafe w → IsSafe (renewed redis lease w)
  unfolding renewed renew believe owns
  renewed-IsSafe lease w v = record {
    held = λ k t d later b p q. elim (Option-cases (get w.now lease.key w.store)) [
      | inl free ↦
          ground (
            arith,
            v.held k t d later,
            v.held k t d w.now,
            eq_iff lease.key k,
            eq_iff lease.token t,
          )
      | inr (owner, taken) ↦ ground (
        arith,
        get-expire w.now later lease.key k owner lease.ttl_seconds w.store p taken,
        eq_iff owner lease.token,
        v.held k t d later,
        v.held k t d w.now,
        eq_iff lease.key k,
        eq_iff lease.token t,
      )
    ];
  }

  released-IsSafe :
      (lease : RedisLease) (w : World redis) → IsSafe w → IsSafe (released redis lease w)
  unfolding released release believe owns
  released-IsSafe lease w v = record {
    held = λ k t d later b p q. elim (Option-cases (get w.now lease.key w.store)) [
      | inl free ↦
          ground (
            arith,
            v.held k t d later,
            v.held k t d w.now,
            eq_iff lease.key k,
            eq_iff lease.token t,
          )
      | inr (owner, taken) ↦ ground (
        arith,
        get-del later lease.key k w.store,
        eq_iff owner lease.token,
        v.held k t d later,
        v.held k t d w.now,
        eq_iff lease.key k,
        eq_iff lease.token t,
      )
    ];
  }

  Step-IsSafe : {w u : World redis} → Step redis w u → IsSafe w → IsSafe u
  Step-IsSafe {w} (acquires lease) v = acquired-IsSafe lease w v
  Step-IsSafe {w} (renews lease) v = renewed-IsSafe lease w v
  Step-IsSafe {w} (releases lease) v = released-IsSafe lease w v
  Step-IsSafe (waits later h) v = record {
    held = λ k t d l b p q. v.held k t d l b (omega arith) q;
  }

  pub Reach-IsSafe : {w u : World redis} → IsSafe w → Reach redis w u → IsSafe u
  Reach-IsSafe v here = v
  Reach-IsSafe v (next r st) = Step-IsSafe st (Reach-IsSafe v r)

  -- From a world in which no owner counts on a key, whatever acquisitions, renewals and releases
  -- the owners make and however time passes: two owners that both count on one key before their
  -- deadlines are the same owner, and the store names it.
  pub mutual_exclusion :
      (w u : World redis) (k t t' : String) (d d' : ℕ)
      → ((j s : String) → w.beliefs j s ≡ none)
      → Reach redis w u
      → u.beliefs k t ≡ some d
      → u.now < d
      → u.beliefs k t' ≡ some d'
      → u.now < d'
      → (t ≡ t') × (get u.now k u.store ≡ some t)
  mutual_exclusion w u k t t' d d' start r b p b' p' =
      let v = Reach-IsSafe (record { held = λ j s e l h _ _. ground (arith, start j s) }) r in
      let first = v.held k t d u.now b (omega arith) p in
      let second = v.held k t' d' u.now b' (omega arith) p' in (cc, first)
