-- ===== src/Tasks/Runs.antt =====
-- What `run_with_source_lease` promises (tasks.py).
use Prim.Native.String
use football_prediction_craw.Prelude.{
  ℕ, suc, ◌≡◌, refl, sym, ap, ◌∙◌, subst, true, false, Option, none, some, String, List, [], ◌∷◌,
  ◌++◌, eq_iff, Bool-cases, inl, inr,
}
use football_prediction_craw.Prelude.Result.{Result, ok, err}
use football_prediction_craw.Prelude.Exec.{
  Exec, pure, raise, finally, ◌>>=◌, ◌>>◌, bind_ok, bind_err, catch_ok, catch_err,
}
use football_prediction_craw.Store.{Expiring}
use football_prediction_craw.Patterns.{is_source_id, is_task_id}
use football_prediction_craw.Locking.{
  RedisLease, new_lease, source_lock_key, owns, acquire, release,
}
use football_prediction_craw.Observability.{
  RunOutcome, RunContext, RunEvent, Raised, run_context, succeeded, failed, skipped,
}
use football_prediction_craw.Observability.Json.{Number}
use football_prediction_craw.Tasks.Reports.{event_names, twice, report_lem, reported}
use football_prediction_craw.Tasks.{
  RunMetric, LogRecord, info, emitted, World, Ended, completed, skipped_overlap, logged, terminal,
  report, attempt, let_go, heartbeat, overlap, held, leased, run_with_source_lease,
  record_terminal_metric,
}

module _ (redis : Expiring String) (duration : ℕ → ℕ → Number)
    (metrics_store : Option (RunMetric → Exec Raised (World redis) (Unit {0}))) where
  owns-del :
      (lease : RedisLease) (now : ℕ) (s : redis.State)
      → owns redis lease now (redis.del lease.key s) ≡ false
  unfolding owns
  owns-del lease now s =
      rw (owns, redis.get-del now lease.key lease.key s, (eq_iff lease.key lease.key).1 refl) refl

  -- a lease that was let go is not owned
  let_go-not-owned :
      (lease : RedisLease) (w : World redis)
      → owns redis lease w.now (let_go redis duration metrics_store lease w).store ≡ false
  unfolding let_go release
  let_go-not-owned lease w = elim (Bool-cases (owns redis lease w.now w.store)) [
    | inl e ↦ rw (e) (owns-del lease w.now w.store)
    | inr e ↦ rw (e) e
  ]

  module _ {T : Type 0} (operation : Exec Raised (World redis) T)
      (source task run_id token : String) (ttl : ℕ) where
    abbrev context : RunContext
    context = record { source_id = source; crawl_run_id = run_id; task_id = task }

    abbrev pub the_lease : RedisLease
    the_lease = record { key = source_lock_key source; ttl_seconds = suc ttl; token = token }

    -- the world in which the operation begins
    abbrev pub begun : World redis → World redis
    begun w = record w {
      store = (acquire redis the_lease w.now w.store).1;
      heartbeat_running = true;
    }

    abbrev pub the_run : World redis → Result Raised (Ended T) × World redis
    the_run =
        run_with_source_lease redis duration metrics_store source operation (suc ttl) none task
          run_id token

    run-held :
        (w : World redis)
        → is_source_id source ≡ true
        → is_task_id task ≡ true
        → (acquire redis the_lease w.now w.store).0 ≡ true
        → the_run w
          ≡ finally
              (attempt redis duration metrics_store context w.monotonic operation)
              (let_go redis duration metrics_store the_lease)
              (begun w)
    unfolding run_with_source_lease leased held heartbeat run_context new_lease
    run-held w h k taken = rw (h, k, taken) refl

    -- the run whose lock another owner holds
    run-overlap :
        (w : World redis) (owner : String)
        → is_source_id source ≡ true
        → is_task_id task ≡ true
        → redis.get w.now (source_lock_key source) w.store ≡ some owner
        → the_run w ≡ overlap redis duration metrics_store context w.monotonic w
    unfolding run_with_source_lease leased run_context new_lease acquire
    run-overlap w owner h k busy =
        rw
          (
            h,
            k,
            redis.set_nx_taken w.now (source_lock_key source) token owner (suc ttl) w.store busy,
          )
          refl

    acquired :
        (w : World redis)
        → redis.get w.now (source_lock_key source) w.store ≡ none
        → (acquire redis the_lease w.now w.store).0 ≡ true
    unfolding acquire
    acquired w free =
        ap (λ x. x.0)
          (redis.set_nx_free w.now (source_lock_key source) token (suc ttl) w.store free)

    -- A run of a valid source and task whose lock is free, under the default heartbeat, ends with the
    -- heartbeat stopped and the lease not owned, whatever the operation and the metric store do and
    -- whether they raise or not.
    pub lease_never_outlives_run :
        (w : World redis)
        → is_source_id source ≡ true
        → is_task_id task ≡ true
        → redis.get w.now (source_lock_key source) w.store ≡ none
        → let w₁ = (the_run w).1 in
          (owns redis the_lease w₁.now w₁.store ≡ false) × (w₁.heartbeat_running ≡ false)
    unfolding let_go
    lease_never_outlives_run w h k free =
        subst
          (λ (x : Result Raised (Ended T) × World redis).
            (owns redis the_lease x.1.now x.1.store ≡ false) × (x.1.heartbeat_running ≡ false))
          (sym (run-held w h k (acquired w free)))
          (
            let_go-not-owned the_lease
                (attempt redis duration metrics_store context w.monotonic operation (begun w)).1,
            refl,
          )

    abbrev pub outcome_of : Result Raised T → Result Raised (Ended T)
    outcome_of (ok a) = ok (completed a)
    outcome_of (err e) = err e

    abbrev pub event_of : ℕ → Result Raised T → World redis → RunEvent
    event_of started (ok a) =
        terminal redis duration metrics_store "run_finished" context succeeded started none
    event_of started (err e) =
        terminal redis duration metrics_store "run_failed" context failed started (some e)

    module _ (elapsed : (a b : ℕ) → (duration a b).is_negative ≡ false)
        (silent : (c : RunContext) (o : RunOutcome) (t : ℕ) (w : World redis)
          → let (r, u) = record_terminal_metric redis duration metrics_store c o t w in
            (r ≡ ok tt) × (u.log ≡ w.log)) where
      attempt_ok :
          (t : ℕ) (w : World redis) (a : T) (w₁ : World redis)
          → operation w ≡ (ok a, w₁)
          → attempt redis duration metrics_store context t operation w ≡ (
            ok (completed a),
            (report redis duration metrics_store "run_finished" context succeeded t none w₁).1,
          )
      unfolding attempt
      attempt_ok t w a w₁ h =
          let told = report redis duration metrics_store "run_finished" context succeeded t none in
          catch_ok (operation >>= λ result. told >> pure (completed result))
            (λ x.
              report redis duration metrics_store "run_failed" context failed t (some x) >> raise x)
            (bind_ok operation (λ result. told >> pure (completed result)) h
              ∙ bind_ok told (λ u. pure (completed a))
                  (reported redis duration metrics_store elapsed silent "run_finished" context
                    succeeded t none w₁ event_names.0))

      attempt_err :
          (t : ℕ) (w : World redis) (e : Raised) (w₁ : World redis)
          → operation w ≡ (err e, w₁)
          → attempt redis duration metrics_store context t operation w ≡ (
            err e,
            (report redis duration metrics_store "run_failed" context failed t (some e) w₁).1,
          )
      unfolding attempt
      attempt_err t w e w₁ h =
          let told = report redis duration metrics_store "run_failed" context failed t (some e) in
          catch_err
            (operation >>= λ result.
              report redis duration metrics_store "run_finished" context succeeded t none
              >> pure (completed result))
            (λ x.
              report redis duration metrics_store "run_failed" context failed t (some x) >> raise x)
            (bind_err operation
              (λ result.
                report redis duration metrics_store "run_finished" context succeeded t none
                >> pure (completed result))
              h)
          ∙ bind_ok told (λ u. raise e)
              (reported redis duration metrics_store elapsed silent "run_failed" context failed t
                (some e) w₁ event_names.1)

      attempt_lem :
          (t : ℕ) (w : World redis)
          → let (r, w₁) = operation w in
            let (r₂, w₂) = attempt redis duration metrics_store context t operation w in
            (r₂ ≡ outcome_of r) × (w₂.log ≡ w₁.log ++ (emitted (event_of t r w₁) ∷ []))
      unfolding attempt
      attempt_lem t w = cases (operation w).0 (operation w).1 refl
        where
          cases :
              (r : Result Raised T) (w₁ : World redis)
              → operation w ≡ (r, w₁)
              → let (r₂, w₂) = attempt redis duration metrics_store context t operation w in
                (r₂ ≡ outcome_of r) × (w₂.log ≡ w₁.log ++ (emitted (event_of t r w₁) ∷ []))
          cases (ok a) w₁ h =
              subst
                (λ (x : Result Raised (Ended T) × World redis).
                  (x.0 ≡ ok (completed a))
                  × (x.1.log ≡ w₁.log ++ (emitted (event_of t (ok a) w₁) ∷ [])))
                (sym (attempt_ok t w a w₁ h))
                (
                  refl,
                  (report_lem redis duration metrics_store elapsed silent "run_finished" context
                      succeeded t none w₁ event_names.0).1,
                )
          cases (err e) w₁ h =
              subst
                (λ (x : Result Raised (Ended T) × World redis).
                  (x.0 ≡ err e) × (x.1.log ≡ w₁.log ++ (emitted (event_of t (err e) w₁) ∷ [])))
                (sym (attempt_err t w e w₁ h))
                (
                  refl,
                  (report_lem redis duration metrics_store elapsed silent "run_failed" context
                      failed t (some e) w₁ event_names.1).1,
                )

      -- When no duration is negative and the metric store neither raises nor logs, a run of a valid
      -- source and task whose lock is free, under the default heartbeat, returns what the operation
      -- returns, or raises what it raises, and logs after the operation's own events exactly one
      -- terminal event that agrees with it.
      pub one_terminal_event :
          (w : World redis)
          → is_source_id source ≡ true
          → is_task_id task ≡ true
          → redis.get w.now (source_lock_key source) w.store ≡ none
          → let (r, w₁) = operation (begun w) in
            ((the_run w).0 ≡ outcome_of r)
            × ((the_run w).1.log ≡ w₁.log ++ (emitted (event_of w.monotonic r w₁) ∷ []))
      unfolding let_go
      one_terminal_event w h k free =
          subst
            (λ (x : Result Raised (Ended T) × World redis).
              (x.0 ≡ outcome_of (operation (begun w)).0)
              × (x.1.log
                  ≡ (operation (begun w)).1.log
                    ++ (emitted
                          (event_of w.monotonic (operation (begun w)).0 (operation (begun w)).1)
                        ∷ [])))
            (sym (run-held w h k (acquired w free))) (attempt_lem w.monotonic (begun w))

      -- the world after the message of the branch
      abbrev pub messaged : World redis → World redis
      messaged =
          logged redis duration metrics_store
            (info (String.◌++◌ "skipped_overlap source_id=" source))

      -- what a run that gives way logs: the message, then its terminal event
      abbrev pub skip_records : World redis → List LogRecord
      skip_records w =
          info (String.◌++◌ "skipped_overlap source_id=" source)
          ∷ emitted (
              terminal redis duration metrics_store "run_skipped" context skipped w.monotonic none
                w)
          ∷ []

      overlap_lem :
          (w : World redis)
          → let (r, u) = overlap redis duration metrics_store {T = T} context w.monotonic w in
            (r ≡ ok skipped_overlap) × (u.log ≡ w.log ++ skip_records w)
      unfolding overlap
      overlap_lem w =
          rw
            (bind_ok
              (report redis duration metrics_store "run_skipped" context skipped w.monotonic none) _
              (reported redis duration metrics_store elapsed silent "run_skipped" context skipped
                w.monotonic none (messaged w) event_names.2))
            (
              refl,
              (report_lem redis duration metrics_store elapsed silent "run_skipped" context skipped
                    w.monotonic none (messaged w) event_names.2).1
                  ∙ twice w.log _ _,
            )

      -- When no duration is negative and the metric store neither raises nor logs, a run of a valid
      -- source and task whose lock another owner holds returns the overlap outcome, and logs the
      -- message of the overlap and then one skipped run, and nothing that the operation would log.
      pub overlap_is_skipped :
          (w : World redis) (owner : String)
          → is_source_id source ≡ true
          → is_task_id task ≡ true
          → redis.get w.now (source_lock_key source) w.store ≡ some owner
          → ((the_run w).0 ≡ ok skipped_overlap) × ((the_run w).1.log ≡ w.log ++ skip_records w)
      overlap_is_skipped w owner h k busy =
          subst
            (λ (x : Result Raised (Ended T) × World redis).
              (x.0 ≡ ok skipped_overlap) × (x.1.log ≡ w.log ++ skip_records w))
            (sym (run-overlap w owner h k busy)) (overlap_lem w)
