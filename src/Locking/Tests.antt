-- ===== src/Locking/Tests.antt =====
-- The theorems on leases at concrete inputs.
use football_prediction_craw.Prelude.{
  ◌≡◌, refl, ◌≢◌, true, false, none, some, String, [], ◌∷◌, arith, eq_iff,
}
use football_prediction_craw.Store.{Expiring}
use football_prediction_craw.Store.Sample
use football_prediction_craw.Store.Sample.{server}
use football_prediction_craw.Prelude.Dict.{lookup, insert}
use football_prediction_craw.Patterns.{is_source_id}
use football_prediction_craw.Locking.{RedisLease, owns, acquire, renew, release, run}
use football_prediction_craw.Locking.World.{
  World, believe, acquired, renewed, here, next, acquires, renews, waits,
}
use football_prediction_craw.Locking.Exclusion.{mutual_exclusion}
use football_prediction_craw.Locking.Heartbeat.{lease_cycle, lost_lease_is_left_alone}

abbrev redis : Expiring String
redis = server

abbrev mine : RedisLease
mine = record { key = "k"; ttl_seconds = 90; token = "t" }

abbrev theirs : RedisLease
theirs = record { key = "k"; ttl_seconds = 90; token = "u" }

valid_demo : is_source_id "demo" ≡ true
unfolding is_source_id
valid_demo = refl

abbrev start : World redis
start = record { now = 0; store = []; beliefs = λ k t. none }

abbrev busy : World redis
busy = record (acquired redis mine start) { now = 30 }

mutual_exclusion_example :
    (◌≡◌ {A = String} "t" "t") × (redis.get 30 "k" (renewed redis mine busy).store ≡ some "t")
unfolding acquired renewed believe acquire renew Sample.set_nx Sample.expire insert lookup owns
mutual_exclusion_example =
    mutual_exclusion redis start (renewed redis mine busy) "k" "t" "t" 120 120 (λ j s. refl)
      (next (next (next here (acquires mine)) (waits 30 (omega arith))) (renews mine)) refl
      (omega arith) refl (omega arith)

lease_cycle_example :
    let (taken, s₁) = acquire redis mine 0 [] in
    let s₂ = run redis mine (30 ∷ 60 ∷ []) s₁ in
    let (freed, s₃) = release redis mine 149 s₂ in
    (taken ≡ true)
    × (redis.get 149 "k" s₂ ≡ some "t")
    × (freed ≡ true)
    × (redis.get 149 "k" s₃ ≡ none)
unfolding Sample.get lookup
lease_cycle_example =
    lease_cycle redis mine 0 149 (30 ∷ 60 ∷ []) [] refl (omega arith) (omega arith) (omega arith)

-- the store after another owner has taken the key
abbrev taken_over : Sample.Entries String
taken_over = ("k", some ("u", 190)) ∷ []

not_mine : redis.get 100 "k" taken_over ≢ some "t"
unfolding Sample.get lookup
not_mine e = ground (arith, eq_iff "u" "t")

lost_lease_is_left_alone_example :
    (run redis mine (100 ∷ 130 ∷ []) taken_over ≡ taken_over)
    × (release redis mine 100 taken_over ≡ (false, taken_over))
lost_lease_is_left_alone_example =
    lost_lease_is_left_alone redis mine 100 (130 ∷ []) taken_over not_mine
