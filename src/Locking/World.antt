-- ===== src/Locking/World.antt =====
-- Any number of lease owners on one store. Each owner is known by its token (`uuid4().hex`), and
-- believes that it holds a lease until the time to live of its last acquisition or renewal ends.
use football_prediction_craw.Prelude.{
  ℕ, ◌+◌, ◌≤◌, Option, none, some, String, str_eq, ◌&&◌, if◌then◌else◌,
}
use football_prediction_craw.Store.{Expiring}
use football_prediction_craw.Locking.{RedisLease, acquire, renew, release}

-- The deadline up to which the owner of a token counts on a key.
abbrev pub Beliefs : Type 0
Beliefs = String → String → Option ℕ

unfoldable pub believe : RedisLease → Option ℕ → Beliefs → Beliefs
believe lease deadline b k t =
    if str_eq lease.key k && str_eq lease.token t then deadline else b k t

module _ (redis : Expiring String) where
  open redis use {State}

  pub record World : Type 0 where
    pub now : ℕ
    pub store : State
    pub beliefs : Beliefs

  unfoldable pub acquired : RedisLease → World → World
  acquired lease w =
      let (taken, s) = acquire redis lease w.now w.store in
      record w {
        store = s;
        beliefs =
            if taken then believe lease (some (w.now + lease.ttl_seconds)) w.beliefs else w.beliefs;
      }

  unfoldable pub renewed : RedisLease → World → World
  renewed lease w =
      let (kept, s) = renew redis lease w.now w.store in
      record w {
        store = s;
        beliefs = believe lease (if kept then some (w.now + lease.ttl_seconds) else none) w.beliefs;
      }

  unfoldable pub released : RedisLease → World → World
  released lease w = record w {
    store = (release redis lease w.now w.store).1;
    beliefs = believe lease none w.beliefs;
  }

  -- One owner acts, or time passes.
  pub data Step (w : World) : World → Type 0 where
    acquires : (lease : RedisLease) → Step w (acquired lease w)
    renews : (lease : RedisLease) → Step w (renewed lease w)
    releases : (lease : RedisLease) → Step w (released lease w)
    waits : (later : ℕ) → w.now ≤ later → Step w (record w { now = later })

  pub data Reach (w : World) : World → Type 0 where
    here : Reach w w
    next : {u v : World} → Reach w u → Step u v → Reach w v
