-- ===== src/Store.antt =====
-- The key-value services behind the stores that the source names as protocols. They are not code
-- of the repository, so they are interfaces: a state, its operations, and what Redis documents
-- of them. `Store.Sample` has a value of each.
pub mod Sample
use football_prediction_craw.Prelude.{
  ℕ, ◌+◌, ◌≤◌, ◌≡◌, Bool, true, false, Option, none, some, String, str_eq, ltb, if◌then◌else◌,
}

-- `get` and `set` without expiry: the protocols of the scheduler, the sessions and the alerts.
-- A stored text is represented by what it denotes, of type `V`.
pub record KeyValue (V : Type 0) : Type 1 where
  pub State : Type 0
  pub get : String → State → Option V
  pub set : String → V → State → State
  pub get-set :
      (k j : String) (v : V) (s : State)
      → get j (set k v s) ≡ (if str_eq k j then some v else get j s)

-- The Redis commands with expiry: `GET`, `SET key value EX ttl`, `SET key value NX EX ttl`, `DEL`
-- and `EXPIRE`, each at a time of the server's clock.
pub record Expiring (V : Type 0) : Type 1 where
  pub State : Type 0
  pub get : ℕ → String → State → Option V
  pub set : ℕ → String → V → ℕ → State → State
  pub set_nx : ℕ → String → V → ℕ → State → Bool × State
  pub del : String → State → State
  pub expire : ℕ → String → ℕ → State → State
  pub get-set :
      (now later : ℕ) (k j : String) (v : V) (ttl : ℕ) (s : State)
      → now ≤ later
      → get later j (set now k v ttl s)
        ≡ (if str_eq k j then (if ltb later (now + ttl) then some v else none) else get later j s)
  pub set_nx_free :
      (now : ℕ) (k : String) (v : V) (ttl : ℕ) (s : State)
      → get now k s ≡ none
      → set_nx now k v ttl s ≡ (true, set now k v ttl s)
  pub set_nx_taken :
      (now : ℕ) (k : String) (v w : V) (ttl : ℕ) (s : State)
      → get now k s ≡ some w
      → set_nx now k v ttl s ≡ (false, s)
  pub get-del :
      (later : ℕ) (k j : String) (s : State)
      → get later j (del k s) ≡ (if str_eq k j then none else get later j s)
  pub get-expire :
      (now later : ℕ) (k j : String) (v : V) (ttl : ℕ) (s : State)
      → now ≤ later
      → get now k s ≡ some v
      → get later j (expire now k ttl s)
        ≡ (if str_eq k j then (if ltb later (now + ttl) then some v else none) else get later j s)
