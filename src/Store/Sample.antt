-- ===== src/Store/Sample.antt =====
-- A value of each interface: association lists, with the time at which an entry expires.
use football_prediction_craw.Prelude.{
  ℕ, ◌+◌, ◌≤◌, ◌≡◌, Bool, true, false, Option, none, some, String, str_eq, ltb, if◌then◌else◌,
  arith,
}
use football_prediction_craw.Prelude.Dict.{Dict, lookup, insert, lookup-insert}
use football_prediction_craw.Store.{KeyValue, Expiring}

-- an entry holds a value and its expiry, or is deleted
abbrev pub Entries : Type 0 → Type 0
Entries V = Dict (Option (V × ℕ))

module _ {V : Type 0} where
  -- a dictionary
  abbrev pub memory : KeyValue V
  memory = record { State = Dict V; get = lookup; set = insert; get-set = lookup-insert }

  abbrev pub live : ℕ → Option (Option (V × ℕ)) → Option V
  live now none = none
  live now (some none) = none
  live now (some (some (v, expiry))) = if ltb now expiry then some v else none

  unfoldable pub get : ℕ → String → Entries V → Option V
  get now k s = live now (lookup k s)

  unfoldable pub set : ℕ → String → V → ℕ → Entries V → Entries V
  set now k v ttl s = insert k (some (v, now + ttl)) s

  unfoldable pub set_nx : ℕ → String → V → ℕ → Entries V → Bool × Entries V
  unfolding get set
  set_nx now k v ttl s = elim (get now k s) [
    | none ↦ (true, set now k v ttl s)
    | some w ↦ (false, s)
  ]

  unfoldable pub del : String → Entries V → Entries V
  del k s = insert k none s

  unfoldable pub expire : ℕ → String → ℕ → Entries V → Entries V
  unfolding get
  expire now k ttl s = elim (get now k s) [ none ↦ s | some v ↦ insert k (some (v, now + ttl)) s ]

  pub get-set :
      (now later : ℕ) (k j : String) (v : V) (ttl : ℕ) (s : Entries V)
      → now ≤ later
      → get later j (set now k v ttl s)
        ≡ (if str_eq k j then (if ltb later (now + ttl) then some v else none) else get later j s)
  unfolding get set
  get-set now later k j v ttl s h = ground (arith, lookup-insert k j (some (v, now + ttl)) s)

  pub set_nx_free :
      (now : ℕ) (k : String) (v : V) (ttl : ℕ) (s : Entries V)
      → get now k s ≡ none
      → set_nx now k v ttl s ≡ (true, set now k v ttl s)
  set_nx_free now k v ttl s h = unfold set_nx in ground arith

  pub set_nx_taken :
      (now : ℕ) (k : String) (v w : V) (ttl : ℕ) (s : Entries V)
      → get now k s ≡ some w
      → set_nx now k v ttl s ≡ (false, s)
  set_nx_taken now k v w ttl s h = unfold set_nx in ground arith

  pub get-del :
      (later : ℕ) (k j : String) (s : Entries V)
      → get later j (del k s) ≡ (if str_eq k j then none else get later j s)
  unfolding get del
  get-del later k j s = ground (arith, lookup-insert k j none s)

  pub get-expire :
      (now later : ℕ) (k j : String) (v : V) (ttl : ℕ) (s : Entries V)
      → now ≤ later
      → get now k s ≡ some v
      → get later j (expire now k ttl s)
        ≡ (if str_eq k j then (if ltb later (now + ttl) then some v else none) else get later j s)
  unfolding expire get
  get-expire now later k j v ttl s h e = ground (arith, lookup-insert k j (some (v, now + ttl)) s)

  abbrev pub server : Expiring V
  server = record {
    State = Entries V;
    get = get;
    set = set;
    set_nx = set_nx;
    del = del;
    expire = expire;
    get-set = get-set;
    set_nx_free = set_nx_free;
    set_nx_taken = set_nx_taken;
    get-del = get-del;
    get-expire = get-expire;
  }
