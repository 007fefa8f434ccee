-- ===== src/Metrics/Sample.antt =====
-- A value of `MetricsRedis`: a dictionary of hashes, and one set. A number is written as that many
-- strokes, which stand for its digits.
use football_prediction_craw.Prelude.{
  ℕ, zero, suc, ◌+◌, ◌≡◌, refl, ap, ◌∙◌, Bool, true, false, ◌&&◌, Option, none, some, List, [], ◌∷◌,
  String, str_eq, eq_iff, arith, if◌then◌else◌, any,
}
use football_prediction_craw.Prelude.Dict.{Dict, lookup, insert, lookup-insert}
use football_prediction_craw.Metrics.Hashes.{MetricsRedis}

unfoldable pub strokes : ℕ → String
strokes zero = String.[]
strokes (suc n) = String.◌∷◌ "1" (strokes n)

unfoldable pub stroke_count : String → ℕ
stroke_count String.[] = 0
stroke_count (String.◌∷◌ c s) = suc (stroke_count s)

stroke_count-strokes : (n : ℕ) → stroke_count (strokes n) ≡ n
unfolding strokes stroke_count
stroke_count-strokes zero = refl
stroke_count-strokes (suc n) = ap (λ k. suc k) (stroke_count-strokes n)

abbrev pub Hashes : Type 0
Hashes = Dict (Dict String)

abbrev pub Sets : Type 0
Sets = List String

abbrev pub or_empty : Option (Dict String) → Dict String
or_empty none = []
or_empty (some fields) = fields

unfoldable pub hgetall : String → Hashes × Sets → Dict String
hgetall name (hashes, set) = or_empty (lookup name hashes)

unfoldable pub hset : String → String → String → Hashes × Sets → Hashes × Sets
unfolding hgetall
hset name k v (hashes, set) = (insert name (insert k v (or_empty (lookup name hashes))) hashes, set)

abbrev pub count_of : Option String → ℕ
count_of none = 0
count_of (some text) = stroke_count text

unfoldable pub hincrby : String → String → ℕ → Hashes × Sets → Hashes × Sets
unfolding hset
hincrby name k a s = hset name k (strokes (count_of (lookup k (hgetall name s)) + a)) s

unfoldable pub sadd : String → String → Hashes × Sets → Hashes × Sets
sadd name v (hashes, set) = if any (str_eq v) set then (hashes, set) else (hashes, v ∷ set)

unfoldable pub smembers : String → Hashes × Sets → List String
smembers name (hashes, set) = set

hset_lem :
    (n m k j v : String) (s : Hashes × Sets)
    → lookup j (hgetall m (hset n k v s))
      ≡ (if str_eq n m && str_eq k j then some v else lookup j (hgetall m s))
unfolding hset hgetall
hset_lem n m k j v (hashes, set) =
    let fields = or_empty (lookup n hashes) in
    ap (λ o. lookup j (or_empty o)) (lookup-insert n m (insert k v fields) hashes)
    ∙ split (str_eq n m) refl
  where
    split :
        (b : Bool)
        → str_eq n m ≡ b
        → lookup j (
            or_empty
              (if b then some (insert k v (or_empty (lookup n hashes))) else lookup m hashes))
          ≡ (if b && str_eq k j then some v else lookup j (or_empty (lookup m hashes)))
    split false e = refl
    split true e =
        let same : n ≡ m = ground (arith, eq_iff n m) in
        rw same (lookup-insert k j v (or_empty (lookup m hashes)))

pub hset_same : (n k v : String) (s : Hashes × Sets) → lookup k (hgetall n (hset n k v s)) ≡ some v
hset_same n k v s = ground (arith, hset_lem n n k k v s, eq_iff n n, eq_iff k k)

pub hset_other :
    (n m k j v : String) (s : Hashes × Sets)
    → (str_eq n m && str_eq k j) ≡ false
    → lookup j (hgetall m (hset n k v s)) ≡ lookup j (hgetall m s)
hset_other n m k j v s h = hset_lem n m k j v s ∙ rw h refl

pub hincrby_new :
    (n k : String) (a : ℕ) (s : Hashes × Sets)
    → lookup k (hgetall n s) ≡ none
    → lookup k (hgetall n (hincrby n k a s)) ≡ some (strokes a)
unfolding hincrby
hincrby_new n k a s h =
    hset_same n k _ s
    ∙ ap (λ o. some (strokes (count_of o + a))) h
    ∙ ap (λ m. some (strokes m)) (omega arith)

pub hincrby_old :
    (n k : String) (a m : ℕ) (s : Hashes × Sets)
    → lookup k (hgetall n s) ≡ some (strokes m)
    → lookup k (hgetall n (hincrby n k a s)) ≡ some (strokes (m + a))
unfolding hincrby
hincrby_old n k a m s h =
    hset_same n k _ s
    ∙ ap (λ o. some (strokes (count_of o + a))) h
    ∙ ap (λ x. some (strokes (x + a))) (stroke_count-strokes m)

pub hincrby_other :
    (n m k j : String) (a : ℕ) (s : Hashes × Sets)
    → (str_eq n m && str_eq k j) ≡ false
    → lookup j (hgetall m (hincrby n k a s)) ≡ lookup j (hgetall m s)
unfolding hincrby
hincrby_other n m k j a s h = hset_other n m k j _ s h

pub hgetall-sadd : (n m v : String) (s : Hashes × Sets) → hgetall m (sadd n v s) ≡ hgetall m s
unfolding sadd hgetall
hgetall-sadd n m v (hashes, set) = ground arith

abbrev pub sample : MetricsRedis
sample = record {
  State = Hashes × Sets;
  decimal = strokes;
  hset = hset;
  hincrby = hincrby;
  hgetall = hgetall;
  sadd = sadd;
  smembers = smembers;
  hset_same = hset_same;
  hset_other = hset_other;
  hincrby_new = hincrby_new;
  hincrby_old = hincrby_old;
  hincrby_other = hincrby_other;
  hgetall-sadd = hgetall-sadd;
}
