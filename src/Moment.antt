-- ===== src/Moment.antt =====
-- Python's `datetime` with a time zone, and its ISO text. A wall-clock reading is a number of
-- microseconds; an offset is a number of microseconds east of UTC minus 24 hours, so it is never
-- negative. `fromisoformat` undoes `isoformat` up to the zone: it knows only the offset.
use football_prediction_craw.Prelude.{
  ℕ, ◌≡◌, refl, arith, ◌+◌, ◌*◌, Bool, true, false, if◌then◌else◌, ltb, ◌==◌, Option, none, some,
  String, str_eq, leb,
}

abbrev pub second : ℕ
second = 1_000_000

abbrev pub hours : ℕ → ℕ
hours n = n * 3600 * second

-- `tzinfo`: none, a named zone with its offset at the reading, or a fixed offset
pub data Zone : Type 0 where
  naive : Zone
  zone_info : String → ℕ → Zone
  fixed : ℕ → Zone

pub record DateTime : Type 0 where
  pub local : ℕ
  pub zone : Zone

-- `ZoneInfo("Asia/Shanghai")`, UTC+8
abbrev pub beijing : Zone
beijing = zone_info "Asia/Shanghai" (hours 32)

abbrev pub offset : Zone → Option ℕ
offset naive = none
offset (zone_info name o) = some o
offset (fixed o) = some o

-- What an ISO text denotes.
pub record Iso : Type 0 where
  pub local : ℕ
  pub offset : Option ℕ

unfoldable pub isoformat : DateTime → Iso
isoformat t = record { local = t.local; offset = offset t.zone }

abbrev zone_of : Option ℕ → Zone
zone_of none = naive
zone_of (some o) = fixed o

unfoldable pub fromisoformat : Iso → DateTime
fromisoformat i = record { local = i.local; zone = zone_of i.offset }

-- `a >= b`: none is the `TypeError` of comparing a naive reading with an aware one.
-- Two aware readings are compared as instants: `a.local - o >= b.local - p`.
unfoldable pub not_before : DateTime → DateTime → Option Bool
not_before a b = elim (offset a.zone) [
  | none ↦ elim (offset b.zone) [ none ↦ some (leb b.local a.local) | some p ↦ none ]
  | some o ↦ elim (offset b.zone) [ none ↦ none | some p ↦ some (leb (b.local + o) (a.local + p)) ]
]

-- whether two readings have the same `tzinfo` object, or none: zones of one name are one object
unfoldable pub same_zone : Zone → Zone → Bool
same_zone naive naive = true
same_zone (zone_info name o) (zone_info other p) = str_eq name other
same_zone (fixed o) (fixed p) = o == p
same_zone y z = false

-- `a - b > limit`, for offsets where both are known
unfoldable pub later_than : ℕ → ℕ → Option ℕ → ℕ → Option ℕ → Option Bool
later_than limit a (some o) b (some p) = some (ltb (b + o + limit) (a + p))
later_than limit a none b p = none
later_than limit a (some o) b none = none

-- `a - b > limit`: two readings of one `tzinfo` are subtracted as wall clocks and others as instants;
-- none is the `TypeError` of a naive reading with an aware one.
unfoldable pub elapsed_exceeds : ℕ → DateTime → DateTime → Option Bool
unfolding same_zone later_than
elapsed_exceeds limit a b =
    if same_zone a.zone b.zone
    then some (ltb (b.local + limit) a.local)
    else later_than limit a.local (offset a.zone) b.local (offset b.zone)

-- `t + timedelta(seconds=n)`
unfoldable pub plus_seconds : DateTime → ℕ → DateTime
plus_seconds t n = record t { local = t.local + n * second }

-- `tzinfo == BEIJING`: zones of the same name are one object, and a fixed offset is none of them
unfoldable pub is_beijing : Zone → Bool
is_beijing naive = false
is_beijing (zone_info name o) = str_eq name "Asia/Shanghai"
is_beijing (fixed o) = false

-- Readings in one zone compare by the wall clock, also when one has been through its ISO text.
pub not_before-iso :
    (a b : DateTime)
    → a.zone ≡ b.zone
    → not_before a (fromisoformat (isoformat b)) ≡ some (leb b.local a.local)
unfolding not_before fromisoformat isoformat
not_before-iso a b e = rw e (same b.zone)
  where
    same :
        (z : Zone)
        → not_before (record a { zone = z }) (record b { zone = zone_of (offset z) })
          ≡ some (leb b.local a.local)
    same naive = refl
    same (zone_info name o) = ground arith
    same (fixed o) = ground arith

-- A reading that comes from an ISO text is never in the Beijing zone, also if its offset is that
-- of Beijing.
pub parsed_zone : (i : Iso) → is_beijing (fromisoformat i).zone ≡ false
unfolding is_beijing fromisoformat
parsed_zone i = of_offset i.offset
  where
    of_offset : (o : Option ℕ) → is_beijing (zone_of o) ≡ false
    of_offset none = refl
    of_offset (some o) = refl
