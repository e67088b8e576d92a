-- ===== src/Temporal/Overlap.antt =====
-- temporal/intervals.py: `intervals_overlap` against `as_of`.
use memory_os.Base.{
  ℕ, ◌≤◌, ◌<◌, ◌≡◌, ◌↔◌, true, Option, none, some, arith, max, min, ltb→lt, lt→ltb,
}
use memory_os.Temporal.{
  Datetime, naive, as_of, utc_optional, within, start_or_min, end_or_max, datetime_max, overlap,
  intervals_overlap,
}

within_start :
    (a b : Option ℕ) (t : ℕ) → start_or_min a ≤ t → t < end_or_max b → within a b t ≡ true
within_start none none t h k = ground arith
within_start none (some b) t h k = ground arith
within_start (some a) none t h k = ground arith
within_start (some a) (some b) t h k = ground arith

within_bounds :
    (a b : Option ℕ) (t : ℕ)
    → t < datetime_max
    → within a b t ≡ true
    → (start_or_min a ≤ t) × (t < end_or_max b)
within_bounds none none t h k = ground arith
within_bounds none (some b) t h k = ground arith
within_bounds (some a) none t h k = ground arith
within_bounds (some a) (some b) t h k = ground arith

-- A representable end is at most `datetime.max`.
abbrev pub InRange : Option Datetime → Type 0
InRange d = end_or_max (utc_optional d) ≤ datetime_max

pub overlap-common :
    (a b c d : Option ℕ)
    → end_or_max b ≤ datetime_max
    → overlap a b c d ≡ true
    → (t : ℕ) × (t < datetime_max) × (within a b t ≡ true) × (within c d t ≡ true)
unfolding overlap
overlap-common a b c d r h =
    let t : ℕ = max (start_or_min a) (start_or_min c) in
    let below : t < min (end_or_max b) (end_or_max d) = ltb→lt _ _ h in
    (
      t,
      omega arith,
      within_start a b t (omega arith) (omega arith),
      within_start c d t (omega arith) (omega arith),
    )

common-overlap :
    (a b c d : Option ℕ) (t : ℕ)
    → t < datetime_max
    → within a b t ≡ true
    → within c d t ≡ true
    → overlap a b c d ≡ true
unfolding overlap
common-overlap a b c d t r h k =
    let (f, g) = within_bounds a b t r h in
    let (m, n) = within_bounds c d t r k in lt→ltb _ _ (omega arith)

-- With the first end representable, two validity intervals overlap exactly when some instant before
-- `datetime.max` lies in both of them by the test of `as_of`: the start included, the end excluded.
pub intervals_overlap-as_of :
    (a b c d : Option Datetime)
    → InRange b
    → (intervals_overlap a b c d ≡ true)
      ↔ ((t : ℕ) × (t < datetime_max) × (as_of a b (naive t) ≡ true) × (as_of c d (naive t) ≡ true))
unfolding intervals_overlap as_of
intervals_overlap-as_of a b c d r = (
  overlap-common (utc_optional a) (utc_optional b) (utc_optional c) (utc_optional d) r,
  λ w.
      common-overlap (utc_optional a) (utc_optional b) (utc_optional c) (utc_optional d) w.0 w.1 w.2
        w.3,
)
