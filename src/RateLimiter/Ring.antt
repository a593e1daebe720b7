-- ===== src/RateLimiter/Ring.antt =====
-- `MultiRateLimiterInner` of signal-gateway/src/rate_limiter.rs: the n most recent timestamps in an
-- array, `idx` at the oldest. A method returns the new state beside its result. An index out of
-- range, where the code panics, reads 0 and writes nothing; `IsValid` of Ring/Refine excludes it.
mod Slide
mod Final
mod Helper
pub mod Sorted
pub mod Refine
pub mod History
pub mod Count
pub mod Latest
mod Tests
use signal_gateway.Common.{
  ℕ, zero, suc, ◌+◌, ◌-◌, Bool, List, arith, leb, ltb, if◌then◌else◌, length, get_or, set,
  replicate,
}
use signal_gateway.Common.Int.{ℤ, pos, leb_ℤ, ltb_ℤ}

pub record Inner : Type 0 where
  pub timestamps : List ℤ
  pub idx : ℕ

unfoldable pub new : ℕ → Inner
new n = record { timestamps = replicate n (pos 0); idx = 0 }

abbrev pub fetch : List ℤ → ℕ → ℤ
fetch ts i = get_or ts i (pos 0)

-- How far `insert_helper` has come: it has written the new timestamp and returned, or goes on.
pub data Walk : Type 0 where
  placed : List ℤ → Walk
  shifting : List ℤ → Walk

infixl 5 ◌>>=◌
abbrev pub ◌>>=◌ : Walk → (List ℤ → Walk) → Walk
placed ts >>= f = placed ts
shifting ts >>= f = f ts

-- The body of both loops, `for j in (lo..lo + k).rev()`.
pub shift : ℤ → ℕ → ℕ → List ℤ → Walk
shift new_timestamp lo zero ts = shifting ts
shift new_timestamp lo (suc k) ts =
    let rest = shift new_timestamp lo k (set ts (lo + k + 1) (fetch ts (lo + k))) in
    if leb_ℤ (fetch ts (lo + k)) new_timestamp
    then placed (set ts (lo + k + 1) new_timestamp)
    else rest

-- The ring buffer wraparound point.
pub wraparound : ℤ → ℕ → List ℤ → Walk
wraparound new_timestamp n ts =
    if ltb 1 n
    then (if leb_ℤ (fetch ts (n - 1)) new_timestamp
        then placed (set ts 0 new_timestamp)
        else shifting (set ts 0 (fetch ts (n - 1))))
    else shifting ts

-- `i + 1`, with the wraparound of an index.
abbrev pub next_idx : ℕ → ℕ → ℕ
next_idx n i = if leb n (i + 1) then i + 1 - n else i + 1

-- Every position but `idx` has been tried: the new timestamp or the previous oldest goes next to it.
pub finish : ℤ → ℤ → ℕ → ℕ → Walk → List ℤ × ℤ
finish new_timestamp prev_oldest n idx (placed ts) = (ts, prev_oldest)
finish new_timestamp prev_oldest n idx (shifting ts) =
    let f = next_idx n idx in
    if ltb_ℤ prev_oldest new_timestamp
    then (set ts f new_timestamp, prev_oldest)
    else (set ts f prev_oldest, new_timestamp)

-- The array afterwards, and the evicted timestamp.
pub insert_helper : Inner → ℤ → List ℤ × ℤ
insert_helper self new_timestamp =
    let n = length self.timestamps in
    finish new_timestamp (fetch self.timestamps self.idx) n self.idx (
      shift new_timestamp 0 self.idx self.timestamps
      >>= wraparound new_timestamp n
      >>= shift new_timestamp (self.idx + 1) (n - 1 - (self.idx + 1)))

-- The new state, and (earliest, latest).
unfoldable pub insert_and_pop : Inner → ℤ → Inner × (ℤ × ℤ)
unfolding insert_helper shift wraparound finish
insert_and_pop self new_timestamp =
    let n = length self.timestamps in
    let (ts, evicted) = insert_helper self new_timestamp in
    (record { timestamps = ts; idx = next_idx n self.idx }, (evicted, fetch ts self.idx))
