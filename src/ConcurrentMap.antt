-- ===== src/ConcurrentMap.antt =====
-- signal-gateway/src/concurrent_map.rs and signal-gateway/src/lazy_map_cleaner.rs. The hash map is an
-- association list with its cached length; an `access` closure that changes a value through its lock
-- or atomics returns the value's new state beside its result. `LazyMap` is the map with its factory.
pub mod Laws
pub mod Clean
mod Tests
use signal_gateway.Common.{
  ℕ, zero, suc, ◌+◌, ◌*◌, max, ◌≡◌, ◌↔◌, Bool, true, false, ◌||◌, Option, none, some, List, [], ◌∷◌,
  if◌then◌else◌, leb, length,
}
use signal_gateway.Common.Int.{ℤ, pos, leb_ℤ, ltb_ℤ, add_i64, sub_i64}

-- The equality of keys.
pub record Key {ℓ} (K : Type ℓ) : Type ℓ where
  pub eq : K → K → Bool
  pub eq_iff : (a b : K) → (eq a b ≡ true) ↔ (a ≡ b)

module _ {ℓ κ} {K : Type ℓ} {V : Type κ} where
  unfoldable pub find : Key K → K → List (K × V) → Option V
  find key k [] = none
  find key k ((j, v) ∷ m) = if key.eq j k then some v else find key k m

  -- A write at a key that is there, at the end if it is not.
  pub put : Key K → K → V → List (K × V) → List (K × V)
  put key k v [] = (k, v) ∷ []
  put key k v ((j, w) ∷ m) = if key.eq j k then (j, v) ∷ m else (j, w) ∷ put key k v m

  unfoldable pub keep : (K → V → Bool) → List (K × V) → List (K × V)
  keep f [] = []
  keep f ((j, w) ∷ m) = if f j w then (j, w) ∷ keep f m else keep f m

pub record ConcurrentMap {ℓ κ} (K : Type ℓ) (V : Type κ) : Type (ℓ ⊔ κ) where
  pub inner : List (K × V)
  pub len_cache : ℕ

module _ {ℓ κ} {K : Type ℓ} {V : Type κ} where
  unfoldable pub empty : ConcurrentMap K V
  empty = record { inner = []; len_cache = 0 }

  -- First under the read lock; then under the write lock, where the key may have come meanwhile
  -- (`entry(..).or_insert_with(..)`).
  unfoldable pub read_path {μ} :
      {R : Type μ} → Key K → K → (V → V × R) → ConcurrentMap K V → Option (ConcurrentMap K V × R)
  unfolding find put
  read_path key k access m = elim (find key k m.inner) [
    | some value ↦
        let (value', r) = access value in some (record m { inner = put key k value' m.inner }, r)
    | none ↦ none
  ]

  unfoldable pub write_path {μ} :
      {R : Type μ} → Key K → K → V → (V → V × R) → ConcurrentMap K V → ConcurrentMap K V × R
  unfolding find put
  write_path key k created access m = elim (find key k m.inner) [
    | some value ↦
        let (value', r) = access value in
        (record { inner = put key k value' m.inner; len_cache = m.len_cache }, r)
    | none ↦
        let (value', r) = access created in
        (record { inner = put key k value' m.inner; len_cache = m.len_cache + 1 }, r)
  ]

  unfoldable pub get_or_insert_with {μ} :
      {R : Type μ} → Key K → K → V → (V → V × R) → ConcurrentMap K V → ConcurrentMap K V × R
  unfolding read_path write_path
  get_or_insert_with key k created access m = elim (read_path key k access m) [
    | some r ↦ r
    | none ↦ write_path key k created access m
  ]

  unfoldable pub with_read_lock {μ} : {R : Type μ} → (List (K × V) → R) → ConcurrentMap K V → R
  with_read_lock access m = access m.inner

  -- The new map, and how many entries it has.
  unfoldable pub retain : (K → V → Bool) → ConcurrentMap K V → ConcurrentMap K V × ℕ
  unfolding keep
  retain f m =
      let kept = keep f m.inner in (record { inner = kept; len_cache = length kept }, length kept)

  unfoldable pub len : ConcurrentMap K V → ℕ
  len m = m.len_cache

  -- `LazyMap.get`: the factory makes the value of a key that is missing.
  unfoldable pub get {μ} :
      {R : Type μ} → Key K → (K → V) → K → (V → V × R) → ConcurrentMap K V → ConcurrentMap K V × R
  unfolding get_or_insert_with
  get key factory k access m = get_or_insert_with key k (factory k) access m

pub record CleanerState : Type 0 where
  pub last_cleanup_size : ℕ
  pub last_checkup : ℤ

pub record LazyMapCleaner : Type 0 where
  pub max_age : ℤ
  pub min_checkup_period : ℤ
  pub state : CleanerState

unfoldable pub new_cleaner : ℤ → LazyMapCleaner
new_cleaner max_age = record {
  max_age = max_age;
  min_checkup_period = pos 3600;
  state = record { last_cleanup_size = 0; last_checkup = pos 0 };
}

unfoldable pub with_min_checkup_period : LazyMapCleaner → ℤ → LazyMapCleaner
with_min_checkup_period self period = record self { min_checkup_period = period }

-- The map has doubled since the last cleanup, or that is long ago.
unfoldable pub is_due : LazyMapCleaner → ℤ → ℕ → Bool
is_due self now size =
    leb (max self.state.last_cleanup_size 1 * 2) size
    || ltb_ℤ (add_i64 self.state.last_checkup self.min_checkup_period) now

-- `locked` says whether `try_lock` succeeded; `ts_secs` is the values' timestamp.
unfoldable pub maybe_clean {ℓ κ} :
    {K : Type ℓ} {V : Type κ}
    → (V → ℤ)
    → Bool
    → ℤ
    → LazyMapCleaner
    → ConcurrentMap K V
    → LazyMapCleaner × ConcurrentMap K V
unfolding is_due retain len
maybe_clean ts_secs locked now self map =
    if locked
    then (if is_due self now (len map)
        then (let cutoff = sub_i64 now self.max_age in
            let (map', size) = retain (λ k v. leb_ℤ cutoff (ts_secs v)) map in
            (record self { state = record { last_cleanup_size = size; last_checkup = now } }, map'))
        else (self, map))
    else (self, map)
