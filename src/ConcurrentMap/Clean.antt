-- ===== src/ConcurrentMap/Clean.antt =====
-- `LazyMapCleaner::maybe_clean`: what a cleanup keeps, and how large the map can get.
use signal_gateway.Common.{
  ℕ, ◌*◌, ◌≤◌, ◌<◌, max, ◌≡◌, refl, Bool, true, false, length, arith, Bool-cases, inl, inr,
}
use signal_gateway.Common.Int.{ℤ, ◌-ℤ◌, InI64, leb_ℤ, sub_i64_exact}
use signal_gateway.ConcurrentMap.{
  Key, ConcurrentMap, find, len, LazyMapCleaner, is_due, maybe_clean,
}
use signal_gateway.ConcurrentMap.Laws.{IsValid, kept, retain_lem}

below_of_idle :
    (c : LazyMapCleaner) (now : ℤ) (size : ℕ)
    → is_due c now size ≡ false
    → size < max c.state.last_cleanup_size 1 * 2
unfolding is_due
below_of_idle c now size h = ground arith

cached {ℓ κ} :
    {K : Type ℓ} {V : Type κ} {m : ConcurrentMap K V} → IsValid m → len m ≡ length m.inner
unfolding len
cached v = v.cached

module _ {ℓ κ} {K : Type ℓ} {V : Type κ} (key : Key K) (ts_secs : V → ℤ) where
  -- On a valid map, where `now - max_age` is an `i64`, a cleanup that is due drops exactly the entries older than `max_age`, keeps every other one with
  -- its value, and notes the size and the time; the map stays valid.
  pub maybe_clean_due :
      (now : ℤ) (c : LazyMapCleaner) (m : ConcurrentMap K V)
      → IsValid m
      → InI64 (now -ℤ c.max_age)
      → is_due c now (len m) ≡ true
      → let (c', m') = maybe_clean ts_secs true now c m in
        ((k : K)
          → find key k m'.inner
            ≡ kept (λ _ v. leb_ℤ (now -ℤ c.max_age) (ts_secs v)) k (find key k m.inner))
        × IsValid m'
        × (c'.state.last_cleanup_size ≡ length m'.inner)
        × (c'.state.last_checkup ≡ now)
  unfolding maybe_clean
  maybe_clean_due now c m v small due =
      let r = retain_lem key (λ _ v. leb_ℤ (now -ℤ c.max_age) (ts_secs v)) m v in
      rw (due, sub_i64_exact now c.max_age small) (r.2, r.0, refl, refl)

  -- One that is not due, or where another thread holds the lock, changes nothing.
  pub maybe_clean_idle :
      (locked : Bool) (now : ℤ) (c : LazyMapCleaner) (m : ConcurrentMap K V)
      → (locked ≡ true → is_due c now (len m) ≡ false)
      → maybe_clean ts_secs locked now c m ≡ (c, m)
  unfolding maybe_clean
  maybe_clean_idle false now c m idle = refl
  maybe_clean_idle true now c m idle = rw (idle refl)

  -- On a valid map a call that gets the lock leaves at most twice as many entries as the last
  -- cleanup left, and at most two where that left none.
  pub maybe_clean_bound :
      (now : ℤ) (c : LazyMapCleaner) (m : ConcurrentMap K V)
      → IsValid m
      → let (c', m') = maybe_clean ts_secs true now c m in
        length m'.inner ≤ max c'.state.last_cleanup_size 1 * 2
  unfolding maybe_clean
  maybe_clean_bound now c m v = elim (Bool-cases (is_due c now (len m))) [
    | inl due ↦ rw due (omega arith)
    | inr idle ↦ rw idle (omega (arith, below_of_idle c now (len m) idle, cached v))
  ]
