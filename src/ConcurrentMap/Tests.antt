-- ===== src/ConcurrentMap/Tests.antt =====
-- A map from numbers to timestamps, and instances of the theorems.
use signal_gateway.Common.{ℕ, ◌≡◌, refl, Bool, true, [], ◌∷◌, arith, length, ◌==◌, ==_iff}
use signal_gateway.Common.Int.{ℤ, pos, ◌-ℤ◌, leb_ℤ, max_ℤ}
use signal_gateway.ConcurrentMap.{
  Key, find, ConcurrentMap, get_or_insert_with, write_path, len, LazyMapCleaner, is_due,
  maybe_clean,
}
use signal_gateway.ConcurrentMap.Laws.{IsValid, kept, write_path_linear, get_or_insert_with-IsValid}
use signal_gateway.ConcurrentMap.Clean.{maybe_clean_due}

abbrev key : Key ℕ
key = record { eq = λ a b. a == b; eq_iff = ==_iff }

abbrev stamps : ConcurrentMap ℕ ℤ
stamps = record { inner = (1, pos 100) ∷ (2, pos 900) ∷ []; len_cache = 2 }

stamps-IsValid : IsValid stamps
stamps-IsValid = record { cached = refl; distinct = ground arith }

-- A visit at time 950 notes it and returns the time before.
abbrev visit : ℤ → ℤ × ℤ
visit t = (max_ℤ t (pos 950), t)

visit_one :
    get_or_insert_with key 1 (pos 0) visit stamps
    ≡ (record { inner = (1, pos 950) ∷ (2, pos 900) ∷ []; len_cache = 2 }, pos 100)
unfolding get_or_insert_with
visit_one = refl

write_path_linear_example :
    write_path key 3 (pos 0) visit stamps ≡ get_or_insert_with key 3 (pos 0) visit stamps
write_path_linear_example = write_path_linear key 3 (pos 0) visit stamps

get_or_insert_with-IsValid_example : IsValid (get_or_insert_with key 3 (pos 0) visit stamps).0
get_or_insert_with-IsValid_example =
    get_or_insert_with-IsValid key 3 (pos 0) visit stamps stamps-IsValid

abbrev late : ℕ → ℤ → Bool
late k t = leb_ℤ (pos 500) t

abbrev cleaner : LazyMapCleaner
cleaner = record {
  max_age = pos 300;
  min_checkup_period = pos 3600;
  state = record { last_cleanup_size = 1; last_checkup = pos 0 };
}

cleanup_due : is_due cleaner (pos 1000) (len stamps) ≡ true
unfolding is_due len
cleanup_due = refl

abbrev identity : ℤ → ℤ
identity t = t

abbrev cleaned : LazyMapCleaner × ConcurrentMap ℕ ℤ
cleaned = maybe_clean identity true (pos 1000) cleaner stamps

maybe_clean_due_example :
    ((k : ℕ)
      → find key k cleaned.1.inner
        ≡ kept (λ _ v. leb_ℤ (pos 1000 -ℤ pos 300) v) k (find key k stamps.inner))
    × IsValid cleaned.1
    × (cleaned.0.state.last_cleanup_size ≡ length cleaned.1.inner)
    × (cleaned.0.state.last_checkup ≡ pos 1000)
unfolding ◌-ℤ◌
maybe_clean_due_example =
    maybe_clean_due key identity (pos 1000) cleaner stamps stamps-IsValid (ground arith) cleanup_due
