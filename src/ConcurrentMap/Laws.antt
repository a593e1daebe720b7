-- ===== src/ConcurrentMap/Laws.antt =====
-- `ConcurrentMap`: its invariant, and what each operation does to the value of each key.
use signal_gateway.Common.{
  ℕ, suc, ◌+◌, ◌≡◌, refl, sym, ap, subst, ◌∙◌, ◌≢◌, inl, inr, Bool, Option, none, some, List, [],
  ◌∷◌, if◌then◌else◌, length, arith, All, Bool-cases, Option-cases,
}
use signal_gateway.LogMessage.{unwrap_or}
use signal_gateway.ConcurrentMap.{
  Key, ConcurrentMap, find, put, keep, read_path, write_path, get_or_insert_with, retain, len,
}

module _ {ℓ κ} {K : Type ℓ} {V : Type κ} where
  abbrev pub NodupKeys : List (K × V) → Type ℓ
  NodupKeys [] = Unit
  NodupKeys ((j, v) ∷ m) = All (λ e. e.0 ≢ j) m × NodupKeys m

  -- The entry of a key, where a predicate keeps it.
  abbrev pub kept : (K → V → Bool) → K → Option V → Option V
  kept f k none = none
  kept f k (some v) = if f k v then some v else none

  -- The length is cached rightly, and no key stands twice.
  pub record IsValid (m : ConcurrentMap K V) : Type (ℓ ⊔ κ) where
    pub cached : m.len_cache ≡ length m.inner
    pub distinct : NodupKeys m.inner

module _ {ℓ κ} {K : Type ℓ} {V : Type κ} (key : Key K) where
  length-put :
      (k : K) (v : V) (m : List (K × V))
      → length (put key k v m) ≡ (elim (find key k m) [ none ↦ suc (length m) | some w ↦ length m ])
  unfolding put find
  length-put k v [] = refl
  length-put k v ((j, w) ∷ m) = elim (Bool-cases (key.eq j k)) [
    | inl e ↦ rw e
    | inr e ↦ elim (Option-cases (find key k m)) [
      | inl n ↦ rw e (ap suc (length-put k v m) ∙ rw n)
      | inr (u, n) ↦ rw e (ap suc (length-put k v m) ∙ rw n)
    ]
  ]

  All-put :
      (P : K → Type ℓ) (k : K) (v : V) (m : List (K × V))
      → P k
      → All (λ e. P e.0) m
      → All (λ e. P e.0) (put key k v m)
  unfolding put
  All-put P k v [] p h = (p, tt)
  All-put P k v ((j, w) ∷ m) p h = elim (Bool-cases (key.eq j k)) [
    | inl e ↦ rw e h
    | inr e ↦ rw e (h.0, All-put P k v m p h.1)
  ]

  put-NodupKeys : (k : K) (v : V) (m : List (K × V)) → NodupKeys m → NodupKeys (put key k v m)
  unfolding put
  put-NodupKeys k v [] h = (tt, tt)
  put-NodupKeys k v ((j, w) ∷ m) h = elim (Bool-cases (key.eq j k)) [
    | inl e ↦ rw e h
    | inr e ↦ rw e (
      All-put (λ i. i ≢ j) k v m (λ q. ground (arith, (key.eq_iff j k).1 (sym q))) h.0,
      put-NodupKeys k v m h.1,
    )
  ]

  find-put :
      (k j : K) (v : V) (m : List (K × V))
      → find key j (put key k v m) ≡ (if key.eq k j then some v else find key j m)
  unfolding find put
  find-put k j v [] = refl
  find-put k j v ((i, w) ∷ m) = elim (Bool-cases (key.eq i k)) [
    | inl e ↦
        let same : key.eq i j ≡ key.eq k j = ap (λ t. key.eq t j) ((key.eq_iff i k).0 e) in
        rw e (ground (arith, same))
    | inr e ↦
        rw e (ground (arith, key.eq_iff i j, key.eq_iff k j, (key.eq_iff i k).1, find-put k j v m))
  ]

  All-keep :
      (P : K → Type ℓ) (f : K → V → Bool) (m : List (K × V))
      → All (λ e. P e.0) m
      → All (λ e. P e.0) (keep f m)
  unfolding keep
  All-keep P f [] h = tt
  All-keep P f ((j, w) ∷ m) h = elim (Bool-cases (f j w)) [
    | inl e ↦ rw e (h.0, All-keep P f m h.1)
    | inr e ↦ rw e (All-keep P f m h.1)
  ]

  keep-NodupKeys : (f : K → V → Bool) (m : List (K × V)) → NodupKeys m → NodupKeys (keep f m)
  unfolding keep
  keep-NodupKeys f [] h = tt
  keep-NodupKeys f ((j, w) ∷ m) h = elim (Bool-cases (f j w)) [
    | inl e ↦ rw e (All-keep (λ i. i ≢ j) f m h.0, keep-NodupKeys f m h.1)
    | inr e ↦ rw e (keep-NodupKeys f m h.1)
  ]

  find-none : (k : K) (m : List (K × V)) → All (λ e. e.0 ≢ k) m → find key k m ≡ none
  unfolding find
  find-none k [] h = refl
  find-none k ((j, w) ∷ m) h = ground (arith, key.eq_iff j k, h.0, find-none k m h.1)

  find-keep :
      (f : K → V → Bool) (k : K) (m : List (K × V))
      → NodupKeys m
      → find key k (keep f m) ≡ kept f k (find key k m)
  unfolding find keep
  find-keep f k [] h = refl
  find-keep f k ((j, w) ∷ m) h = elim (Bool-cases (key.eq j k)) [
    | inl e ↦
        let same = (key.eq_iff j k).0 e in
        let gone : find key k (keep f m) ≡ none =
          find-keep f k m h.1
          ∙ ap (kept f k) (find-none k m (subst (λ i. All (λ e. e.0 ≢ i) m) same h.0)) in
        let test : f k w ≡ f j w = ap (λ i. f i w) (sym same) in
        elim (Bool-cases (f j w)) [ inl g ↦ rw (g, e, test, g) | inr g ↦ rw (g, e, test, g) gone ]
    | inr e ↦ elim (Bool-cases (f j w)) [
      | inl g ↦ rw (e, g, e) (find-keep f k m h.1)
      | inr g ↦ rw (e, g) (find-keep f k m h.1)
    ]
  ]

  module _ {μ} {R : Type μ} (k : K) (created : V) (access : V → V × R) (m : ConcurrentMap K V) where
    -- What a call leaves where the value was `w`, with `more` new entries.
    abbrev accessed : V → ℕ → ConcurrentMap K V × R
    accessed w size =
        (record { inner = put key k (access w).0 m.inner; len_cache = size }, (access w).1)

    write_none :
        find key k m.inner ≡ none
        → write_path key k created access m ≡ accessed created (m.len_cache + 1)
    unfolding write_path
    write_none e = rw (e, write_path)

    write_some :
        (w : V)
        → find key k m.inner ≡ some w
        → write_path key k created access m ≡ accessed w m.len_cache
    unfolding write_path
    write_some w e = rw (e, write_path)

    insert_none :
        find key k m.inner ≡ none
        → get_or_insert_with key k created access m ≡ accessed created (m.len_cache + 1)
    unfolding get_or_insert_with
    insert_none e =
        let miss : read_path key k access m ≡ none = rw (e, read_path) in
        rw (miss, get_or_insert_with) (write_none e)

    insert_some :
        (w : V)
        → find key k m.inner ≡ some w
        → get_or_insert_with key k created access m ≡ accessed w m.len_cache
    unfolding get_or_insert_with
    insert_some w e =
        let hit : read_path key k access m ≡ some (accessed w m.len_cache) = rw (e, read_path) in
        rw (hit, get_or_insert_with)

    -- A thread that misses under the read lock and comes back with the write lock does to the map of
    -- that moment just what one undivided call would do, whatever other threads did in between.
    pub write_path_linear :
        write_path key k created access m ≡ get_or_insert_with key k created access m
    write_path_linear = elim (Option-cases (find key k m.inner)) [
      | inl e ↦ write_none e ∙ sym (insert_none e)
      | inr (w, e) ↦ write_some w e ∙ sym (insert_some w e)
    ]

    -- The call works on the value of its key (the created one, where there was none), returns what
    -- `access` returns, stores the value's new state at that key, and leaves every other key alone.
    pub get_or_insert_with_lem :
        let value = unwrap_or (find key k m.inner) created in
        ((get_or_insert_with key k created access m).1 ≡ (access value).1)
        × ((j : K)
            → find key j (get_or_insert_with key k created access m).0.inner
              ≡ (if key.eq k j then some (access value).0 else find key j m.inner))
    get_or_insert_with_lem = elim (Option-cases (find key k m.inner)) [
      | inl e ↦ rw (insert_none e, e) (refl, λ j. find-put k j _ m.inner)
      | inr (w, e) ↦ rw (insert_some w e, e) (refl, λ j. find-put k j _ m.inner)
    ]

    -- Where the cached length is right and the keys are distinct, so they are after the call.
    pub get_or_insert_with-IsValid :
        IsValid m → IsValid (get_or_insert_with key k created access m).0
    get_or_insert_with-IsValid v = elim (Option-cases (find key k m.inner)) [
      | inl e ↦
          let one_more : length (put key k (access created).0 m.inner) ≡ suc (length m.inner) =
            length-put k (access created).0 m.inner ∙ rw e in
          rw (insert_none e) (record {
            cached = omega (arith, v.cached, one_more);
            distinct = put-NodupKeys k _ m.inner v.distinct;
          })
      | inr (w, e) ↦ rw (insert_some w e) (record {
        cached = v.cached ∙ sym (length-put k (access w).0 m.inner ∙ rw e);
        distinct = put-NodupKeys k _ m.inner v.distinct;
      })
    ]

  -- On a valid map `retain` keeps exactly the entries that satisfy the predicate, each with its value,
  -- returns the map's new cached length, and leaves the map valid.
  pub retain_lem :
      (f : K → V → Bool) (m : ConcurrentMap K V)
      → IsValid m
      → IsValid (retain f m).0
        × ((retain f m).1 ≡ len (retain f m).0)
        × ((k : K) → find key k (retain f m).0.inner ≡ kept f k (find key k m.inner))
  unfolding retain len
  retain_lem f m v = (
    record { cached = refl; distinct = keep-NodupKeys f m.inner v.distinct },
    refl,
    λ k. find-keep f k m.inner v.distinct,
  )
