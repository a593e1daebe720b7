-- ===== src/LimiterSet/Outcome.antt =====
-- `LimiterSet::evaluate`: when a message passes, and which limiters it moves on.
use signal_gateway.Common.{ℕ, ◌≡◌, refl, ap, ◌∙◌, Option, none, some}
use signal_gateway.ConcurrentMap.{find, get, get_or_insert_with}
use signal_gateway.ConcurrentMap.Laws.{get_or_insert_with_lem}
use signal_gateway.LogMessage.{LogMessage, Origin, unwrap_or}
use signal_gateway.LimiterSequence
use signal_gateway.LimiterSequence.{LimiterSequence}
use signal_gateway.LimiterSequence.First.{first_true, turned, blocks}
use signal_gateway.LimiterSequence.First
use signal_gateway.LimiterSet.{
  LimiterSet, Locks, LimitResult, passed, limiter, global_limiter, origin_key, then_global,
  of_global_result, evaluate,
}

-- The limiters of an origin: those in the map, or new ones.
abbrev pub limiters_at : LimiterSet → Origin → LimiterSequence
limiters_at s o = unwrap_or (find origin_key o s.limiters.inner) s.make_limiters

-- The first limiter of the origin that blocks, then the first global one.
abbrev pub result_of : Option ℕ → Option ℕ → LimitResult
result_of (some i) g = limiter i
result_of none (some i) = global_limiter i
result_of none none = passed

of_global_result-eq : (g : Option ℕ) → of_global_result g ≡ result_of none g
of_global_result-eq none = refl
of_global_result-eq (some i) = refl

abbrev pub global_after : Option ℕ → LimiterSequence → LimiterSequence → LimiterSequence
global_after (some i) before stepped = before
global_after none before stepped = stepped

then_global_lem :
    (locks : Locks) (log_msg : LogMessage) (s : LimiterSet) (o o' : Option ℕ)
    → o ≡ o'
    → ((then_global locks log_msg s o).1
        ≡ result_of o' (first_true (blocks locks.of_global log_msg 0 s.global_limiters)))
      × ((then_global locks log_msg s o).0.global_limiters
          ≡ global_after o' s.global_limiters (turned locks.of_global log_msg 0 s.global_limiters))
unfolding then_global
then_global_lem locks log_msg s o (some i) e = rw e (refl, refl)
then_global_lem locks log_msg s o none e =
    rw (e, First.sequence_evaluate_lem locks.of_global log_msg s.global_limiters)
      (of_global_result-eq (first_true (blocks locks.of_global log_msg 0 s.global_limiters)), refl)

module _ (locks : Locks) (s : LimiterSet) (log_msg : LogMessage) (origin : Origin) where
  abbrev pub origin_blocks : Option ℕ
  origin_blocks = first_true (blocks locks.of_origin log_msg 0 (limiters_at s origin))

  abbrev pub global_blocks : Option ℕ
  global_blocks = first_true (blocks locks.of_global log_msg 0 s.global_limiters)

  answered :
      (get_or_insert_with origin_key origin s.make_limiters
        (LimiterSequence.evaluate locks.of_origin log_msg)
        s.limiters).1
      ≡ origin_blocks
  answered =
      (get_or_insert_with_lem origin_key origin s.make_limiters
        (LimiterSequence.evaluate locks.of_origin log_msg) s.limiters).0
      ∙ ap (λ (r : LimiterSequence × Option ℕ). r.1)
          (First.sequence_evaluate_lem locks.of_origin log_msg (limiters_at s origin))

  -- The origin's own limiters answer first, the global ones only where those let the message pass; a
  -- message that the origin's limiters block is not counted by the global limiters.
  pub set_evaluate_lem :
      ((evaluate locks s log_msg origin).1 ≡ result_of origin_blocks global_blocks)
      × ((evaluate locks s log_msg origin).0.global_limiters
          ≡ global_after origin_blocks s.global_limiters
              (turned locks.of_global log_msg 0 s.global_limiters))
  unfolding evaluate get
  set_evaluate_lem = then_global_lem locks log_msg _ _ origin_blocks answered
