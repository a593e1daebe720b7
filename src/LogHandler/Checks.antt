-- ===== src/LogHandler/Checks.antt =====
-- `check_rate_limiters`: every route has its turn, the first that lets the message pass gives the
-- destination, and the overall limits have the last word.
use mathlib.Core.List.{append-nil, append_assoc}
use native.Mathlib.Numerals.{add-one}
use signal_gateway.Common.{
  ℕ, suc, ◌≡◌, refl, ap, Bool, not, ◌&&◌, ltb, leb, if◌then◌else◌, Bool-cases, inl, inr, Option,
  none, some, List, [], ◌∷◌, ◌++◌, arith,
}
use signal_gateway.LimiterSequence.First.{first_true, blocks}
use signal_gateway.LimiterSequence.First
use signal_gateway.LimiterSequence.{LimiterSequence}
use signal_gateway.LogMessage.{rank}
use signal_gateway.LogMessage.Filter.{matches}
use signal_gateway.LimiterSet
use signal_gateway.LimiterSet.{LimiterSet, LimitResult, Locks, Route, Destination}
use signal_gateway.LogMessage.{LogMessage, Origin}
use signal_gateway.LogHandler.{
  LogHandler, no_routes, routes_failed, overall_limiter, Verdict, alert_to, suppressed, Gathered,
  gather, record_result, nothing_gathered, route_turn, applies, check_routes, conclude,
  check_rate_limiters,
}

-- A route applies to a message that is at least as severe as its level and that its filter matches.
abbrev pub asks : Route → LogMessage → Bool
asks route log_msg =
    leb (rank log_msg.level) (rank route.alert_level) && matches route.filter log_msg

asks-applies : (route : Route) (log_msg : LogMessage) → applies route log_msg ≡ asks route log_msg
asks-applies route log_msg =
    ap (λ b. b && matches route.filter log_msg) (swap (rank route.alert_level) (rank log_msg.level))
  where
    swap : (a b : ℕ) → not (ltb a b) ≡ leb b a
    swap a b = ground arith

module _ (locks : ℕ → Locks) (log_msg : LogMessage) (origin : Origin) where
  -- The routes afterwards: those that apply have had their limits evaluated, and the others are as
  -- they were.
  abbrev pub turned : ℕ → List (Route × LimiterSet) → List (Route × LimiterSet)
  turned i [] = []
  turned i ((route, limits) ∷ rs) =
      (
        route,
        if asks route log_msg
            then (LimiterSet.evaluate (locks i) limits log_msg origin).0
            else limits,
      )
      ∷ turned (suc i) rs

  -- Each route with what its limits say of the message, or none where it does not apply.
  abbrev pub answers : ℕ → List (Route × LimiterSet) → List (Route × Option LimitResult)
  answers i [] = []
  answers i ((route, limits) ∷ rs) =
      (
        route,
        if asks route log_msg
            then some (LimiterSet.evaluate (locks i) limits log_msg origin).1
            else none,
      )
      ∷ answers (suc i) rs

  route_turn_lem :
      (i : ℕ) (route : Route) (limits : LimiterSet)
      → route_turn (locks i) log_msg origin (route, limits) ≡ (
        (
          route,
          if asks route log_msg
              then (LimiterSet.evaluate (locks i) limits log_msg origin).0
              else limits,
        ),
        if asks route log_msg
            then some (LimiterSet.evaluate (locks i) limits log_msg origin).1
            else none,
      )
  unfolding route_turn
  route_turn_lem i route limits = elim (Bool-cases (asks route log_msg)) [
    | inl e ↦ rw (asks-applies route log_msg, e)
    | inr e ↦ rw (asks-applies route log_msg, e)
  ]

-- The routes that apply and do not let the message pass, with their indices, in order.
abbrev pub failures : ℕ → List (Route × Option LimitResult) → List (ℕ × LimitResult)
failures i [] = []
failures i ((r, none) ∷ ans) = failures (suc i) ans
failures i ((r, some LimitResult.passed) ∷ ans) = failures (suc i) ans
failures i ((r, some (LimitResult.limiter k)) ∷ ans) =
    (i, LimitResult.limiter k) ∷ failures (suc i) ans
failures i ((r, some (LimitResult.global_limiter k)) ∷ ans) =
    (i, LimitResult.global_limiter k) ∷ failures (suc i) ans

-- The destination of the first route that lets the message pass.
abbrev pub first_passed : List (Route × Option LimitResult) → Option (Option Destination)
first_passed [] = none
first_passed ((r, none) ∷ ans) = first_passed ans
first_passed ((r, some LimitResult.passed) ∷ ans) = some r.destination
first_passed ((r, some (LimitResult.limiter k)) ∷ ans) = first_passed ans
first_passed ((r, some (LimitResult.global_limiter k)) ∷ ans) = first_passed ans

abbrev first_of {ℓ} : {A : Type ℓ} → Option A → Option A → Option A
first_of (some a) o = some a
first_of none o = o

-- What is gathered from a list of answers, on top of what there is.
abbrev plus : Gathered → ℕ → List (Route × Option LimitResult) → Gathered
plus g i ans = record {
  route_failures = g.route_failures ++ failures i ans;
  first_passed = first_of g.first_passed (first_passed ans);
}

plus-cons :
    (g : Gathered) (i : ℕ) (r : Route) (o : Option LimitResult)
    (ans : List (Route × Option LimitResult))
    → plus (gather i r o g) (suc i) ans ≡ plus g i ((r, o) ∷ ans)
unfolding record_result
plus-cons g i r none ans = refl
plus-cons g i r (some LimitResult.passed) ans = ground arith
plus-cons g i r (some (LimitResult.limiter k)) ans =
    ap
      (λ fs. record {
        route_failures = fs;
        first_passed = first_of g.first_passed (first_passed ans);
      })
      (append_assoc g.route_failures _ (failures (suc i) ans))
plus-cons g i r (some (LimitResult.global_limiter k)) ans =
    ap
      (λ fs. record {
        route_failures = fs;
        first_passed = first_of g.first_passed (first_passed ans);
      })
      (append_assoc g.route_failures _ (failures (suc i) ans))

check_routes_lem :
    (locks : ℕ → Locks) (log_msg : LogMessage) (origin : Origin) (i : ℕ) (g : Gathered)
    (rs : List (Route × LimiterSet))
    → check_routes locks log_msg origin i g rs
      ≡ (turned locks log_msg origin i rs, plus g i (answers locks log_msg origin i rs))
unfolding check_routes
check_routes_lem locks log_msg origin i g [] =
    ap (λ h. ([], h)) (ground (arith, append-nil g.route_failures))
check_routes_lem locks log_msg origin i g ((route, limits) ∷ rs) =
    rw
      (
        route_turn_lem locks log_msg origin i route limits,
        add-one,
        check_routes_lem locks log_msg origin (suc i) _ rs,
      )
      (ap (λ h. (turned locks log_msg origin i ((route, limits) ∷ rs), h))
        (plus-cons g i route _ (answers locks log_msg origin (suc i) rs)))

-- The verdict, from the routes' answers and the first overall limiter that blocks.
abbrev pub verdict_of : Option (Option Destination) → List (ℕ × LimitResult) → Option ℕ → Verdict
verdict_of none [] overall = suppressed no_routes
verdict_of none (f ∷ fs) overall = suppressed (routes_failed (f ∷ fs))
verdict_of (some destination) fs none = alert_to destination
verdict_of (some destination) fs (some i) = suppressed (overall_limiter i)

abbrev pub overall_after :
    Option (Option Destination) → LimiterSequence → LimiterSequence → LimiterSequence
overall_after none before stepped = before
overall_after (some d) before stepped = stepped

conclude_lem :
    (locked : ℕ → Bool) (log_msg : LogMessage) (overall : LimiterSequence) (g : Gathered)
    → conclude locked log_msg overall g ≡ (
      overall_after g.first_passed overall (First.turned locked log_msg 0 overall),
      verdict_of g.first_passed g.route_failures (first_true (blocks locked log_msg 0 overall)),
    )
unfolding conclude
conclude_lem locked log_msg overall g =
    ground (arith, First.sequence_evaluate_lem locked log_msg overall)

-- A route applies to a message that is at least as severe as its level and that its filter matches;
-- exactly these have their limits evaluated, whatever earlier routes say. Where none that applies lets the message pass
-- the reason is `NoRoutes` if none applies, and otherwise lists exactly those that apply, with index
-- and result, in order; then the overall limits have no turn. Where one does, the first such gives
-- the destination and every overall limit has its turn, the first that blocks being the reason.
pub check_rate_limiters_lem :
    (locks : ℕ → Locks) (locked : ℕ → Bool) (h : LogHandler) (log_msg : LogMessage)
    (origin : Origin)
    → let answered = answers locks log_msg origin 0 h.routes in
      let (h', verdict) = check_rate_limiters locks locked h log_msg origin in
      (verdict
        ≡ verdict_of
            (first_passed answered)
            (failures 0 answered)
            (first_true (blocks locked log_msg 0 h.overall_limits)))
      × (h'.routes ≡ turned locks log_msg origin 0 h.routes)
      × (h'.overall_limits
          ≡ overall_after
              (first_passed answered)
              h.overall_limits
              (First.turned locked log_msg 0 h.overall_limits))
      × (h'.log_buffers ≡ h.log_buffers)
unfolding check_rate_limiters
check_rate_limiters_lem locks locked h log_msg origin =
    rw
      (
        check_routes_lem locks log_msg origin 0 nothing_gathered h.routes,
        conclude_lem locked log_msg h.overall_limits,
      )
      (refl, refl, refl, refl)
