-- ===== src/Breaker/Laws.antt =====
-- What holds of the breaker after any sequence of calls.
use kdrive.Common.{
  ℕ, ◌+◌, ◌≤◌, ◌<◌, ◌≡◌, refl, true, false, List, [], ◌∷◌, ◌++◌, All, length, ℤ, arith,
}
use kdrive.Breaker.{
  closed, open_, half_open, Verdict, allowed, circuit_open, CircuitBreaker, new_circuit_breaker,
  allow, record_success, record_failure,
}

pub record IsValid (cb : CircuitBreaker) : Type 0 where
  pub positive : 0 < cb.threshold
  pub below : cb.state ≡ closed → cb.failures < cb.threshold
  pub probing : cb.probe_in_flight ≡ true → cb.state ≡ half_open

new-IsValid : (threshold reset_timeout : ℤ) → IsValid (new_circuit_breaker threshold reset_timeout)
unfolding new_circuit_breaker
new-IsValid threshold reset_timeout = ground arith

allow-IsValid : (cb : CircuitBreaker) (now : ℕ) → IsValid cb → IsValid (allow cb now).0
unfolding allow
allow-IsValid cb now v = ground arith

record_success-IsValid : (cb : CircuitBreaker) → IsValid cb → IsValid (record_success cb)
unfolding record_success
record_success-IsValid cb v = ground arith

record_failure-IsValid :
    (cb : CircuitBreaker) (now : ℕ) → IsValid cb → IsValid (record_failure cb now)
unfolding record_failure
record_failure-IsValid cb now v = ground arith

-- One call on the breaker, with the time that it reads.
pub data Call : Type 0 where
  ask : ℕ → Call
  succeed : Call
  fail : ℕ → Call

-- The breaker after the calls, and what each `Allow` among them returned.
unfoldable pub run : CircuitBreaker → List Call → CircuitBreaker × List Verdict
run cb [] = (cb, [])
run cb (ask now ∷ cs) = let r = run (allow cb now).0 cs in (r.0, (allow cb now).1 ∷ r.1)
run cb (succeed ∷ cs) = run (record_success cb) cs
run cb (fail now ∷ cs) = run (record_failure cb now) cs

run_from-IsValid : (cb : CircuitBreaker) (cs : List Call) → IsValid cb → IsValid (run cb cs).0
unfolding run
run_from-IsValid cb [] v = v
run_from-IsValid cb (ask now ∷ cs) v = run_from-IsValid (allow cb now).0 cs (allow-IsValid cb now v)
run_from-IsValid cb (succeed ∷ cs) v =
    run_from-IsValid (record_success cb) cs (record_success-IsValid cb v)
run_from-IsValid cb (fail now ∷ cs) v =
    run_from-IsValid (record_failure cb now) cs (record_failure-IsValid cb now v)

-- Whatever the configuration and whatever calls follow, a closed breaker has fewer failures than
-- its threshold, the threshold is positive, and a probe is in flight only while the breaker is
-- half open.
pub run-IsValid :
    (threshold reset_timeout : ℤ) (cs : List Call)
    → IsValid (run (new_circuit_breaker threshold reset_timeout) cs).0
run-IsValid threshold reset_timeout cs = run_from-IsValid _ cs (new-IsValid threshold reset_timeout)

-- The call reads a time before the reset timeout of a breaker that opened at `t` is over.
abbrev pub IsEarly : ℕ → Call → Type 0
IsEarly limit (ask now) = now < limit
IsEarly limit succeed = Unit
IsEarly limit (fail now) = Unit

record Rests (t : ℕ) (timeout : ℕ) (cb : CircuitBreaker) : Type 0 where
  is_open : cb.state ≡ open_
  since : cb.opened_at ≡ t
  timeout_kept : cb.reset_timeout ≡ timeout

allow-Rests :
    (t timeout : ℕ) (cb : CircuitBreaker) (now : ℕ)
    → Rests t timeout cb
    → now < t + timeout
    → ((allow cb now).0 ≡ cb) × ((allow cb now).1 ≡ circuit_open)
unfolding allow
allow-Rests t timeout cb now r h = ground arith

success-Rests :
    (t timeout : ℕ) (cb : CircuitBreaker) → Rests t timeout cb → Rests t timeout (record_success cb)
unfolding record_success
success-Rests t timeout cb r = ground arith

failure-Rests :
    (t timeout : ℕ) (cb : CircuitBreaker) (now : ℕ)
    → Rests t timeout cb
    → Rests t timeout (record_failure cb now)
unfolding record_failure
failure-Rests t timeout cb now r = ground arith

run-Rests :
    (t timeout : ℕ) (cb : CircuitBreaker) (cs : List Call)
    → Rests t timeout cb
    → All (IsEarly (t + timeout)) cs
    → Rests t timeout (run cb cs).0 × All (λ v. v ≡ circuit_open) (run cb cs).1
unfolding run
run-Rests t timeout cb [] r h = (r, tt)
run-Rests t timeout cb (ask now ∷ cs) r h =
    let (same, refused) = allow-Rests t timeout cb now r h.0 in
    rw same (let (rests, all) = run-Rests t timeout cb cs r h.1 in (rests, (refused, all)))
run-Rests t timeout cb (succeed ∷ cs) r h =
    run-Rests t timeout (record_success cb) cs (success-Rests t timeout cb r) h.1
run-Rests t timeout cb (fail now ∷ cs) r h =
    run-Rests t timeout (record_failure cb now) cs (failure-Rests t timeout cb now r) h.1

-- From an open breaker, as long as every `Allow` reads a time before `openedAt + resetTimeout`,
-- the breaker stays open since the same time and every `Allow` is refused, whatever outcomes of
-- older requests are recorded meanwhile.
pub run-open_refuses :
    (cb : CircuitBreaker) (cs : List Call)
    → cb.state ≡ open_
    → All (IsEarly (cb.opened_at + cb.reset_timeout)) cs
    → ((run cb cs).0.state ≡ open_)
      × ((run cb cs).0.opened_at ≡ cb.opened_at)
      × All (λ v. v ≡ circuit_open) (run cb cs).1
run-open_refuses cb cs h early =
    let (rests, all) =
      run-Rests cb.opened_at cb.reset_timeout cb cs
        (record { is_open = h; since = refl; timeout_kept = refl }) early in
    (rests.is_open, rests.since, all)

-- `RecordFailure` at each of the times.
abbrev pub failures_at : List ℕ → List Call
failures_at [] = []
failures_at (t ∷ ts) = fail t ∷ failures_at ts

record_failure-below :
    (cb : CircuitBreaker) (t : ℕ)
    → cb.state ≡ closed
    → cb.failures + 1 < cb.threshold
    → record_failure cb t ≡ record cb { failures = cb.failures + 1 }
unfolding record_failure
record_failure-below cb t h k = ground arith

record_failure-trips :
    (cb : CircuitBreaker) (t : ℕ)
    → cb.state ≡ closed
    → cb.threshold ≤ cb.failures + 1
    → record_failure cb t ≡ record cb { failures = cb.failures + 1; state = open_; opened_at = t }
unfolding record_failure
record_failure-trips cb t h k = ground arith

-- A closed breaker that is short of its threshold by more than the failures recorded stays closed
-- and has counted each of them.
pub run-failures_below :
    (cb : CircuitBreaker) (ts : List ℕ)
    → cb.state ≡ closed
    → cb.failures + length ts < cb.threshold
    → ((run cb (failures_at ts)).0.state ≡ closed)
      × ((run cb (failures_at ts)).0.failures ≡ cb.failures + length ts)
unfolding run
run-failures_below cb [] h k = (h, omega arith)
run-failures_below cb (t ∷ ts) h k =
    rw (record_failure-below cb t h (omega arith), run)
      (let (still, count) =
          run-failures_below (record cb { failures = cb.failures + 1 }) ts h (omega arith) in
        (still, omega (arith, count)))

-- The failure that brings the consecutive failures of a closed breaker to its threshold opens it,
-- at the time of that failure; before it the breaker is closed.
pub run-failures_trip :
    (cb : CircuitBreaker) (ts : List ℕ) (t : ℕ)
    → cb.state ≡ closed
    → cb.failures + length ts + 1 ≡ cb.threshold
    → ((run cb (failures_at ts)).0.state ≡ closed)
      × ((run cb (failures_at (ts ++ t ∷ []))).0.state ≡ open_)
      × ((run cb (failures_at (ts ++ t ∷ []))).0.opened_at ≡ t)
unfolding run
run-failures_trip cb [] t h k = (
  h,
  rw (record_failure-trips cb t h (omega arith)),
  rw (record_failure-trips cb t h (omega arith)),
)
run-failures_trip cb (u ∷ ts) t h k =
    rw (record_failure-below cb u h (omega arith), run)
      (run-failures_trip (record cb { failures = cb.failures + 1 }) ts t h (omega arith))

abbrev pub IsAsk : Call → Type 0
IsAsk (ask now) = Unit
IsAsk _ = ⊥

allow-probing :
    (cb : CircuitBreaker) (now : ℕ)
    → cb.state ≡ half_open
    → cb.probe_in_flight ≡ true
    → allow cb now ≡ (cb, circuit_open)
unfolding allow
allow-probing cb now h p = ground arith

run-probing :
    (cb : CircuitBreaker) (cs : List Call)
    → cb.state ≡ half_open
    → cb.probe_in_flight ≡ true
    → All IsAsk cs
    → All (λ v. v ≡ circuit_open) (run cb cs).1
unfolding run
run-probing cb [] h p q = tt
run-probing cb (ask now ∷ cs) h p q =
    rw (allow-probing cb now h p) (refl, run-probing cb cs h p q.1)
run-probing cb (succeed ∷ cs) h p q = absurd q.0
run-probing cb (fail now ∷ cs) h p q = absurd q.0

allow-probe :
    (cb : CircuitBreaker) (now : ℕ)
    → IsValid cb
    → cb.state ≡ open_
    → cb.opened_at + cb.reset_timeout ≤ now
    → allow cb now ≡ (record cb { probe_in_flight = true; state = half_open }, allowed)
unfolding allow
allow-probe cb now v h late = ground arith

-- At the end of the reset timeout a valid open breaker admits one probe: the first `Allow` passes
-- and every one after it is refused until an outcome is recorded. A success closes the breaker
-- with no failures counted and the next `Allow` passes; a failure opens it again from that time.
pub run-single_probe :
    (cb : CircuitBreaker) (now : ℕ) (cs : List Call) (t : ℕ)
    → IsValid cb
    → cb.state ≡ open_
    → cb.opened_at + cb.reset_timeout ≤ now
    → All IsAsk cs
    → let probing = (allow cb now).0 in
      ((allow cb now).1 ≡ allowed)
      × All (λ v. v ≡ circuit_open) (run probing cs).1
      × ((record_success probing).state ≡ closed)
      × ((record_success probing).failures ≡ 0)
      × ((allow (record_success probing) t).1 ≡ allowed)
      × ((record_failure probing t).state ≡ open_)
      × ((record_failure probing t).opened_at ≡ t)
      × ((record_failure probing t).probe_in_flight ≡ false)
unfolding record_success record_failure allow
run-single_probe cb now cs t v h late asks = rw (allow-probe cb now v h late) (
  refl,
  run-probing (record cb { probe_in_flight = true; state = half_open }) cs refl refl asks,
  refl,
  refl,
  refl,
  refl,
  refl,
  refl,
)
