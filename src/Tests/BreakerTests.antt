-- ===== src/Tests/BreakerTests.antt =====
-- The circuit breaker at a threshold of three and a reset timeout of a hundred.
use kdrive.Common.{ℕ, ◌+◌, ◌≡◌, refl, false, List, [], ◌∷◌, ◌++◌, All, length, pos, arith}
use kdrive.Breaker.{
  closed, open_, allowed, circuit_open, CircuitBreaker, new_circuit_breaker, allow, record_success,
  record_failure,
}
use kdrive.Breaker.Laws.{
  IsValid, Call, ask, succeed, fail, run, run-IsValid, run-open_refuses, failures_at,
  run-failures_below, run-failures_trip, run-single_probe,
}

abbrev fresh : CircuitBreaker
fresh = record {
  threshold = 3;
  reset_timeout = 100;
  state = closed;
  failures = 0;
  opened_at = 0;
  probe_in_flight = false;
}

new_circuit_breaker-fresh : new_circuit_breaker (pos 3) (pos 100) ≡ fresh
unfolding new_circuit_breaker
new_circuit_breaker-fresh = refl

abbrev tripped : CircuitBreaker
tripped = record fresh { state = open_; failures = 3; opened_at = 7 }

three_failures : (run fresh (fail 5 ∷ fail 6 ∷ fail 7 ∷ [])).0 ≡ tripped
unfolding run record_failure
three_failures = refl

abbrev calls : List Call
calls = fail 5 ∷ fail 6 ∷ fail 7 ∷ ask 8 ∷ ask 107 ∷ ask 108 ∷ succeed ∷ []

run-IsValid_example : IsValid (run (new_circuit_breaker (pos 3) (pos 100)) calls).0
run-IsValid_example = run-IsValid (pos 3) (pos 100) calls

run-open_refuses_example :
    let end = run tripped (ask 8 ∷ succeed ∷ fail 9 ∷ ask 106 ∷ []) in
    (end.0.state ≡ open_) × (end.0.opened_at ≡ 7) × All (λ v. v ≡ circuit_open) end.1
run-open_refuses_example =
    run-open_refuses tripped (ask 8 ∷ succeed ∷ fail 9 ∷ ask 106 ∷ []) refl
      (omega arith, (tt, (tt, (omega arith, tt))))

run-failures_below_example :
    ((run fresh (failures_at (5 ∷ 6 ∷ []))).0.state ≡ closed)
    × ((run fresh (failures_at (5 ∷ 6 ∷ []))).0.failures ≡ 0 + length {A = ℕ} (5 ∷ 6 ∷ []))
run-failures_below_example = run-failures_below fresh (5 ∷ 6 ∷ []) refl (omega arith)

run-failures_trip_example :
    ((run fresh (failures_at (5 ∷ 6 ∷ []))).0.state ≡ closed)
    × ((run fresh (failures_at ((5 ∷ 6 ∷ []) ++ 7 ∷ []))).0.state ≡ open_)
    × ((run fresh (failures_at ((5 ∷ 6 ∷ []) ++ 7 ∷ []))).0.opened_at ≡ 7)
run-failures_trip_example = run-failures_trip fresh (5 ∷ 6 ∷ []) 7 refl (omega arith)

tripped-IsValid : IsValid tripped
tripped-IsValid = ground arith

run-single_probe_example :
    let probing = (allow tripped 107).0 in
    ((allow tripped 107).1 ≡ allowed)
    × All (λ v. v ≡ circuit_open) (run probing (ask 108 ∷ [])).1
    × ((record_success probing).state ≡ closed)
    × ((record_success probing).failures ≡ 0)
    × ((allow (record_success probing) 120).1 ≡ allowed)
    × ((record_failure probing 120).state ≡ open_)
    × ((record_failure probing 120).opened_at ≡ 120)
    × ((record_failure probing 120).probe_in_flight ≡ false)
run-single_probe_example =
    run-single_probe tripped 107 (ask 108 ∷ []) 120 tripped-IsValid refl (omega arith) (tt, tt)
