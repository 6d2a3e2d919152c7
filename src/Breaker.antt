-- ===== src/Breaker.antt =====
-- The circuit breaker of the S3 adapter (pkg/blobstore/s3/circuit_breaker.go), each method run to
-- its end before the next one starts.
pub mod Laws
use kdrive.Common.{
  ℕ, ◌+◌, ◌-◌, ◌*◌, ◌<◌, Bool, true, false, ltb, leb, if◌then◌else◌, ℤ, pos, negsuc, ltℤ,
}

pub data CircuitState : Type 0 where
  closed open_ half_open : CircuitState

-- What `Allow` returns: nil, or `ErrCircuitOpen`.
pub data Verdict : Type 0 where
  allowed : Verdict
  circuit_open : Verdict

-- Times are nanoseconds since the epoch, which do not overflow an `int64` before the year 2262.
pub record CircuitBreaker : Type 0 where
  pub threshold : ℕ
  pub reset_timeout : ℕ
  pub state : CircuitState
  pub failures : ℕ
  pub opened_at : ℕ
  pub probe_in_flight : Bool

abbrev default_reset_timeout : ℕ
default_reset_timeout = 30 * 1000000000

default_threshold : ℤ → ℕ
default_threshold (pos n) = if ltb n 1 then 10 else n
default_threshold (negsuc n) = 10

default_timeout : ℤ → ℕ
default_timeout (pos n) = if leb n 0 then default_reset_timeout else n
default_timeout (negsuc n) = default_reset_timeout

unfoldable pub new_circuit_breaker : ℤ → ℤ → CircuitBreaker
unfolding default_threshold default_timeout
new_circuit_breaker threshold reset_timeout = record {
  threshold = default_threshold threshold;
  reset_timeout = default_timeout reset_timeout;
  state = closed;
  failures = 0;
  opened_at = 0;
  probe_in_flight = false;
}

-- `time.Now().UnixNano()-openedAt < int64(cb.resetTimeout)`; a clock that went back is before it.
abbrev pub resting : CircuitBreaker → ℕ → Bool
resting cb now = ltb now (cb.opened_at + cb.reset_timeout)

-- The double-checks under the lock read what the first load read: no other method runs between.
allow_in : CircuitState → CircuitBreaker → ℕ → CircuitBreaker × Verdict
allow_in closed cb now = (cb, allowed)
allow_in open_ cb now =
    if resting cb now
    then (cb, circuit_open)
    else if cb.probe_in_flight
    then (cb, circuit_open)
    else (record cb { probe_in_flight = true; state = half_open }, allowed)
allow_in half_open cb now =
    if cb.probe_in_flight
    then (cb, circuit_open)
    else (record cb { probe_in_flight = true }, allowed)

unfoldable pub allow : CircuitBreaker → ℕ → CircuitBreaker × Verdict
unfolding allow_in
allow cb now = allow_in cb.state cb now

record_success_in : CircuitState → CircuitBreaker → CircuitBreaker
record_success_in half_open cb = record cb { state = closed; failures = 0; probe_in_flight = false }
record_success_in _ cb = record cb { failures = 0 }

unfoldable pub record_success : CircuitBreaker → CircuitBreaker
unfolding record_success_in
record_success cb = record_success_in cb.state cb

record_failure_in : CircuitState → CircuitBreaker → ℕ → CircuitBreaker
record_failure_in half_open cb now = record cb {
  state = open_;
  opened_at = now;
  probe_in_flight = false;
}
record_failure_in closed cb now =
    let cb' = record cb { failures = cb.failures + 1 } in
    if leb cb.threshold cb'.failures then record cb' { state = open_; opened_at = now } else cb'
record_failure_in open_ cb now = cb

unfoldable pub record_failure : CircuitBreaker → ℕ → CircuitBreaker
unfolding record_failure_in
record_failure cb now = record_failure_in cb.state cb now
