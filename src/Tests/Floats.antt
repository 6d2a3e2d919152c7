-- ===== src/Tests/Floats.antt =====
-- Floating-point numbers as thousandths, enough for the literals of the policies.
use kdrive.Common.{ℕ, ◌*◌, ◌/◌, ◌^◌, ltb, leb, ◌==◌, pos, pos_part}
use kdrive.HotCache.{Float64}

instance abbrev pub thousandths : Float64 ℕ
thousandths = record {
  lt = ltb;
  le = leb;
  eq = ◌==◌;
  mul = λ a b. a * b / 1000;
  of_int64 = λ a. pos_part a * 1000;
  to_int64 = λ a. pos (a / 1000);
  literal = λ d k. d * 1000 / 10 ^ k;
}
