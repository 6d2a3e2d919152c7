-- ===== src/Common/Results.antt =====
-- A Go function's `(value, error)` result, with `do` blocks.
use mathlib.Core.Bool.{Bool, true, false}
use mathlib.Core.Path.{◌≡◌, refl, sym, ap}
use Prim.Native.Nat.{ℕ, ◌+◌}
use mathlib.Core.Logic.{◌⊎◌, inl, inr}
use mathlib.Core.List.{List}
use kdrive.Common.Tests.{ltb, if◌then◌else◌}

pub data Result (E A : Type 0) : Type 0 where
  ok : A → Result E A
  err : E → Result E A

infixl 5 ◌>>=◌ ◌>>◌
abbrev pub ◌>>=◌ : {E A B : Type 0} → Result E A → (A → Result E B) → Result E B
ok a >>= f = f a
err e >>= f = err e

abbrev pub ◌>>◌ : {E B : Type 0} → Result E (Unit {0}) → Result E B → Result E B
m >> k = m >>= λ _. k

-- `if failed { return e }`
abbrev pub reject : {E : Type 0} → Bool → E → Result E (Unit {0})
reject true e = err e
reject false e = ok tt

pub ok-injective : {E A : Type 0} (a b : A) → ◌≡◌ {A = Result E A} (ok a) (ok b) → a ≡ b
ok-injective a b h = cc

pub err-ne-ok : {E A : Type 0} (e : E) (a : A) → ◌≡◌ {A = Result E A} (err e) (ok a) → ⊥
err-ne-ok e a h = cc

-- Inversion of a bind that succeeds.
pub >>=-eq-ok :
    {E A B : Type 0} (first : Result E A) (next : A → Result E B) (end : B)
    → (first >>= next) ≡ ok end
    → (mid : A) × (first ≡ ok mid) × (next mid ≡ ok end)
>>=-eq-ok (err e) next end bound = absurd (err-ne-ok e end bound)
>>=-eq-ok (ok mid) next end bound = (mid, refl, bound)

pub reject-eq-ok :
    {E B : Type 0} (b : Bool) (e : E) (k : Result E B) (a : B)
    → (reject b e >> k) ≡ ok a
    → (b ≡ false) × (k ≡ ok a)
reject-eq-ok false e k a h = (refl, h)
reject-eq-ok true e k a h = absurd (err-ne-ok e a h)

-- An `io.Reader`: the bytes that it delivers, and whether it then fails instead of ending.
pub record Reader : Type 0 where
  pub bytes : List ℕ
  pub fails : Bool

abbrev pub max_int64 : ℕ
max_int64 = 9223372036854775807

-- How much `io.LimitReader(r, n+1)` lets through for a positive `int64` n: at the largest n, n+1 is
-- negative, and nothing is read.
unfoldable pub limit_above : ℕ → ℕ
limit_above n = if ltb n max_int64 then n + 1 else 0

pub limit_above-small : (n : ℕ) → ltb n max_int64 ≡ true → limit_above n ≡ n + 1
unfolding limit_above
limit_above-small n small = rw small refl

-- A property of both branches is one of the match.
pub Result_intro {κ} :
    {E A B : Type 0} (P : B → Type κ) (r : Result E A) (f : E → B) (g : A → B)
    → ((e : E) → P (f e))
    → ((a : A) → P (g a))
    → P (elim r [ err e ↦ f e | ok a ↦ g a ])
Result_intro P (err e) f g failed done = failed e
Result_intro P (ok a) f g failed done = done a

pub Result-cases :
    {E : Type 0} (r : Result E (Unit {0}))
    → ((e : E) × (r ≡ err e)) ⊎ ((u : Unit {0}) × (r ≡ ok tt))
Result-cases (err e) = inl (e, refl)
Result-cases (ok u) = inr (tt, refl)

-- The branch that a result takes.
pub Result_ok :
    {E A B : Type 0} (r : Result E A) (f : E → B) (g : A → B) (a : A)
    → r ≡ ok a
    → (elim r [ err e ↦ f e | ok a ↦ g a ]) ≡ g a
Result_ok (err e) f g a h = absurd (err-ne-ok e a h)
Result_ok (ok b) f g a h = ap g (ok-injective b a h)

pub Result_err :
    {E A B : Type 0} (r : Result E A) (f : E → B) (g : A → B) (e : E)
    → r ≡ err e
    → (elim r [ err e ↦ f e | ok a ↦ g a ]) ≡ f e
Result_err (ok a) f g e h = absurd (err-ne-ok e a (sym h))
Result_err (err d) f g e h = let q : d ≡ e = cc in ap f q
