-- ===== src/Common/Text.antt =====
-- Go strings as their code points. The order of the code points is that of the UTF-8 bytes.
use Prim.Native.Char.{code}
use Prim.Native.Nat.{ℕ}
use Prim.Native.String.{String}
use mathlib.Core.Bool.{Bool, true, false}
use mathlib.Core.List.{List, [], ◌∷◌, ◌++◌}
use kdrive.Common.Tests.{ltb, ◌==◌, if◌then◌else◌}

abbrev pub codes : String → List ℕ
codes String.[] = []
codes (String.◌∷◌ c s) = code c ∷ codes s

-- Go's `+` on strings.
unfoldable pub append : String → String → String
append String.[] t = t
append (String.◌∷◌ c s) t = String.◌∷◌ c (append s t)

-- `strings.ContainsRune`
unfoldable pub has_code : ℕ → List ℕ → Bool
has_code c [] = false
has_code c (x ∷ xs) = if x == c then true else has_code c xs

unfoldable pub is_prefix : List ℕ → List ℕ → Bool
is_prefix [] ys = true
is_prefix (x ∷ xs) [] = false
is_prefix (x ∷ xs) (y ∷ ys) = if x == y then is_prefix xs ys else false

-- `strings.HasPrefix(s, prefix)`
unfoldable pub has_prefix : String → String → Bool
unfolding is_prefix
has_prefix s prefix = is_prefix (codes prefix) (codes s)

-- The key with a slash behind it begins the other one.
unfoldable pub lies_under : String → String → Bool
unfolding is_prefix
lies_under dir key = is_prefix (codes dir ++ b'/' ∷ []) (codes key)

-- `strings.Split(s, "/")`
abbrev onto_first : ℕ → List (List ℕ) → List (List ℕ)
onto_first c [] = (c ∷ []) ∷ []
onto_first c (part ∷ parts) = (c ∷ part) ∷ parts

unfoldable pub split_slash : List ℕ → List (List ℕ)
split_slash [] = [] ∷ []
split_slash (c ∷ cs) =
    let rest = split_slash cs in if c == b'/' then [] ∷ rest else onto_first c rest

-- Go's `<` on strings.
unfoldable pub codes_lt : List ℕ → List ℕ → Bool
codes_lt xs [] = false
codes_lt [] (y ∷ ys) = true
codes_lt (x ∷ xs) (y ∷ ys) = if ltb x y then true else if x == y then codes_lt xs ys else false

unfoldable pub str_lt : String → String → Bool
unfolding codes_lt
str_lt a b = codes_lt (codes a) (codes b)
