-- ===== src/Local/Keys.antt =====
-- `validateKey`: keys that would leave the provider's root are refused.
use kdrive.Common.{
  ℕ, ◌==◌, String, Bool, true, false, ◌&&◌, if◌then◌else◌, List, [], ◌∷◌, str_eq, Result, reject,
  ◌>>◌, ◌≡◌, ◌≢◌, subst,
}
use kdrive.Common.Text.{codes, has_code, split_slash}
use kdrive.BlobStore.{StoreError, other}

-- "", "." or ".."
unfoldable pub bad_segment : List ℕ → Bool
bad_segment [] = true
bad_segment (a ∷ []) = a == b'.'
bad_segment (a ∷ b ∷ []) = (a == b'.') && (b == b'.')
bad_segment (a ∷ b ∷ c ∷ rest) = false

-- A name that is one path segment: a file of that name lies in the directory that it is joined to.
abbrev pub IsSegment : String → Type 0
IsSegment id = (has_code b'/' (codes id) ≡ false) × (bad_segment (codes id) ≡ false)

pub IsSegment-named : (id : String) → IsSegment id → id ≢ ""
unfolding bad_segment
IsSegment-named id named e =
    let h : true ≡ false = subst (λ x. bad_segment (codes x) ≡ false) e named.1 in absurd (cc)

unfoldable pub any_bad : List (List ℕ) → Bool
unfolding bad_segment
any_bad [] = false
any_bad (s ∷ ss) = if bad_segment s then true else any_bad ss

unfoldable pub validate_key : String → Result StoreError (Unit {0})
unfolding any_bad has_code split_slash
validate_key key =
    reject (str_eq key "") other
    >> (reject (has_code 92 (codes key)) other
        >> (reject (has_code 0 (codes key)) other
            >> (reject (any_bad (split_slash (codes key))) other
                >> reject (str_eq key "_multipart") other)))
