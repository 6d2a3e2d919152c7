-- ===== src/Local/Dirs.antt =====
-- Which keys lie in an upload's staging directory.
use kdrive.Common.{
  ℕ, ◌+◌, ◌<◌, ◌≤◌, ◌≡◌, refl, sym, ap, ◌∙◌, subst, String, true, false, ◌==◌, str_eq, Bool-cases,
  inl, inr, List, [], ◌∷◌, ◌++◌, length, arith,
}
use kdrive.Common.Dict.{str_ne}
use kdrive.Common.Text.{codes, append, is_prefix, has_prefix, lies_under}
use kdrive.Local.State.{Provider, versions_of}
use kdrive.Local.Objects.{multipart_dir, remove_dir}
use kdrive.Local.Preserved.{lookup-remove_all}

codes-append : (s t : String) → codes (append s t) ≡ codes s ++ codes t
unfolding append
codes-append String.[] t = refl
codes-append (String.◌∷◌ c s) t = rw (codes-append s t) refl

is_prefix-append : (xs ys : List ℕ) → is_prefix xs (xs ++ ys) ≡ true
unfolding is_prefix
is_prefix-append [] ys = refl
is_prefix-append (x ∷ xs) ys = ground (arith, is_prefix-append xs ys)

is_prefix-shorter : (xs ys zs : List ℕ) → is_prefix (xs ++ ys) zs ≡ true → is_prefix xs zs ≡ true
unfolding is_prefix
is_prefix-shorter [] ys zs h = refl
is_prefix-shorter (x ∷ xs) ys [] h = h
is_prefix-shorter (x ∷ xs) ys (z ∷ zs) h = elim (Bool-cases (x == z)) [
  | inl same ↦ rw same (is_prefix-shorter xs ys zs (rw same at h))
  | inr other ↦ rw other (rw other at h)
]

is_prefix-length : (xs ys : List ℕ) → is_prefix xs ys ≡ true → length xs ≤ length ys
unfolding is_prefix
is_prefix-length [] ys h = omega arith
is_prefix-length (x ∷ xs) [] h = absurd (cc)
is_prefix-length (x ∷ xs) (y ∷ ys) h = elim (Bool-cases (x == y)) [
  | inl same ↦ let le = is_prefix-length xs ys (rw same at h) in omega (arith, le)
  | inr other ↦ let no : false ≡ true = rw other at h in absurd (cc)
]

length-append : (xs ys : List ℕ) → length (xs ++ ys) ≡ length xs + length ys
length-append [] ys = omega arith
length-append (x ∷ xs) ys = omega (arith, length-append xs ys)

-- Neither the directory itself nor a key in it.
abbrev pub Apart : String → String → Type 0
Apart dir key = (str_eq dir key ≡ false) × (lies_under dir key ≡ false)

-- A key that is not in the directory of the staging directories.
abbrev pub Outside : String → Type 0
Outside key = has_prefix key "_multipart/" ≡ false

prefix_of-Outside : (rest key : String) → Outside key → Apart (append "_multipart/" rest) key
unfolding has_prefix lies_under
prefix_of-Outside rest key out = (
  str_ne (append "_multipart/" rest) key (λ e. no_prefix (
      subst (λ k. is_prefix (codes "_multipart/") (codes k) ≡ true) e
        (subst (λ cs. is_prefix (codes "_multipart/") cs ≡ true)
          (sym (codes-append "_multipart/" rest))
          (is_prefix-append (codes "_multipart/") (codes rest))))),
  elim (Bool-cases (is_prefix (codes (append "_multipart/" rest) ++ b'/' ∷ []) (codes key))) [
    | inr free ↦ free
    | inl under ↦ absurd (
        no_prefix (
          is_prefix-shorter (codes "_multipart/") (codes rest) (codes key) (
            subst (λ cs. is_prefix cs (codes key) ≡ true) (codes-append "_multipart/" rest)
              (is_prefix-shorter (codes (append "_multipart/" rest)) (b'/' ∷ []) (codes key)
                under))))
  ],
)
  where
    no_prefix : is_prefix (codes "_multipart/") (codes key) ≡ true → ⊥
    no_prefix h = let no : true ≡ false = sym h ∙ out in absurd (cc)

pub multipart_dir-Outside :
    (key id other : String) → Outside other → Apart (multipart_dir key id) other
unfolding multipart_dir
multipart_dir-Outside key id other out = prefix_of-Outside (append key (append "/" id)) other out

longer-Apart : (dir key : String) → length (codes key) < length (codes dir) → Apart dir key
unfolding lies_under
longer-Apart dir key lt = (
  str_ne dir key (λ e. let same = ap (λ s. length (codes s)) e in absurd (omega (arith, same))),
  elim (Bool-cases (is_prefix (codes dir ++ b'/' ∷ []) (codes key))) [
    | inr free ↦ free
    | inl under ↦
        let le =
          is_prefix-length (codes dir) (codes key)
            (is_prefix-shorter (codes dir) (b'/' ∷ []) (codes key) under) in
        absurd (omega (arith, le))
  ],
)

-- An upload's key does not lie in the upload's staging directory.
pub multipart_dir-own : (key id : String) → Apart (multipart_dir key id) key
unfolding multipart_dir
multipart_dir-own key id =
    let whole =
      ap length (codes-append "_multipart/" (append key (append "/" id)))
      ∙ length-append (codes "_multipart/") (codes (append key (append "/" id))) in
    let behind =
      ap length (codes-append key (append "/" id))
      ∙ length-append (codes key) (codes (append "/" id)) in
    longer-Apart (append "_multipart/" (append key (append "/" id))) key
      (omega (arith, whole, behind))

-- What is apart from a directory that is removed stays.
pub remove_dir-Apart :
    (p : Provider) (dir key : String)
    → Apart dir key
    → versions_of (remove_dir p dir) key ≡ versions_of p key
unfolding remove_dir versions_of
remove_dir-Apart p dir key far = rw (lookup-remove_all dir key p.objects, far.0, far.1) refl
