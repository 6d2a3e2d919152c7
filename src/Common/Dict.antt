-- ===== src/Common/Dict.antt =====
-- A Go map with string keys, as an association list: one entry to a key.
use Prim.Native.Nat.{suc, ◌≤◌}
use Prim.Native.String.{String}
use mathlib.Core.Path.{◌≡◌, refl, sym, ◌∙◌, ap, subst}
use mathlib.Core.Bool.{true, false}
use mathlib.Core.List.{List, [], ◌∷◌}
use mathlib.Core.Logic.{◌≢◌, inl, inr}
use mathlib.Core.Option.{Option, none, some}
use native.Mathlib.Omega.{arith}
use text.Mathlib.TextEquality.{eq_iff}
use kdrive.Common.Tests.{str_eq, if◌then◌else◌, Bool-cases}
use kdrive.Common.Lists.{length}

pub str_eq_refl : (k : String) → str_eq k k ≡ true
str_eq_refl k = (eq_iff k k).1 refl

pub str_ne : (a b : String) → a ≢ b → str_eq a b ≡ false
str_ne a b h = elim (Bool-cases (str_eq a b)) [ inl e ↦ absurd (h ((eq_iff a b).0 e)) | inr e ↦ e ]

true-ne-false : true ≡ false → ⊥
true-ne-false h = cc

pub ne_of_str_eq : (a b : String) → str_eq a b ≡ false → a ≢ b
ne_of_str_eq a b e h = true-ne-false (sym ((eq_iff a b).1 h) ∙ e)

module _ {ℓ} {V : Type ℓ} where
  -- `v, ok := m[key]`
  unfoldable pub lookup : (key : String) → List (String × V) → Option V
  lookup key [] = none
  lookup key (entry ∷ rest) = if str_eq entry.0 key then some entry.1 else lookup key rest

  -- `m[key] = value`
  unfoldable pub insert : (key : String) (value : V) → List (String × V) → List (String × V)
  insert key value [] = (key, value) ∷ []
  insert key value (entry ∷ rest) =
      if str_eq entry.0 key then (key, value) ∷ rest else entry ∷ insert key value rest

  -- `delete(m, key)`
  unfoldable pub delete : (key : String) → List (String × V) → List (String × V)
  delete key [] = []
  delete key (entry ∷ rest) =
      if str_eq entry.0 key then delete key rest else entry ∷ delete key rest

  pub lookup-insert :
      (key asked : String) (value : V) (m : List (String × V))
      → lookup asked (insert key value m)
        ≡ (if str_eq key asked then some value else lookup asked m)
  unfolding lookup insert
  lookup-insert key asked value [] = refl
  lookup-insert key asked value (e ∷ m) =
      let ih = lookup-insert key asked value m in
      ground (arith, ih, eq_iff e.0 key, eq_iff e.0 asked, eq_iff key asked)

  pub lookup-insert_self :
      (k : String) (v : V) (m : List (String × V)) → lookup k (insert k v m) ≡ some v
  lookup-insert_self k v m = ground (arith, lookup-insert k k v m, str_eq_refl k)

  pub lookup-insert_ne :
      (k j : String) (v : V) (m : List (String × V)) → k ≢ j → lookup j (insert k v m) ≡ lookup j m
  lookup-insert_ne k j v m h = ground (arith, lookup-insert k j v m, eq_iff k j)

  pub lookup-delete :
      (k j : String) (m : List (String × V))
      → lookup j (delete k m) ≡ (if str_eq k j then none else lookup j m)
  unfolding lookup delete
  lookup-delete k j [] = ground arith
  lookup-delete k j ((i, w) ∷ m) =
      ground (arith, eq_iff k j, eq_iff i k, eq_iff i j, lookup-delete k j m)

  -- A new key makes the map one longer.
  pub length-insert_new :
      (k : String) (v : V) (m : List (String × V))
      → lookup k m ≡ none
      → length (insert k v m) ≡ suc (length m)
  unfolding lookup insert
  length-insert_new k v [] h = refl
  length-insert_new k v ((i, w) ∷ m) h = ground (arith, length-insert_new k v m)

  pub length-insert-le :
      (k : String) (v : V) (m : List (String × V)) → length (insert k v m) ≤ suc (length m)
  unfolding insert
  length-insert-le k v [] = omega arith
  length-insert-le k v ((i, w) ∷ m) = ground (arith, length-insert-le k v m)

  pub delete_absent : (k : String) (m : List (String × V)) → lookup k m ≡ none → delete k m ≡ m
  unfolding lookup delete
  delete_absent k [] h = refl
  delete_absent k ((i, w) ∷ m) h = ground (arith, delete_absent k m)

  -- No key has two entries.
  abbrev pub Unique : List (String × V) → Type ℓ
  Unique [] = Unit
  Unique ((k, v) ∷ m) = (lookup k m ≡ none) × Unique m

  pub insert-Unique :
      (k : String) (v : V) (m : List (String × V)) → Unique m → Unique (insert k v m)
  unfolding insert lookup
  insert-Unique k v [] u = (refl, tt)
  insert-Unique k v ((i, w) ∷ m) u = elim (Bool-cases (str_eq i k)) [
    | inl e ↦ rw e (subst (λ j. lookup j m ≡ none) ((eq_iff i k).0 e) u.0, u.1)
    | inr e ↦ rw e (
      ground (arith, lookup-insert k i v m, eq_iff i k, eq_iff k i, u.0),
      insert-Unique k v m u.1,
    )
  ]

  pub delete-Unique : (k : String) (m : List (String × V)) → Unique m → Unique (delete k m)
  unfolding delete lookup
  delete-Unique k [] u = tt
  delete-Unique k ((i, w) ∷ m) u = elim (Bool-cases (str_eq i k)) [
    | inl e ↦ rw e (delete-Unique k m u.1)
    | inr e ↦ rw e (ground (arith, lookup-delete k i m, u.0), delete-Unique k m u.1)
  ]

  -- Deleting a key that is there makes the map one shorter.
  pub length-delete :
      (k : String) (v : V) (m : List (String × V))
      → Unique m
      → lookup k m ≡ some v
      → suc (length (delete k m)) ≡ length m
  unfolding delete lookup
  length-delete k v [] u h = cc
  length-delete k v ((i, w) ∷ m) u h = elim (Bool-cases (str_eq i k)) [
    | inl e ↦
        rw e (rw (delete_absent k m (subst (λ j. lookup j m ≡ none) ((eq_iff i k).0 e) u.0)) refl)
    | inr e ↦ rw e (ap suc (length-delete k v m u.1 (rw e at h)))
  ]
