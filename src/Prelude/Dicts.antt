-- ===== src/Prelude/Dicts.antt =====
-- Python's `dict` with text keys, in insertion order: an assignment to a key that is there keeps its
-- place, a new key goes to the end.
use Prim.Native.String.{String}
use mathlib.Core.Path.{◌≡◌, refl, ap, subst}
use mathlib.Core.Bool.{Bool, true, false}
use mathlib.Core.Option.{Option, none, some}
use mathlib.Core.List.{List, [], ◌∷◌, ◌++◌, map}
use native.Mathlib.Omega.{arith}
use text.Mathlib.Text.{◌==◌ as str_eq}
use text.Mathlib.TextEquality.{eq_iff}
use mathlib.Core.Logic.{◌≢◌, inl, inr}
use Prim.Native.Nat.{◌+◌, ◌≤◌}
use lario_llms.Prelude.Lists.{All, length}
use lario_llms.Prelude.Tests.{Bool-cases, if◌then◌else◌}

abbrev pub Dict {ℓ} : Type ℓ → Type ℓ
Dict V = List (String × V)

module _ {ℓ} {V : Type ℓ} where
  -- `d.get(k)`
  unfoldable pub lookup : String → Dict V → Option V
  lookup k [] = none
  lookup k ((j, v) ∷ d) = if str_eq j k then some v else lookup k d

  -- `d[k] = v`
  unfoldable pub insert : String → V → Dict V → Dict V
  insert k v [] = (k, v) ∷ []
  insert k v ((j, w) ∷ d) = if str_eq j k then (j, v) ∷ d else (j, w) ∷ insert k v d

  -- `d.pop(k, None)`
  unfoldable pub remove : String → Dict V → Dict V
  remove k [] = []
  remove k ((j, w) ∷ d) = let rest = remove k d in if str_eq j k then rest else (j, w) ∷ rest

  pub lookup-insert :
      (k j : String) (v : V) (d : Dict V)
      → lookup j (insert k v d) ≡ (if str_eq k j then some v else lookup j d)
  unfolding lookup insert
  lookup-insert k j v [] = refl
  lookup-insert k j v ((i, w) ∷ d) =
      ground (arith, eq_iff k j, eq_iff i k, eq_iff i j, lookup-insert k j v d)

  pub lookup-remove :
      (k j : String) (d : Dict V)
      → lookup j (remove k d) ≡ (if str_eq k j then none else lookup j d)
  unfolding lookup remove
  lookup-remove k j [] = ground arith
  lookup-remove k j ((i, w) ∷ d) =
      ground (arith, eq_iff k j, eq_iff i k, eq_iff i j, lookup-remove k j d)

-- `k in d`
abbrev pub has_key {ℓ} : {V : Type ℓ} → String → Dict V → Bool
has_key k d = elim (lookup k d) [ none ↦ false | some _ ↦ true ]

-- `list(d)` and `d.values()`
abbrev pub keys {ℓ} : {V : Type ℓ} → Dict V → List String
keys d = map (λ e. e.0) d

abbrev pub values {ℓ} : {V : Type ℓ} → Dict V → List V
values d = map (λ e. e.1) d

pub lookup-cons-eq-none {ℓ} :
    {V : Type ℓ} (k j : String) (v : V) (d : Dict V)
    → lookup j ((k, v) ∷ d) ≡ none
    → (k ≢ j) × (lookup j d ≡ none)
unfolding lookup
lookup-cons-eq-none k j v d h = (λ e. ground (arith, eq_iff k j, e), ground (arith, eq_iff k j))

-- An assignment to a key that is there leaves the keys and their order alone.
pub keys-insert {ℓ} :
    {V : Type ℓ} (k : String) (v w : V) (d : Dict V)
    → lookup k d ≡ some w
    → keys (insert k v d) ≡ keys d
unfolding lookup insert
keys-insert k v w [] h = cc
keys-insert k v w ((j, u) ∷ d) h = elim (Bool-cases (str_eq j k)) [
  | inl e ↦ rw e refl
  | inr e ↦ rw e (ap (λ ks. j ∷ ks) (keys-insert k v w d (ground arith)))
]

module _ {ℓ κ} {V : Type ℓ} (P : V → Type κ) where
  pub All-insert :
      (k : String) (v : V) (d : Dict V) → P v → All P (values d) → All P (values (insert k v d))
  unfolding insert
  All-insert k v [] p h = (p, tt)
  All-insert k v ((j, w) ∷ d) p h = elim (Bool-cases (str_eq j k)) [
    | inl e ↦ rw e (p, h.1)
    | inr e ↦ rw e (h.0, All-insert k v d p h.1)
  ]

  pub All-lookup : (k : String) (d : Dict V) {v : V} → All P (values d) → lookup k d ≡ some v → P v
  unfolding lookup
  All-lookup k [] h e = cc
  All-lookup k ((j, w) ∷ d) {v} h e = elim (Bool-cases (str_eq j k)) [
    | inl found ↦
        let e' : some w ≡ some v = rw found at e in let same : w ≡ v = cc in subst P same h.0
    | inr other ↦ All-lookup k d h.1 (rw other at e)
  ]

  pub All-remove : (k : String) (d : Dict V) → All P (values d) → All P (values (remove k d))
  unfolding remove
  All-remove k [] h = tt
  All-remove k ((j, w) ∷ d) h = elim (Bool-cases (str_eq j k)) [
    | inl e ↦ rw e (All-remove k d h.1)
    | inr e ↦ rw e (h.0, All-remove k d h.1)
  ]

module _ {ℓ} {V : Type ℓ} where
  pub length-remove : (k : String) (d : Dict V) → length (remove k d) ≤ length d
  unfolding remove
  length-remove k [] = omega arith
  length-remove k ((j, w) ∷ d) = ground (arith, length-remove k d)

  pub length-insert_new :
      (k : String) (v : V) (d : Dict V) → lookup k d ≡ none → length (insert k v d) ≡ length d + 1
  unfolding insert lookup
  length-insert_new k v [] h = omega arith
  length-insert_new k v ((j, w) ∷ d) h = ground (arith, length-insert_new k v d)

  pub length-insert_old :
      (k : String) (v w : V) (d : Dict V) → lookup k d ≡ some w → length (insert k v d) ≡ length d
  unfolding insert lookup
  length-insert_old k v w [] h = cc
  length-insert_old k v w ((j, u) ∷ d) h = ground (arith, length-insert_old k v w d)

-- A new key goes to the end.
pub values-insert_new {ℓ} :
    {V : Type ℓ} (k : String) (v : V) (d : Dict V)
    → lookup k d ≡ none
    → values (insert k v d) ≡ values d ++ v ∷ []
unfolding lookup insert
values-insert_new k v [] h = refl
values-insert_new k v ((j, w) ∷ d) h = elim (Bool-cases (str_eq j k)) [
  | inl e ↦ let h' = rw e at h in cc
  | inr e ↦ rw e (ap (λ vs. w ∷ vs) (values-insert_new k v d (rw e at h)))
]

pub ruleset dict_laws = (lookup-insert, lookup-remove)
