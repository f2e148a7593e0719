-- ===== src/Prelude/Dict.antt =====
-- Python dicts in insertion order, keyed by texts. Proofs elsewhere go by the laws.
use Prim.Native.String.{String}
use mathlib.Core.Path.{◌≡◌, refl}
use mathlib.Core.Bool.{Bool, true, false}
use mathlib.Core.Option.{Option, none, some}
use mathlib.Core.List.{List, [], ◌∷◌, ◌++◌}
use native.Mathlib.Omega.{arith}
use kdevops_ng.Prelude.Equality.{◌==◌, string_eq, if◌then◌else◌}

abbrev pub Dict {ℓ} : Type ℓ → Type ℓ
Dict V = List (String × V)

module _ {ℓ} {V : Type ℓ} where
  -- `d.get(k)`
  unfoldable pub lookup : String → Dict V → Option V
  lookup k [] = none
  lookup k ((j, v) ∷ d) = if k == j then some v else lookup k d

  -- `d[k] = v`: the place of a key that is there stays.
  unfoldable pub insert : String → V → Dict V → Dict V
  insert k v [] = (k, v) ∷ []
  insert k v ((j, w) ∷ d) = if k == j then (k, v) ∷ d else (j, w) ∷ insert k v d

  -- `d.pop(k, None)`
  unfoldable pub erase : String → Dict V → Dict V
  erase k [] = []
  erase k ((j, w) ∷ d) = let rest = erase k d in if k == j then rest else (j, w) ∷ rest

  unfoldable pub keys : Dict V → List String
  keys [] = []
  keys ((k, _) ∷ d) = k ∷ keys d

  pub lookup-insert :
      (j k : String) (v : V) (d : Dict V)
      → lookup j (insert k v d) ≡ (if j == k then some v else lookup j d)
  unfolding lookup insert
  lookup-insert j k v [] = ground arith
  lookup-insert j k v (_ ∷ d) = ground (arith, lookup-insert j k v d)

  pub lookup-erase :
      (j k : String) (d : Dict V) → lookup j (erase k d) ≡ (if j == k then none else lookup j d)
  unfolding lookup erase
  lookup-erase j k [] = ground arith
  lookup-erase j k (_ ∷ d) = ground (arith, lookup-erase j k d)

  pub lookup-nil : (k : String) → lookup k [] ≡ none
  unfolding lookup
  lookup-nil k = refl

  pub lookup-cons :
      (j k : String) (v : V) (d : Dict V)
      → lookup j ((k, v) ∷ d) ≡ (if j == k then some v else lookup j d)
  unfolding lookup
  lookup-cons j k v d = refl

  abbrev is_found : Option V → Bool
  is_found none = false
  is_found (some _) = true

  -- `k in d`
  abbrev pub has : String → Dict V → Bool
  has k d = is_found (lookup k d)

  pub has-insert :
      (j k : String) (v : V) (d : Dict V)
      → (has k (insert k v d) ≡ true) × (has j d ≡ true → has j (insert k v d) ≡ true)
  has-insert j k v d =
      (ground (arith, lookup-insert k k v d), λ there. ground (arith, lookup-insert j k v d))

  -- `{**d, **e}` for dicts that share no key is `d ++ e`.
  pub lookup-append :
      (k : String) (d e : Dict V)
      → lookup k (d ++ e) ≡ elim (lookup k d) [ none ↦ lookup k e | some v ↦ some v ]
  unfolding lookup
  lookup-append k [] e = refl
  lookup-append k ((j, w) ∷ d) e = ground (arith, lookup-append k d e)

  pub lookup-append_missed :
      (k : String) (d e : Dict V) → lookup k d ≡ none → lookup k (d ++ e) ≡ lookup k e
  lookup-append_missed k d e gone = ground (arith, lookup-append k d e, gone)

  pub lookup-append_kept :
      (k : String) (d e : Dict V) → lookup k e ≡ none → lookup k (d ++ e) ≡ lookup k d
  lookup-append_kept k d e gone = ground (arith, lookup-append k d e, gone)
