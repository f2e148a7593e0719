-- ===== src/Prelude/Distinct.antt =====
-- Lists of texts without repetition, as the keys of a dictionary are.
use Prim.Native.Nat.{◌+◌}
use Prim.Native.String.{String}
use mathlib.Core.Path.{◌≡◌, refl, ◌∙◌}
use mathlib.Core.Bool.{Bool, true, false, ◌&&◌, ◌||◌}
use mathlib.Core.List.{List, [], ◌∷◌}
use native.Mathlib.Omega.{arith}
use kdevops_ng.Prelude.Equality.{◌==◌, string_eq, contains, eq_true, eq_false, if◌then◌else◌}
use kdevops_ng.Prelude.Lists.{length, keep, All}
use kdevops_ng.Prelude.Dict.{Dict, lookup, insert, keys, has}

abbrev pub Distinct : List String → Type 0
Distinct [] = Unit
Distinct (x ∷ xs) = (contains xs x ≡ false) × Distinct xs

-- `k in d` looks among the keys.
pub has-keys : {V : Type 0} (k : String) (d : Dict V) → has k d ≡ contains (keys d) k
unfolding lookup keys
has-keys k [] = refl
has-keys k ((j, v) ∷ d) = ground (arith, has-keys k d)

contains-keys-insert :
    {V : Type 0} (j k : String) (v : V) (d : Dict V)
    → contains (keys (insert k v d)) j ≡ (j == k || contains (keys d) j)
unfolding keys insert
contains-keys-insert j k v [] = refl
contains-keys-insert j k v ((i, w) ∷ d) = ground (arith, contains-keys-insert j k v d)

pub insert-Distinct :
    {V : Type 0} (k : String) (v : V) (d : Dict V)
    → Distinct (keys d)
    → Distinct (keys (insert k v d))
unfolding keys insert
insert-Distinct k v [] h = (refl, tt)
insert-Distinct k v ((j, w) ∷ d) h = elim (string_eq.dec k j) [
  | yes p ↦ rw (eq_true k j p) (rw p h)
  | no n ↦
      rw (eq_false k j n)
        (ground (arith, contains-keys-insert j k v d, n, h), insert-Distinct k v d h.1)
]

length-keep_or :
    {A : Type 0} (p q : A → Bool) (xs : List A)
    → All (λ x. (p x && q x) ≡ false) xs
    → length (keep (λ x. p x || q x) xs) ≡ length (keep p xs) + length (keep q xs)
length-keep_or p q [] h = omega arith
length-keep_or p q (x ∷ xs) h = ground (arith, length-keep_or p q xs h.1)

occurs_once :
    (x : String) (ys : List String)
    → Distinct ys
    → length (keep (λ y. y == x) ys) ≡ (if contains ys x then 1 else 0)
occurs_once x [] h = refl
occurs_once x (y ∷ ys) h = ground (arith, occurs_once x ys h.1, h)

keep_none : (ys : List String) → length (keep (contains []) ys) ≡ 0
keep_none [] = refl
keep_none (y ∷ ys) = keep_none ys

apart :
    (x : String) (xs : List String)
    → contains xs x ≡ false
    → (ys : List String) → All (λ y. (y == x && contains xs y) ≡ false) ys
apart x xs h [] = tt
apart x xs h (y ∷ ys) = (
  elim (string_eq.dec y x) [ yes p ↦ rw p (ground (arith, h)) | no n ↦ ground (arith, n) ],
  apart x xs h ys,
)

-- A distinct list is as long as its part of a distinct list that holds all of it.
pub length-keep-contains :
    (xs ys : List String)
    → Distinct xs
    → Distinct ys
    → All (λ x. contains ys x ≡ true) xs
    → length (keep (contains xs) ys) ≡ length xs
length-keep-contains [] ys h k inside = keep_none ys
length-keep-contains (x ∷ xs) ys h k inside =
    length-keep_or (λ y. y == x) (contains xs) ys (apart x xs h.0 ys)
    ∙ ground (arith, occurs_once x ys k, length-keep-contains xs ys h.1 k inside.1, inside)
