-- ===== src/Qsu/Machines/Sorted.antt =====
-- Sorting and filtering lists without repetition.
use kdevops_ng.Prelude.{
  String, ◌≡◌, refl, ap, ◌∙◌, Bool, false, ◌&&◌, ◌||◌, List, [], ◌∷◌, ◌++◌, ◌==◌, string_eq,
  contains, arith, if-lem,
}
use kdevops_ng.Prelude.Lists.{keep, insert_by, sort_by}
use kdevops_ng.Prelude.Distinct.{Distinct}

module _ (before : String → String → Bool) where
  contains-insert_by :
      (x : String) (ys : List String) (v : String)
      → contains (insert_by before x ys) v ≡ (v == x || contains ys v)
  unfolding insert_by
  contains-insert_by x [] v = refl
  contains-insert_by x (y ∷ ys) v = ground (arith, contains-insert_by x ys v)

  insert_by-Distinct :
      (x : String) (ys : List String)
      → contains ys x ≡ false
      → Distinct ys
      → Distinct (insert_by before x ys)
  unfolding insert_by
  insert_by-Distinct x [] new h = (refl, tt)
  insert_by-Distinct x (y ∷ ys) new h =
      if-lem Distinct (before y x) _ _
        (λ _. (
          ground (arith, contains-insert_by x ys y, new, h),
          insert_by-Distinct x ys (ground (arith, new)) h.1,
        ))
        (λ _. (new, h))

  pub contains-sort_by :
      (xs : List String) (v : String) → contains (sort_by before xs) v ≡ contains xs v
  unfolding sort_by
  contains-sort_by [] v = refl
  contains-sort_by (x ∷ xs) v =
      contains-insert_by x (sort_by before xs) v ∙ ap (λ b. v == x || b) (contains-sort_by xs v)

  pub sort_by-Distinct : (xs : List String) → Distinct xs → Distinct (sort_by before xs)
  unfolding sort_by
  sort_by-Distinct [] h = tt
  sort_by-Distinct (x ∷ xs) h =
      insert_by-Distinct x (sort_by before xs) (contains-sort_by xs x ∙ h.0)
        (sort_by-Distinct xs h.1)

pub contains-keep :
    (p : String → Bool) (xs : List String) (v : String)
    → contains (keep p xs) v ≡ (p v && contains xs v)
contains-keep p [] v = ground arith
contains-keep p (x ∷ xs) v = elim (string_eq.dec v x) [
  | yes same ↦ rw same (ground (arith, contains-keep p xs x))
  | no n ↦ ground (arith, contains-keep p xs v, n)
]

pub contains-snoc :
    (xs : List String) (x v : String) → contains (xs ++ (x ∷ [])) v ≡ (contains xs v || v == x)
contains-snoc [] x v = ground arith
contains-snoc (y ∷ ys) x v = ground (arith, contains-snoc ys x v)

pub snoc-Distinct :
    (xs : List String) (x : String)
    → contains xs x ≡ false
    → Distinct xs
    → Distinct (xs ++ (x ∷ []))
snoc-Distinct [] x new h = (refl, tt)
snoc-Distinct (y ∷ ys) x new h =
    (ground (arith, contains-snoc ys x y, new, h), snoc-Distinct ys x (ground (arith, new)) h.1)

pub keep-Distinct : (p : String → Bool) (xs : List String) → Distinct xs → Distinct (keep p xs)
keep-Distinct p [] h = tt
keep-Distinct p (x ∷ xs) h =
    if-lem Distinct (p x) _ _
      (λ _. (ground (arith, contains-keep p xs x, h), keep-Distinct p xs h.1))
      (λ _. keep-Distinct p xs h.1)
