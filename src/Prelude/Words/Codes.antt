-- ===== src/Prelude/Words/Codes.antt =====
-- A test that every character of a text passes.
use Prim.Native.Char.{code, Char}
use Prim.Native.Nat.{ℕ, zero, suc, ◌<◌, ◌/◌, ◌%◌}
use Prim.Native.String.{String, ◌++◌ as ◌<>◌}
use mathlib.Core.Path.{subst, ◌≡◌, sym}
use mathlib.Core.Logic.{inl, inr}
use mathlib.Core.Bool.{Bool, true}
use mathlib.Core.List.{List, [], ◌∷◌}
use native.Mathlib.Omega.{arith}
use text.Mathlib.TextLemmas.{nil-append, cons-append}
use kdevops_ng.Prelude.Equality.{string_eq, ltb, eq_true, eq_false, Bool-cases}
use kdevops_ng.Prelude.Lists.{All}
use kdevops_ng.Prelude.Words.{
  is_space, onto_word, pieces, drop_empty, words, join, digit_texts, digit, digits, decimal,
}
use kdevops_ng.Prelude.Words.Joined.{All-get_elem?}

abbrev pub AllCodes : (ℕ → Bool) → String → Type 0
AllCodes p String.[] = Unit
AllCodes p (String.◌∷◌ c s) = (p (code c) ≡ true) × AllCodes p s

module _ (p : ℕ → Bool) where
  append-AllCodes : (s t : String) → AllCodes p s → AllCodes p t → AllCodes p (s <> t)
  append-AllCodes String.[] t h k = subst (λ u. AllCodes p u) (sym (nil-append t)) k
  append-AllCodes (String.◌∷◌ c s) t h k =
      subst (λ u. AllCodes p u) (sym (cons-append c s t)) (h.0, append-AllCodes s t h.1 k)

  pub join-AllCodes :
      (sep : String) (ws : List String)
      → AllCodes p sep
      → All (AllCodes p) ws
      → AllCodes p (join sep ws)
  unfolding join
  join-AllCodes sep [] h k = tt
  join-AllCodes sep (w ∷ []) h k = k.0
  join-AllCodes sep (w ∷ v ∷ ws) h k =
      append-AllCodes w (sep <> join sep (v ∷ ws)) k.0
        (append-AllCodes sep (join sep (v ∷ ws)) h (join-AllCodes sep (v ∷ ws) h k.1))

  onto_word-AllCodes :
      (c : Char) (ws : List String)
      → p (code c) ≡ true
      → All (AllCodes p) ws
      → All (AllCodes p) (onto_word c ws)
  onto_word-AllCodes c [] mark h = ((mark, tt), tt)
  onto_word-AllCodes c (w ∷ ws) mark h = ((mark, h.0), h.1)

  pieces-AllCodes : (s : String) → AllCodes p s → All (AllCodes p) (pieces s)
  pieces-AllCodes String.[] h = (tt, tt)
  pieces-AllCodes (String.◌∷◌ c s) (mark, h) = elim (Bool-cases (is_space (code c))) [
    | inl blank ↦ rw blank (tt, pieces-AllCodes s h)
    | inr solid ↦ rw solid (onto_word-AllCodes c (pieces s) mark (pieces-AllCodes s h))
  ]

  drop_empty-AllCodes : (ws : List String) → All (AllCodes p) ws → All (AllCodes p) (drop_empty ws)
  drop_empty-AllCodes [] h = tt
  drop_empty-AllCodes (w ∷ ws) h = elim (string_eq.dec w "") [
    | yes e ↦ rw (eq_true w "" e) (drop_empty-AllCodes ws h.1)
    | no n ↦ rw (eq_false w "" n) (h.0, drop_empty-AllCodes ws h.1)
  ]

  pub words-AllCodes : (s : String) → AllCodes p s → All (AllCodes p) (words s)
  unfolding words
  words-AllCodes s h = drop_empty-AllCodes (pieces s) (pieces-AllCodes s h)

  module _ (digits_pass : All (AllCodes p) digit_texts) where
    digit-AllCodes : (n : ℕ) → n < 10 → AllCodes p (digit n)
    unfolding digit
    digit-AllCodes n k = All-get_elem? (AllCodes p) digit_texts n "" digits_pass k

    digits-AllCodes : (fuel n : ℕ) → AllCodes p (digits fuel n)
    unfolding digits
    digits-AllCodes zero n = tt
    digits-AllCodes (suc fuel) n = elim (Bool-cases (ltb n 10)) [
      | inl small ↦ rw (small, digits) (digit-AllCodes n (ground (arith, small)))
      | inr large ↦
          rw (large, digits)
            (append-AllCodes (digits fuel (n / 10)) (digit (n % 10)) (digits-AllCodes fuel (n / 10))
              (digit-AllCodes (n % 10) (omega arith)))
    ]

    pub decimal-AllCodes : (n : ℕ) → AllCodes p (decimal n)
    unfolding decimal
    decimal-AllCodes n = digits-AllCodes (suc n) n
