-- ===== src/Prelude/Words/Joined.antt =====
-- Words joined by a space, split again.
use Prim.Native.Char.{char, code, Char}
use Prim.Native.Nat.{ℕ, zero, suc, ◌<◌, ◌/◌, ◌%◌}
use Prim.Native.String.{String, ◌++◌ as ◌<>◌}
use mathlib.Core.Path.{subst, ◌≡◌, refl, sym, ap, ◌∙◌}
use mathlib.Core.Logic.{◌≢◌, inl, inr}
use mathlib.Core.Bool.{false}
use mathlib.Core.List.{List, [], ◌∷◌}
use mathlib.Core.Option.{get_or}
use native.Mathlib.Omega.{arith}
use text.Mathlib.TextLemmas.{nil-append, cons-append, append-eq-nil_iff}
use kdevops_ng.Prelude.Equality.{string_eq, nat_eq, ltb, eq_true, eq_false, Bool-cases}
use kdevops_ng.Prelude.Lists.{All, length, get_elem?}
use kdevops_ng.Prelude.Words.{
  is_space, onto_word, pieces, drop_empty, words, join, digit_texts, digit, digits, decimal,
}

abbrev pub IsSolid : String → Type 0
IsSolid String.[] = Unit
IsSolid (String.◌∷◌ c s) = (is_space (code c) ≡ false) × IsSolid s

abbrev pub IsWord : String → Type 0
IsWord s = (s ≢ "") × IsSolid s

pub append-IsSolid : (s t : String) → IsSolid s → IsSolid t → IsSolid (s <> t)
append-IsSolid String.[] t h k = subst (λ u. IsSolid u) (sym (nil-append t)) k
append-IsSolid (String.◌∷◌ c s) t h k =
    subst (λ u. IsSolid u) (sym (cons-append c s t)) (h.0, append-IsSolid s t h.1 k)

pieces-space : (t : String) → pieces (" " <> t) ≡ "" ∷ pieces t
pieces-space t =
    ap pieces (cons-append (char 32 tt) "" t ∙ ap (λ u. String.◌∷◌ (char 32 tt) u) (nil-append t))

pieces-append : (s t : String) → IsSolid s → pieces (s <> (" " <> t)) ≡ s ∷ pieces t
pieces-append String.[] t h = ap pieces (nil-append (" " <> t)) ∙ pieces-space t
pieces-append (String.◌∷◌ c s) t h =
    ap pieces (cons-append c s (" " <> t)) ∙ rw h.0 (ap (onto_word c) (pieces-append s t h.1))

pieces_lem : (s : String) → IsSolid s → pieces s ≡ s ∷ []
pieces_lem String.[] h = refl
pieces_lem (String.◌∷◌ c s) h = rw h.0 (ap (onto_word c) (pieces_lem s h.1))

drop_empty_keep : (w : String) (ws : List String) → w ≢ "" → drop_empty (w ∷ ws) ≡ w ∷ drop_empty ws
drop_empty_keep w ws n = ground arith

pub words-join : (ws : List String) → All IsWord ws → words (join " " ws) ≡ ws
unfolding words join
words-join [] h = ground arith
words-join (w ∷ []) h = rw (pieces_lem w h.0.1) (drop_empty_keep w [] h.0.0)
words-join (w ∷ v ∷ ws) h =
    ap drop_empty (pieces-append w (join " " (v ∷ ws)) h.0.1)
    ∙ drop_empty_keep w (pieces (join " " (v ∷ ws))) h.0.0
    ∙ ap (λ u. w ∷ u) (words-join (v ∷ ws) h.1)

pub join-IsSolid :
    (sep : String) (ws : List String) → IsSolid sep → All IsSolid ws → IsSolid (join sep ws)
unfolding join
join-IsSolid sep [] h k = tt
join-IsSolid sep (w ∷ []) h k = k.0
join-IsSolid sep (w ∷ v ∷ ws) h k =
    append-IsSolid w (sep <> join sep (v ∷ ws)) k.0
      (append-IsSolid sep (join sep (v ∷ ws)) h (join-IsSolid sep (v ∷ ws) h k.1))

onto_word-IsSolid :
    (c : Char) (ws : List String)
    → is_space (code c) ≡ false
    → All IsSolid ws
    → All IsSolid (onto_word c ws)
onto_word-IsSolid c [] mark h = ((mark, tt), tt)
onto_word-IsSolid c (w ∷ ws) mark h = ((mark, h.0), h.1)

pub pieces-IsSolid : (s : String) → All IsSolid (pieces s)
pieces-IsSolid String.[] = (tt, tt)
pieces-IsSolid (String.◌∷◌ c s) = elim (Bool-cases (is_space (code c))) [
  | inl blank ↦ rw blank (tt, pieces-IsSolid s)
  | inr mark ↦ rw mark (onto_word-IsSolid c (pieces s) mark (pieces-IsSolid s))
]

drop_empty-IsWord : (ws : List String) → All IsSolid ws → All IsWord (drop_empty ws)
drop_empty-IsWord [] h = tt
drop_empty-IsWord (w ∷ ws) h = elim (string_eq.dec w "") [
  | yes p ↦ rw (eq_true w "" p) (drop_empty-IsWord ws h.1)
  | no n ↦ rw (eq_false w "" n) ((n, h.0), drop_empty-IsWord ws h.1)
]

pub words-IsWord : (s : String) → All IsWord (words s)
unfolding words
words-IsWord s = drop_empty-IsWord (pieces s) (pieces-IsSolid s)

zero_lem : (i : ℕ) → i < 0 → ⊥
zero_lem i k = omega (arith, k)

pub All-get_elem? :
    {A : Type 0} (P : A → Type 0) (xs : List A) (i : ℕ) (d : A)
    → All P xs
    → i < length xs
    → P (get_or (get_elem? xs i) d)
All-get_elem? P [] i d h k = absurd (zero_lem i k)
All-get_elem? P (x ∷ xs) zero d h k = h.0
All-get_elem? P (x ∷ xs) (suc i) d h k = All-get_elem? P xs i d h.1 (omega (arith, k))

digit_texts-IsWord : All IsWord digit_texts
unfolding nat_eq
digit_texts-IsWord = (
  (λ e. cc, (refl, tt)),
  (
    (λ e. cc, (refl, tt)),
    (
      (λ e. cc, (refl, tt)),
      (
        (λ e. cc, (refl, tt)),
        (
          (λ e. cc, (refl, tt)),
          (
            (λ e. cc, (refl, tt)),
            (
              (λ e. cc, (refl, tt)),
              ((λ e. cc, (refl, tt)), ((λ e. cc, (refl, tt)), ((λ e. cc, (refl, tt)), tt))),
            ),
          ),
        ),
      ),
    ),
  ),
)

digit-IsWord : (n : ℕ) → n < 10 → IsWord (digit n)
unfolding digit
digit-IsWord n k = All-get_elem? IsWord digit_texts n "" digit_texts-IsWord k

append-IsWord : (s t : String) → IsSolid s → IsWord t → IsWord (s <> t)
append-IsWord s t h k =
    (λ e. k.0 (((append-eq-nil_iff {p = s} {q = t}).0 e).1), append-IsSolid s t h k.1)

digits-IsWord : (fuel n : ℕ) → IsWord (digits (suc fuel) n)
unfolding digits
digits-IsWord zero n = elim (Bool-cases (ltb n 10)) [
  | inl small ↦ rw (small, digits) (digit-IsWord n (ground (arith, small)))
  | inr large ↦
      rw (large, digits)
        (append-IsWord "" (digit (n % 10)) tt (digit-IsWord (n % 10) (omega arith)))
]
digits-IsWord (suc fuel) n = elim (Bool-cases (ltb n 10)) [
  | inl small ↦ rw (small, digits) (digit-IsWord n (ground (arith, small)))
  | inr large ↦
      rw (large, digits)
        (append-IsWord (digits (suc fuel) (n / 10)) (digit (n % 10)) (digits-IsWord fuel (n / 10)).1
          (digit-IsWord (n % 10) (omega arith)))
]

pub decimal-IsWord : (n : ℕ) → IsWord (decimal n)
unfolding decimal
decimal-IsWord n = digits-IsWord n n
