-- ===== src/Prelude/Words/Lines.antt =====
-- Stripping and the lines of a text.
use Prim.Native.Char.{char, code, Char}
use text.Mathlib.TextLemmas.{nil-append, cons-append, append-eq-nil_iff}
use kdevops_ng.Prelude.Equality.{string_eq, nat_eq, eq_true, eq_false, Bool-cases}
use kdevops_ng.Prelude.Lists.{All}
use Prim.Native.String.{String, ◌++◌ as ◌<>◌}
use mathlib.Core.Path.{◌≡◌, refl, sym, ap, ◌∙◌}
use mathlib.Core.Logic.{◌≢◌, ◌⊎◌, inl, inr}
use mathlib.Core.Bool.{true, false}
use mathlib.Core.List.{List, [], ◌∷◌}
use native.Mathlib.Omega.{arith}
use kdevops_ng.Prelude.Words.{is_space, lstrip, rstrip, strip, is_break, split_lines, onto_word}

abbrev pub IsLine : String → Type 0
IsLine String.[] = Unit
IsLine (String.◌∷◌ c s) = (is_break (code c) ≡ false) × IsLine s

-- A character goes where it is a space and nothing that stays follows it.
Goes : Char → String → Type 0
Goes c s = (is_space (code c) ≡ true) × (rstrip s ≡ "") × (rstrip (String.◌∷◌ c s) ≡ "")

Stays : Char → String → Type 0
Stays c s =
    ((is_space (code c) ≡ false) ⊎ (rstrip s ≢ ""))
    × (rstrip (String.◌∷◌ c s) ≡ String.◌∷◌ c (rstrip s))

rstrip-cases : (c : Char) (s : String) → Goes c s ⊎ Stays c s
unfolding rstrip Goes Stays
rstrip-cases c s = elim (Bool-cases (is_space (code c))) [
  | inl blank ↦ elim (string_eq.dec (rstrip s) "") [
    | yes p ↦ inl (blank, p, rw blank (rw (eq_true (rstrip s) "" p) refl))
    | no n ↦ inr (inr n, rw blank (rw (eq_false (rstrip s) "" n) refl))
  ]
  | inr mark ↦ inr (inl mark, rw mark refl)
]

rstrip_empty : rstrip "" ≡ ""
unfolding rstrip
rstrip_empty = refl

rstrip_cons :
    (c : Char) (s t : String)
    → rstrip s ≡ rstrip t
    → rstrip (String.◌∷◌ c s) ≡ rstrip (String.◌∷◌ c t)
unfolding rstrip
rstrip_cons c s t same = rw same refl

pub rstrip-append_gone : (s t : String) → rstrip t ≡ "" → rstrip (s <> t) ≡ rstrip s
rstrip-append_gone String.[] t gone = ap rstrip (nil-append t) ∙ gone ∙ sym rstrip_empty
rstrip-append_gone (String.◌∷◌ c s) t gone =
    ap rstrip (cons-append c s t) ∙ rstrip_cons c (s <> t) s (rstrip-append_gone s t gone)

pub rstrip-append_kept : (s t : String) → rstrip t ≢ "" → rstrip (s <> t) ≡ s <> rstrip t
unfolding Goes Stays
rstrip-append_kept String.[] t kept = ap rstrip (nil-append t) ∙ sym (nil-append (rstrip t))
rstrip-append_kept (String.◌∷◌ c s) t kept = elim (rstrip-cases c (s <> t)) [
  | inl (blank, gone, e) ↦ absurd (
      kept (
        ((append-eq-nil_iff {p = s} {q = rstrip t}).0
          (sym (rstrip-append_kept s t kept) ∙ gone)).1))
  | inr (why, e) ↦
      ap rstrip (cons-append c s t)
      ∙ e
      ∙ ap (λ r. String.◌∷◌ c r) (rstrip-append_kept s t kept)
      ∙ sym (cons-append c s (rstrip t))
]

rstrip_idem : (s : String) → rstrip (rstrip s) ≡ rstrip s
unfolding Goes Stays
rstrip_idem String.[] = ap rstrip rstrip_empty
rstrip_idem (String.◌∷◌ c s) = elim (rstrip-cases c s) [
  | inl (blank, gone, e) ↦ rw e rstrip_empty
  | inr (why, e) ↦ rw e (elim (rstrip-cases c (rstrip s)) [
    | inl (blank, gone, f) ↦ grind (arith, rstrip_idem s, why, blank, gone)
    | inr (why, f) ↦ rw f (ap (λ t. String.◌∷◌ c t) (rstrip_idem s))
  ])
]

lstrip-rstrip : (s : String) → lstrip (rstrip s) ≡ rstrip (lstrip s)
unfolding lstrip Goes Stays
lstrip-rstrip String.[] = ap lstrip rstrip_empty ∙ sym rstrip_empty
lstrip-rstrip (String.◌∷◌ c s) = elim (rstrip-cases c s) [
  | inl (blank, gone, e) ↦ rw e (rw blank (ap lstrip (sym gone) ∙ lstrip-rstrip s))
  | inr (why, e) ↦ rw e (elim (Bool-cases (is_space (code c))) [
    | inl blank ↦ rw blank (lstrip-rstrip s)
    | inr mark ↦ rw mark (sym e)
  ])
]

pub strip-rstrip : (s : String) → strip (rstrip s) ≡ strip s
unfolding strip
strip-rstrip s = ap rstrip (lstrip-rstrip s) ∙ rstrip_idem (lstrip s)

pub rstrip-IsLine : (s : String) → IsLine s → IsLine (rstrip s)
unfolding Goes Stays
rstrip-IsLine String.[] h = rw rstrip_empty tt
rstrip-IsLine (String.◌∷◌ c s) h = elim (rstrip-cases c s) [
  | inl (blank, gone, e) ↦ rw e tt
  | inr (why, e) ↦ rw e (h.0, rstrip-IsLine s h.1)
]

split_lines-newline : (t : String) → split_lines ("\n" <> t) ≡ "" ∷ split_lines t
unfolding split_lines is_break nat_eq
split_lines-newline t =
    ap split_lines
      (cons-append (char 10 tt) "" t ∙ ap (λ r. String.◌∷◌ (char 10 tt) r) (nil-append t))
    ∙ refl

-- A line that is ended by a newline is the first of the lines.
pub split_lines-append :
    (s t : String) → IsLine s → split_lines (s <> ("\n" <> t)) ≡ s ∷ split_lines t
unfolding split_lines
split_lines-append String.[] t h = ap split_lines (nil-append ("\n" <> t)) ∙ split_lines-newline t
split_lines-append (String.◌∷◌ c s) t h =
    rw (cons-append c s ("\n" <> t))
      (rw (h.0, split_lines) (ap (onto_word c) (split_lines-append s t h.1)))

onto_word-IsLine :
    (c : Char) (ws : List String)
    → is_break (code c) ≡ false
    → All IsLine ws
    → All IsLine (onto_word c ws)
onto_word-IsLine c [] mark h = ((mark, tt), tt)
onto_word-IsLine c (w ∷ ws) mark h = ((mark, h.0), h.1)

pub split_lines-IsLine : (s : String) → All IsLine (split_lines s)
unfolding split_lines
split_lines-IsLine String.[] = tt
split_lines-IsLine (String.◌∷◌ c s) = elim (Bool-cases (is_break (code c))) [
  | inl ends ↦ rw ends (ground (arith, split_lines-IsLine s))
  | inr mark ↦ rw mark (onto_word-IsLine c (split_lines s) mark (split_lines-IsLine s))
]

pub split_lines-last : (s : String) → IsLine s → split_lines (s <> "\n") ≡ s ∷ []
unfolding split_lines
split_lines-last s h = split_lines-append s "" h

pub rstrip-line_gone : (s t : String) → rstrip t ≡ "" → rstrip (s <> ("\n" <> t)) ≡ rstrip s
unfolding rstrip string_eq
rstrip-line_gone s t gone = rstrip-append_gone s ("\n" <> t) (rstrip-append_gone "\n" t gone)

pub rstrip-line_kept :
    (s t : String) → rstrip t ≢ "" → rstrip (s <> ("\n" <> t)) ≡ s <> ("\n" <> rstrip t)
rstrip-line_kept s t kept =
    rstrip-append_kept s ("\n" <> t)
      (λ e. kept (((append-eq-nil_iff {p = "\n"} {q = rstrip t}).0 (sym newline ∙ e)).1))
    ∙ ap (λ u. s <> u) newline
  where
    newline : rstrip ("\n" <> t) ≡ "\n" <> rstrip t
    newline = rstrip-append_kept "\n" t kept
