-- ===== src/Kernel/Identity/Keeps.antt =====
-- Labels that fit stay as they are.
use Prim.Native.Char.{code, Char}
use text.Mathlib.TextLemmas.{nil-append, cons-append}
use mathlib.Core.Option.{some-injective}
use kdevops_ng.Prelude.{
  ℕ, zero, suc, ◌-◌, ◌≤◌, String, ◌<>◌, ◌≡◌, ◌≢◌, refl, sym, ap, ◌∙◌, true, false, ◌&&◌, inl, inr,
  some, ◌==◌, string_eq, nat_eq, leb, arith, Option-cases, Bool-cases, eq_true, eq_false,
}
use kdevops_ng.Prelude.Words.{text_length, is_break}
use kdevops_ng.Prelude.Words.Lines.{IsLine}
use kdevops_ng.Kernel.Identity.{
  is_digit, fit_head, digits_at_end, version_here, split_trailing_version, refit, fit_label,
}
use kdevops_ng.Kernel.Identity.Fits.{length-append}

no_newline : (c : Char) (s : String) → is_break (code c) ≡ false → (code c == 10 && s == "") ≡ false
unfolding is_break
no_newline c s line = elim (Bool-cases (code c == 10)) [
  | inl on ↦ ground (arith, line, on)
  | inr off ↦ rw off refl
]

digits_at_end_whole : (s ds : String) → IsLine s → digits_at_end s ≡ some ds → s ≡ ds
unfolding digits_at_end
digits_at_end_whole String.[] ds line h = some-injective "" ds h
digits_at_end_whole (String.◌∷◌ c s) ds line h = elim (Bool-cases (is_digit (code c))) [
  | inl on ↦ elim (Option-cases (digits_at_end s)) [
    | inl e ↦ cc (rw (e, on) at h)
    | inr (rest, e) ↦
        ap (λ u. String.◌∷◌ c u) (digits_at_end_whole s rest line.1 e)
        ∙ some-injective (String.◌∷◌ c rest) ds (rw (e, on) at h)
  ]
  | inr off ↦ cc (rw (no_newline c s line.0) at (rw off at h))
]

version_here_whole : (s suffix : String) → IsLine s → version_here s ≡ some suffix → s ≡ suffix
unfolding version_here
version_here_whole String.[] suffix line h = cc
version_here_whole (String.◌∷◌ c String.[]) suffix line h = cc
version_here_whole (String.◌∷◌ c (String.◌∷◌ d s)) suffix line h =
    elim (Bool-cases (code c == b'-' && code d == b'v')) [
      | inr off ↦ cc (rw off at h)
      | inl on ↦ elim (Option-cases (digits_at_end s)) [
        | inl e ↦ cc (rw (e, on) at h)
        | inr (ds, e) ↦ elim (string_eq.dec ds "") [
          | yes p ↦ cc (rw (eq_true ds "" p) at (rw (e, on) at h))
          | no n ↦
              ap (λ u. String.◌∷◌ c (String.◌∷◌ d u)) (digits_at_end_whole s ds line.1.1 e)
              ∙ some-injective (String.◌∷◌ c (String.◌∷◌ d ds)) suffix
                  (rw (eq_false ds "" n) at (rw (e, on) at h))
        ]
      ]
    ]

-- The two parts make the label.
split_trailing_version_whole :
    (s : String) → IsLine s → (split_trailing_version s).0 <> (split_trailing_version s).1 ≡ s
unfolding split_trailing_version
split_trailing_version_whole String.[] line = nil-append ""
split_trailing_version_whole (String.◌∷◌ c s) line =
    elim (Option-cases (version_here (String.◌∷◌ c s))) [
      | inl e ↦
          rw (e, split_trailing_version)
            (cons-append c _ _ ∙ ap (λ u. String.◌∷◌ c u) (split_trailing_version_whole s line.1))
      | inr (suffix, e) ↦
          rw (e, split_trailing_version)
            (nil-append suffix ∙ sym (version_here_whole (String.◌∷◌ c s) suffix line e))
    ]

within : (m n : ℕ) → m ≤ n → leb m n ≡ true
within m n h = ground (arith, h)

no_text : (s : String) → text_length s ≤ 0 → "" ≡ s
no_text String.[] h = refl
no_text (String.◌∷◌ c s) h = absurd (impossible (text_length s) h)
  where
    impossible : (n : ℕ) → suc n ≤ 0 → ⊥
    impossible n h = omega (arith, h)

fit_head_whole :
    (text : String) (budget : ℕ) → text_length text ≤ budget → fit_head text budget ≡ text
unfolding fit_head
fit_head_whole text zero h = no_text text h
fit_head_whole text (suc budget) h = rw (within (text_length text) (suc budget) h) refl

refit_whole :
    (head suffix label : String) (budget : ℕ)
    → head <> suffix ≡ label
    → head ≢ ""
    → text_length label ≤ budget
    → refit (head, suffix) budget ≡ label
unfolding refit
refit_whole head suffix label budget whole filled fits =
    rw
      (fit_head_whole head (budget - text_length suffix)
        (omega (arith, length-append head suffix, ap text_length whole, fits)))
      (rw (eq_false head "" filled) whole)

-- A label in one line that is within the budget stays as it is, unless it is a version alone.
pub fit_label-whole :
    (label : String) (budget : ℕ)
    → IsLine label
    → (split_trailing_version label).0 ≢ ""
    → text_length label ≤ budget
    → fit_label label budget ≡ label
unfolding fit_label
fit_label-whole label zero line head fits = no_text label fits
fit_label-whole label (suc budget) line head fits =
    elim (string_eq.dec (split_trailing_version label).1 "") [
      | yes none_there ↦
          rw (eq_true (split_trailing_version label).1 "" none_there)
            (fit_head_whole label (suc budget) fits)
      | no there ↦ rw (eq_false (split_trailing_version label).1 "" there) (
          refit_whole (split_trailing_version label).0 (split_trailing_version label).1 label
            (suc budget) (split_trailing_version_whole label line) head fits)
    ]
