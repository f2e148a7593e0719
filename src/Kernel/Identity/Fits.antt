-- ===== src/Kernel/Identity/Fits.antt =====
-- How long a fitted label is, and which labels stay as they are.
use Prim.Native.Char.{code}
use text.Mathlib.TextLemmas.{nil-append, cons-append}
use mathlib.Core.Path.{subst}
use mathlib.Core.Option.{some-injective}
use Prim.Native.Char.{Char}
use kdevops_ng.Prelude.{
  ℕ, zero, suc, ◌+◌, ◌-◌, ◌≤◌, String, ◌<>◌, ◌≡◌, ◌≢◌, refl, ap, ◌∙◌, Bool, true, false, ◌&&◌, inl,
  inr, none, some, ◌==◌, string_eq, nat_eq, leb, arith, Option-cases, Bool-cases, eq_true, eq_false,
  if◌then◌else◌,
}
use kdevops_ng.Prelude.Words.{text_length, text_take}
use kdevops_ng.Kernel.Identity.{
  is_joint, rstrip_joints, before_last_dash, fit_head, digits_at_end, version_here,
  split_trailing_version, lstrip_dashes, refit, fit_label,
}

pub length-append : (s t : String) → text_length (s <> t) ≡ text_length s + text_length t
length-append String.[] t = ap text_length (nil-append t) ∙ omega arith
length-append (String.◌∷◌ c s) t =
    ap text_length (cons-append c s t) ∙ omega (arith, length-append s t)

length-take : (n : ℕ) (s : String) → text_length (text_take n s) ≤ n
length-take zero s = omega arith
length-take (suc n) String.[] = omega arith
length-take (suc n) (String.◌∷◌ c s) = omega (arith, length-take n s)

length-rstrip_joints : (s : String) → text_length (rstrip_joints s) ≤ text_length s
unfolding rstrip_joints
length-rstrip_joints String.[] = omega arith
length-rstrip_joints (String.◌∷◌ c s) =
    elim (Bool-cases (is_joint (code c) && rstrip_joints s == "")) [
      | inl goes ↦ rw goes (omega arith)
      | inr stays ↦ rw stays (omega (arith, length-rstrip_joints s))
    ]

dash_case :
    (dash : Bool) (before : String) (n : ℕ)
    → (if dash then some "" else none) ≡ some before
    → text_length before ≤ n
dash_case true before n h =
    subst (λ s. text_length s ≤ n) (some-injective "" before h) (omega arith)
dash_case false before n h = cc

length-before_last_dash :
    (s before : String) → before_last_dash s ≡ some before → text_length before ≤ text_length s
unfolding before_last_dash
length-before_last_dash String.[] before h = cc
length-before_last_dash (String.◌∷◌ c s) before h = elim (Option-cases (before_last_dash s)) [
  | inl e ↦ dash_case (code c == b'-') before (suc (text_length s)) (rw (e, before_last_dash) at h)
  | inr (rest, e) ↦ ground (arith, rw (e, before_last_dash) at h, length-before_last_dash s rest e)
]

-- The head fits the budget.
pub length-fit_head : (text : String) (budget : ℕ) → text_length (fit_head text budget) ≤ budget
unfolding fit_head
length-fit_head text zero = omega arith
length-fit_head text (suc budget) = elim (Bool-cases (leb (text_length text) (suc budget))) [
  | inl fits ↦ rw fits (ground (arith, fits))
  | inr long ↦ rw long (elim (Option-cases (before_last_dash (text_take (suc budget) text))) [
    | inl e ↦ rw e (
        omega (
          arith,
          length-rstrip_joints (text_take (suc budget) text),
          length-take (suc budget) text,
        ))
    | inr (before, e) ↦ rw e (
        omega (
          arith,
          length-rstrip_joints before,
          length-before_last_dash (text_take (suc budget) text) before e,
          length-take (suc budget) text,
        ))
  ])
]

one_dash :
    (c d : Char) (ds : String)
    → (code c == b'-' && code d == b'v') ≡ true
    → text_length (lstrip_dashes (String.◌∷◌ c (String.◌∷◌ d ds))) + 1
      ≤ text_length (String.◌∷◌ c (String.◌∷◌ d ds))
one_dash c d ds on = ground (arith, on)

some_length : (s : String) → s ≢ "" → 1 ≤ text_length s
some_length String.[] n = absurd (n refl)
some_length (String.◌∷◌ c s) n = omega arith

-- A version loses its dash, if it must stand alone.
dash_of_version :
    (s suffix : String)
    → version_here s ≡ some suffix
    → text_length (lstrip_dashes suffix) + 1 ≤ text_length suffix
unfolding version_here
dash_of_version String.[] suffix h = cc
dash_of_version (String.◌∷◌ c String.[]) suffix h = cc
dash_of_version (String.◌∷◌ c (String.◌∷◌ d s)) suffix h =
    elim (Bool-cases (code c == b'-' && code d == b'v')) [
      | inr off ↦ cc (rw off at h)
      | inl on ↦ elim (Option-cases (digits_at_end s)) [
        | inl e ↦ cc (rw (e, on) at h)
        | inr (ds, e) ↦ elim (string_eq.dec ds "") [
          | yes p ↦ cc (rw (eq_true ds "" p) at (rw (e, on) at h))
          | no n ↦
              subst (λ u. text_length (lstrip_dashes u) + 1 ≤ text_length u)
                (some-injective (String.◌∷◌ c (String.◌∷◌ d ds)) suffix
                  (rw (eq_false ds "" n) at (rw (e, on) at h)))
                (one_dash c d ds on)
        ]
      ]
    ]

dash_of_split :
    (s : String)
    → (split_trailing_version s).1 ≢ ""
    → text_length (lstrip_dashes (split_trailing_version s).1) + 1
      ≤ text_length (split_trailing_version s).1
unfolding split_trailing_version
dash_of_split String.[] h = absurd (h refl)
dash_of_split (String.◌∷◌ c s) h = elim (Option-cases (version_here (String.◌∷◌ c s))) [
  | inl e ↦ rw (e, split_trailing_version) (dash_of_split s (rw (e, split_trailing_version) at h))
  | inr (suffix, e) ↦ rw (e, split_trailing_version) (dash_of_version (String.◌∷◌ c s) suffix e)
]

length-refit :
    (head suffix : String) (budget : ℕ)
    → text_length (lstrip_dashes suffix) + 1 ≤ text_length suffix
    → text_length suffix ≤ budget + 1
    → text_length (refit (head, suffix) budget) ≤ budget
unfolding refit
length-refit head suffix budget dash h =
    let fitted = fit_head head (budget - text_length suffix) in
    elim (string_eq.dec fitted "") [
      | yes gone ↦ rw (eq_true fitted "" gone) (omega (arith, dash, h))
      | no left ↦ rw (eq_false fitted "" left) (
          omega (
            arith,
            length-append fitted suffix,
            some_length fitted left,
            length-fit_head head (budget - text_length suffix),
          ))
    ]

-- A fitted label is within its budget, where the version is not longer than the budget and one dash.
pub length-fit_label :
    (label : String) (budget : ℕ)
    → text_length (split_trailing_version label).1 ≤ budget + 1
    → text_length (fit_label label budget) ≤ budget
unfolding fit_label
length-fit_label label zero h = omega arith
length-fit_label label (suc budget) h = elim (string_eq.dec (split_trailing_version label).1 "") [
  | yes none_there ↦
      rw (eq_true (split_trailing_version label).1 "" none_there)
        (length-fit_head label (suc budget))
  | no there ↦ rw (eq_false (split_trailing_version label).1 "" there) (
      length-refit (split_trailing_version label).0 (split_trailing_version label).1 (suc budget)
        (dash_of_split label there) h)
]
