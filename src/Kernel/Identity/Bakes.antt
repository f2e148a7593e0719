-- ===== src/Kernel/Identity/Bakes.antt =====
-- A configuration that is given its identity again.
use Prim.Native.Char.{char, code, Char}
use text.Mathlib.TextLemmas.{nil-append, cons-append, append_assoc}
use kdevops_ng.Prelude.{
  String, ◌<>◌, ◌≡◌, ◌≢◌, refl, sym, ap, ◌∙◌, true, false, some, ◌==◌, string_eq, nat_eq, arith,
  eq_true, eq_false,
}
use kdevops_ng.Prelude.Words.{text_length, strip_ending}
use kdevops_ng.Kernel.Identity.{all_hex, strip_digest, or_whole, prior_of, localversion}
use kdevops_ng.Kernel.Identity.Fits.{length-append}

-- 12 lower-case hex digits.
pub record IsDigest (digest : String) : Type 0 where
  pub hex : all_hex digest ≡ true
  pub twelve : text_length digest ≡ 12

digest_goes :
    (c : Char) (d : String) → IsDigest d → code c ≡ 45 → strip_digest (String.◌∷◌ c d) ≡ ""
unfolding strip_digest
digest_goes c d h dash =
    rw (eq_true (code c) 45 dash) (rw h.hex (rw (eq_true (text_length d) 12 h.twelve) refl))

longer : (x d : String) → IsDigest d → (text_length (x <> ("-" <> d)) == 12) ≡ false
longer x d h =
    eq_false (text_length (x <> ("-" <> d))) 12
      (λ e. omega (arith, e, length-append x ("-" <> d), length-append "-" d, h.twelve))

whole_goes : (e : String) → strip_ending e e ≡ some ""
unfolding strip_ending
whole_goes String.[] = rw (eq_true {A = String} "" "" refl) refl
whole_goes (String.◌∷◌ c e) = rw (eq_true (String.◌∷◌ c e) (String.◌∷◌ c e) refl) refl

too_long : (c : Char) (x e : String) → String.◌∷◌ c (x <> e) ≢ e
too_long c x e same = omega (arith, ap text_length same, length-append x e)

strip_digest_lem : (x d : String) → IsDigest d → strip_digest (x <> ("-" <> d)) ≡ x
unfolding strip_digest
strip_digest_lem String.[] d h =
    ap strip_digest (
      nil-append ("-" <> d)
      ∙ cons-append (char 45 tt) "" d
      ∙ ap (λ u. String.◌∷◌ (char 45 tt) u) (nil-append d))
    ∙ digest_goes (char 45 tt) d h refl
strip_digest_lem (String.◌∷◌ c x) d h =
    ap strip_digest (cons-append c x ("-" <> d))
    ∙ rw (longer x d h) (ground (arith, strip_digest_lem x d h))

strip_ending_lem : (x e : String) → strip_ending e (x <> e) ≡ some x
unfolding strip_ending
strip_ending_lem String.[] e = ap (strip_ending e) (nil-append e) ∙ whole_goes e
strip_ending_lem (String.◌∷◌ c x) e =
    ap (strip_ending e) (cons-append c x e)
    ∙ rw (eq_false (String.◌∷◌ c (x <> e)) e (too_long c x e)) (rw (strip_ending_lem x e) refl)

module _ (label digest text : String) where
  prior_bare : label ≡ "" → prior_of label text ≡ strip_digest text
  unfolding prior_of
  prior_bare e = rw (eq_true label "" e) refl

  prior_given :
      label ≢ ""
      → prior_of label text
        ≡ or_whole (strip_digest text) (strip_ending ("-" <> label) (strip_digest text))
  unfolding prior_of
  prior_given n = rw (eq_false label "" n) refl

  localversion_bare :
      label ≡ "" → localversion label digest text ≡ prior_of label text <> ("-" <> digest)
  unfolding localversion
  localversion_bare e = rw (eq_true label "" e) refl

  localversion_given :
      label ≢ ""
      → localversion label digest text ≡ (prior_of label text <> ("-" <> label)) <> ("-" <> digest)
  unfolding localversion
  localversion_given n = rw (eq_false label "" n) (
      ap (λ u. prior_of label text <> u) (sym (append_assoc "-" label ("-" <> digest)))
      ∙ sym (append_assoc (prior_of label text) ("-" <> label) ("-" <> digest)))

-- The identity is taken off as it was put on.
prior_of-localversion :
    (label digest text : String)
    → IsDigest digest
    → prior_of label (localversion label digest text) ≡ prior_of label text
prior_of-localversion label digest text h = elim (string_eq.dec label "") [
  | yes e ↦
      ap (prior_of label) (localversion_bare label digest text e)
      ∙ prior_bare label digest (prior_of label text <> ("-" <> digest)) e
      ∙ strip_digest_lem (prior_of label text) digest h
  | no n ↦
      ap (prior_of label) (localversion_given label digest text n)
      ∙ prior_given label digest ((prior_of label text <> ("-" <> label)) <> ("-" <> digest)) n
      ∙ ap (λ u. or_whole u (strip_ending ("-" <> label) u))
          (strip_digest_lem (prior_of label text <> ("-" <> label)) digest h)
      ∙ ap (or_whole (prior_of label text <> ("-" <> label)))
          (strip_ending_lem (prior_of label text) ("-" <> label))
]

same_prior :
    (label digest a b : String)
    → prior_of label a ≡ prior_of label b
    → localversion label digest a ≡ localversion label digest b
unfolding localversion
same_prior label digest a b same = rw same refl

-- To give a configuration its identity again, with the same label and another digest, is to give it
-- once: the old label and digest go.
pub localversion-localversion :
    (label old new text : String)
    → IsDigest old
    → localversion label new (localversion label old text) ≡ localversion label new text
localversion-localversion label old new text h =
    same_prior label new (localversion label old text) text (prior_of-localversion label old text h)
