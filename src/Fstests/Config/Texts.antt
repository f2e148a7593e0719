-- ===== src/Fstests/Config/Texts.antt =====
-- The text that is written for a section, read again.
use text.Mathlib.TextLemmas.{append_assoc}
use mathlib.Core.Path.{subst}
use kdevops_ng.Prelude.{
  String, ◌<>◌, ◌≡◌, ◌≢◌, refl, sym, ap, ◌∙◌, Bool, true, false, ◌⊎◌, inl, inr, Option, none, some,
  List, [], ◌∷◌, ◌==◌, string_eq, list_eq, arith, Option-cases, eq_false, Bool-cases,
}
use kdevops_ng.Prelude.Lists.{All}
use kdevops_ng.Prelude.Dict.{Dict}
use kdevops_ng.Prelude.Words.{strip, lstrip, rstrip, split_lines, join}
use kdevops_ng.Prelude.Words.Lines.{
  IsLine, split_lines-last, rstrip-line_gone, rstrip-line_kept, strip-rstrip, rstrip-IsLine,
  split_lines-append, split_lines-IsLine,
}
use kdevops_ng.Fstests.Config.{
  header, sections_from, Entry, heading, setting, skipped, entry_of, entry, vars_from, lines_vars,
  section_vars, section_block, block_from,
}
use kdevops_ng.Fstests.Config.Blocks.{count_header, opens_block, lines_vars-block_from}

-- Both readers make the same of two lists of lines.
record ReadAlike (xs ys : List String) : Type 0 where
  pub sections : (seen : List String) → sections_from seen xs ≡ sections_from seen ys
  pub vars :
      (has : Bool) (section : String) (current : Option String) (out : Dict String)
      → vars_from has section current out xs ≡ vars_from has section current out ys

ReadAlike-refl : (xs : List String) → ReadAlike xs xs
ReadAlike-refl xs = record { sections = λ seen. refl; vars = λ has section current out. refl }

ReadAlike-trans : {xs ys zs : List String} → ReadAlike xs ys → ReadAlike ys zs → ReadAlike xs zs
ReadAlike-trans a b = record {
  sections = λ seen. a.sections seen ∙ b.sections seen;
  vars = λ has section current out. a.vars has section current out ∙ b.vars has section current out;
}

ReadAlike-sym : {xs ys : List String} → ReadAlike xs ys → ReadAlike ys xs
ReadAlike-sym a = record {
  sections = λ seen. sym (a.sections seen);
  vars = λ has section current out. sym (a.vars has section current out);
}

sections_rest :
    (line : String) {xs ys : List String}
    → ReadAlike xs ys
    → (seen : List String) → sections_from seen (line ∷ xs) ≡ sections_from seen (line ∷ ys)
unfolding sections_from
sections_rest line alike seen = elim (Option-cases (header (strip line))) [
  | inl e ↦ rw (e, sections_from) (alike.sections seen)
  | inr (name, e) ↦ rw (e, sections_from) (alike.sections _)
]

Entry-cases :
    (e : Entry)
    → (e ≡ skipped)
      ⊎ (((name : String) × (e ≡ heading name))
          ⊎ ((key : String) × (value : String) × (e ≡ setting key value)))
Entry-cases skipped = inl refl
Entry-cases (heading name) = inr (inl (name, refl))
Entry-cases (setting key value) = inr (inr (key, value, refl))

vars_rest :
    (line : String) {xs ys : List String}
    → ReadAlike xs ys
    → (has : Bool) (section : String) (current : Option String) (out : Dict String)
    → vars_from has section current out (line ∷ xs) ≡ vars_from has section current out (line ∷ ys)
unfolding vars_from
vars_rest line alike has section current out = elim (Entry-cases (entry line)) [
  | inl e ↦ rw (e, vars_from) (alike.vars has section current out)
  | inr (inl (name, e)) ↦ rw (e, vars_from) (alike.vars has section (some name) out)
  | inr (inr (key, value, e)) ↦ rw (e, vars_from) (alike.vars has section current _)
]

sections_same :
    (x y : String) (ys : List String)
    → strip x ≡ strip y
    → (seen : List String) → sections_from seen (x ∷ ys) ≡ sections_from seen (y ∷ ys)
unfolding sections_from
sections_same x y ys same seen = rw (same, sections_from) refl

vars_same :
    (x y : String) (ys : List String)
    → strip x ≡ strip y
    → (has : Bool) (section : String) (current : Option String) (out : Dict String)
    → vars_from has section current out (x ∷ ys) ≡ vars_from has section current out (y ∷ ys)
unfolding vars_from
vars_same x y ys same has section current out = rw (same, vars_from) refl

ReadAlike-cons :
    (x y : String) {xs ys : List String}
    → strip x ≡ strip y
    → ReadAlike xs ys
    → ReadAlike (x ∷ xs) (y ∷ ys)
unfolding sections_from vars_from
ReadAlike-cons x y {ys = ys} same alike = record {
  sections = λ seen. sections_rest x alike seen ∙ sections_same x y ys same seen;
  vars = λ has section current out.
      vars_rest x alike has section current out ∙ vars_same x y ys same has section current out;
}

ReadAlike-blank : (ys : List String) → ReadAlike ("" ∷ ys) ys
unfolding sections_from vars_from entry_of header strip lstrip rstrip string_eq
ReadAlike-blank ys = record { sections = λ seen. refl; vars = λ has section current out. refl }

-- What the block becomes as a text.
written : List String → String
written out = rstrip (join "\n" out) <> "\n"

of_lines : {xs ys : List String} → xs ≡ ys → ReadAlike xs ys
of_lines {xs = xs} same = subst (λ zs. ReadAlike xs zs) same (ReadAlike-refl xs)

-- What a text that ends after a line leaves unread is blank.
written_gone :
    (x : String) (out : List String)
    → IsLine x
    → rstrip (join "\n" out) ≡ ""
    → ReadAlike (split_lines (written out)) out
    → ReadAlike (split_lines (rstrip x <> "\n")) (x ∷ out)
unfolding written
written_gone x out line gone alike =
    ReadAlike-trans (of_lines (split_lines-last (rstrip x) (rstrip-IsLine x line))) (
      ReadAlike-cons (rstrip x) x (strip-rstrip x) (
        ReadAlike-trans (ReadAlike-sym (ReadAlike-blank []))
          (ReadAlike-trans (of_lines (sym blank)) alike)))
  where
    blank : split_lines (rstrip (join "\n" out) <> "\n") ≡ "" ∷ []
    blank = rw gone (split_lines-last "" tt)

written-ReadAlike :
    (out : List String) → out ≢ [] → All IsLine out → ReadAlike (split_lines (written out)) out
unfolding written join
written-ReadAlike [] filled h = absurd (filled refl)
written-ReadAlike (x ∷ []) filled h =
    ReadAlike-trans (of_lines (split_lines-last (rstrip x) (rstrip-IsLine x h.0)))
      (ReadAlike-cons (rstrip x) x (strip-rstrip x) (ReadAlike-refl []))
written-ReadAlike (x ∷ y ∷ out) filled h = elim (string_eq.dec (rstrip (join "\n" (y ∷ out))) "") [
  | yes gone ↦
      rw (rstrip-line_gone x (join "\n" (y ∷ out)) gone)
        (written_gone x (y ∷ out) h.0 gone (written-ReadAlike (y ∷ out) (λ e. cc) h.1))
  | no kept ↦ rw (rstrip-line_kept x (join "\n" (y ∷ out)) kept) (
      ReadAlike-trans
        (of_lines (
          ap split_lines (
            append_assoc x ("\n" <> rstrip (join "\n" (y ∷ out))) "\n"
            ∙ ap (λ u. x <> u) (append_assoc "\n" (rstrip (join "\n" (y ∷ out))) "\n"))
          ∙ split_lines-append x _ h.0))
        (ReadAlike-cons x x refl (written-ReadAlike (y ∷ out) (λ e. cc) h.1)))
]

block_step-IsLine :
    (section line : String) (lines : List String)
    → IsLine line
    → ((on : Bool) → All IsLine (block_from on section lines))
    → (grabbing : Bool) → All IsLine (block_from grabbing section (line ∷ lines))
unfolding block_from
block_step-IsLine section line lines h rest true = elim (Option-cases (header (strip line))) [
  | inl e ↦ rw (e, block_from) (h, rest true)
  | inr (name, e) ↦ rw (e, block_from) tt
]
block_step-IsLine section line lines h rest false = elim (Option-cases (header (strip line))) [
  | inl e ↦ rw (e, block_from) (rest false)
  | inr (name, e) ↦
      rw (e, block_from)
        (elim (Bool-cases (name == section)) [
          | inl same ↦ rw same (h, rest true)
          | inr differ ↦ rw differ (rest false)
        ])
]

block_from-IsLine :
    (section : String) (lines : List String)
    → All IsLine lines
    → (grabbing : Bool) → All IsLine (block_from grabbing section lines)
unfolding block_from
block_from-IsLine section [] h grabbing = tt
block_from-IsLine section (line ∷ lines) h grabbing =
    block_step-IsLine section line lines h.0 (block_from-IsLine section lines h.1) grabbing

lines_vars-ReadAlike :
    {xs ys : List String} (section : String)
    → ReadAlike xs ys
    → lines_vars xs section ≡ lines_vars ys section
unfolding lines_vars
lines_vars-ReadAlike section alike = rw (alike.sections []) (alike.vars _ section none [])

-- A section that exactly one line opens, and whose name is not empty, has the same variables in
-- the text of its block alone as in the whole configuration.
pub section_vars-section_block :
    (text section : String)
    → section ≢ ""
    → count_header section (split_lines text) ≡ 1
    → section_vars (section_block text section) section ≡ section_vars text section
unfolding section_vars section_block written
section_vars-section_block text section named once = rw (eq_false block [] filled) (
    lines_vars-ReadAlike section (
      written-ReadAlike block filled
        (block_from-IsLine section (split_lines text) (split_lines-IsLine text) false))
    ∙ lines_vars-block_from section (split_lines text) named once)
  where
    block : List String
    block = block_from false section (split_lines text)

    filled : block ≢ []
    filled e = grind (arith, opens_block section (split_lines text), once, e)
