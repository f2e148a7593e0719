-- ===== src/Fstests/Config/Blocks.antt =====
-- The lines of a section, as the reader of the variables and the writer of the block see them.
use kdevops_ng.Prelude.{
  ℕ, ◌≤◌, String, ◌≡◌, ◌≢◌, refl, sym, ap, ◌∙◌, true, false, ◌⊎◌, inl, inr, Option, none, some,
  List, [], ◌∷◌, ◌++◌, ◌==◌, ◌!=◌, string_eq, nat_eq, option_eq, list_eq, contains, arith,
  Option-cases, eq_true, eq_false,
}
use kdevops_ng.Prelude.Lists.{keep, length}
use kdevops_ng.Prelude.Dict.{Dict}
use kdevops_ng.Prelude.Words.{strip, starts_with_char, split_at}
use kdevops_ng.Fstests.Config.{
  header, sections_from, Entry, skipped, heading, setting, setting_of, entry_of, entry, vars_from,
  lines_vars, block_from,
}

-- How many lines open the section.
abbrev pub count_header : String → List String → ℕ
count_header section lines = length (keep (λ line. header (strip line) == some section) lines)

comment_lem : (line : String) → starts_with_char b'#' line ≡ true → header line ≡ none
unfolding header nat_eq
comment_lem String.[] h = refl
comment_lem (String.◌∷◌ c s) h = ground (arith, h)

empty_lem : header "" ≡ none
unfolding header
empty_lem = refl

empty-header : (line : String) → line ≡ "" → header line ≡ none
empty-header line e = ap header e ∙ empty_lem

heading_name : Entry → Option String
heading_name skipped = none
heading_name (heading name) = some name
heading_name (setting key value) = none

no_heading : (kv : Option (String × String)) → heading_name (setting_of kv) ≡ none
unfolding setting_of heading_name
no_heading none = refl
no_heading (some (key, value)) = ground arith

heading_of_lem :
    (line : String) (h : Option String)
    → heading_name (elim h as (λ _. Entry) [
      | some name ↦ heading name
      | none ↦ setting_of (split_at b'=' line)
    ])
      ≡ h
unfolding heading_name
heading_of_lem line none = no_heading (split_at b'=' line)
heading_of_lem line (some name) = refl

-- Both see the same headers.
heading_name-entry : (raw : String) → heading_name (entry raw) ≡ header (strip raw)
unfolding entry_of heading_name
heading_name-entry raw = grind (
  arith,
  empty-header (strip raw),
  comment_lem (strip raw),
  heading_of_lem (strip raw) (header (strip raw)),
)

abbrev Heads : Entry → Option String → Type 0
Heads e h = (name : String) × (e ≡ heading name) × (h ≡ some name)

abbrev Rests : Entry → Option String → Type 0
Rests e h =
    (h ≡ none) × ((e ≡ skipped) ⊎ ((key : String) × (value : String) × (e ≡ setting key value)))

cases_of : (e : Entry) (h : Option String) → heading_name e ≡ h → Heads e h ⊎ Rests e h
unfolding heading_name
cases_of skipped h same = inr (sym same, inl refl)
cases_of (heading name) h same = inl (name, refl, sym same)
cases_of (setting key value) h same = inr (sym same, inr (key, value, refl))

entry-cases :
    (raw : String) → Heads (entry raw) (header (strip raw)) ⊎ Rests (entry raw) (header (strip raw))
entry-cases raw = cases_of (entry raw) (header (strip raw)) (heading_name-entry raw)

module _ (section : String) where
  unset : (current : Option String) → current ≢ some section → (current == some section) ≡ false
  unset current outside = ground arith

  -- Outside the section nothing is set.
  vars_outside :
      (current : Option String) (out : Dict String) (lines : List String)
      → current ≢ some section
      → count_header section lines ≡ 0
      → vars_from true section current out lines ≡ out
  unfolding vars_from
  vars_outside current out [] outside none_left = refl
  vars_outside current out (raw ∷ lines) outside none_left = elim (entry-cases raw) [
    | inl (name, e, h) ↦
        rw (e, vars_from)
          (vars_outside (some name) out lines (grind (arith, h, none_left))
            (grind (arith, h, none_left)))
    | inr (h, inl e) ↦
        rw (e, vars_from) (vars_outside current out lines outside (grind (arith, h, none_left)))
    | inr (h, inr (key, value, e)) ↦
        rw (e, vars_from)
          (rw (unset current outside)
            (vars_outside current out lines outside (grind (arith, h, none_left))))
  ]

  -- From a line of the section on, the block is the lines that set its variables.
  vars_inside :
      (lines : List String) (out : Dict String)
      → count_header section lines ≡ 0
      → vars_from true section (some section) out (block_from true section lines)
        ≡ vars_from true section (some section) out lines
  unfolding vars_from block_from
  vars_inside [] out none_left = refl
  vars_inside (raw ∷ lines) out none_left = elim (entry-cases raw) [
    | inl (name, e, h) ↦
        rw (e, h, vars_from, block_from)
          (sym (
            vars_outside (some name) out lines (grind (arith, h, none_left))
              (grind (arith, h, none_left))))
    | inr (h, inl e) ↦
        rw (e, h, vars_from, block_from)
          (rw (e, vars_from) (vars_inside lines out (grind (arith, h, none_left))))
    | inr (h, inr (key, value, e)) ↦
        rw (e, h, vars_from, block_from)
          (rw (e, vars_from) (vars_inside lines _ (grind (arith, h, none_left))))
  ]

  contains_add :
      (seen : List String) (name : String)
      → (contains seen section ≡ true → contains (seen ++ (name ∷ [])) section ≡ true)
        × (name ≡ section → contains (seen ++ (name ∷ [])) section ≡ true)
  contains_add [] name = (λ h. cc, λ e. ground arith)
  contains_add (x ∷ seen) name =
      (λ h. ground (arith, contains_add seen name), λ e. ground (arith, contains_add seen name))

  contains-sections_from :
      (lines seen : List String)
      → contains seen section ≡ true
      → contains (sections_from seen lines) section ≡ true
  unfolding sections_from
  contains-sections_from [] seen h = h
  contains-sections_from (line ∷ lines) seen h = elim (Option-cases (header (strip line))) [
    | inl e ↦ rw (e, sections_from) (contains-sections_from lines seen h)
    | inr (name, e) ↦
        rw (e, sections_from)
          (contains-sections_from lines _ (grind (arith, h, contains_add seen name)))
  ]

  finds :
      (lines seen : List String)
      → section ≢ ""
      → 1 ≤ count_header section lines
      → contains (sections_from seen lines) section ≡ true
  unfolding sections_from
  finds [] seen named once = ground arith
  finds (line ∷ lines) seen named once = elim (Option-cases (header (strip line))) [
    | inl e ↦ rw (e, sections_from) (finds lines seen named (grind (arith, e, once)))
    | inr (name, e) ↦
        rw (e, sections_from)
          (elim (string_eq.dec name section) [
            | yes p ↦
                contains-sections_from lines _ (grind (arith, p, named, contains_add seen name))
            | no n ↦ finds lines _ named (grind (arith, e, n, once))
          ])
  ]

  nonempty : (names : List String) → contains names section ≡ true → (names != []) ≡ true
  nonempty [] h = cc
  nonempty (name ∷ names) h = ground arith

  -- Before the line that opens the section both leave the variables alone.
  vars_once :
      (lines : List String) (left right : Option String) (out : Dict String)
      → left ≢ some section
      → right ≢ some section
      → count_header section lines ≡ 1
      → vars_from true section left out (block_from false section lines)
        ≡ vars_from true section right out lines
  unfolding vars_from block_from
  vars_once [] left right out l r once = refl
  vars_once (raw ∷ lines) left right out l r once = elim (entry-cases raw) [
    | inl (name, e, h) ↦ elim (string_eq.dec name section) [
      | yes p ↦
          rw (h, block_from)
            (rw (e, vars_from)
              (rw (eq_true name section p)
                (rw (e, vars_from) (rw p (vars_inside lines out (grind (arith, h, p, once)))))))
      | no n ↦
          rw (h, block_from)
            (rw (e, vars_from)
              (rw (eq_false name section n) (
                vars_once lines left (some name) out l (grind (arith, n))
                  (grind (arith, h, n, once)))))
    ]
    | inr (h, inl e) ↦
        rw (e, h, vars_from, block_from)
          (vars_once lines left right out l r (grind (arith, h, once)))
    | inr (h, inr (key, value, e)) ↦
        rw (e, h, vars_from, block_from)
          (rw (unset right r) (vars_once lines left right out l r (grind (arith, h, once))))
  ]

  pub opens_block :
      (lines : List String)
      → 1 ≤ count_header section lines
      → 1 ≤ count_header section (block_from false section lines)
  unfolding block_from
  opens_block [] some_left = omega arith
  opens_block (line ∷ lines) some_left = elim (Option-cases (header (strip line))) [
    | inl e ↦ rw (e, block_from) (opens_block lines (grind (arith, e, some_left)))
    | inr (name, e) ↦ elim (string_eq.dec name section) [
      | yes p ↦ rw (e, block_from) (rw (eq_true name section p) (grind (arith, e, p)))
      | no n ↦
          rw (e, block_from)
            (rw (eq_false name section n) (opens_block lines (grind (arith, e, n, some_left))))
    ]
  ]

  has_sections_lem :
      (lines : List String)
      → section ≢ ""
      → 1 ≤ count_header section lines
      → (sections_from [] lines != []) ≡ true
  has_sections_lem lines named some_left =
      nonempty (sections_from [] lines) (finds lines [] named some_left)

-- A section that exactly one line opens, and whose name is not empty, has the same variables in
-- its block alone as in the whole configuration.
pub lines_vars-block_from :
    (section : String) (lines : List String)
    → section ≢ ""
    → count_header section lines ≡ 1
    → lines_vars (block_from false section lines) section ≡ lines_vars lines section
unfolding lines_vars
lines_vars-block_from section lines named once =
    let opened : 1 ≤ count_header section lines = omega (arith, once) in
    rw (has_sections_lem section lines named opened) (
      rw
        (has_sections_lem section (block_from false section lines) named
          (opens_block section lines opened))
        (vars_once section lines none none [] (λ e. cc) (λ e. cc) once))
