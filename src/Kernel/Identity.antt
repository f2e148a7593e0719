-- ===== src/Kernel/Identity.antt =====
-- f/kernel/identity.py (f/qemu/identity.py fits labels in the same way): the label and the digest that
-- a kernel's release ends with.
pub mod Bakes
pub mod Fits
pub mod Keeps
mod Tests
use Prim.Native.Char.{code}
use kdevops_ng.Prelude.{
  ℕ, zero, suc, ◌+◌, ◌-◌, String, ◌<>◌, Bool, true, false, ◌&&◌, ◌||◌, not, Option, none, some,
  List, [], ◌∷◌, ◌==◌, ◌!=◌, string_eq, nat_eq, leb, starts_with, if◌then◌else◌,
}
use kdevops_ng.Prelude.Words.{text_length, text_take, strip_ending, starts_with_char}

-- The characters that a label does not end with: `-`, `.` and `_`.
abbrev pub is_joint : ℕ → Bool
is_joint c = c == b'-' || c == b'.' || c == b'_'

unfoldable pub rstrip_joints : String → String
rstrip_joints String.[] = String.[]
rstrip_joints (String.◌∷◌ c s) =
    let rest = rstrip_joints s in
    if is_joint (code c) && rest == "" then String.[] else String.◌∷◌ c rest

-- `cut[: cut.rindex("-")]`, None where there is no dash.
unfoldable pub before_last_dash : String → Option String
before_last_dash String.[] = none
before_last_dash (String.◌∷◌ c s) = elim (before_last_dash s) [
  | some before ↦ some (String.◌∷◌ c before)
  | none ↦ if code c == b'-' then some "" else none
]

-- A budget below zero is 0 here: both drop the label.
unfoldable pub fit_head : String → ℕ → String
fit_head text zero = ""
fit_head text (suc budget) =
    let cut = text_take (suc budget) text in
    if leb (text_length text) (suc budget) then text else elim (before_last_dash cut) [
      | none ↦ rstrip_joints cut
      | some before ↦ rstrip_joints before
    ]

abbrev is_digit : ℕ → Bool
is_digit c = leb b'0' c && leb c b'9'

-- Digits up to the end, or up to a newline that ends the text: `\d*$`.
unfoldable pub digits_at_end : String → Option String
digits_at_end String.[] = some ""
digits_at_end (String.◌∷◌ c s) =
    if is_digit (code c)
    then elim (digits_at_end s) [ none ↦ none | some ds ↦ some (String.◌∷◌ c ds) ]
    else if code c == 10 && s == ""
    then some ""
    else none

-- `-v\d+$` at the start of the text.
unfoldable pub version_here : String → Option String
version_here String.[] = none
version_here (String.◌∷◌ c String.[]) = none
version_here (String.◌∷◌ c (String.◌∷◌ d s)) =
    if code c == b'-' && code d == b'v'
    then elim (digits_at_end s) [
      | none ↦ none
      | some ds ↦ if ds == "" then none else some (String.◌∷◌ c (String.◌∷◌ d ds))
    ]
    else none

-- The first place from which a version goes to the end.
unfoldable pub split_trailing_version : String → String × String
split_trailing_version String.[] = ("", "")
split_trailing_version (String.◌∷◌ c s) =
    let rest = split_trailing_version s in
    elim (version_here (String.◌∷◌ c s)) [
      | some suffix ↦ ("", suffix)
      | none ↦ (String.◌∷◌ c rest.0, rest.1)
    ]

abbrev lstrip_dashes : String → String
lstrip_dashes String.[] = String.[]
lstrip_dashes (String.◌∷◌ c s) =
    let rest = lstrip_dashes s in if code c == b'-' then rest else String.◌∷◌ c s

-- The head in what the version leaves of the budget, and the version, which stays.
unfoldable pub refit : String × String → ℕ → String
refit (head, suffix) budget =
    let fitted = fit_head head (budget - text_length suffix) in
    if fitted == "" then lstrip_dashes suffix else fitted <> suffix

unfoldable pub fit_label : String → ℕ → String
fit_label label zero = ""
fit_label label (suc budget) =
    let parts = split_trailing_version label in
    if parts.1 == "" then fit_head label (suc budget) else refit parts (suc budget)

abbrev pub is_hex : ℕ → Bool
is_hex c = is_digit c || (leb b'a' c && leb c b'f')

abbrev pub all_hex : String → Bool
all_hex String.[] = true
all_hex (String.◌∷◌ c s) = is_hex (code c) && all_hex s

-- `re.sub(r"-[0-9a-f]{12}$", "", text)` on a text without newlines.
unfoldable pub strip_digest : String → String
strip_digest String.[] = String.[]
strip_digest (String.◌∷◌ c s) =
    let rest = strip_digest s in
    if code c == b'-' && all_hex s && text_length s == 12 then String.[] else String.◌∷◌ c rest

abbrev pub or_whole : String → Option String → String
or_whole s none = s
or_whole s (some before) = before

-- The local version without the identity that an earlier run put on it.
unfoldable pub prior_of : String → String → String
prior_of label text =
    let prior = strip_digest text in
    if label == "" then prior else or_whole prior (strip_ending ("-" <> label) prior)

unfoldable pub localversion : String → String → String → String
localversion label digest text =
    let prior = prior_of label text in
    if label == "" then prior <> ("-" <> digest) else prior <> ("-" <> (label <> ("-" <> digest)))
