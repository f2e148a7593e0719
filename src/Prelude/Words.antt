-- ===== src/Prelude/Words.antt =====
-- Python's `in`, `split()` and friends on texts.
pub mod Lines
pub mod Joined
pub mod Codes
use Prim.Native.Char.{code, Char}
use Prim.Native.Nat.{ℕ, zero, suc, ◌+◌, ◌/◌, ◌%◌}
use Prim.Native.String.{String, ◌++◌ as ◌<>◌}
use mathlib.Core.Bool.{Bool, true, false, not, ◌&&◌, ◌||◌}
use mathlib.Core.List.{List, [], ◌∷◌}
use mathlib.Core.Option.{Option, none, some, get_or}
use text.Mathlib.Text.{starts_with}
use kdevops_ng.Prelude.Lists.{get_elem?}
use kdevops_ng.Prelude.Equality.{◌==◌, string_eq, nat_eq, leb, ltb, if◌then◌else◌}

-- `str.isspace` of one character.
abbrev pub is_space : ℕ → Bool
is_space c =
    (leb 9 c && leb c 13)
    || (leb 28 c && leb c 32)
    || c == 133
    || c == 160
    || c == 5760
    || (leb 8192 c && leb c 8202)
    || (leb 8232 c && leb c 8233)
    || c == 8239
    || c == 8287
    || c == 12288

-- `needle in text`
unfoldable pub contains_text : String → String → Bool
contains_text needle String.[] = starts_with String.[] needle
contains_text needle (String.◌∷◌ c s) =
    starts_with (String.◌∷◌ c s) needle || contains_text needle s

-- Puts a character in front of the word that is being read.
abbrev pub onto_word : Char → List String → List String
onto_word c [] = String.◌∷◌ c String.[] ∷ []
onto_word c (w ∷ ws) = String.◌∷◌ c w ∷ ws

-- The words of a text, the first one empty if the text begins with a space.
abbrev pub pieces : String → List String
pieces String.[] = String.[] ∷ []
pieces (String.◌∷◌ c s) =
    let rest = pieces s in if is_space (code c) then String.[] ∷ rest else onto_word c rest

abbrev pub drop_empty : List String → List String
drop_empty [] = []
drop_empty (w ∷ ws) = let rest = drop_empty ws in if w == "" then rest else w ∷ rest

-- `text.split()`
unfoldable pub words : String → List String
words s = drop_empty (pieces s)

-- `sep.join(texts)`
unfoldable pub join : String → List String → String
join sep [] = ""
join sep (x ∷ []) = x
join sep (x ∷ y ∷ xs) = x <> (sep <> join sep (y ∷ xs))

-- The digits of `str(n)`.
abbrev pub digit_texts : List String
digit_texts = "0" ∷ "1" ∷ "2" ∷ "3" ∷ "4" ∷ "5" ∷ "6" ∷ "7" ∷ "8" ∷ "9" ∷ []

unfoldable pub digit : ℕ → String
digit n = get_or (get_elem? digit_texts n) ""

-- A number has no more digits than its value, plus one.
unfoldable pub digits : ℕ → ℕ → String
unfolding digit
digits zero n = ""
digits (suc fuel) n = elim (ltb n 10) [
  | true ↦ digit n
  | false ↦ digits fuel (n / 10) <> digit (n % 10)
]

unfoldable pub decimal : ℕ → String
unfolding digits
decimal n = digits (suc n) n

-- `str.strip` and its halves.
unfoldable pub lstrip : String → String
lstrip String.[] = String.[]
lstrip (String.◌∷◌ c s) = let rest = lstrip s in if is_space (code c) then rest else String.◌∷◌ c s

unfoldable pub rstrip : String → String
rstrip String.[] = String.[]
rstrip (String.◌∷◌ c s) =
    let rest = rstrip s in if is_space (code c) && rest == "" then String.[] else String.◌∷◌ c rest

unfoldable pub strip : String → String
strip s = rstrip (lstrip s)

-- Where `str.splitlines` ends a line.
unfoldable pub is_break : ℕ → Bool
is_break c = (leb 10 c && leb c 13) || (leb 28 c && leb c 30) || c == 133 || c == 8232 || c == 8233

-- `text.splitlines()`
unfoldable pub split_lines : String → List String
unfolding is_break
split_lines String.[] = []
split_lines (String.◌∷◌ c s) =
    let rest = split_lines s in
    if not (is_break (code c))
    then onto_word c rest
    else if code c == 13 && starts_with s "\n"
    then rest
    else "" ∷ rest

-- `text.split(sep, 1)` for one character, None where it is absent.
unfoldable pub split_at : ℕ → String → Option (String × String)
split_at sep String.[] = none
split_at sep (String.◌∷◌ c s) =
    if code c == sep
    then some ("", s)
    else elim (split_at sep s) [ none ↦ none | some (a, b) ↦ some (String.◌∷◌ c a, b) ]

-- `text.startswith(c)` for one character.
abbrev pub starts_with_char : ℕ → String → Bool
starts_with_char d String.[] = false
starts_with_char d (String.◌∷◌ c s) = code c == d

-- `text.split(sep)` for one character.
unfoldable pub split_on : ℕ → String → List String
split_on sep String.[] = "" ∷ []
split_on sep (String.◌∷◌ c s) =
    let rest = split_on sep s in if code c == sep then "" ∷ rest else onto_word c rest

-- `text.rstrip(c)` for one character.
unfoldable pub rstrip_char : ℕ → String → String
rstrip_char d String.[] = String.[]
rstrip_char d (String.◌∷◌ c s) =
    let rest = rstrip_char d s in if code c == d && rest == "" then String.[] else String.◌∷◌ c rest

-- `s < t` on texts.
unfoldable pub text_ltb : String → String → Bool
text_ltb String.[] String.[] = false
text_ltb String.[] (String.◌∷◌ _ _) = true
text_ltb (String.◌∷◌ _ _) String.[] = false
text_ltb (String.◌∷◌ c s) (String.◌∷◌ d t) =
    let rest = text_ltb s t in ltb (code c) (code d) || (code c == code d && rest)

-- `len(text)` and `text[:n]`
abbrev pub text_length : String → ℕ
text_length String.[] = 0
text_length (String.◌∷◌ _ s) = suc (text_length s)

abbrev pub text_take : ℕ → String → String
text_take zero s = ""
text_take (suc n) String.[] = ""
text_take (suc n) (String.◌∷◌ c s) = String.◌∷◌ c (text_take n s)

-- `text.removesuffix(ending)`, None where the text does not end with it.
unfoldable pub strip_ending : String → String → Option String
strip_ending ending String.[] = if ending == "" then some "" else none
strip_ending ending (String.◌∷◌ c s) =
    let rest = strip_ending ending s in
    if String.◌∷◌ c s == ending
    then some ""
    else elim rest [ none ↦ none | some before ↦ some (String.◌∷◌ c before) ]
