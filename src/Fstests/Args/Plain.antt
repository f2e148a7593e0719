-- ===== src/Fstests/Args/Plain.antt =====
-- Inputs whose flags systemd reads as they are: words with no quote and no backslash.
use kdevops_ng.Prelude.{
  String, ◌≡◌, refl, Bool, true, false, ◌&&◌, not, List, [], ◌∷◌, ◌==◌, ◌!=◌, string_eq, nat_eq,
  arith, if◌then◌else◌, ℕ, ◌||◌,
}
use kdevops_ng.Prelude.Lists.{keep, All}
use kdevops_ng.Prelude.Words.{words, decimal, is_space, digit_texts}
use kdevops_ng.Prelude.Words.Codes.{AllCodes, join-AllCodes, words-AllCodes, decimal-AllCodes}
use kdevops_ng.Prelude.Words.Joined.{IsSolid, IsWord, join-IsSolid, words-IsWord, decimal-IsWord}
use kdevops_ng.Fstests.Args.{CheckInputs, flag_if, in_tests_mode, group_of}

-- The characters that systemd reads as themselves between blanks: no quote and no backslash.
abbrev pub is_unquoted : ℕ → Bool
is_unquoted c = not (c == b'"' || c == 39 || c == b'\\')

-- With no white space but the blank.
abbrev pub is_clear : ℕ → Bool
is_clear c = is_unquoted c && (not (is_space c) || c == b' ')

-- No input has a quote or a backslash, and none but the tests a space.
pub record IsPlain (i : CheckInputs) : Type 0 where
  pub groups : All IsSolid i.groups
  pub exclude_group : IsSolid i.exclude_group
  pub exclude : IsSolid i.exclude
  pub report : IsSolid i.report
  pub unquoted_groups : All (AllCodes is_unquoted) i.groups
  pub unquoted_exclude_group : AllCodes is_unquoted i.exclude_group
  pub unquoted_exclude : AllCodes is_unquoted i.exclude
  pub unquoted_report : AllCodes is_unquoted i.report
  pub unquoted_tests : AllCodes is_unquoted i.tests

-- What systemd makes of the value of XFSTESTS_CHECK_ARGS: from the environment file, and as the word
-- `$XFSTESTS_CHECK_ARGS` of a command line. Of a value with no quote and no backslash it documents
-- that it is split at white space.
pub record Systemd : Type 0 where
  pub arguments : String → List String
  pub arguments_lem : (s : String) → AllCodes is_clear s → arguments s ≡ words s

abbrev pub IsFlag : String → Type 0
IsFlag s = IsWord s × AllCodes is_unquoted s

-- The values of the flags, where they are set.
pub record Parts (P : String → Type 0) (i : CheckInputs) : Type 0 where
  pub group : (group_of i != "") ≡ true → P (group_of i)
  pub exclude_group : (i.exclude_group != "") ≡ true → P i.exclude_group
  pub exclude : (i.exclude != "") ≡ true → P i.exclude
  pub report : (i.report != "") ≡ true → P i.report
  pub number : (n : ℕ) → P (decimal n)
  pub tests : All P (words i.tests)

pub flag_if-All :
    (P : String → Type 0) (on : Bool) (flag value : String)
    → P flag
    → (on ≡ true → P value)
    → All P (flag_if on flag value)
flag_if-All P true flag value f v = (f, (v refl, tt))
flag_if-All P false flag value f v = tt

filled :
    (value : String)
    → IsSolid value
    → AllCodes is_unquoted value
    → (value != "") ≡ true
    → IsFlag value
filled value solid unquoted on = ((ground (arith, on), solid), unquoted)

pub and_left : (a b : Bool) → (a && b) ≡ true → a ≡ true
and_left a b h = ground (arith, h)

keep-All :
    (P : String → Type 0) (p : String → Bool) (xs : List String) → All P xs → All P (keep p xs)
keep-All P p [] h = tt
keep-All P p (x ∷ xs) h = keep_one (p x) x (keep p xs) h.0 (keep-All P p xs h.1)
  where
    keep_one :
        (on : Bool) (x : String) (rest : List String)
        → P x
        → All P rest
        → All P (if on then x ∷ rest else rest)
    keep_one true x rest one h = (one, h)
    keep_one false x rest one h = h

if-blank : (P : String → Type 0) (on : Bool) (s : String) → P "" → P s → P (if on then "" else s)
if-blank P true s blank h = blank
if-blank P false s blank h = h

group_of-IsSolid : (i : CheckInputs) → IsPlain i → IsSolid (group_of i)
unfolding group_of nat_eq
group_of-IsSolid i plain =
    if-blank IsSolid (in_tests_mode i) _ tt
      (join-IsSolid "," _ (refl, tt) (keep-All IsSolid _ i.groups plain.groups))

group_of-unquoted : (i : CheckInputs) → IsPlain i → AllCodes is_unquoted (group_of i)
unfolding group_of nat_eq
group_of-unquoted i plain = if-blank (AllCodes is_unquoted) (in_tests_mode i) _ tt (
    join-AllCodes is_unquoted "," _ (refl, tt)
      (keep-All (AllCodes is_unquoted) _ i.groups plain.unquoted_groups))

-- `-` and a letter.
abbrev pub short_flags : List String
short_flags = "-g" ∷ "-x" ∷ "-X" ∷ "-R" ∷ "-r" ∷ "-I" ∷ "-i" ∷ "-L" ∷ []

short_flags-IsWord : All IsWord short_flags
unfolding nat_eq
short_flags-IsWord = (
  (λ e. cc, (refl, (refl, tt))),
  (
    (λ e. cc, (refl, (refl, tt))),
    (
      (λ e. cc, (refl, (refl, tt))),
      (
        (λ e. cc, (refl, (refl, tt))),
        (
          (λ e. cc, (refl, (refl, tt))),
          (
            (λ e. cc, (refl, (refl, tt))),
            ((λ e. cc, (refl, (refl, tt))), ((λ e. cc, (refl, (refl, tt))), tt)),
          ),
        ),
      ),
    ),
  ),
)

short_flags-unquoted : All (AllCodes is_unquoted) short_flags
unfolding nat_eq
short_flags-unquoted = (
  (refl, (refl, tt)),
  (
    (refl, (refl, tt)),
    (
      (refl, (refl, tt)),
      (
        (refl, (refl, tt)),
        ((refl, (refl, tt)), ((refl, (refl, tt)), ((refl, (refl, tt)), ((refl, (refl, tt)), tt)))),
      ),
    ),
  ),
)

digit_texts-unquoted : All (AllCodes is_unquoted) digit_texts
unfolding nat_eq
digit_texts-unquoted = (
  (refl, tt),
  (
    (refl, tt),
    (
      (refl, tt),
      (
        (refl, tt),
        ((refl, tt), ((refl, tt), ((refl, tt), ((refl, tt), ((refl, tt), ((refl, tt), tt)))))),
      ),
    ),
  ),
)

zip_all : (P Q : String → Type 0) (xs : List String) → All P xs → All Q xs → All (λ x. P x × Q x) xs
zip_all P Q [] h k = tt
zip_all P Q (x ∷ xs) h k = ((h.0, k.0), zip_all P Q xs h.1 k.1)

pub short_flags-IsFlag : All IsFlag short_flags
short_flags-IsFlag =
    zip_all IsWord (AllCodes is_unquoted) short_flags short_flags-IsWord short_flags-unquoted

pub plain-Parts : (i : CheckInputs) → IsPlain i → Parts IsFlag i
plain-Parts i plain = record {
  group = filled (group_of i) (group_of-IsSolid i plain) (group_of-unquoted i plain);
  exclude_group = filled i.exclude_group plain.exclude_group plain.unquoted_exclude_group;
  exclude = filled i.exclude plain.exclude plain.unquoted_exclude;
  report = filled i.report plain.report plain.unquoted_report;
  number = λ n. (decimal-IsWord n, decimal-AllCodes is_unquoted digit_texts-unquoted n);
  tests =
      zip_all IsWord (AllCodes is_unquoted) (words i.tests) (words-IsWord i.tests)
        (words-AllCodes is_unquoted i.tests plain.unquoted_tests);
}
