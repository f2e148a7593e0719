-- ===== src/Common/Worktree/Labels.antt =====
-- f/common/worktree.py: `_slug`, `_b4_slug` and `_compute_label`. A text is its code points.
pub mod Slugs
use Prim.Native.Char.{code}
use kdevops_ng.Prelude.{
  ℕ, ◌+◌, String, Bool, true, false, ◌&&◌, ◌||◌, List, [], ◌∷◌, map, ◌==◌, nat_eq, contains, leb,
  if◌then◌else◌,
}
use kdevops_ng.Prelude.Lists.{take}
use kdevops_ng.Prelude.Words.{is_space}

abbrev pub Text : Type 0
Text = List ℕ

abbrev pub codes : String → Text
codes String.[] = []
codes (String.◌∷◌ c s) = code c ∷ codes s

abbrev pub is_nil : Text → Bool
is_nil [] = true
is_nil (_ ∷ _) = false

-- `strip` of the characters that a test takes, and its halves.
unfoldable pub drop_start : (ℕ → Bool) → Text → Text
drop_start p [] = []
drop_start p (c ∷ s) = let rest = drop_start p s in if p c then rest else c ∷ s

unfoldable pub drop_end : (ℕ → Bool) → Text → Text
drop_end p [] = []
drop_end p (c ∷ s) = let rest = drop_end p s in if p c && is_nil rest then [] else c ∷ rest

unfoldable pub strip_by : (ℕ → Bool) → Text → Text
strip_by p s = drop_end p (drop_start p s)

-- `[A-Za-z0-9._-]`
abbrev pub is_upper : ℕ → Bool
is_upper c = leb b'A' c && leb c b'Z'

abbrev pub is_label_code : ℕ → Bool
is_label_code c =
    is_upper c
    || (leb b'a' c && leb c b'z')
    || (leb b'0' c && leb c b'9')
    || c == b'.'
    || c == b'_'
    || c == b'-'

abbrev pub is_edge : ℕ → Bool
is_edge c = c == b'-' || c == b'.' || c == b'_'

-- A run of other characters becomes one dash; the test says whether such a run is being read.
unfoldable pub squeeze : Bool → Text → Text
squeeze in_run [] = []
squeeze in_run (c ∷ s) =
    let within = squeeze true s in
    let outside = squeeze false s in
    if is_label_code c then c ∷ outside else if in_run then within else b'-' ∷ within

-- `str.lower` of one of these characters.
abbrev pub lower : ℕ → ℕ
lower c = if is_upper c then c + 32 else c

unfoldable pub slug : Text → Text
slug value = map lower (strip_by is_edge (squeeze false (strip_by is_space value)))

-- `value.rsplit(sep, 1)[-1]` and `value.split(sep, 1)[0]`
unfoldable pub after_last : ℕ → Text → Text
after_last sep [] = []
after_last sep (c ∷ s) =
    let rest = after_last sep s in if contains s sep then rest else if c == sep then s else c ∷ s

unfoldable pub before_first : ℕ → Text → Text
before_first sep [] = []
before_first sep (c ∷ s) = let rest = before_first sep s in if c == sep then [] else c ∷ rest

abbrev pub or_text : Text → Text → Text
or_text [] other = other
or_text (c ∷ s) other = c ∷ s

unfoldable pub b4_slug : Text → Text
b4_slug b4_series =
    let value = strip_by (λ c. c == b'/') (strip_by is_space b4_series) in
    or_text (take 48 (slug (before_first b'@' (after_last b'/' value)))) (codes "series")

unfoldable pub compute_label : Text → Text → Text → Bool → Text → Text
compute_label user_label b4_series b4_label is_tag ref =
    if is_nil user_label
    then (if is_nil b4_series then (if is_tag then codes "vanilla" else slug ref) else b4_label)
    else slug user_label
