-- ===== src/Common/Worktree/Labels/Slugs.antt =====
-- What a slug is made of, and that it is a slug of itself.
use kdevops_ng.Prelude.{
  ℕ, zero, suc, ◌≤◌, ◌≡◌, ◌≢◌, refl, ap, ◌∙◌, Bool, true, false, ◌&&◌, inl, inr, [], ◌∷◌, map, ◌==◌,
  nat_eq, arith, Bool-cases, if-lem,
}
use kdevops_ng.Prelude.Lists.{length, take, All, length-take-le}
use kdevops_ng.Prelude.Words.{is_space}
use kdevops_ng.Common.Worktree.Labels.{
  Text, codes, is_nil, drop_start, drop_end, strip_by, is_upper, is_label_code, is_edge, squeeze,
  lower, slug, after_last, before_first, or_text, b4_slug, compute_label,
}

-- A lower-case letter, a digit, a dot, an underscore or a dash.
abbrev pub IsSlugCode : ℕ → Type 0
IsSlugCode c = (is_label_code c ≡ true) × (is_upper c ≡ false)

-- The first character, if there is one, does not pass the test.
abbrev pub Starts : (ℕ → Bool) → Text → Type 0
Starts p [] = Unit
Starts p (c ∷ s) = p c ≡ false

-- A text that can be a label: its characters, and no dash, dot or underscore at either end.
pub record IsSlug (s : Text) : Type 0 where
  pub chars : All IsSlugCode s
  pub start : Starts is_edge s
  pub ending : drop_end is_edge s ≡ s

drop_start-Starts : (p : ℕ → Bool) (s : Text) → Starts p (drop_start p s)
unfolding drop_start
drop_start-Starts p [] = tt
drop_start-Starts p (c ∷ s) = if-lem (Starts p) (p c) _ _ (λ _. drop_start-Starts p s) (λ off. off)

drop_start-whole : (p : ℕ → Bool) (s : Text) → Starts p s → drop_start p s ≡ s
unfolding drop_start
drop_start-whole p [] h = refl
drop_start-whole p (c ∷ s) h = rw h refl

drop_end-Starts : (p : ℕ → Bool) (s : Text) → Starts p s → Starts p (drop_end p s)
unfolding drop_end
drop_end-Starts p [] h = tt
drop_end-Starts p (c ∷ s) h = rw h h

drop_end_idem : (p : ℕ → Bool) (s : Text) → drop_end p (drop_end p s) ≡ drop_end p s
unfolding drop_end
drop_end_idem p [] = refl
drop_end_idem p (c ∷ s) = elim (Bool-cases (p c && is_nil (drop_end p s))) [
  | inl gone ↦ rw gone refl
  | inr kept ↦ rw kept (rw (drop_end_idem p s) (rw kept refl))
]

module _ {κ} (P : ℕ → Type κ) where
  drop_start-All : (p : ℕ → Bool) (s : Text) → All P s → All P (drop_start p s)
  unfolding drop_start
  drop_start-All p [] h = tt
  drop_start-All p (c ∷ s) h = if-lem (All P) (p c) _ _ (λ _. drop_start-All p s h.1) (λ _. h)

  drop_end-All : (p : ℕ → Bool) (s : Text) → All P s → All P (drop_end p s)
  unfolding drop_end
  drop_end-All p [] h = tt
  drop_end-All p (c ∷ s) h =
      if-lem (All P) (p c && is_nil (drop_end p s)) _ _ (λ _. tt) (λ _. (h.0, drop_end-All p s h.1))

  take-All : (n : ℕ) (s : Text) → All P s → All P (take n s)
  take-All zero s h = tt
  take-All (suc n) [] h = tt
  take-All (suc n) (c ∷ s) h = (h.0, take-All n s h.1)

squeeze-All : (in_run : Bool) (s : Text) → All (λ c. is_label_code c ≡ true) (squeeze in_run s)
unfolding squeeze nat_eq
squeeze-All in_run [] = tt
squeeze-All in_run (c ∷ s) =
    if-lem (All (λ c. is_label_code c ≡ true)) (is_label_code c) _ _
      (λ on. (on, squeeze-All false s))
      (λ _.
        if-lem (All (λ c. is_label_code c ≡ true)) in_run _ _ (λ _. squeeze-All true s)
          (λ _. (refl, squeeze-All true s)))

lower-edge : (c : ℕ) → is_edge (lower c) ≡ is_edge c
lower-edge c = ground arith

lower-code : (c : ℕ) → is_label_code c ≡ true → IsSlugCode (lower c)
lower-code c h = (ground (arith, h), ground (arith, h))

lower-All : (s : Text) → All (λ c. is_label_code c ≡ true) s → All IsSlugCode (map lower s)
lower-All [] h = tt
lower-All (c ∷ s) h = (lower-code c h.0, lower-All s h.1)

lower-Starts : (s : Text) → Starts is_edge s → Starts is_edge (map lower s)
lower-Starts [] h = tt
lower-Starts (c ∷ s) h = lower-edge c ∙ h

is_nil-lower : (s : Text) → is_nil (map lower s) ≡ is_nil s
is_nil-lower [] = refl
is_nil-lower (c ∷ s) = refl

drop_end-lower : (s : Text) → drop_end is_edge (map lower s) ≡ map lower (drop_end is_edge s)
unfolding drop_end
drop_end-lower [] = refl
drop_end-lower (c ∷ s) = elim (Bool-cases (is_edge c && is_nil (drop_end is_edge s))) [
  | inl gone ↦ rw (lower-edge c, drop_end-lower s, is_nil-lower (drop_end is_edge s), gone) refl
  | inr kept ↦ rw (lower-edge c, drop_end-lower s, is_nil-lower (drop_end is_edge s), kept) refl
]

pub slug-IsSlug : (value : Text) → IsSlug (slug value)
unfolding slug strip_by
slug-IsSlug value =
    let squeezed = squeeze false (strip_by is_space value) in
    let trimmed = drop_end is_edge (drop_start is_edge squeezed) in
    record {
      chars =
          lower-All trimmed
            (drop_end-All _ is_edge _ (drop_start-All _ is_edge squeezed (squeeze-All false _)));
      start = lower-Starts trimmed (drop_end-Starts is_edge _ (drop_start-Starts is_edge squeezed));
      ending =
          drop_end-lower trimmed
          ∙ ap (map lower) (drop_end_idem is_edge (drop_start is_edge squeezed));
    }

not_space : (c : ℕ) → IsSlugCode c → is_space c ≡ false
not_space c h = ground (arith, h)

space-Starts : (s : Text) → All IsSlugCode s → Starts is_space s
space-Starts [] h = tt
space-Starts (c ∷ s) h = not_space c h.0

drop_end_spaces : (s : Text) → All IsSlugCode s → drop_end is_space s ≡ s
unfolding drop_end
drop_end_spaces [] h = refl
drop_end_spaces (c ∷ s) h = rw (not_space c h.0) (ap (λ t. c ∷ t) (drop_end_spaces s h.1))

strip_spaces : (s : Text) → All IsSlugCode s → strip_by is_space s ≡ s
unfolding strip_by
strip_spaces s h =
    ap (drop_end is_space) (drop_start-whole is_space s (space-Starts s h)) ∙ drop_end_spaces s h

squeeze_whole : (s : Text) → All IsSlugCode s → squeeze false s ≡ s
unfolding squeeze
squeeze_whole [] h = refl
squeeze_whole (c ∷ s) h = rw (h.0.0) (ap (λ t. c ∷ t) (squeeze_whole s h.1))

lower_whole : (s : Text) → All IsSlugCode s → map lower s ≡ s
lower_whole [] h = refl
lower_whole (c ∷ s) h = rw (h.0.1, lower_whole s h.1) refl

slug_whole : (s : Text) → IsSlug s → slug s ≡ s
unfolding slug strip_by
slug_whole s h =
    ap (λ t. map lower (strip_by is_edge (squeeze false t))) (strip_spaces s h.chars)
    ∙ ap (λ t. map lower (strip_by is_edge t)) (squeeze_whole s h.chars)
    ∙ ap (λ t. map lower (drop_end is_edge t)) (drop_start-whole is_edge s h.start)
    ∙ ap (map lower) h.ending
    ∙ lower_whole s h.chars

-- A slug has only lower-case letters, digits, dots, underscores and dashes, with no dash, dot or
-- underscore at either end, and it is a slug of itself.
pub slug-slug : (value : Text) → IsSlug (slug value) × (slug (slug value) ≡ slug value)
slug-slug value = (slug-IsSlug value, slug_whole (slug value) (slug-IsSlug value))

-- The leaf of the branch that a series is published under.
pub record IsLeaf (s : Text) : Type 0 where
  pub filled : s ≢ []
  pub short : length s ≤ 48
  pub chars : All IsSlugCode s
  pub start : Starts is_edge s

take-Starts : (p : ℕ → Bool) (n : ℕ) (s : Text) → Starts p s → Starts p (take n s)
take-Starts p zero s h = tt
take-Starts p (suc n) [] h = tt
take-Starts p (suc n) (c ∷ s) h = h

or_series :
    (s : Text)
    → length s ≤ 48
    → All IsSlugCode s
    → Starts is_edge s
    → IsLeaf (or_text s (codes "series"))
unfolding nat_eq
or_series [] short chars start = record {
  filled = λ e. cc;
  short = omega arith;
  chars = (
    (refl, refl),
    ((refl, refl), ((refl, refl), ((refl, refl), ((refl, refl), ((refl, refl), tt))))),
  );
  start = refl;
}
or_series (c ∷ s) short chars start = record {
  filled = λ e. cc;
  short = short;
  chars = chars;
  start = start;
}

-- For any message-id or URL, also an empty one, the branch's leaf is not empty, has at most 48
-- characters, all of a slug, and does not begin with a dash, a dot or an underscore.
pub b4_slug-IsLeaf : (b4_series : Text) → IsLeaf (b4_slug b4_series)
unfolding b4_slug
b4_slug-IsLeaf b4_series =
    let value = strip_by (λ c. c == b'/') (strip_by is_space b4_series) in
    let leaf = slug (before_first b'@' (after_last b'/' value)) in
    let good = slug-IsSlug (before_first b'@' (after_last b'/' value)) in
    or_series (take 48 leaf) (length-take-le 48 leaf) (take-All IsSlugCode 48 leaf good.chars)
      (take-Starts is_edge 48 leaf good.start)

vanilla-IsSlug : IsSlug (codes "vanilla")
unfolding nat_eq drop_end
vanilla-IsSlug = record {
  chars = (
    (refl, refl),
    (
      (refl, refl),
      ((refl, refl), ((refl, refl), ((refl, refl), ((refl, refl), ((refl, refl), tt))))),
    ),
  );
  start = refl;
  ending = refl;
}

-- Where the label of the series is a slug, so is the label of the build.
pub compute_label-IsSlug :
    (user_label b4_series b4_label : Text) (is_tag : Bool) (ref : Text)
    → IsSlug b4_label
    → IsSlug (compute_label user_label b4_series b4_label is_tag ref)
unfolding compute_label
compute_label-IsSlug user_label b4_series b4_label is_tag ref h =
    if-lem IsSlug (is_nil user_label) _ _
      (λ _.
        if-lem IsSlug (is_nil b4_series) _ _
          (λ _. if-lem IsSlug is_tag _ _ (λ _. vanilla-IsSlug) (λ _. slug-IsSlug ref)) (λ _. h))
      (λ _. slug-IsSlug user_label)
