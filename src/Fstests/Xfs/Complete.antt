-- ===== src/Fstests/Xfs/Complete.antt =====
-- Which sections the XFS matrix has to have.
use mathlib.Core.Option.{some-injective}
use mathlib.Core.Path.{subst}
use kdevops_ng.Prelude.{
  ℕ, String, ◌≡◌, refl, sym, inl, inr, true, false, Option, none, some, List, [], ◌∷◌, arith, ◌==◌,
  ◌||◌, string_eq, nat_eq, contains, ltb, Bool-cases, Option-cases, if◌then◌else◌,
}
use kdevops_ng.Prelude.Lists.{all}
use kdevops_ng.Prelude.Dict.{Dict, lookup, insert, has, has-insert, keys}
use kdevops_ng.Fstests.Xfs.{
  block_sizes, sector_sizes, Feature, features, feature_keys, Profile, section_name, profile, skips,
  sectors_into, blocks_into, features_into, xfs_profiles_matrix,
}
use kdevops_ng.Fstests.Xfs.Geometry.{Fits, Fits-skips}

module _ (feat : String) (def : Feature) where
  has-sectors_into :
      (name : String) (block : ℕ) (sectors : List ℕ) (m : Dict Profile)
      → has name m ≡ true
      → has name (sectors_into feat def block sectors m) ≡ true
  unfolding sectors_into
  has-sectors_into name block [] m there = there
  has-sectors_into name block (sector ∷ sectors) m there =
      has-sectors_into name block sectors _ (elim (Bool-cases (ltb block sector)) [
        | inl above ↦ rw above there
        | inr low ↦ rw low (
            (has-insert name (section_name feat block sector) (profile def block sector) m).1 there)
      ])

  section-sectors_into :
      (block sector : ℕ) (sectors : List ℕ) (m : Dict Profile)
      → contains sectors sector ≡ true
      → ltb block sector ≡ false
      → has (section_name feat block sector) (sectors_into feat def block sectors m) ≡ true
  unfolding sectors_into
  section-sectors_into block sector [] m listed low = cc
  section-sectors_into block sector (s ∷ sectors) m listed low = elim (Bool-cases (sector == s)) [
    | inl same ↦
        let sector_is : sector ≡ s = ground arith in
        has-sectors_into (section_name feat block sector) block sectors _ (
          subst (λ x. has (section_name feat block sector) (with_sector x) ≡ true) sector_is
            (rw low
              (has-insert "" (section_name feat block sector) (profile def block sector) m).0))
    | inr differ ↦ section-sectors_into block sector sectors _ (ground arith) low
  ]
    where
      with_sector : ℕ → Dict Profile
      with_sector x =
          if ltb block x then m else insert (section_name feat block x) (profile def block x) m

  has-blocks_into :
      (name : String) (blocks : List ℕ) (m : Dict Profile)
      → has name m ≡ true
      → has name (blocks_into feat def blocks m) ≡ true
  unfolding blocks_into
  has-blocks_into name [] m there = there
  has-blocks_into name (block ∷ blocks) m there =
      has-blocks_into name blocks _ (elim (Bool-cases (skips def block)) [
        | inl skipped ↦ rw skipped there
        | inr kept ↦ rw kept (has-sectors_into name block sector_sizes m there)
      ])

  section-blocks_into :
      (block sector : ℕ) (blocks : List ℕ) (m : Dict Profile)
      → contains blocks block ≡ true
      → contains sector_sizes sector ≡ true
      → skips def block ≡ false
      → ltb block sector ≡ false
      → has (section_name feat block sector) (blocks_into feat def blocks m) ≡ true
  unfolding blocks_into
  section-blocks_into block sector [] m listed size kept low = cc
  section-blocks_into block sector (b ∷ blocks) m listed size kept low =
      elim (Bool-cases (block == b)) [
        | inl same ↦
            let block_is : block ≡ b = ground arith in
            has-blocks_into (section_name feat block sector) blocks _ (
              subst (λ x. has (section_name feat block sector) (with_block x) ≡ true) block_is
                (rw kept (section-sectors_into block sector sector_sizes m size low)))
        | inr differ ↦ section-blocks_into block sector blocks _ (ground arith) size kept low
      ]
    where
      with_block : ℕ → Dict Profile
      with_block x = if skips def x then m else sectors_into feat def x sector_sizes m

-- The features of a list are known ones.
abbrev Known : List String → Type 0
Known [] = Unit
Known (feat ∷ feats) = ((def : Feature) × (lookup feat features ≡ some def)) × Known feats

has-features_into :
    (name : String) (feats : List String) (m : Dict Profile)
    → Known feats
    → has name m ≡ true
    → (out : Dict Profile) × (features_into "matrix" feats m ≡ some out) × (has name out ≡ true)
unfolding features_into string_eq
has-features_into name [] m known there = (m, refl, there)
has-features_into name (feat ∷ feats) m ((def, is_def), known) there =
    rw (is_def, features_into)
      (has-features_into name feats (blocks_into feat def block_sizes m) known
        (has-blocks_into feat def name block_sizes m there))

section-features_into :
    (feat : String) (def : Feature) (block sector : ℕ) (feats : List String) (m : Dict Profile)
    → Known feats
    → contains feats feat ≡ true
    → lookup feat features ≡ some def
    → contains block_sizes block ≡ true
    → contains sector_sizes sector ≡ true
    → Fits def block sector
    → (out : Dict Profile) × (features_into "matrix" feats m ≡ some out)
      × (has (section_name feat block sector) out ≡ true)
unfolding features_into string_eq
section-features_into feat def block sector [] m known listed is_def listed_block size fits = cc
section-features_into feat def block sector (f ∷ feats) m ((d, f_is), known) listed is_def
      listed_block size fits =
    elim (Bool-cases (feat == f)) [
      | inl same ↦
          let feat_is : feat ≡ f = ground arith in
          let f_is_def : lookup f features ≡ some def =
            subst (λ x. lookup x features ≡ some def) feat_is is_def in
          let (kept, low) = Fits-skips def block sector fits in
          rw (f_is_def, features_into)
            (has-features_into (section_name feat block sector) feats
              (blocks_into f def block_sizes m) known
              (subst
                (λ x. has (section_name feat block sector) (blocks_into x def block_sizes m) ≡ true)
                feat_is
                (section-blocks_into feat def block sector block_sizes m listed_block size kept
                  low)))
      | inr differ ↦
          rw (f_is, features_into)
            (section-features_into feat def block sector feats (blocks_into f d block_sizes m) known
              (ground arith) is_def listed_block size fits)
    ]

contains-keys : (d : Dict Feature) (k : String) → contains (keys d) k ≡ true → has k d ≡ true
unfolding keys lookup
contains-keys [] k e = cc
contains-keys ((j, v) ∷ d) k e = ground (arith, contains-keys d k)

all-Known : (feats : List String) → all (contains (keys features)) feats ≡ true → Known feats
all-Known [] e = tt
all-Known (feat ∷ feats) e = elim (Option-cases (lookup feat features)) [
  | inr (def, is_def) ↦ ((def, is_def), all-Known feats (ground arith))
  | inl missing ↦ cc (sym (rw missing at (contains-keys features feat (ground arith))))
]

all_features-Known : Known (keys features)
unfolding features keys string_eq
all_features-Known = all-Known (keys features) refl

feature_keys-Known :
    (feature : Option String) {feats : List String}
    → feature_keys feature ≡ some feats
    → Known feats
unfolding feature_keys
feature_keys-Known none e = subst Known (some-injective _ _ e) all_features-Known
feature_keys-Known (some feature) e = elim (Bool-cases (feature == "" || feature == "all")) [
  | inl every ↦ subst Known (some-injective _ _ (rw (every, feature_keys) at e)) all_features-Known
  | inr one ↦
      elim (Bool-cases (contains (keys features) (if feature == "default" then "" else feature))) [
        | inl listed ↦
            subst Known (some-injective _ _ (rw (one, listed, feature_keys) at e))
              (all-Known ((if feature == "default" then "" else feature) ∷ []) (rw listed refl))
        | inr unknown ↦ cc (rw (one, unknown, feature_keys) at e)
      ]
]

-- A selector that covers a feature yields a matrix with a section for each listed block and
-- sector size that fits the feature.
pub xfs_profiles_matrix_complete :
    (feature : Option String) (feat : String) (def : Feature) (block sector : ℕ)
    {feats : List String}
    → feature_keys feature ≡ some feats
    → contains feats feat ≡ true
    → lookup feat features ≡ some def
    → contains block_sizes block ≡ true
    → contains sector_sizes sector ≡ true
    → Fits def block sector
    → (m : Dict Profile) × (xfs_profiles_matrix feature "matrix" ≡ some m)
      × (has (section_name feat block sector) m ≡ true)
unfolding xfs_profiles_matrix string_eq
xfs_profiles_matrix_complete feature feat def block sector {feats} keys_are listed is_def
      listed_block size fits =
    rw keys_are (
      section-features_into feat def block sector feats []
        (feature_keys-Known feature {feats = feats} keys_are) listed is_def listed_block size fits)
