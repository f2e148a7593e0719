-- ===== src/Fstests/Xfs/Geometry.antt =====
-- Which profiles the XFS matrix holds: those of the geometries that can be made and mounted.
use mathlib.Core.Option.{some-injective}
use mathlib.Core.Path.{subst}
use kdevops_ng.Prelude.{
  ℕ, ◌*◌, ◌≤◌, String, ◌≡◌, refl, sym, ◌∙◌, inl, inr, ◌⊎◌, true, false, Option, none, some, List,
  [], ◌∷◌, arith, ◌==◌, string_eq, nat_eq, contains, ltb, Bool-cases, Option-cases, if◌then◌else◌,
}
use kdevops_ng.Prelude.Lists.{All}
use kdevops_ng.Prelude.Dict.{Dict, lookup, insert, lookup-insert, lookup-nil}
use kdevops_ng.Fstests.Xfs.{
  block_sizes, sector_sizes, Feature, features, feature_keys, Profile, mult_of, section_name,
  profile, below_least, skips, sectors_into, blocks_into, features_into, xfs_profiles_matrix,
}

-- The least block size that a feature asks for.
abbrev pub FitsLeast : Option ℕ → ℕ → Type 0
FitsLeast none block = Unit
FitsLeast (some least) block = least ≤ block

-- What mkfs.xfs and the mount ask of a geometry: no sector above the block; a block of 1024 bytes
-- or more with checksums, and none above the page without; the feature's own least block; and
-- a realtime extent of 4096 bytes or more where the feature sets one.
pub record Fits (def : Feature) (block sector : ℕ) : Type 0 where
  pub sector_le : sector ≤ block
  pub crc_block : (def.v4 ≡ true) ⊎ (1024 ≤ block)
  pub v4_block : (def.v4 ≡ false) ⊎ (block ≤ 4096)
  pub least_block : FitsLeast def.min_block block
  pub extent : (mult_of def ≡ 0) ⊎ (4096 ≤ mult_of def * block)

below_least-FitsLeast : (m : Option ℕ) (block : ℕ) → below_least m block ≡ false → FitsLeast m block
unfolding below_least
below_least-FitsLeast none block e = tt
below_least-FitsLeast (some least) block e = ground arith

FitsLeast-below_least : (m : Option ℕ) (block : ℕ) → FitsLeast m block → below_least m block ≡ false
unfolding below_least
FitsLeast-below_least none block e = refl
FitsLeast-below_least (some least) block e = ground arith

skips-Fits :
    (def : Feature) (block sector : ℕ)
    → skips def block ≡ false
    → ltb block sector ≡ false
    → Fits def block sector
unfolding skips
skips-Fits def block sector a b = record {
  sector_le = ground arith;
  crc_block = elim (Bool-cases def.v4) [ inl e ↦ inl e | inr e ↦ inr (ground arith) ];
  v4_block = elim (Bool-cases def.v4) [ inl e ↦ inr (ground arith) | inr e ↦ inl e ];
  least_block = below_least-FitsLeast def.min_block block (ground arith);
  extent = elim (Bool-cases (mult_of def == 0)) [
    | inl e ↦ inl (ground arith)
    | inr e ↦ inr (ground arith)
  ];
}

pub Fits-skips :
    (def : Feature) (block sector : ℕ)
    → Fits def block sector
    → (skips def block ≡ false) × (ltb block sector ≡ false)
unfolding skips
Fits-skips def block sector fits =
    let least = FitsLeast-below_least def.min_block block fits.least_block in
    let low = fits.sector_le in
    let a = fits.crc_block in
    let b = fits.v4_block in let c = fits.extent in (ground arith, ground arith)

-- A section of the matrix: a known feature at a size of each table that fits it.
pub record IsSection (name : String) (p : Profile) : Type 0 where
  pub feat : String
  pub def : Feature
  pub block : ℕ
  pub sector : ℕ
  pub known : lookup feat features ≡ some def
  pub block_size : contains block_sizes block ≡ true
  pub sector_size : contains sector_sizes sector ≡ true
  pub fits : Fits def block sector
  pub named : name ≡ section_name feat block sector
  pub made : p ≡ profile def block sector

abbrev AllSections : Dict Profile → Type 0
AllSections m = (name : String) (p : Profile) → lookup name m ≡ some p → IsSection name p

nothing-AllSections : AllSections []
nothing-AllSections name p e = cc (sym (lookup-nil {V = Profile} name) ∙ e)

sector_sizes_listed : All (λ s. contains sector_sizes s ≡ true) sector_sizes
unfolding nat_eq
sector_sizes_listed = (refl, (refl, (refl, (refl, (refl, (refl, (refl, tt)))))))

block_sizes_listed : All (λ b. contains block_sizes b ≡ true) block_sizes
unfolding nat_eq
block_sizes_listed = (refl, (refl, (refl, (refl, (refl, (refl, (refl, (refl, tt))))))))

insert-AllSections :
    (k : String) (v : Profile) (m : Dict Profile)
    → IsSection k v
    → AllSections m
    → AllSections (insert k v m)
insert-AllSections k v m new old name p e = elim (Bool-cases (name == k)) [
  | inl same ↦
      subst (IsSection name) (ground (arith, lookup-insert name k v m))
        (subst (λ n. IsSection n v) (ground (arith, same)) new)
  | inr differ ↦ old name p (rw differ at (sym (lookup-insert name k v m) ∙ e))
]

module _ (feat : String) (def : Feature) (known : lookup feat features ≡ some def) where
  sector-AllSections :
      (block sector : ℕ) (m : Dict Profile)
      → contains block_sizes block ≡ true
      → skips def block ≡ false
      → contains sector_sizes sector ≡ true
      → AllSections m
      → AllSections (
          if ltb block sector
          then m
          else insert (section_name feat block sector) (profile def block sector) m)
  sector-AllSections block sector m listed kept size old = elim (Bool-cases (ltb block sector)) [
    | inl above ↦ rw above old
    | inr low ↦ rw low (
        insert-AllSections (section_name feat block sector) (profile def block sector) m
          (record {
            feat = feat;
            def = def;
            block = block;
            sector = sector;
            known = known;
            block_size = listed;
            sector_size = size;
            fits = skips-Fits def block sector kept low;
            named = refl;
            made = refl;
          })
          old)
  ]

  sectors_into-AllSections :
      (block : ℕ) (sectors : List ℕ) (m : Dict Profile)
      → contains block_sizes block ≡ true
      → skips def block ≡ false
      → All (λ s. contains sector_sizes s ≡ true) sectors
      → AllSections m
      → AllSections (sectors_into feat def block sectors m)
  unfolding sectors_into
  sectors_into-AllSections block [] m listed kept sizes old = old
  sectors_into-AllSections block (sector ∷ sectors) m listed kept (size, sizes) old =
      sectors_into-AllSections block sectors _ listed kept sizes
        (sector-AllSections block sector m listed kept size old)

  block-AllSections :
      (block : ℕ) (m : Dict Profile)
      → contains block_sizes block ≡ true
      → AllSections m
      → AllSections (if skips def block then m else sectors_into feat def block sector_sizes m)
  block-AllSections block m listed old = elim (Bool-cases (skips def block)) [
    | inl skipped ↦ rw skipped old
    | inr kept ↦
        rw kept (sectors_into-AllSections block sector_sizes m listed kept sector_sizes_listed old)
  ]

  blocks_into-AllSections :
      (blocks : List ℕ) (m : Dict Profile)
      → All (λ b. contains block_sizes b ≡ true) blocks
      → AllSections m
      → AllSections (blocks_into feat def blocks m)
  unfolding blocks_into
  blocks_into-AllSections [] m sizes old = old
  blocks_into-AllSections (block ∷ blocks) m (size, sizes) old =
      blocks_into-AllSections blocks _ sizes (block-AllSections block m size old)

features_into-AllSections :
    (feats : List String) (m : Dict Profile) {out : Dict Profile}
    → AllSections m
    → features_into "matrix" feats m ≡ some out
    → AllSections out
unfolding features_into string_eq
features_into-AllSections [] m {out} old e = subst AllSections (some-injective _ _ e) old
features_into-AllSections (feat ∷ feats) m {out} old e =
    elim (Option-cases (lookup feat features)) [
      | inl missing ↦ cc (rw (missing, features_into) at e)
      | inr (def, known) ↦
          features_into-AllSections feats (blocks_into feat def block_sizes m) {out = out}
            (blocks_into-AllSections feat def known block_sizes m block_sizes_listed old)
            (rw (known, features_into) at e)
    ]

-- Every section of the matrix is a known feature at listed sizes that fit it, with the name and
-- the options of that feature and geometry.
pub xfs_profiles_matrix-IsSection :
    (feature : Option String) {m : Dict Profile} (name : String) {p : Profile}
    → xfs_profiles_matrix feature "matrix" ≡ some m
    → lookup name m ≡ some p
    → IsSection name p
unfolding xfs_profiles_matrix string_eq
xfs_profiles_matrix-IsSection feature {m} name {p} made found =
    elim (Option-cases (feature_keys feature)) [
      | inl unknown ↦ cc (rw unknown at made)
      | inr (feats, keys_are) ↦
          features_into-AllSections feats [] {out = m} nothing-AllSections (rw keys_are at made)
            name p found
    ]
