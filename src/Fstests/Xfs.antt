-- ===== src/Fstests/Xfs.antt =====
-- f/fstests/common.py: the XFS features, and the profiles that they make with each geometry.
pub mod Geometry
pub mod Complete
use mathlib.Core.Option.{get_or}
use kdevops_ng.Prelude.{
  ◌++◌, map, ℕ, ◌*◌, ◌/◌, String, ◌<>◌, Bool, true, false, ◌&&◌, ◌||◌, not, Option, none, some,
  List, [], ◌∷◌, ◌==◌, ◌!=◌, string_eq, nat_eq, option_eq, contains, ltb, if◌then◌else◌,
}
use kdevops_ng.Prelude.Lists.{keep}
use kdevops_ng.Prelude.Dict.{Dict, lookup, insert, keys}
use kdevops_ng.Prelude.Words.{join, decimal}

abbrev pub block_sizes : List ℕ
block_sizes = 512 ∷ 1024 ∷ 2048 ∷ 4096 ∷ 8192 ∷ 16384 ∷ 32768 ∷ 65536 ∷ []

abbrev pub sector_sizes : List ℕ
sector_sizes = 512 ∷ 1024 ∷ 2048 ∷ 4096 ∷ 8192 ∷ 16384 ∷ 32768 ∷ []

abbrev pub min_crc_blocksize : ℕ
min_crc_blocksize = 1024

abbrev pub guest_page_size : ℕ
guest_page_size = 4096

abbrev pub min_rtextsize : ℕ
min_rtextsize = 4096

-- A device that a profile needs beside the scratch device.
pub data External : Type 0 where
  logdev rtdev : External

pub record Feature : Type 0 where
  pub mkfs : String
  pub mount : String
  pub v4 : Bool
  pub needs : Option External
  pub min_block : Option ℕ
  pub rt_extsize_mult : Option ℕ

abbrev plain : String → String → Feature
plain mkfs mount = record {
  mkfs = mkfs;
  mount = mount;
  v4 = false;
  needs = none;
  min_block = none;
  rt_extsize_mult = none;
}

abbrev realtime : String → Feature
realtime mkfs = record (plain mkfs "") { needs = some rtdev }

unfoldable pub features : Dict Feature
features =
    ("", plain "" "")
    ∷ ("full", plain "-m metadir=1" "-o usrquota,grpquota,prjquota")
    ∷ (
      "nofeat",
      plain "-m reflink=0,rmapbt=0,finobt=0,inobtcount=0,bigtime=0 -i sparse=0,nrext64=0" "",
    )
    ∷ ("quota", plain "" "-o usrquota,grpquota")
    ∷ ("prjquota", plain "" "-o prjquota")
    ∷ ("noreflink", plain "-m reflink=0" "")
    ∷ ("normapbt", plain "-m rmapbt=0" "")
    ∷ ("metadir", plain "-m metadir=1" "")
    ∷ ("nofinobt", plain "-m finobt=0,inobtcount=0" "")
    ∷ ("noinobtcount", plain "-m inobtcount=0" "")
    ∷ ("nosparse", plain "-i sparse=0" "")
    ∷ ("nobigtime", plain "-m bigtime=0" "")
    ∷ ("nonrext64", plain "-i nrext64=0" "")
    ∷ ("asciici", plain "-n version=ci" "")
    ∷ ("logdev", record (plain "" "") { needs = some logdev })
    ∷ ("realtime", realtime "-m reflink=0 -d rtinherit=1")
    ∷ ("realtime_rtx2", record (realtime "-d rtinherit=1") { rt_extsize_mult = some 2 })
    ∷ ("realtime_rtx4", record (realtime "-d rtinherit=1") { rt_extsize_mult = some 4 })
    ∷ (
      "realtime_reflink",
      record (realtime "-m metadir=1 -d rtinherit=1") { min_block = some 4096 },
    )
    ∷ ("nocrc", record (plain "-m crc=0" "") { v4 = true })
    ∷ []

unfoldable pub size_tag : ℕ → String
size_tag n = if n == 512 then "512" else decimal (n / 1024) <> "k"

unfoldable pub feature_names : List String
unfolding features keys
feature_names = "all" ∷ "default" ∷ keep (λ f. f != "") (keys features)

-- None where it raises: the feature is unknown.
unfoldable pub feature_keys : Option String → Option (List String)
feature_keys none = some (keys features)
feature_keys (some feature) =
    let key = if feature == "default" then "" else feature in
    if feature == "" || feature == "all"
    then some (keys features)
    else if contains (keys features) key
    then some (key ∷ [])
    else none

pub record Profile : Type 0 where
  pub mkfs : String
  pub mount : String
  pub needs : Option External

abbrev option_if : Bool → String → List String
option_if true text = text ∷ []
option_if false text = []

-- `rt_extsize_mult`, 0 where the feature has none: both are false.
abbrev pub mult_of : Feature → ℕ
mult_of def = get_or def.rt_extsize_mult 0

unfoldable pub section_name : String → ℕ → ℕ → String
section_name feat block sector =
    "xfs_"
    <> (if feat != "" then feat <> "_" else "")
    <> "bs"
    <> size_tag block
    <> "_ss"
    <> size_tag sector

unfoldable pub profile : Feature → ℕ → ℕ → Profile
profile def block sector =
    let parts =
      def.mkfs
      ∷ ("-b size=" <> decimal block)
      ∷ ("-s size=" <> decimal sector)
      ∷ option_if (mult_of def != 0) ("-r extsize=" <> decimal (mult_of def * block)) in
    record { mkfs = join " " (keep (λ p. p != "") parts); mount = def.mount; needs = def.needs }

unfoldable pub below_least : Option ℕ → ℕ → Bool
below_least none block = false
below_least (some least) block = ltb block least

-- The guards of the loop over the block sizes.
unfoldable pub skips : Feature → ℕ → Bool
skips def block =
    (not def.v4 && ltb block min_crc_blocksize)
    || (def.v4 && ltb guest_page_size block)
    || below_least def.min_block block
    || (mult_of def != 0 && ltb (mult_of def * block) min_rtextsize)

unfoldable pub sectors_into : String → Feature → ℕ → List ℕ → Dict Profile → Dict Profile
sectors_into feat def block [] m = m
sectors_into feat def block (sector ∷ sectors) m = sectors_into feat def block sectors (
    if ltb block sector
    then m
    else insert (section_name feat block sector) (profile def block sector) m)

unfoldable pub blocks_into : String → Feature → List ℕ → Dict Profile → Dict Profile
blocks_into feat def [] m = m
blocks_into feat def (block ∷ blocks) m =
    blocks_into feat def blocks
      (if skips def block then m else sectors_into feat def block sector_sizes m)

-- The section of a feature at mkfs's own geometry.
unfoldable pub default_into : String → Feature → Dict Profile → Dict Profile
default_into feat def m =
    insert ("xfs" <> (if feat != "" then "_" <> feat else ""))
      (record { mkfs = def.mkfs; mount = def.mount; needs = def.needs }) m

unfoldable pub features_into : String → List String → Dict Profile → Option (Dict Profile)
features_into geometry [] m = some m
features_into geometry (feat ∷ feats) m = elim (lookup feat features) [
  | none ↦ none
  | some def ↦ features_into geometry feats (
      if geometry == "default" then default_into feat def m else blocks_into feat def block_sizes m)
]

-- None where it raises: the geometry or the feature is unknown.
unfoldable pub xfs_profiles_matrix : Option String → String → Option (Dict Profile)
xfs_profiles_matrix feature geometry =
    if not (contains ("matrix" ∷ "default" ∷ []) geometry)
    then none
    else elim (feature_keys feature) [ none ↦ none | some feats ↦ features_into geometry feats [] ]

abbrev device_suffix : External → String
device_suffix logdev = "LOGDEV"
device_suffix rtdev = "RTDEV"

-- The empty variables of the external devices, which the rendered configuration fills.
abbrev external_lines : Option External → List String
external_lines none = []
external_lines (some device) =
    "USE_EXTERNAL=yes"
    ∷ ("TEST_" <> device_suffix device <> "=")
    ∷ ("SCRATCH_" <> device_suffix device <> "=")
    ∷ []

quoted : String → String → List String
quoted name value = option_if (value != "") (name <> "=\"" <> value <> "\"")

unfoldable pub section_text : String × Profile → String
unfolding quoted
section_text (name, p) = join "\n" (
    ("[" <> name <> "]")
    ∷ "FSTYP=xfs"
    ∷ (quoted "MKFS_OPTIONS" p.mkfs ++ (quoted "MOUNT_OPTIONS" p.mount ++ external_lines p.needs)))

unfoldable pub xfs_catalog_text : Option String → String → Option String
xfs_catalog_text feature geometry = elim (xfs_profiles_matrix feature geometry) [
  | none ↦ none
  | some profiles ↦ some (join "\n\n" (map section_text profiles) <> "\n")
]
