-- ===== src/Qsu/Drives.antt =====
-- f/qsu/common.py: `nvme_drives`, which composes the NVMe drives of a guest or refuses a setting that
-- QEMU would not start with.
pub mod Keys
pub mod Region
pub mod Backend
pub mod Opens
use Prim.Native.Char.{code}
use Prim.Native.Nat.{bit_and}
use mathlib.Core.Option.{get_or}
use kdevops_ng.Prelude.{
  ℕ, zero, suc, ◌+◌, ◌-◌, ◌*◌, String, ◌<>◌, Bool, true, false, ◌&&◌, ◌||◌, not, Option, none, some,
  List, [], ◌∷◌, ◌++◌, map, ◌==◌, ◌!=◌, string_eq, nat_eq, list_eq, contains, leb, ltb,
  if◌then◌else◌,
}
use kdevops_ng.Prelude.Lists.{length, get_elem?}
use kdevops_ng.Prelude.Dict.{Dict, lookup, erase, has}
use kdevops_ng.Prelude.Words.{strip, split_on, decimal}
use kdevops_ng.Common.Worktree.Labels.{codes, lower}

-- The values of a drive's dict. A PMR's `share` is there where it is off, `pmem` where it is on.
pub record Pmr : Type 0 where
  pub size : ℕ
  pub share_off : Bool
  pub pmem : Bool

pub data Setting : Type 0 where
  text : String → Setting
  number : ℕ → Setting
  on : Setting
  memory : Pmr → Setting

pub record Drive : Type 0 where
  pub settings : Dict Setting
  pub namespaces : List (Dict Setting)

-- The inputs: the knobs with `str` of their values, those that are None left out.
pub record DriveInputs : Type 0 where
  pub nvme_drives : List Drive
  pub nvme_drive_count : ℕ
  pub nvme_drive_size_gb : ℕ
  pub knobs : Dict String
  pub atomic_dn : Bool
  pub atomic_mam : Bool
  pub legacy_cmb : Bool
  pub pmr_share : Bool
  pub pmr_pmem : Bool

-- The ValueErrors.
pub data Refusal : Type 0 where
  unknown_driver needs_discard needs_direct not_on_off not_an_integer bad_pmr_size needs_share :
      Refusal

pub data Made {ℓ} (A : Type ℓ) : Type ℓ where
  made : A → Made A
  refused : Refusal → Made A

infixl 20 ◌>>=◌
unfoldable pub ◌>>=◌ {ℓ κ} : {A : Type ℓ} {B : Type κ} → Made A → (A → Made B) → Made B
made a >>= f = f a
refused why >>= f = refused why

abbrev pub backend_knobs : List (String × String)
backend_knobs =
    ("aio", "aio")
    ∷ ("cache", "cache")
    ∷ ("aio_max_batch", "file.aio-max-batch")
    ∷ ("discard", "discard")
    ∷ ("detect_zeroes", "detect-zeroes")
    ∷ []

abbrev pub null_knobs : List (String × String)
null_knobs = ("read_zeroes", "read-zeroes") ∷ ("latency_ns", "latency-ns") ∷ []

abbrev pub ctrl_knobs : List (String × String)
ctrl_knobs =
    ("mdts", "mdts")
    ∷ ("max_ioqpairs", "max_ioqpairs")
    ∷ ("msix_qsize", "msix_qsize")
    ∷ ("mqes", "mqes")
    ∷ ("dbcs", "dbcs")
    ∷ ("atomic_awun", "atomic.awun")
    ∷ ("atomic_awupf", "atomic.awupf")
    ∷ []

abbrev pub null_drivers : List String
null_drivers = "null-co" ∷ "null-aio" ∷ []

abbrev pub cache_direct : List String
cache_direct = "none" ∷ "directsync" ∷ []

abbrev pub ns_knobs : List (String × String)
ns_knobs =
    ("atomic_nawun", "atomic.nawun")
    ∷ ("atomic_nawupf", "atomic.nawupf")
    ∷ ("atomic_nabsn", "atomic.nabsn")
    ∷ ("atomic_nabspf", "atomic.nabspf")
    ∷ ("atomic_nabo", "atomic.nabo")
    ∷ []

abbrev pub blockconf_knobs : List (String × String)
blockconf_knobs =
    ("logical_block_size", "logical_block_size")
    ∷ ("physical_block_size", "physical_block_size")
    ∷ ("min_io_size", "min_io_size")
    ∷ ("opt_io_size", "opt_io_size")
    ∷ ("discard_granularity", "discard_granularity")
    ∷ ("write_cache", "write-cache")
    ∷ []

abbrev part : ℕ → List String → String
part i [] = ""
part i (only ∷ []) = only
part i (first ∷ second ∷ rest) = get_or (get_elem? (first ∷ second ∷ rest) i) ""

-- One value is every drive's; the values of a list go by index.
unfoldable pub drive_pick : Option String → ℕ → String
drive_pick raw i = strip (part i (split_on b',' (get_or raw "")))

abbrev pub true_words : List (List ℕ)
true_words = map codes ("on" ∷ "true" ∷ "1" ∷ "yes" ∷ [])

abbrev pub false_words : List (List ℕ)
false_words = map codes ("off" ∷ "false" ∷ "0" ∷ "no" ∷ "none" ∷ [])

unfoldable pub drive_onoff : Option String → ℕ → Bool → Made Bool
drive_onoff raw i default_value =
    let v = map lower (codes (drive_pick raw i)) in
    if v == []
    then made default_value
    else if contains true_words v
    then made true
    else if contains false_words v
    then made false
    else refused not_on_off

-- The keys of a table differ, as do those of two tables: what is written goes to the end.
unfoldable pub bucket : Dict String → List (String × String) → ℕ → Dict Setting
bucket knobs [] i = []
bucket knobs ((param, key) ∷ table) i =
    let rest = bucket knobs table i in
    let v = drive_pick (lookup param knobs) i in if v != "" then (key, text v) ∷ rest else rest

-- `int(text)` of a stripped text: a sign, and digits with single underscores between them.
unfoldable pub number_from : Bool → ℕ → String → Option ℕ
number_from after_digit n String.[] = if after_digit then some n else none
number_from after_digit n (String.◌∷◌ c s) =
    let digit = number_from true (n * 10 + (code c - b'0')) s in
    let joint = number_from false n s in
    if leb b'0' (code c) && leb (code c) b'9'
    then digit
    else if code c == b'_' && after_digit
    then joint
    else none

-- Whether it is below zero, and its size.
abbrev signed : Bool → Option ℕ → Option (Bool × ℕ)
signed minus none = none
signed minus (some n) = some (minus && n != 0, n)

unfoldable pub int_of : String → Option (Bool × ℕ)
int_of String.[] = none
int_of (String.◌∷◌ c s) =
    if code c == b'-'
    then signed true (number_from false 0 s)
    else if code c == b'+'
    then signed false (number_from false 0 s)
    else signed false (number_from false 0 (String.◌∷◌ c s))

unfoldable pub pmr_checked : ℕ → DriveInputs → ℕ → Made (Dict Setting)
pmr_checked page inputs size =
    if bit_and size (size - 1) != 0 || ltb size page
    then refused bad_pmr_size
    else if inputs.pmr_pmem && not inputs.pmr_share
    then refused needs_share
    else made (
        (
          "pmr",
          memory (record { size = size; share_off = not inputs.pmr_share; pmem = inputs.pmr_pmem }),
        )
        ∷ [])

unfoldable pub pmr_sized : ℕ → DriveInputs → Option (Bool × ℕ) → Made (Dict Setting)
pmr_sized page inputs none = refused not_an_integer
pmr_sized page inputs (some (true, size)) = refused bad_pmr_size
pmr_sized page inputs (some (false, size)) =
    if size == 0 then made [] else pmr_checked page inputs size

-- `page` is the host's page size.
unfoldable pub pmr_of : ℕ → DriveInputs → ℕ → Made (Dict Setting)
pmr_of page inputs i =
    let size = drive_pick (lookup "pmr_size" inputs.knobs) i in
    if size == "" then made [] else pmr_sized page inputs (int_of size)

abbrev pub flag : Bool → String → Dict Setting
flag set key = if set then (key, on) ∷ [] else []

unfoldable pub cmb_of : DriveInputs → ℕ → Dict Setting
cmb_of inputs i =
    let cmb = drive_pick (lookup "cmb_size_mb" inputs.knobs) i in
    if cmb != "" && cmb != "0"
    then ("cmb_size_mb", text cmb) ∷ flag inputs.legacy_cmb "legacy-cmb"
    else []

unfoldable pub ctrl_of : ℕ → DriveInputs → ℕ → Made (Dict Setting)
ctrl_of page inputs i = do
  ioeventfd ← drive_onoff (lookup "ioeventfd" inputs.knobs) i true
  pmr ← pmr_of page inputs i
  made (
      bucket inputs.knobs ctrl_knobs i
      ++ (flag inputs.atomic_dn "atomic.dn"
          ++ (flag ioeventfd "ioeventfd" ++ (cmb_of inputs i ++ pmr))))

-- What a drive is on, with its serial, and the settings of the backend.
pub record Base : Type 0 where
  pub place : Dict Setting
  pub backend : Dict Setting

unfoldable pub read_zeroes : Dict Setting → Dict Setting
read_zeroes backend =
    if has "read-zeroes" backend then backend else backend ++ (("read-zeroes", text "on") ∷ [])

abbrev pub serial_of : ℕ → String
serial_of i = "kdevops" <> decimal i

unfoldable pub null_base : DriveInputs → String → ℕ → Base
null_base inputs driver i =
    let gb = inputs.nvme_drive_size_gb in
    record {
      place =
          ("driver", text driver)
          ∷ ("serial", text (serial_of i))
          ∷ (if gb != 0 then ("size", number (gb * 1073741824)) ∷ [] else []);
      backend = read_zeroes (bucket inputs.knobs null_knobs i);
    }

-- The text of a setting, empty where it is absent.
abbrev pub text_of : Option Setting → String
text_of (some (text v)) = v
text_of (some _) = ""
text_of none = ""

unfoldable pub file_checked : Base → Made Base
file_checked base =
    let backend = base.backend in
    if text_of (lookup "detect-zeroes" backend) == "unmap"
      && text_of (lookup "discard" backend) != "unmap"
    then refused needs_discard
    else if text_of (lookup "aio" backend) == "native"
        && not (contains cache_direct (text_of (lookup "cache" backend)))
    then refused needs_direct
    else made base

unfoldable pub format_of : DriveInputs → ℕ → String
format_of inputs i =
    let picked = drive_pick (lookup "format" inputs.knobs) i in
    if picked == "" then "qcow2" else picked

unfoldable pub file_base : DriveInputs → ℕ → Base
file_base inputs i =
    let format = format_of inputs i in
    record {
      place =
          ("file", text (("nvme" <> decimal i) <> ("." <> format)))
          ∷ ("format", text format)
          ∷ ("serial", text (serial_of i))
          ∷ [];
      backend = bucket inputs.knobs backend_knobs i;
    }

unfoldable pub base_of : DriveInputs → ℕ → Made Base
base_of inputs i =
    let driver = drive_pick (lookup "driver" inputs.knobs) i in
    if driver == ""
    then file_checked (file_base inputs i)
    else if contains null_drivers driver
    then made (null_base inputs driver i)
    else refused unknown_driver

unfoldable pub ns_of : DriveInputs → ℕ → Dict Setting
ns_of inputs i = bucket inputs.knobs ns_knobs i ++ flag inputs.atomic_mam "atomic.mam"

abbrev pub is_empty : Dict Setting → Bool
is_empty [] = true
is_empty (_ ∷ _) = false

unfoldable pub drive_with : DriveInputs → ℕ → Base → Dict Setting → Drive
drive_with inputs i base ctrl =
    let ns = ns_of inputs i in
    let blockconf = bucket inputs.knobs blockconf_knobs i in
    if is_empty ns
    then record { settings = base.place ++ (base.backend ++ (ctrl ++ blockconf)); namespaces = [] }
    else record {
      settings = ("serial", text (serial_of i)) ∷ ctrl;
      namespaces = (erase "serial" base.place ++ (base.backend ++ (blockconf ++ ns))) ∷ [];
    }

unfoldable pub drive_at : ℕ → DriveInputs → ℕ → Made Drive
drive_at page inputs i = do
  base ← base_of inputs i
  ctrl ← ctrl_of page inputs i
  made (drive_with inputs i base ctrl)

unfoldable pub drives_from : ℕ → DriveInputs → ℕ → ℕ → Made (List Drive)
drives_from page inputs i zero = made []
drives_from page inputs i (suc count) = do
  drive ← drive_at page inputs i
  drives ← drives_from page inputs (suc i) count
  made (drive ∷ drives)

abbrev pub given_or : List Drive → Made (List Drive) → Made (List Drive)
given_or [] composed = composed
given_or (drive ∷ drives) composed = made (drive ∷ drives)

unfoldable pub nvme_drives : ℕ → DriveInputs → Made (List Drive)
nvme_drives page inputs =
    given_or inputs.nvme_drives (drives_from page inputs 0 inputs.nvme_drive_count)
