-- ===== src/Common/Gitrefs/Korg.antt =====
-- f/common/gitrefs.py: kernel.org's releases, with the cache on the disk and the marker of the last
-- attempt that failed. Times are in whole seconds.
pub mod Quiet
mod Tests
use Prim.Native.Char.{code}
use kdevops_ng.Prelude.{
  ℕ, ◌+◌, String, ◌<>◌, Bool, true, false, ◌&&◌, ◌||◌, not, Option, none, some, List, [], ◌∷◌, ◌==◌,
  string_eq, nat_eq, leb, ltb, if◌then◌else◌,
}
use mathlib.Core.Option.{get_or}
use kdevops_ng.Common.Gitrefs.{strip_prefix}

abbrev pub cache_ttl : ℕ
cache_ttl = 3600

abbrev pub retry_window : ℕ
retry_window = 60

-- A release of the decoded document.
pub record RawRelease : Type 0 where
  pub version : String
  pub moniker : String
  pub iseol : Bool

pub record Release : Type 0 where
  pub tag : String
  pub moniker : String
  pub iseol : Bool

-- A text, by what it decodes to: not the document of releases, or its releases.
pub data Payload : Type 0 where
  malformed : Payload
  releases : List RawRelease → Payload

-- `\d+` at the start: what follows it.
unfoldable pub drop_digits : String → Option String
drop_digits String.[] = none
drop_digits (String.◌∷◌ c s) =
    if leb b'0' (code c) && leb (code c) b'9'
    then elim (drop_digits s) [ none ↦ some s | some rest ↦ some rest ]
    else none

abbrev pub is_end : String → Bool
is_end s = s == "" || s == "\n"

-- `prefix\d+$`
unfoldable pub ends_with_number : String → String → Bool
ends_with_number prefix s = elim (strip_prefix prefix s) [
  | none ↦ false
  | some rest ↦ elim (drop_digits rest) [ none ↦ false | some after ↦ is_end after ]
]

-- `^\d+\.\d+(\.\d+|-rc\d+)?$`
unfoldable pub is_numeric : String → Bool
is_numeric s = elim (drop_digits s) [
  | none ↦ false
  | some rest ↦ elim (strip_prefix "." rest) [
    | none ↦ false
    | some minor ↦ elim (drop_digits minor) [
      | none ↦ false
      | some after ↦ is_end after || ends_with_number "." after || ends_with_number "-rc" after
    ]
  ]
]

unfoldable pub rows_of : List RawRelease → List Release
rows_of [] = []
rows_of (r ∷ rs) =
    let rest = rows_of rs in
    if r.version == ""
    then rest
    else record {
      tag = if is_numeric r.version then "v" <> r.version else r.version;
      moniker = r.moniker;
      iseol = r.iseol;
    }
      ∷ rest

unfoldable pub parse_korg : Option Payload → Option (List Release)
parse_korg none = none
parse_korg (some malformed) = none
parse_korg (some (releases rs)) = some (rows_of rs)

-- A file with the time it was written at.
pub record Stamped : Type 0 where
  pub mtime : ℕ
  pub payload : Payload

-- The files, where SYSTEM_DIR is set.
pub record Disk : Type 0 where
  pub cache : Option Stamped
  pub marker : Option ℕ

unfoldable pub mtime_within : ℕ → Option ℕ → ℕ → Bool
mtime_within now none window = false
mtime_within now (some mtime) window = ltb now (mtime + window)

abbrev pub cache_time : Disk → Option ℕ
cache_time d = elim d.cache [ none ↦ none | some file ↦ some file.mtime ]

abbrev pub cached : Disk → Option Payload
cached d = elim d.cache [ none ↦ none | some file ↦ some file.payload ]

-- What a call meets: the time, what a fetch would bring before the deadline, and whether the disk
-- takes writes.
pub record World : Type 0 where
  pub now : ℕ
  pub net : Option Payload
  pub writable : Bool

pub record Outcome : Type 0 where
  pub found : List Release
  pub disk : Disk
  pub fetched : Bool

unfoldable pub fresh_releases : World → Disk → Option (List Release)
fresh_releases w d =
    if mtime_within w.now (cache_time d) cache_ttl then parse_korg (cached d) else none

unfoldable pub serve_stale : Bool → Disk → Outcome
serve_stale fetched d = record {
  found = get_or (parse_korg (cached d)) [];
  disk = d;
  fetched = fetched;
}

-- A payload is written to the cache, and the marker goes.
unfoldable pub keep_payload : ℕ → Option Payload → Disk → Disk
keep_payload now none d = record d { marker = none }
keep_payload now (some raw) d = record {
  cache = some (record { mtime = now; payload = raw });
  marker = none;
}

-- The fetch and what it leaves on the disk.
unfoldable pub try_fetch : World → Disk → Outcome
try_fetch w d = elim (parse_korg w.net) [
  | some rows ↦ record {
    found = rows;
    fetched = true;
    disk = if w.writable then keep_payload w.now w.net d else d;
  }
  | none ↦ serve_stale true (if w.writable then record d { marker = some w.now } else d)
]

unfoldable pub korg_releases : World → Disk → Outcome
korg_releases w d = elim (fresh_releases w d) [
  | some rows ↦ record { found = rows; disk = d; fetched = false }
  | none ↦ if mtime_within w.now d.marker retry_window then serve_stale false d else try_fetch w d
]

-- The same without SYSTEM_DIR: every call fetches.
unfoldable pub korg_releases_diskless : Option Payload → List Release
korg_releases_diskless net = get_or (parse_korg net) []
