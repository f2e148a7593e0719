-- ===== src/Common/Gitrefs/Korg/Tests.antt =====
-- A picker that is opened twice.
use kdevops_ng.Prelude.{◌≡◌, refl, true, false, none, some, List, [], ◌∷◌, string_eq, nat_eq, arith}
use kdevops_ng.Common.Gitrefs.{strip_prefix}
use kdevops_ng.Common.Gitrefs.Korg.{
  Release, releases, drop_digits, ends_with_number, is_numeric, rows_of, parse_korg, Disk,
  mtime_within, World, fresh_releases, serve_stale, try_fetch, korg_releases,
}
use kdevops_ng.Common.Gitrefs.Korg.Quiet.{korg_releases-quiet, korg_releases-cached}

abbrev empty_disk : Disk
empty_disk = record { cache = none; marker = none }

abbrev found_now : World
found_now = record {
  now = 5000;
  writable = true;
  net = some (
      releases (
        record { version = "6.18-rc3"; moniker = "mainline"; iseol = false }
        ∷ record { version = "next-20251030"; moniker = "linux-next"; iseol = false }
        ∷ []));
}

abbrev lost_now : World
lost_now = record found_now { net = none }

abbrev soon : World
soon = record { now = 5030; writable = true; net = none }

abbrev rows : List Release
rows =
    record { tag = "v6.18-rc3"; moniker = "mainline"; iseol = false }
    ∷ record { tag = "next-20251030"; moniker = "linux-next"; iseol = false }
    ∷ []

parsed : parse_korg found_now.net ≡ some rows
unfolding parse_korg rows_of string_eq is_numeric drop_digits strip_prefix nat_eq ends_with_number
parsed = refl

fetches : (korg_releases found_now empty_disk).fetched ≡ true
unfolding korg_releases fresh_releases mtime_within try_fetch parse_korg
fetches = refl

loses : (korg_releases lost_now empty_disk).fetched ≡ true
unfolding korg_releases fresh_releases mtime_within try_fetch parse_korg serve_stale
loses = refl

korg_releases-quiet_example :
    (korg_releases soon (korg_releases lost_now empty_disk).disk).fetched ≡ false
korg_releases-quiet_example = korg_releases-quiet lost_now soon empty_disk refl loses (omega arith)

korg_releases-cached_example :
    korg_releases soon (korg_releases found_now empty_disk).disk
    ≡ record { found = rows; disk = (korg_releases found_now empty_disk).disk; fetched = false }
korg_releases-cached_example =
    korg_releases-cached found_now soon empty_disk rows refl fetches parsed (omega arith)
