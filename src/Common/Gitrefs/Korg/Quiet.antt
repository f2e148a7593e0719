-- ===== src/Common/Gitrefs/Korg/Quiet.antt =====
-- Calls after a fetch.
use kdevops_ng.Prelude.{
  ℕ, ◌+◌, ◌<◌, ◌≡◌, refl, sym, ap, ◌∙◌, true, false, inl, inr, Option, none, some, List, arith,
  Option-cases, Bool-cases,
}
use kdevops_ng.Common.Gitrefs.Korg.{
  cache_ttl, retry_window, Release, Payload, parse_korg, Disk, mtime_within, World, fresh_releases,
  serve_stale, keep_payload, try_fetch, korg_releases,
}

fetching :
    (w : World) (d : Disk) → (korg_releases w d).fetched ≡ true → korg_releases w d ≡ try_fetch w d
unfolding korg_releases serve_stale
fetching w d fetched = elim (Option-cases (fresh_releases w d)) [
  | inr (rows, e) ↦ cc (rw (e, korg_releases) at fetched)
  | inl e ↦ elim (Bool-cases (mtime_within w.now d.marker retry_window)) [
    | inl held ↦ cc (rw (e, held, korg_releases) at fetched)
    | inr free ↦ rw (e, free, korg_releases) refl
  ]
]

is_within :
    (now mtime window : ℕ) → now < mtime + window → mtime_within now (some mtime) window ≡ true
unfolding mtime_within
is_within now mtime window soon = ground (arith, soon)

-- A marker holds calls back.
held_back :
    (later : World) (d : Disk) (at_time : ℕ)
    → later.now < at_time + retry_window
    → (korg_releases later (record d { marker = some at_time })).fetched ≡ false
unfolding korg_releases serve_stale
held_back later d at_time soon =
    elim (Option-cases (fresh_releases later (record d { marker = some at_time }))) [
      | inr (rows, e) ↦ rw (e, korg_releases) refl
      | inl e ↦ rw (e, korg_releases) (rw (is_within later.now at_time retry_window soon) refl)
    ]

-- A cache that is young enough is served.
served :
    (later : World) (p : Payload) (marker : Option ℕ) (at_time : ℕ) (rows : List Release)
    → later.now < at_time + cache_ttl
    → parse_korg (some p) ≡ some rows
    → korg_releases later
        (record { cache = some (record { mtime = at_time; payload = p }); marker = marker })
      ≡ record {
        found = rows;
        disk = record { cache = some (record { mtime = at_time; payload = p }); marker = marker };
        fetched = false;
      }
unfolding korg_releases fresh_releases
served later p marker at_time rows soon parsed =
    rw (is_within later.now at_time cache_ttl soon, korg_releases, fresh_releases)
      (rw (parsed, korg_releases) refl)

-- What a fetch that brings releases leaves.
stored :
    (w : World) (d : Disk) (p : Payload) (rows : List Release)
    → w.writable ≡ true
    → w.net ≡ some p
    → parse_korg w.net ≡ some rows
    → try_fetch w d ≡ record {
      found = rows;
      disk = record { cache = some (record { mtime = w.now; payload = p }); marker = none };
      fetched = true;
    }
unfolding try_fetch keep_payload
stored w d p rows on net parsed = rw (parsed, try_fetch) (rw on (rw (net, keep_payload) refl))

marked :
    (w : World) (d : Disk)
    → w.writable ≡ true
    → parse_korg w.net ≡ none
    → (try_fetch w d).disk ≡ record d { marker = some w.now }
unfolding try_fetch serve_stale
marked w d on failed = rw (failed, try_fetch) (rw on refl)

after_failure :
    (w later : World) (d : Disk)
    → w.writable ≡ true
    → (korg_releases w d).fetched ≡ true
    → parse_korg w.net ≡ none
    → later.now < w.now + retry_window
    → (korg_releases later (korg_releases w d).disk).fetched ≡ false
after_failure w later d on fetched failed soon =
    rw (fetching w d fetched) (rw (marked w d on failed) (held_back later d w.now soon))

nothing_parsed :
    (net : Option Payload) (rows : List Release) → net ≡ none → parse_korg net ≡ some rows → ⊥
unfolding parse_korg
nothing_parsed none rows e parsed = cc
nothing_parsed (some p) rows e parsed = cc

-- Releases that were fetched, and that the disk took, are served as they are, without another fetch,
-- until the cache is too old.
pub korg_releases-cached :
    (w later : World) (d : Disk) (rows : List Release)
    → w.writable ≡ true
    → (korg_releases w d).fetched ≡ true
    → parse_korg w.net ≡ some rows
    → later.now < w.now + cache_ttl
    → korg_releases later (korg_releases w d).disk
      ≡ record { found = rows; disk = (korg_releases w d).disk; fetched = false }
korg_releases-cached w later d rows on fetched parsed soon = elim (Option-cases w.net) [
  | inl nothing ↦ absurd (nothing_parsed w.net rows nothing parsed)
  | inr (p, net) ↦ rw (fetching w d fetched) (
      rw (stored w d p rows on net parsed)
        (served later p none w.now rows soon (ap parse_korg (sym net) ∙ parsed)))
]

-- After a call that fetched, where the disk took the writes, no call within the retry window fetches,
-- whatever the network would bring.
pub korg_releases-quiet :
    (w later : World) (d : Disk)
    → w.writable ≡ true
    → (korg_releases w d).fetched ≡ true
    → later.now < w.now + retry_window
    → (korg_releases later (korg_releases w d).disk).fetched ≡ false
korg_releases-quiet w later d on fetched soon = elim (Option-cases (parse_korg w.net)) [
  | inl failed ↦ after_failure w later d on fetched failed soon
  | inr (rows, parsed) ↦
      rw (korg_releases-cached w later d rows on fetched parsed (omega (arith, soon))) refl
]
