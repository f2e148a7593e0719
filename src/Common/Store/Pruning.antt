-- ===== src/Common/Store/Pruning.antt =====
-- What removing entries from the index leaves.
use mathlib.Core.Path.{subst}
use mathlib.Core.Option.{some-injective}
use kdevops_ng.Prelude.{
  ℕ, ◌≤◌, String, ◌≡◌, refl, ap, sym, Bool, true, false, ◌&&◌, none, some, List, [], ◌∷◌, arith,
  string_eq, contains, inl, inr, ◌⊎◌, Bool-cases, Option-cases, ltb, if◌then◌else◌,
}
use kdevops_ng.Prelude.Lists.{All, keep}
use kdevops_ng.Prelude.Dict.{Dict, lookup, erase, lookup-erase}
use kdevops_ng.Common.Store.Index.{
  Entry, Host, live_target, local_path, is_live, newest_name, mtime_of, latest_index, names_of,
}
use kdevops_ng.Common.Store.Catalog.{forget_each, forget, is_dangling, prune_entries, prune}

-- A directory holds each name once.
abbrev pub NodupKeys : Dict Entry → Type 0
NodupKeys [] = Unit
NodupKeys ((k, _) ∷ d) = (lookup k d ≡ none) × NodupKeys d

lookup-forget_each :
    (names : List String) (h : Host) (k : String)
    → lookup k (forget_each names h).1.index ≡ (if contains names k then none else lookup k h.index)
lookup-forget_each [] h k = refl
lookup-forget_each (name ∷ names) h k = ground (
  arith,
  lookup-forget_each names (record h { index = erase name h.index }) k,
  lookup-erase k name h.index,
)

-- Forgetting removes the entries of the given names and no other; without a confirmation or a
-- name the host stays as it is.
pub lookup-forget :
    (names : List String) (confirm : Bool) (h : Host) (k : String)
    → lookup k (forget names confirm h).1.index
      ≡ (if confirm && contains names k then none else lookup k h.index)
unfolding forget
lookup-forget [] confirm h k = ground arith
lookup-forget (name ∷ names) false h k = refl
lookup-forget (name ∷ names) true h k = lookup-forget_each (name ∷ names) h k

live-prune_entries :
    (h : Host) (k : String) (d : Dict Entry)
    → NodupKeys d
    → live_target h (lookup k (prune_entries h d).1) ≡ live_target h (lookup k d)
unfolding live_target is_dangling is_live lookup
live-prune_entries h k [] u = refl
live-prune_entries h k ((name, e) ∷ d) (fresh, u) = ground (arith, live-prune_entries h k d u)

prune_entries_idem : (h : Host) (d : Dict Entry) → (prune_entries h (prune_entries h d).1).0 ≡ []
prune_entries_idem h [] = refl
prune_entries_idem h ((name, e) ∷ d) = ground (arith, prune_entries_idem h d)

-- In a directory that holds each name once, pruning changes no answer of `local_path`, and a
-- second pruning finds nothing.
pub local_path-prune :
    (h : Host) (name : String)
    → NodupKeys h.index
    → (local_path name (prune h).1 ≡ local_path name h) × ((prune (prune h).1).0 ≡ [])
unfolding prune local_path live_target
local_path-prune h name u = (live-prune_entries h name h.index u, prune_entries_idem h h.index)

pub contains-keep :
    (p : String → Bool) (xs : List String) (r : String)
    → contains (keep p xs) r ≡ true
    → (contains xs r ≡ true) × (p r ≡ true)
contains-keep p [] r h = cc
contains-keep p (x ∷ xs) r h = ground (arith, contains-keep p xs r)

-- The loop keeps the newest of the held name and the names to come.
newest_from :
    (h : Host) (b : String) (t : ℕ) (names : List String) {r : String} {s : ℕ}
    → newest_name h (some (b, t)) names ≡ some (r, s)
    → (t ≤ s)
      × All (λ n. mtime_of (lookup n h.index) ≤ s) names
      × (((r ≡ b) × (s ≡ t)) ⊎ ((contains names r ≡ true) × (s ≡ mtime_of (lookup r h.index))))
unfolding newest_name
newest_from h b t [] {r} {s} e =
    let p = some-injective _ _ e in
    let same_time : t ≡ s = ap (λ (x : String × ℕ). x.1) p in
    (omega arith, tt, inl (sym (ap (λ (x : String × ℕ). x.0) p), sym same_time))
newest_from h b t (name ∷ names) {r} {s} e =
    elim (Bool-cases (ltb t (mtime_of (lookup name h.index)))) [
      | inl newer ↦
          let (le, all, src) =
            newest_from h name (mtime_of (lookup name h.index)) names {r = r} {s = s}
              (rw newer at e) in
          (
            ground arith,
            (le, all),
            elim src [
              | inl (named, dated) ↦ inr (ground arith, rw named dated)
              | inr (m, dated) ↦ inr (ground arith, dated)
            ],
          )
      | inr older ↦
          let (le, all, src) = newest_from h b t names {r = r} {s = s} (rw older at e) in
          (
            le,
            (ground arith, all),
            elim src [ inl same ↦ inl same | inr (m, dated) ↦ inr (ground arith, dated) ],
          )
    ]

pub newest_name-max :
    (h : Host) (names : List String) {r : String} {s : ℕ}
    → newest_name h none names ≡ some (r, s)
    → (contains names r ≡ true)
      × (s ≡ mtime_of (lookup r h.index))
      × All (λ n. mtime_of (lookup n h.index) ≤ s) names
unfolding newest_name
newest_name-max h [] e = cc
newest_name-max h (name ∷ names) {r} {s} e =
    let (le, all, src) =
      newest_from h name (mtime_of (lookup name h.index)) names {r = r} {s = s} e in
    elim src [
      | inl (named, dated) ↦ (ground arith, rw named dated, (le, all))
      | inr (there, dated) ↦ (ground arith, dated, (le, all))
    ]

-- `latest_index` gives a live entry under the prefix, and none of those is newer.
pub latest_index-newest :
    (prefix : String) (h : Host) {best : String}
    → latest_index prefix h ≡ some best
    → (contains (names_of h prefix h.index) best ≡ true)
      × All
          (λ n. mtime_of (lookup n h.index) ≤ mtime_of (lookup best h.index))
          (names_of h prefix h.index)
unfolding latest_index
latest_index-newest prefix h {best} found =
    elim (Option-cases (newest_name h none (names_of h prefix h.index))) [
      | inl nothing ↦ cc (rw (nothing, latest_index) at found)
      | inr ((r, s), e) ↦
          let (there, dated, bounds) =
            newest_name-max h (names_of h prefix h.index) {r = r} {s = s} e in
          let r_is : r ≡ best = some-injective _ _ (rw (e, latest_index) at found) in
          subst (Newest h (names_of h prefix h.index)) r_is (there, rw (← dated) bounds)
    ]
  where
    Newest : Host → List String → String → Type 0
    Newest h names b =
        (contains names b ≡ true)
        × All (λ n. mtime_of (lookup n h.index) ≤ mtime_of (lookup b h.index)) names
