-- ===== src/Common/Store/Layers.antt =====
-- Which entry of the index `latest_run_layer` gives.
use mathlib.Core.Path.{subst}
use kdevops_ng.Prelude.{
  ℕ, ◌≤◌, String, ◌≡◌, refl, ap, sym, ◌∙◌, Bool, true, false, not, ◌&&◌, none, some, Option, List,
  [], ◌∷◌, arith, string_eq, contains, ltb, inl, inr, ◌⊎◌, Bool-cases, Option-cases, starts_with,
  ◌<>◌,
}
use kdevops_ng.Prelude.Lists.{All, keep}
use kdevops_ng.Prelude.Dict.{Dict, lookup}
use kdevops_ng.Common.Store.Index.{
  Entry, Host, live_target, local_path, is_live, list_index, list_run_layers, newest_name, mtime_of,
  latest_run_layer, names_of, place, sorted,
}
use kdevops_ng.Common.Store.Pruning.{NodupKeys, newest_name-max, contains-keep}

-- Sorting a directory changes no entry.
lookup-place :
    (k : String) (e : String × Entry) (d : Dict Entry)
    → lookup e.0 d ≡ none
    → lookup k (place e d) ≡ lookup k (e ∷ d)
unfolding place lookup
lookup-place k e [] fresh = refl
lookup-place k e (f ∷ d) fresh = ground (arith, lookup-place k e d, fresh)

NodupKeys-place :
    (e : String × Entry) (d : Dict Entry)
    → lookup e.0 d ≡ none
    → NodupKeys d
    → NodupKeys (place e d)
unfolding place lookup
NodupKeys-place e [] fresh u = (refl, tt)
NodupKeys-place e (f ∷ d) fresh (f_fresh, u) =
    ground (arith, NodupKeys-place e d, lookup-place f.0 e d, fresh, f_fresh, u)

lookup-sorted :
    (d : Dict Entry)
    → NodupKeys d
    → NodupKeys (sorted d) × ((k : String) → lookup k (sorted d) ≡ lookup k d)
unfolding sorted lookup
lookup-sorted [] u = (tt, λ k. refl)
lookup-sorted (e ∷ d) (fresh, u) =
    let (v, same) = lookup-sorted d u in
    let fresh_there = same e.0 ∙ fresh in
    (
      NodupKeys-place e (sorted d) fresh_there v,
      λ k. lookup-place k e (sorted d) fresh_there ∙ ground (arith, same k),
    )

-- The names under a prefix are those that `local_path` answers.
answered_by : Option String → Bool
answered_by none = false
answered_by (some _) = true

abbrev answered : Host → String → Dict Entry → Bool
answered h n d = answered_by (live_target h (lookup n d))

names_of-answered :
    (h : Host) (prefix n : String) (d : Dict Entry)
    → NodupKeys d
    → contains (names_of h prefix d) n ≡ (starts_with n prefix && answered h n d)
unfolding live_target is_live lookup answered_by
names_of-answered h prefix n [] u = ground arith
names_of-answered h prefix n ((name, e) ∷ d) (fresh, u) =
    let ih = names_of-answered h prefix n d u in
    elim (string_eq.dec n name) [
      | yes p ↦
          let gone = ap (λ o. answered_by (live_target h o)) (ap (λ m. lookup m d) p ∙ fresh) in
          ground (arith, ih, p, gone)
      | no q ↦ ground (arith, ih, q)
    ]

-- A run layer of the project: a name of the project's, not of its devel layers, that `local_path`
-- answers.
abbrev pub RunLayer : String → Host → String → Type 0
RunLayer project h n =
    (starts_with n (project <> "-") ≡ true)
    × (starts_with n (project <> "-devel-") ≡ false)
    × ((target : String) × (local_path n h ≡ some target))

-- The name is a run layer just where it is listed.
is_run_layer : (o : Option String) → answered_by o ≡ true → (target : String) × (o ≡ some target)
unfolding answered_by
is_run_layer none h = cc
is_run_layer (some target) h = (target, refl)

list_index-answered :
    (prefix n : String) (h : Host)
    → NodupKeys h.index
    → contains (list_index prefix h) n ≡ (starts_with n prefix && answered h n h.index)
unfolding list_index
list_index-answered prefix n h u =
    let (v, same) = lookup-sorted h.index u in
    names_of-answered h prefix n (sorted h.index) v
    ∙ ap (λ o. starts_with n prefix && answered_by (live_target h o)) (same n)

both : (a b : Bool) → (a && b) ≡ true → (a ≡ true) × (b ≡ true)
both a b h = ground (arith, h)

off_lem : (b : Bool) → not b ≡ true → b ≡ false
off_lem b h = ground (arith, h)

listed-RunLayer :
    (project n : String) (h : Host)
    → NodupKeys h.index
    → contains (list_run_layers project h) n ≡ true
    → RunLayer project h n
unfolding list_run_layers local_path
listed-RunLayer project n h u there =
    let (listed, run) =
      contains-keep (λ m. not (starts_with m (project <> "-devel-")))
        (list_index (project <> "-") h) n there in
    let (named, live) = both _ _ (sym (list_index-answered (project <> "-") n h u) ∙ listed) in
    (named, off_lem _ run, is_run_layer _ live)

keep-contains :
    (p : String → Bool) (xs : List String) (r : String)
    → p r ≡ true
    → contains (keep p xs) r ≡ contains xs r
keep-contains p [] r h = refl
keep-contains p (x ∷ xs) r h = elim (string_eq.dec r x) [
  | yes e ↦ ground (arith, keep-contains p xs r h, h, e, ap p e)
  | no n ↦ ground (arith, keep-contains p xs r h, h, n)
]

RunLayer-listed :
    (project n : String) (h : Host)
    → NodupKeys h.index
    → RunLayer project h n
    → contains (list_run_layers project h) n ≡ true
unfolding list_run_layers local_path answered_by
RunLayer-listed project n h u (named, run, (target, live)) =
    keep-contains (λ m. not (starts_with m (project <> "-devel-"))) (list_index (project <> "-") h)
      n (ap not run)
    ∙ list_index-answered (project <> "-") n h u
    ∙ rw (named, live) refl

-- Against any name: an answer is a run layer, and the name is none or not newer; without an answer
-- the name is no run layer.
abbrev pub Newest : String → Host → String → Option String → Type 0
Newest project h n (some best) =
    RunLayer project h best
    × ((¬ RunLayer project h n) ⊎ (mtime_of (lookup n h.index) ≤ mtime_of (lookup best h.index)))
Newest project h n none = ¬ RunLayer project h n

all_at :
    (P : String → Type 0) (xs : List String) (n : String) → All P xs → contains xs n ≡ true → P n
all_at P [] n h there = cc
all_at P (x ∷ xs) n (one, h) there = elim (string_eq.dec n x) [
  | yes e ↦ subst P (sym e) one
  | no q ↦ all_at P xs n h (ground (arith, there, q))
]

newest_something :
    (h : Host) (b : String) (t : ℕ) (names : List String)
    → newest_name h (some (b, t)) names ≡ none
    → ⊥
unfolding newest_name
newest_something h b t [] e = cc
newest_something h b t (name ∷ names) e =
    elim (Bool-cases (ltb t (mtime_of (lookup name h.index)))) [
      | inl newer ↦ newest_something h name (mtime_of (lookup name h.index)) names (rw newer at e)
      | inr older ↦ newest_something h b t names (rw older at e)
    ]

newest_nothing :
    (h : Host) (names : List String) (n : String)
    → newest_name h none names ≡ none
    → contains names n ≡ true
    → ⊥
unfolding newest_name
newest_nothing h [] n e there = cc
newest_nothing h (name ∷ names) n e there =
    newest_something h name (mtime_of (lookup name h.index)) names e

-- In a directory that holds each name once, `latest_run_layer` gives a run layer of the project, one
-- that `local_path` answers and that is no devel layer, and no run layer's entry is newer than its
-- own; it gives nothing only where the project has no run layer.
pub latest_run_layer-Newest :
    (project : String) (h : Host) (n : String)
    → NodupKeys h.index
    → Newest project h n (latest_run_layer project h)
unfolding latest_run_layer
latest_run_layer-Newest project h n u =
    elim (Option-cases (newest_name h none (list_run_layers project h))) [
      | inl nothing ↦
          rw (nothing, Newest, latest_run_layer)
            (λ run.
              newest_nothing h (list_run_layers project h) n nothing
                (RunLayer-listed project n h u run))
      | inr ((best, s), e) ↦
          let (there, dated, bounds) =
            newest_name-max h (list_run_layers project h) {r = best} {s = s} e in
          rw (e, Newest, latest_run_layer)
            (
              listed-RunLayer project best h u there,
              elim (Bool-cases (contains (list_run_layers project h) n)) [
                | inl on ↦ inr (rw (← dated) (all_at _ (list_run_layers project h) n bounds on))
                | inr off ↦ inl (λ run. cc (sym off ∙ RunLayer-listed project n h u run))
              ],
            )
    ]
