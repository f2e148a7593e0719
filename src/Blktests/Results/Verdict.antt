-- ===== src/Blktests/Results/Verdict.antt =====
-- What a run that passed means.
use mathlib.Core.Path.{subst}
use mathlib.Core.Option.{some-injective}
use kdevops_ng.Prelude.{
  String, ◌≡◌, ◌≢◌, refl, ◌↔◌, inl, inr, Bool, true, false, not, ◌&&◌, sym, Option, none, some,
  List, [], ◌∷◌, map, arith, ◌==◌, string_eq, contains, Bool-cases,
}
use kdevops_ng.Prelude.Lists.{All, any, all}
use kdevops_ng.Blktests.Results.{
  Status, passed, failed, notrun, harmless, rows_status, group_status, Group, collect, is_passed,
  run_status,
}

-- A clean group: the guest stayed up, the unit ended with success in time, every row passed or
-- was not run, and one did not stay out.
pub record Clean (g : Group) : Type 0 where
  pub up : g.waited.crashed ≡ false
  pub in_time : g.waited.timed_out ≡ false
  pub success : g.waited.result ≡ "success"
  pub rows_fine : all (contains harmless) g.rows ≡ true
  pub one_passed : any (λ s. s == "pass") g.rows ≡ true

one-passed :
    (rows : List String)
    → all (contains harmless) rows ≡ true
    → all (λ s. s == "not run") rows ≡ false
    → any (λ s. s == "pass") rows ≡ true
one-passed [] fine some_ran = cc
one-passed (s ∷ rows) fine some_ran = ground (arith, one-passed rows)

passed-one :
    (rows : List String)
    → any (λ s. s == "pass") rows ≡ true
    → all (λ s. s == "not run") rows ≡ false
unfolding string_eq
passed-one [] one = cc
passed-one (s ∷ rows) one = elim (Bool-cases (s == "pass")) [
  | inl same ↦
      let is_pass : s ≡ "pass" = ground arith in
      subst (λ x. x == "not run" && all (λ t. t == "not run") rows ≡ false) (sym is_pass) refl
  | inr other ↦ ground (arith, passed-one rows)
]

all-any-not :
    (p : String → Bool) (rows : List String) → any (λ s. not (p s)) rows ≡ not (all p rows)
all-any-not p [] = refl
all-any-not p (s ∷ rows) = ground (arith, all-any-not p rows)

rows_passed :
    (rows : List String)
    → rows_status rows ≡ passed
    → (all (contains harmless) rows ≡ true) × (any (λ s. s == "pass") rows ≡ true)
unfolding rows_status
rows_passed [] e = cc
rows_passed (s ∷ rows) e =
    let none_harms = all-any-not (contains harmless) (s ∷ rows) in
    elim (Bool-cases (all (contains harmless) (s ∷ rows))) [
      | inr harm ↦ absurd (ground arith)
      | inl fine ↦ elim (Bool-cases (all (λ t. t == "not run") (s ∷ rows))) [
        | inl none_ran ↦ absurd (ground arith)
        | inr some_ran ↦ (fine, one-passed (s ∷ rows) fine some_ran)
      ]
    ]

passed_rows :
    (rows : List String)
    → all (contains harmless) rows ≡ true
    → any (λ s. s == "pass") rows ≡ true
    → rows_status rows ≡ passed
unfolding rows_status
passed_rows [] fine one = cc
passed_rows (s ∷ rows) fine one =
    let none_harms = all-any-not (contains harmless) (s ∷ rows) in
    let some_ran = passed-one (s ∷ rows) one in ground arith

-- A group that passes has no row that fails it.
pub group_status-harmless :
    (rows : List String) (unit_ok crashed timed_out : Bool)
    → group_status rows unit_ok crashed timed_out ≡ passed
    → all (contains harmless) rows ≡ true
unfolding group_status
group_status-harmless rows unit_ok crashed timed_out e = (rows_passed rows (ground (arith, e))).0

collect-Clean : (g : Group) → collect g ≡ passed → Clean g
unfolding collect group_status
collect-Clean g e =
    let fine = rows_passed g.rows (ground arith) in
    record {
      up = ground arith;
      in_time = ground arith;
      success = ground arith;
      rows_fine = fine.0;
      one_passed = fine.1;
    }

Clean-collect : (g : Group) → Clean g → collect g ≡ passed
unfolding collect group_status
Clean-collect g clean =
    let a = clean.up in
    let b = clean.in_time in
    let c = clean.success in
    let d = passed_rows g.rows clean.rows_fine clean.one_passed in ground arith

-- An entry of the run: a group, or a step that failed.
abbrev pub entry_status : Option Group → Option Status
entry_status none = none
entry_status (some g) = some (collect g)

abbrev pub CleanEntry : Option Group → Type 0
CleanEntry entry = (g : Group) × (entry ≡ some g) × Clean g

is_passed-passed : (s : Option Status) → is_passed s ≡ true → s ≡ some passed
is_passed-passed (some passed) e = refl
is_passed-passed (some failed) e = cc
is_passed-passed (some notrun) e = cc
is_passed-passed none e = cc

entry-CleanEntry : (entry : Option Group) → is_passed (entry_status entry) ≡ true → CleanEntry entry
entry-CleanEntry none e = cc
entry-CleanEntry (some g) e = (g, refl, collect-Clean g (some-injective _ _ (is_passed-passed _ e)))

CleanEntry-entry : (entry : Option Group) → CleanEntry entry → is_passed (entry_status entry) ≡ true
CleanEntry-entry none (g, e, clean) = cc
CleanEntry-entry (some g) (g', e, clean) =
    let same : g ≡ g' = some-injective _ _ e in
    rw (Clean-collect g (subst Clean (sym same) clean)) refl

all-CleanEntry :
    (groups : List (Option Group))
    → all is_passed (map entry_status groups) ≡ true ↔ All CleanEntry groups
all-CleanEntry [] = (λ e. tt, λ c. refl)
all-CleanEntry (g ∷ groups) =
    let (to, fro) = all-CleanEntry groups in
    (
      λ e. (entry-CleanEntry g (ground arith), to (ground arith)),
      λ (c, cs). ground (arith, CleanEntry-entry g c, fro cs),
    )

-- A run passes exactly when it has a group, no step of it failed, and every group is clean: its
-- guest stayed up, its unit ended with success in time, no result row failed or was cut off, and
-- one row passed.
pub run_status-CleanEntry :
    (groups : List (Option Group))
    → run_status (map entry_status groups) ≡ passed ↔ (groups ≢ []) × All CleanEntry groups
unfolding run_status
run_status-CleanEntry [] = (λ e. cc, λ c. absurd (c.0 refl))
run_status-CleanEntry (g ∷ groups) =
    let (to, fro) = all-CleanEntry (g ∷ groups) in
    elim (Bool-cases (all is_passed (map entry_status (g ∷ groups)))) [
      | inl clean ↦ (λ e. (λ n. cc, to clean), λ c. rw clean refl)
      | inr dirty ↦ (λ e. cc (rw dirty at e), λ c. cc (sym (rw dirty at (fro c.1))))
    ]
