-- ===== src/Blktests/Args/Members.antt =====
-- The tests that each unit runs.
use mathlib.Core.List.{append-nil, append_assoc}
use kdevops_ng.Prelude.{
  String, ◌≡◌, refl, sym, ap, ◌∙◌, ◌≢◌, Bool, true, false, Option, none, some, List, [], ◌∷◌, ◌++◌,
  ◌==◌, string_eq, arith, if◌then◌else◌,
}
use kdevops_ng.Prelude.Lists.{keep, All}
use kdevops_ng.Prelude.Dict.{Dict, lookup, lookup-insert}
use kdevops_ng.Prelude.Words.{words, join}
use kdevops_ng.Blktests.Args.{test_group, or_nil, add_test, by_group, joined, test_args, build_args}

-- A name that the pattern of tests matches.
unfoldable pub IsTest : String → Type 0
IsTest name = (group : String) × (test_group name ≡ some group)

abbrev is_group : String → Option String → Bool
is_group group none = false
is_group group (some other) = other == group

-- Whether a test is of the group.
abbrev pub is_of : String → String → Bool
is_of group name = is_group group (test_group name)

-- The positionals of a group, the empty text where it has no unit.
abbrev pub positionals : String → Dict String → String
positionals group out = elim (lookup group out) [ none ↦ "" | some args ↦ args ]

positionals-joined :
    (g : String) (out : Dict (List String))
    → positionals g (joined out) ≡ join " " (or_nil (lookup g out))
unfolding joined lookup join
positionals-joined g [] = refl
positionals-joined g ((j, members) ∷ out) = ground (arith, positionals-joined g out)

add_test-members :
    (g j name : String) (out : Dict (List String))
    → or_nil (lookup g (add_test j name out))
      ≡ or_nil (lookup g out) ++ (if j == g then name ∷ [] else [])
unfolding add_test
add_test-members g j name out = grind (
  arith,
  lookup-insert g j (or_nil (lookup j out) ++ name ∷ []) out,
  append-nil (or_nil (lookup g out)),
)

found_first :
    (found : Bool) (name : String) (old more : List String)
    → (old ++ (if found then name ∷ [] else [])) ++ more
      ≡ old ++ (if found then name ∷ more else more)
found_first true name old more = append_assoc old (name ∷ []) more
found_first false name old more = ap (λ xs. xs ++ more) (append-nil old)

of_known : (g name group : String) → test_group name ≡ some group → is_of g name ≡ (group == g)
of_known g name group e = ap (is_group g) e

by_group-members :
    (names : List String) (out : Dict (List String))
    → All IsTest names
    → (all : Dict (List String)) × (by_group names out ≡ some all)
      × ((g : String) → or_nil (lookup g all) ≡ or_nil (lookup g out) ++ keep (is_of g) names)
unfolding by_group IsTest
by_group-members [] out h = (out, refl, λ g. sym (append-nil (or_nil (lookup g out))))
by_group-members (name ∷ names) out ((group, e), h) =
    let (all, found, members) = by_group-members names (add_test group name out) h in
    (
      all,
      ap (λ o. elim o [ none ↦ none | some g ↦ by_group names (add_test g name out) ]) e ∙ found,
      λ g.
          members g
          ∙ ap (λ xs. xs ++ keep (is_of g) names) (add_test-members g group name out)
          ∙ found_first (group == g) name (or_nil (lookup g out)) (keep (is_of g) names)
          ∙ ap
              (λ yes.
                or_nil (lookup g out)
                ++ (if yes then name ∷ keep (is_of g) names else keep (is_of g) names))
              (sym (of_known g name group e)),
    )

test_args-members :
    (names : List String)
    → names ≢ []
    → All IsTest names
    → (out : Dict String) × (test_args names ≡ some out)
      × ((g : String) → positionals g out ≡ join " " (keep (is_of g) names))
unfolding test_args lookup
test_args-members [] some_test h = absurd (some_test refl)
test_args-members (name ∷ names) some_test h =
    let (all, found, members) = by_group-members (name ∷ names) [] h in
    (
      joined all,
      ap (λ o. elim o [ none ↦ none | some out ↦ some (joined out) ]) found,
      λ g. positionals-joined g all ∙ ap (join " ") (members g),
    )

-- Where the text has names, and each of them is a `group/nnn`, the tests mode gives every group
-- the tests of the text that are of it, all of them and in their order, and no other words; a
-- group that the text does not name gets none. The groups that are given change nothing.
pub build_args-members :
    (groups : List String) (tests : String)
    → words tests ≢ []
    → All IsTest (words tests)
    → (out : Dict String) × (build_args "tests" groups tests ≡ some out)
      × ((g : String) → positionals g out ≡ join " " (keep (is_of g) (words tests)))
unfolding build_args string_eq
build_args-members groups tests some_test h = test_args-members (words tests) some_test h
