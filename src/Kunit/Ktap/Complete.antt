-- ===== src/Kunit/Ktap/Complete.antt =====
-- Complete summaries, and journals that go on.
use mathlib.Core.List.{append-nil, append_assoc}
use mathlib.Core.Option.{some-injective}
use kdevops_ng.Prelude.{
  ℕ, ◌+◌, String, ◌≡◌, refl, ap, sym, ◌∙◌, inl, inr, Bool, true, false, none, some, List, [], ◌∷◌,
  ◌++◌, arith, ◌==◌, string_eq, nat_eq, ltb, Bool-cases, Option-cases,
}
use kdevops_ng.Prelude.Lists.{length, length-append}
use kdevops_ng.Kunit.Ktap.{
  Line, subtest, plan_line, result, stats, other, Status, Test, Summary, empty_summary, add_result,
  take_plan, scan, planned, parse_after, last_header, parse_ktap,
}

-- Each test is counted once.
Tallied : Summary → Type 0
Tallied s = length s.tests ≡ s.passed_count + s.failed_count + s.skipped_count

add_result-Tallied :
    (is_ok is_skip : Bool) (name message : String) (s : Summary)
    → Tallied s
    → Tallied (add_result is_ok is_skip name message s)
unfolding add_result Tallied
add_result-Tallied is_ok true name message s h = ground (
  arith,
  length-append s.tests (record { name = name; status = Status.notrun; message = message } ∷ []),
)
add_result-Tallied true false name message s h = ground (
  arith,
  length-append s.tests (record { name = name; status = Status.passed; message = message } ∷ []),
)
add_result-Tallied false false name message s h = ground (
  arith,
  length-append s.tests (record { name = name; status = Status.failed; message = message } ∷ []),
)

take_plan-Tallied : (d i n : ℕ) (s : Summary) → Tallied s → Tallied (take_plan d i n s)
unfolding take_plan Tallied
take_plan-Tallied d i n s h = elim (Option-cases s.plan) [
  | inr (m, e) ↦ rw (e, take_plan) h
  | inl e ↦ elim (Bool-cases (i == d)) [
    | inl same ↦ rw (e, same, take_plan) h
    | inr differ ↦ rw (e, differ, take_plan) h
  ]
]

scan-Tallied : (d : ℕ) (lines : List Line) (s : Summary) → Tallied s → Tallied (scan d lines s)
unfolding scan
scan-Tallied d [] s h = h
scan-Tallied d (plan_line i n ∷ lines) s h = scan-Tallied d lines _ (take_plan-Tallied d i n s h)
scan-Tallied d (result i is_ok is_skip name message ∷ lines) s h = elim (Bool-cases (ltb i d)) [
  | inl outside ↦ rw outside h
  | inr inside ↦ elim (Bool-cases (ltb d i)) [
    | inl nested ↦ rw (inside, nested) (scan-Tallied d lines s h)
    | inr own ↦
        rw (inside, own)
          (scan-Tallied d lines _ (add_result-Tallied is_ok is_skip name message s h))
  ]
]
scan-Tallied d (subtest _ _ ∷ lines) s h = scan-Tallied d lines s h
scan-Tallied d (stats _ _ _ _ ∷ lines) s h = scan-Tallied d lines s h
scan-Tallied d (other ∷ lines) s h = scan-Tallied d lines s h

-- A later summary of the same journal: more tests, and the plan stays once it is known.
abbrev Extends : Summary → Summary → Type 0
Extends s t =
    ((more : List Test) × (t.tests ≡ s.tests ++ more))
    × ((n : ℕ) → s.plan ≡ some n → t.plan ≡ some n)

Extends-refl : (s : Summary) → Extends s s
Extends-refl s = (([], sym (append-nil s.tests)), λ n e. e)

Extends-trans : (s t u : Summary) → Extends s t → Extends t u → Extends s u
Extends-trans s t u ((a, p), f) ((b, q), g) =
    ((a ++ b, q ∙ ap (λ l. l ++ b) p ∙ append_assoc s.tests a b), λ n e. g n (f n e))

add_result-Extends :
    (is_ok is_skip : Bool) (name message : String) (s : Summary)
    → Extends s (add_result is_ok is_skip name message s)
unfolding add_result
add_result-Extends is_ok true name message s = ((_, refl), λ n e. e)
add_result-Extends true false name message s = ((_, refl), λ n e. e)
add_result-Extends false false name message s = ((_, refl), λ n e. e)

take_plan-Extends : (d i n : ℕ) (s : Summary) → Extends s (take_plan d i n s)
unfolding take_plan
take_plan-Extends d i n s = elim (Option-cases s.plan) [
  | inr (m, e) ↦ rw (e, take_plan) (([], sym (append-nil s.tests)), λ k p. e ∙ p)
  | inl e ↦ elim (Bool-cases (i == d)) [
    | inl same ↦ rw (e, same, take_plan) (([], sym (append-nil s.tests)), λ k p. cc)
    | inr differ ↦ rw (e, differ, take_plan) (([], sym (append-nil s.tests)), λ k p. cc)
  ]
]

scan-Extends : (d : ℕ) (lines : List Line) (s : Summary) → Extends s (scan d lines s)
unfolding scan
scan-Extends d [] s = Extends-refl s
scan-Extends d (plan_line i n ∷ lines) s =
    Extends-trans s (take_plan d i n s) (scan d lines (take_plan d i n s))
      (take_plan-Extends d i n s) (scan-Extends d lines (take_plan d i n s))
scan-Extends d (result i is_ok is_skip name message ∷ lines) s = elim (Bool-cases (ltb i d)) [
  | inl outside ↦ rw outside (Extends-refl s)
  | inr inside ↦ elim (Bool-cases (ltb d i)) [
    | inl nested ↦ rw (inside, nested) (scan-Extends d lines s)
    | inr own ↦
        rw (inside, own)
          (Extends-trans s (add_result is_ok is_skip name message s)
            (scan d lines (add_result is_ok is_skip name message s))
            (add_result-Extends is_ok is_skip name message s)
            (scan-Extends d lines (add_result is_ok is_skip name message s)))
  ]
]
scan-Extends d (subtest _ _ ∷ lines) s = scan-Extends d lines s
scan-Extends d (stats _ _ _ _ ∷ lines) s = scan-Extends d lines s
scan-Extends d (other ∷ lines) s = scan-Extends d lines s

scan-append_Extends :
    (d : ℕ) (xs ys : List Line) (s : Summary) → Extends (scan d xs s) (scan d (xs ++ ys) s)
unfolding scan
scan-append_Extends d [] ys s = scan-Extends d ys s
scan-append_Extends d (plan_line i n ∷ xs) ys s = scan-append_Extends d xs ys (take_plan d i n s)
scan-append_Extends d (result i is_ok is_skip name message ∷ xs) ys s =
    elim (Bool-cases (ltb i d)) [
      | inl outside ↦ rw outside (Extends-refl s)
      | inr inside ↦ elim (Bool-cases (ltb d i)) [
        | inl nested ↦ rw (inside, nested) (scan-append_Extends d xs ys s)
        | inr own ↦
            rw (inside, own) (scan-append_Extends d xs ys (add_result is_ok is_skip name message s))
      ]
    ]
scan-append_Extends d (subtest _ _ ∷ xs) ys s = scan-append_Extends d xs ys s
scan-append_Extends d (stats _ _ _ _ ∷ xs) ys s = scan-append_Extends d xs ys s
scan-append_Extends d (other ∷ xs) ys s = scan-append_Extends d xs ys s

abbrev first_summary : Summary
first_summary = record empty_summary { report_present = true }

planned-length :
    (s : Summary) → planned s ≡ true → (n : ℕ) × (s.plan ≡ some n) × (length s.tests ≡ n)
unfolding planned
planned-length s e = elim (Option-cases s.plan) [
  | inl no_plan ↦ cc (rw (no_plan, planned) at e)
  | inr (n, is_n) ↦ let counted = rw (is_n, planned) at e in (n, is_n, ground arith)
]

none_more :
    (more : List Test) (tests : List Test)
    → length (tests ++ more) ≡ length tests
    → tests ++ more ≡ tests
none_more [] tests e = append-nil tests
none_more (t ∷ more) tests e = absurd (omega (arith, length-append tests (t ∷ more), e))

planned_alike :
    (s t : Summary) → Extends s t → planned s ≡ true → planned t ≡ true → t.tests ≡ s.tests
planned_alike s t ((more, tests_are), keeps) p q =
    let (n, s_plan, s_len) = planned-length s p in
    let (m, t_plan, t_len) = planned-length t q in
    let one_plan : n ≡ m = some-injective n m (sym (keeps n s_plan) ∙ t_plan) in
    tests_are
    ∙ none_more more s.tests (sym (ap length tests_are) ∙ t_len ∙ sym one_plan ∙ sym s_len)

last_header-none :
    (suite : String) (xs ys : List Line)
    → last_header suite xs ≡ none
    → last_header suite ys ≡ none
    → last_header suite (xs ++ ys) ≡ none
unfolding last_header
last_header-none suite [] ys e later = later
last_header-none suite (plan_line _ _ ∷ xs) ys e later = last_header-none suite xs ys e later
last_header-none suite (result _ _ _ _ _ ∷ xs) ys e later = last_header-none suite xs ys e later
last_header-none suite (stats _ _ _ _ ∷ xs) ys e later = last_header-none suite xs ys e later
last_header-none suite (other ∷ xs) ys e later = last_header-none suite xs ys e later
last_header-none suite (subtest i name ∷ xs) ys e later =
    elim (Option-cases (last_header suite xs)) [
      | inr (found, is_found) ↦ cc (rw (is_found, last_header) at e)
      | inl absent ↦ elim (Bool-cases (name == suite)) [
        | inl same ↦ cc (rw (absent, same, last_header) at e)
        | inr differ ↦ rw (last_header-none suite xs ys absent later, differ, last_header) refl
      ]
    ]

last_header-append :
    (suite : String) (xs ys : List Line) {d : ℕ} {rest : List Line}
    → last_header suite xs ≡ some (d, rest)
    → last_header suite ys ≡ none
    → last_header suite (xs ++ ys) ≡ some (d, rest ++ ys)
unfolding last_header
last_header-append suite [] ys e none_later = cc
last_header-append suite (plan_line _ _ ∷ xs) ys e none_later =
    last_header-append suite xs ys e none_later
last_header-append suite (result _ _ _ _ _ ∷ xs) ys e none_later =
    last_header-append suite xs ys e none_later
last_header-append suite (stats _ _ _ _ ∷ xs) ys e none_later =
    last_header-append suite xs ys e none_later
last_header-append suite (other ∷ xs) ys e none_later = last_header-append suite xs ys e none_later
last_header-append suite (subtest i name ∷ xs) ys {d} {rest} e none_later =
    elim (Option-cases (last_header suite xs)) [
      | inr ((d', rest'), found) ↦
          let same : ◌≡◌ {A = ℕ × List Line} (d', rest') (d, rest) =
            some-injective _ _ (rw (found, last_header) at e) in
          rw (last_header-append suite xs ys {d = d'} {rest = rest'} found none_later, last_header)
            (ap (λ (x : ℕ × List Line). some (x.0, x.1 ++ ys)) same)
      | inl absent ↦ elim (Bool-cases (name == suite)) [
        | inr differ ↦ cc (rw (absent, differ, last_header) at e)
        | inl same ↦
            let here : ◌≡◌ {A = ℕ × List Line} (i, xs) (d, rest) =
              some-injective _ _ (rw (absent, same, last_header) at e) in
            rw (last_header-none suite xs ys absent none_later, same, last_header)
              (ap (λ (x : ℕ × List Line). some (x.0, x.1 ++ ys)) here)
      ]
    ]

nothing_complete : empty_summary.complete ≡ true → ⊥
unfolding empty_summary
nothing_complete e = cc

-- Where a journal and a longer one, which adds no further header of the suite, both read as
-- complete, they have the same tests: what the longer one adds has none.
pub parse_ktap-append :
    (lines more : List Line) (suite : String)
    → last_header suite more ≡ none
    → (parse_ktap lines suite).complete ≡ true
    → (parse_ktap (lines ++ more) suite).complete ≡ true
    → (parse_ktap (lines ++ more) suite).tests ≡ (parse_ktap lines suite).tests
unfolding parse_ktap parse_after
parse_ktap-append lines more suite no_more p q = elim (Option-cases (last_header suite lines)) [
  | inl absent ↦ absurd (nothing_complete (rw (absent, parse_ktap) at p))
  | inr ((d, rest), found) ↦
      let later = last_header-append suite lines more {d = d} {rest = rest} found no_more in
      let p' = rw (found, parse_ktap) at p in
      let q' = rw (later, parse_ktap) at q in
      rw (found, later, parse_ktap)
        (planned_alike (scan d rest first_summary) (scan d (rest ++ more) first_summary)
          (scan-append_Extends d rest more first_summary) (ground arith) (ground arith))
]

first-Tallied : Tallied first_summary
unfolding Tallied empty_summary
first-Tallied = refl

-- A complete summary has a plan, as many tests as the plan says, and each test in one count.
pub parse_ktap-complete :
    (lines : List Line) (suite : String)
    → (parse_ktap lines suite).complete ≡ true
    → let s = parse_ktap lines suite in
      (s.plan ≡ some (length s.tests))
      × (length s.tests ≡ s.passed_count + s.failed_count + s.skipped_count)
unfolding parse_ktap parse_after Tallied
parse_ktap-complete lines suite p = elim (Option-cases (last_header suite lines)) [
  | inl absent ↦ absurd (nothing_complete (rw (absent, parse_ktap) at p))
  | inr ((d, rest), found) ↦
      let p' = rw (found, parse_ktap) at p in
      let (n, plan_is, len) = planned-length (scan d rest first_summary) (ground arith) in
      rw (found, parse_ktap)
        (plan_is ∙ ap some (sym len), scan-Tallied d rest first_summary first-Tallied)
]
