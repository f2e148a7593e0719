-- ===== src/Kernel/Bisect/Dicts.antt =====
-- f/kernel/bisect_step.py: the dict and list helpers of `bringup_args`, and its fixed groups.
use Prim.Native.Char.{code}
use mathlib.Core.Option.{get_or}
use kdevops_ng.Prelude.{
  String, Bool, true, false, Option, none, some, List, [], ◌∷◌, ◌++◌, map, ◌==◌, string_eq, nat_eq,
  contains, if◌then◌else◌,
}
use kdevops_ng.Prelude.Dict.{Dict, lookup}
use kdevops_ng.Common.Json.{
  Value, bool, str, arr, obj, Items, nil, cons, Fields, end, get, truthy, dict, fields_of,
}

-- `list(dict.fromkeys([*base, *extra]))`
dedupe : List String → List String → List String
dedupe seen [] = []
dedupe seen (x ∷ xs) =
    let rest = dedupe (x ∷ seen) xs in
    let others = dedupe seen xs in if contains seen x then others else x ∷ rest

unfoldable pub union : List String → List String → List String
unfolding dedupe
union base extra = dedupe [] (base ++ extra)

-- `s.split("/")[0]`
abbrev before_slash : String → String
before_slash String.[] = String.[]
before_slash (String.◌∷◌ c s) =
    let rest = before_slash s in if code c == b'/' then String.[] else String.◌∷◌ c rest

unfoldable pub harness_dirs : List String → List String
unfolding union
harness_dirs suites = union [] (map before_slash suites)

abbrev closure_suite : Dict String
closure_suite = ("selftests", "selftests") ∷ ("usertests", "usertests") ∷ []

unfoldable pub closure_suites : String → List String
closure_suites payload =
    if payload == "runtime_tests" then [] else get_or (lookup payload closure_suite) "kunit" ∷ []

-- `_check_guest`: false where it raises.
unfoldable pub guest_ok : Value → Bool
guest_ok (obj fs) =
    if truthy (obj fs)
    then elim (get "kernel" fs) [
      | none ↦ false
      | some _ ↦ elim (get "closure" fs) [ none ↦ false | some _ ↦ true ]
    ]
    else true
guest_ok v = if truthy v then false else true

-- The groups of the inputs that the bisect owns.
abbrev pub vm_group : String → Value
vm_group vm_name =
    dict (("vm_target", str "new") ∷ ("auto_vm_name", bool false) ∷ ("vm_name", str vm_name) ∷ [])

abbrev pub worktree_group : String → Fields
worktree_group candidate = fields_of (
    ("custom_ref", bool true)
    ∷ ("git_ref", str candidate)
    ∷ ("b4_series", str "")
    ∷ ("custom_label", bool false)
    ∷ [])

abbrev pub reuse_group : Value
reuse_group = dict (("reuse", bool true) ∷ ("use_peers", bool true) ∷ [])

-- The pasted lists: a text list, empty where the value is falsy.
abbrev texts_in : Items → Option (List String)
texts_in nil = some []
texts_in (cons (str s) xs) = elim (texts_in xs) [ none ↦ none | some l ↦ some (s ∷ l) ]
texts_in (cons _ xs) = none

-- `value or []`, none where it is not a list of texts. Lists of other values and texts, on which the
-- source raises later or not at all, are taken not to occur.
unfoldable pub or_no_texts : Option Value → Option (List String)
or_no_texts none = some []
or_no_texts (some (arr xs)) = texts_in xs
or_no_texts (some v) = if truthy v then none else some []

-- A value that is used as a dict; none where the use raises.
unfoldable pub as_dict : Value → Option Fields
as_dict (obj fs) = some fs
as_dict v = none

-- `(v or {})` used as a dict.
unfoldable pub or_empty : Option Value → Option Fields
unfolding as_dict
or_empty none = some end
or_empty (some v) = if truthy v then as_dict v else some end

-- `d.setdefault(k, {})` and `d[k]`, used as dicts.
unfoldable pub set_default : String → Fields → Option Fields
unfolding as_dict
set_default k fs = elim (get k fs) [ none ↦ some end | some v ↦ as_dict v ]

unfoldable pub required : String → Fields → Option Fields
unfolding as_dict
required k fs = elim (get k fs) [ none ↦ none | some v ↦ as_dict v ]

infixl 5 ◌>>=◌
abbrev pub ◌>>=◌ : {A B : Type 0} → Option A → (A → Option B) → Option B
none >>= f = none
some a >>= f = f a
