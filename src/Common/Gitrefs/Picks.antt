-- ===== src/Common/Gitrefs/Picks.antt =====
-- The names that the pickers offer, and the refnames that they are qualified to.
use Prim.Native.Char.{code}
use text.Mathlib.TextEquality.{Char-path}
use text.Mathlib.TextLemmas.{nil-append, cons-append, append_assoc}
use text.Mathlib.TextPositions.{starts_with-append}
use mathlib.Core.Path.{subst}
use mathlib.Core.Option.{some-injective}
use kdevops_ng.Prelude.{
  String, ◌<>◌, ◌≡◌, refl, ap, sym, ◌∙◌, inl, inr, ◌⊎◌, true, false, some, List, [], ◌∷◌, ◌++◌,
  arith, ◌==◌, string_eq, nat_eq, contains, Bool-cases, Option-cases, starts_with,
}
use kdevops_ng.Prelude.Lists.{keep}
use kdevops_ng.Prelude.Dict.{Dict, lookup, lookup-insert, lookup-nil}
use kdevops_ng.Common.Gitrefs.{
  Bare, Kind, head, mirror, remote, tag, Space, ref_kinds, strip_prefix, classify, packed_names,
  note_ref, note_refs, read_refs, read_refnames, candidates, first_in, qualify_ref,
}

strip_prefix-append : (p s : String) {r : String} → strip_prefix p s ≡ some r → s ≡ p <> r
unfolding strip_prefix
strip_prefix-append String.[] s {r} e = some-injective _ _ e ∙ sym (nil-append r)
strip_prefix-append (String.◌∷◌ c p) String.[] e = cc
strip_prefix-append (String.◌∷◌ c p) (String.◌∷◌ d s) {r} e = elim (Bool-cases (code c == code d)) [
  | inl same ↦
      let chars : c ≡ d = Char-path c d (ground arith) in
      let tail = strip_prefix-append p s {r = r} (rw (same, strip_prefix) at e) in
      ap (λ x. String.◌∷◌ d x) tail
      ∙ ap (λ x. String.◌∷◌ x (p <> r)) (sym chars)
      ∙ sym (cons-append c p r)
  | inr differ ↦ cc (rw (differ, strip_prefix) at e)
]

-- A ref of a namespace, by its full name and its picker name.
abbrev Stands : Space → String → String → Type 0
Stands space name key = (r : String) × (name ≡ space.prefix <> r) × (key ≡ space.keyed <> r)

abbrev Among : Space → List Space → Type 0
Among x [] = ⊥
Among x (y ∷ ys) = (x ≡ y) ⊎ Among x ys

classify-Stands :
    (spaces : List Space) (name : String) {key : String} {kind : Kind}
    → classify spaces name ≡ some (key, kind)
    → (space : Space) × (Among space spaces) × Stands space name key
unfolding classify
classify-Stands [] name e = cc
classify-Stands (space ∷ spaces) name {key} {kind} e =
    elim (Option-cases (strip_prefix space.prefix name)) [
      | inl none_here ↦
          let (found, among, stands) =
            classify-Stands spaces name {key = key} {kind = kind} (rw (none_here, classify) at e) in
          (found, inr among, stands)
      | inr (r, here) ↦
          let pair =
            some-injective (space.keyed <> r, space.kind) (key, kind) (rw (here, classify) at e) in
          (
            space,
            inl refl,
            (
              r,
              strip_prefix-append space.prefix name {r = r} here,
              sym (ap (λ (x : String × Kind). x.0) pair),
            ),
          )
    ]

-- A ref that a namespace holds is one of its picker name's candidates, and a `refs/` name.
abbrev IsCandidate : String → String → Type 0
IsCandidate name key = (contains (candidates key) name ≡ true) × (starts_with name "refs/" ≡ true)

in_candidates :
    (space : Space) (name key tail : String)
    → Stands space name key
    → space.prefix ≡ "refs/" <> tail
    → starts_with key "refs/" ≡ false
    → ((r : String)
        → starts_with (space.keyed <> r) "refs/" ≡ false
        → contains (candidates (space.keyed <> r)) (space.prefix <> r) ≡ true)
    → IsCandidate name key
in_candidates space name key tail (r, name_is, key_is) prefix_is open_name listed =
    let full : name ≡ "refs/" <> (tail <> r) =
      name_is ∙ ap (λ p. p <> r) prefix_is ∙ append_assoc "refs/" tail r in
    (
      subst (λ k. contains (candidates k) name ≡ true) (sym key_is)
          (subst (λ n. contains (candidates (space.keyed <> r)) n ≡ true) (sym name_is)
            (listed r (subst (λ k. starts_with k "refs/" ≡ false) key_is open_name))),
      subst (λ n. starts_with n "refs/" ≡ true) (sym full) (starts_with-append "refs/" (tail <> r)),
    )

module _ (r : String) where
  heads_listed :
      starts_with ("" <> r) "refs/" ≡ false
      → contains (candidates ("" <> r)) ("refs/heads/" <> r) ≡ true
  unfolding candidates
  heads_listed open_name = ground (arith, nil-append r)

  mirrors_listed :
      starts_with ("mirror/" <> r) "refs/" ≡ false
      → contains (candidates ("mirror/" <> r)) ("refs/remotes/mirror/" <> r) ≡ true
  unfolding candidates
  mirrors_listed open_name = ground (arith, append_assoc "refs/remotes/" "mirror/" r)

  remotes_listed :
      starts_with ("" <> r) "refs/" ≡ false
      → contains (candidates ("" <> r)) ("refs/remotes/" <> r) ≡ true
  unfolding candidates
  remotes_listed open_name = ground (arith, nil-append r)

  tags_listed :
      starts_with ("" <> r) "refs/" ≡ false
      → contains (candidates ("" <> r)) ("refs/tags/" <> r) ≡ true
  unfolding candidates
  tags_listed open_name = ground (arith, nil-append r)

kept-IsCandidate :
    (space : Space) (name key : String)
    → Among space ref_kinds
    → Stands space name key
    → starts_with key "refs/" ≡ false
    → IsCandidate name key
kept-IsCandidate space name key (inl e) stands open_name =
    in_candidates (record { kind = head; prefix = "refs/heads/"; keyed = "" }) name key "heads/"
      (subst (λ x. Stands x name key) e stands) refl open_name heads_listed
kept-IsCandidate space name key (inr (inl e)) stands open_name =
    in_candidates (record { kind = mirror; prefix = "refs/remotes/mirror/"; keyed = "mirror/" })
      name key "remotes/mirror/" (subst (λ x. Stands x name key) e stands) refl open_name
      mirrors_listed
kept-IsCandidate space name key (inr (inr (inl e))) stands open_name =
    in_candidates (record { kind = remote; prefix = "refs/remotes/"; keyed = "" }) name key
      "remotes/" (subst (λ x. Stands x name key) e stands) refl open_name remotes_listed
kept-IsCandidate space name key (inr (inr (inr (inl e)))) stands open_name =
    in_candidates (record { kind = tag; prefix = "refs/tags/"; keyed = "" }) name key "tags/"
      (subst (λ x. Stands x name key) e stands) refl open_name tags_listed
kept-IsCandidate space name key (inr (inr (inr (inr nowhere)))) stands open_name = elim nowhere [ ]

note_ref-source :
    (name : String) (refs : Dict Kind) (key : String) {kind : Kind}
    → lookup key (note_ref refs name) ≡ some kind
    → ((k : Kind) × (lookup key refs ≡ some k))
      ⊎ ((k : Kind) × (classify ref_kinds name ≡ some (key, k)))
unfolding note_ref
note_ref-source name refs key {kind} e = elim (Option-cases (classify ref_kinds name)) [
  | inl no_space ↦ inl (kind, rw (no_space, note_ref) at e)
  | inr ((j, k), named) ↦ elim (Bool-cases (key == j)) [
    | inl same ↦
        let key_is : j ≡ key = ground arith in inr (k, named ∙ ap (λ x. some (x, k)) key_is)
    | inr differ ↦
        inl (kind, rw differ at (sym (lookup-insert key j k refs) ∙ (rw (named, note_ref) at e)))
  ]
]

note_refs-source :
    (names : List String) (refs : Dict Kind) (key : String) {kind : Kind}
    → lookup key (note_refs refs names) ≡ some kind
    → ((k : Kind) × (lookup key refs ≡ some k))
      ⊎ ((name : String) × (k : Kind) × (contains names name ≡ true)
          × (classify ref_kinds name ≡ some (key, k)))
unfolding note_refs
note_refs-source [] refs key {kind} e = inl (kind, e)
note_refs-source (name ∷ names) refs key {kind} e =
    elim (note_refs-source names (note_ref refs name) key {kind = kind} e) [
      | inr (n, k, there, named) ↦ inr (n, k, ground arith, named)
      | inl (k, before) ↦ elim (note_ref-source name refs key {kind = k} before) [
        | inl old ↦ inl old
        | inr (k', named) ↦ inr (name, k', ground arith, named)
      ]
    ]

first_in-finds :
    (names cands : List String) (name : String)
    → contains cands name ≡ true
    → contains names name ≡ true
    → (q : String) × (first_in names cands ≡ some q) × (contains names q ≡ true)
unfolding first_in
first_in-finds names [] name listed there = cc
first_in-finds names (c ∷ cands) name listed there = elim (Bool-cases (contains names c)) [
  | inl here ↦ (c, rw (here, first_in) refl, here)
  | inr not_here ↦ rw (not_here, first_in) (first_in-finds names cands name (ground arith) there)
]

contains-keep_append :
    (names more : List String) (name : String)
    → contains (names ++ more) name ≡ true
    → starts_with name "refs/" ≡ true
    → contains (keep (λ n. starts_with n "refs/") names ++ more) name ≡ true
contains-keep_append [] more name there full = there
contains-keep_append (n ∷ names) more name there full = elim (Bool-cases (name == n)) [
  | inl same ↦
      let name_is : name ≡ n = ground arith in
      rw (subst (λ x. starts_with x "refs/" ≡ true) name_is full) (ground arith)
  | inr differ ↦ elim (Bool-cases (starts_with n "refs/")) [
    | inl kept ↦ rw kept (ground (arith, contains-keep_append names more name))
    | inr dropped ↦ rw dropped (contains-keep_append names more name (ground arith) full)
  ]
]

-- Every name that the picker reads out of a repository can be handed on: it is qualified to a
-- full refname that the repository has. A name that itself begins with `refs/` is set aside.
pub qualify_ref-read_refs :
    (bare : Bare) (key : String) {kind : Kind}
    → lookup key (read_refs bare) ≡ some kind
    → starts_with key "refs/" ≡ false
    → (q : String) × (qualify_ref (some bare) key ≡ some q)
      × (contains (read_refnames bare) q ≡ true)
unfolding read_refs read_refnames qualify_ref
qualify_ref-read_refs bare key {kind} e open_name =
    elim (note_refs-source (packed_names bare.packed ++ bare.loose) [] key {kind = kind} e) [
      | inl (k, nothing) ↦ cc (sym (lookup-nil {V = Kind} key) ∙ nothing)
      | inr (name, k, there, named) ↦
          let (space, among, stands) =
            classify-Stands ref_kinds name {key = key} {kind = k} named in
          let (listed, full) = (kept-IsCandidate space name key among stands open_name) in
          first_in-finds (read_refnames bare) (candidates key) name listed
            (contains-keep_append (packed_names bare.packed) bare.loose name there full)
    ]
