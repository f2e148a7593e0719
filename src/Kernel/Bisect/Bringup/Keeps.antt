-- ===== src/Kernel/Bisect/Bringup/Keeps.antt =====
-- What a pasted guest keeps and what the bisect replaces.
use mathlib.Core.Option.{some-injective}
use kdevops_ng.Prelude.{
  String, ◌≡◌, ◌≢◌, refl, ◌∙◌, sym, ap, true, false, Option, none, some, List, arith, ◌==◌,
  string_eq, inl, inr, Bool-cases, Option-cases,
}
use kdevops_ng.Common.Json.{
  Value, str, obj, Fields, get, put, pop, update, truthy, get-put, get-pop,
}
use kdevops_ng.Kernel.Bisect.Dicts.{
  harness_dirs, vm_group, worktree_group, reuse_group, or_empty, or_no_texts, guest_ok, required,
}
use kdevops_ng.Kernel.Bisect.Bringup.{
  enabled, pasted_closure, pasted_payload, pasted_kernel, pasted_args, bringup_args,
}

ne_of_test : {a b : String} → (a == b) ≡ false → a ≢ b
ne_of_test h = ground arith

get_other : (k j : String) (v : Value) (d : Fields) → (k == j) ≡ false → get k (put j v d) ≡ get k d
get_other k j v d h = ground (arith, get-put k j v d)

get_gone : (k j : String) (d : Fields) → (k == j) ≡ false → get k (pop j d) ≡ get k d
get_gone k j d h = ground (arith, get-pop k j d)

put-keeps :
    (k group : String) (v : Value) (d : Fields) {out : Fields}
    → k ≢ group
    → some (put group v d) ≡ some out
    → get k out ≡ get k d
put-keeps k group v d ne h = ground (arith, get-put k group v d)

module _ (c vm payload : String) (suites : List String) (compiler flags : String) where
  abbrev payload_of : Fields → Option Fields
  payload_of = pasted_payload c vm payload suites compiler flags

  abbrev kernel_of : Fields → Option Fields
  kernel_of = pasted_kernel c vm payload suites compiler flags

  enabled-keeps :
      (group key k : String) (extra : List String) (kernel : Fields) {out : Fields}
      → k ≢ group
      → enabled c vm payload suites compiler flags group key extra kernel ≡ some out
      → get k out ≡ get k kernel
  unfolding enabled
  enabled-keeps group key k extra kernel ne h = elim (Option-cases (or_empty (get group kernel))) [
    | inl e ↦ cc (rw e at h)
    | inr (pasted, e) ↦ elim (Option-cases (or_no_texts (get key pasted))) [
      | inl e₂ ↦ cc (rw (e, e₂) at h)
      | inr (old, e₂) ↦ put-keeps k group _ kernel ne (rw (e, e₂) at h)
    ]
  ]

  -- The group that the payload builds from is the only one that changes.
  payload-keeps :
      (k : String) (kernel : Fields) {out : Fields}
      → k ≢ "selftests"
      → k ≢ "usertests"
      → payload_of kernel ≡ some out
      → get k out ≡ get k kernel
  unfolding pasted_payload
  payload-keeps k kernel {out} ns nu h = ground (
    arith,
    enabled-keeps "selftests" "targets" k suites kernel {out = out} ns,
    enabled-keeps "usertests" "harnesses" k (harness_dirs suites) kernel {out = out} nu,
  )

  -- The candidate is what the kernel group builds, whatever ref or series the guest named.
  kernel_of-builds :
      (kernel : Fields) {out : Fields}
      → kernel_of kernel ≡ some out
      → (tree : Fields) × (get "worktree" out ≡ some (obj tree))
        × (get "git_ref" tree ≡ some (str c))
        × (get "b4_series" tree ≡ some (str ""))
        × (get "ref" tree ≡ none)
        × (get "mode" out ≡ some (str "build"))
        × (get "reuse" out ≡ some reuse_group)
  unfolding pasted_kernel update string_eq
  kernel_of-builds kernel {out} h =
      elim (Option-cases (or_empty (get "worktree" (put "mode" (str "build") kernel)))) [
        | inl e ↦ cc (rw e at h)
        | inr (pasted, e) ↦
            let tree = update (pop "ref" pasted) (worktree_group c) in
            let treed = put "worktree" (obj tree) (put "mode" (str "build") kernel) in
            elim (Option-cases (or_empty (get "build" treed))) [
              | inl e₂ ↦ cc (rw (e, e₂) at h)
              | inr (build, e₂) ↦
                  let h₂ = rw (e, e₂) at h in
                  let kept =
                    λ (k : String) (ns : (k == "selftests") ≡ false)
                        (nu : (k == "usertests") ≡ false).
                      payload-keeps k _ {out = out} (ne_of_test ns) (ne_of_test nu) h₂ in
                  (
                    tree,
                    kept "worktree" refl refl ∙ simp get-put,
                    simp get-put,
                    simp get-put,
                    simp (get-put, get-pop),
                    kept "mode" refl refl ∙ simp get-put,
                    kept "reuse" refl refl ∙ simp get-put,
                  )
            ]
      ]

  -- The kernel group of a bringup boots the candidate.
  abbrev pub Builds : Fields → Type 0
  Builds out =
      (kernel : Fields) × (tree : Fields) × (get "kernel" out ≡ some (obj kernel))
      × (get "worktree" kernel ≡ some (obj tree))
      × (get "git_ref" tree ≡ some (str c))
      × (get "b4_series" tree ≡ some (str ""))
      × (get "ref" tree ≡ none)
      × (get "mode" kernel ≡ some (str "build"))
      × (get "reuse" kernel ≡ some reuse_group)

  abbrev pub KeepsRest : Fields → Fields → Type 0
  KeepsRest guest out =
      (k : String)
      → (k == "vm") ≡ false
      → (k == "worktree") ≡ false
      → (k == "closure") ≡ false
      → (k == "kernel") ≡ false
      → get k out ≡ get k guest

  assembled :
      (guest closed built : Fields) {out : Fields}
      → some (
          put "kernel"
            (obj built)
            (put "closure" (obj closed) (pop "worktree" (put "vm" (vm_group vm) guest))))
        ≡ some out
      → KeepsRest guest out
        × (get "vm" out ≡ some (vm_group vm))
        × (get "worktree" out ≡ none)
        × (get "kernel" out ≡ some (obj built))
  unfolding string_eq
  assembled guest closed built {out} h =
      let named = put "vm" (vm_group vm) guest in
      let args = pop "worktree" named in
      let shut = put "closure" (obj closed) args in
      let e = some-injective _ out h in
      (
        λ k v w cl ke.
            ap (get k) (sym e)
            ∙ get_other k "kernel" (obj built) shut ke
            ∙ get_other k "closure" (obj closed) args cl
            ∙ get_gone k "worktree" named w
            ∙ get_other k "vm" (vm_group vm) guest v,
        ap (get "vm") (sym e) ∙ simp (get-put, get-pop),
        ap (get "worktree") (sym e) ∙ simp (get-put, get-pop),
        ap (get "kernel") (sym e) ∙ simp get-put,
      )

  pasted-keeps :
      (guest : Fields) {out : Fields}
      → pasted_args c vm payload suites compiler flags guest ≡ some out
      → KeepsRest guest out
        × (get "vm" out ≡ some (vm_group vm))
        × (get "worktree" out ≡ none)
        × Builds out
  unfolding pasted_args
  pasted-keeps guest {out} h =
      let args = pop "worktree" (put "vm" (vm_group vm) guest) in
      elim (Option-cases (required "closure" args)) [
        | inl e ↦ cc (rw e at h)
        | inr (closure, e) ↦
            elim (Option-cases (pasted_closure c vm payload suites compiler flags closure)) [
              | inl e₂ ↦ cc (rw (e, e₂) at h)
              | inr (closed, e₂) ↦ elim (Option-cases (required "kernel" args)) [
                | inl e₃ ↦ cc (rw (e, e₂, e₃) at h)
                | inr (kernel, e₃) ↦ elim (Option-cases (kernel_of kernel)) [
                  | inl e₄ ↦ cc (rw (e, e₂, e₃, e₄) at h)
                  | inr (built, e₄) ↦
                      let (rest, vm_set, gone, kernel_set) =
                        assembled guest closed built {out = out} (rw (e, e₂, e₃, e₄) at h) in
                      let (tree, h₁, h₂, h₃, h₄, h₅, h₆) =
                        kernel_of-builds kernel {out = built} e₄ in
                      (rest, vm_set, gone, (built, tree, kernel_set, h₁, h₂, h₃, h₄, h₅, h₆))
                ]
              ]
            ]
      ]

  -- A bringup on a pasted guest keeps every group of it but four. The VM is the bisect's, no
  -- developer worktree is left, and the kernel is built at the candidate, whatever ref or series
  -- the guest named.
  pub bringup_args-keeps :
      (guest : Fields) {out : Fields}
      → truthy (obj guest) ≡ true
      → bringup_args c vm payload suites compiler flags (obj guest) ≡ some out
      → KeepsRest guest out
        × (get "vm" out ≡ some (vm_group vm))
        × (get "worktree" out ≡ none)
        × Builds out
  unfolding bringup_args
  bringup_args-keeps guest {out} t h = elim (Bool-cases (guest_ok (obj guest))) [
    | inl fits ↦ pasted-keeps guest {out = out} (rw (t, fits) at h)
    | inr unfit ↦ cc (rw (t, unfit) at h)
  ]
