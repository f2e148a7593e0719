-- ===== src/Kernel/Bisect/Step/Reset.antt =====
-- A reset ends in the first state, and until the next write there is no state.json.
use kdevops_ng.Prelude.{
  String, ◌≡◌, refl, Option, none, ◌<>◌, ◌!=◌, string_eq, inl, inr, Bool-cases, Option-cases,
}
use kdevops_ng.Kernel.Bisect.State.{
  Inputs, State, Git, Disk, Result, ok, err, Exec, continue, pure, on_repo, ◌>>=◌,
}
use kdevops_ng.Kernel.Bisect.Step.{resolve, fresh_clone, first_state, reset}

-- A property of the value, if there is one.
abbrev pub IfOk {ℓ} : {A : Type 0} → (A → Type ℓ) → Result A → Type ℓ
IfOk P (ok a) = P a
IfOk P (err e) = Unit

abbrev pub IsFirst : {R : Type 0} → Inputs R → State R → Type 0
IsFirst i t = (b g : String) × (t ≡ first_state i b g)

module _ {R : Type 0} {git : Git} where
  abbrev Cleared : {A : Type 0} → (A → Type 0) → Result A × Disk R git → Type 0
  Cleared P (r, d) = IfOk P r × (d.saved ≡ none)

  -- The action leaves no state.json where there is none, and its value has the property.
  record Clears {A : Type 0} (P : A → Type 0) (m : Exec R git A) : Type 0 where
    run : (d : Disk R git) → d.saved ≡ none → Cleared P (m d)

  continue-cleared :
      {A B : Type 0} {P : A → Type 0} {Q : B → Type 0} (x : Result A × Disk R git)
      (f : A → Exec R git B)
      → Cleared P x
      → ((a : A) → P a → Clears Q (f a))
      → Cleared Q (continue x f)
  continue-cleared (ok a, d) f (p, h) k = (k a p).run d h
  continue-cleared (err e, d) f (p, h) k = (tt, h)

  bind-Clears :
      {A B : Type 0} {P : A → Type 0} {Q : B → Type 0} {m : Exec R git A} {f : A → Exec R git B}
      → Clears P m
      → ((a : A) → P a → Clears Q (f a))
      → Clears Q (m >>= f)
  unfolding ◌>>=◌
  bind-Clears {m} {f} h k = record { run = λ d c. continue-cleared (m d) f (h.run d c) k }

  on_repo-Clears :
      (command : git.Repo → Option git.Repo)
      → Clears (λ _. Unit {0}) (on_repo {R = R} {git = git} command)
  unfolding on_repo
  on_repo-Clears command = record {
    run = λ d h. elim (Option-cases (command d.repo)) [
      | inl failed ↦ rw (failed, on_repo) (tt, h)
      | inr (repo, done) ↦ rw (done, on_repo) (tt, h)
    ];
  }

  resolve-Clears : (ref : String) → Clears (λ _. Unit {0}) (resolve {R = R} {git = git} ref)
  unfolding resolve
  resolve-Clears ref = record {
    run = λ d h. elim (Bool-cases (git.rev_parse d.repo ref != "")) [
      | inl direct ↦ rw (direct, resolve) (tt, h)
      | inr other ↦ elim (Bool-cases (git.rev_parse d.repo ("origin/" <> ref) != "")) [
        | inl remote ↦ rw (other, remote, resolve) (tt, h)
        | inr gone ↦ rw (other, gone, resolve) (tt, h)
      ]
    ];
  }

  fresh_clone-Clears : Clears (λ _. Unit {0}) (fresh_clone {R = R} {git = git})
  unfolding fresh_clone
  fresh_clone-Clears = record { run = λ d h. (on_repo-Clears (λ _. git.clone)).run _ refl }

  first_state-Clears :
      (i : Inputs R) (b g : String)
      → Clears (IsFirst i) (pure {R = R} {git = git} (first_state i b g))
  unfolding pure
  first_state-Clears i b g = record { run = λ d h. ((b, g, refl), h) }

  reset-Clears : (i : Inputs R) → Clears (IsFirst i) (reset {R = R} {git = git} i)
  unfolding reset
  reset-Clears i = bind-Clears fresh_clone-Clears λ _ _. bind-Clears (resolve-Clears i.bad) λ b _.
      bind-Clears (on_repo-Clears (λ repo. git.update_ref repo b)) λ _ _.
        bind-Clears (on_repo-Clears git.symbolic_ref)
          λ _ _. bind-Clears (resolve-Clears i.good) λ g _. first_state-Clears i b g

  -- The state directory is removed first, so its contents do not matter.
  pub reset_any : (i : Inputs R) (d e : Disk R git) → reset i d ≡ reset i e
  unfolding reset fresh_clone ◌>>=◌
  reset_any i d e = refl

  pub reset-IsFirst_state :
      (i : Inputs R) (d : Disk R git)
      → IfOk (IsFirst i) (reset i d).0 × ((reset i d).1.saved ≡ none)
  reset-IsFirst_state i d =
      let e : Disk R git = record { saved = none; repo = git.absent } in
      rw (reset_any i d e) ((reset-Clears i).run e refl)
