-- ===== src/Kernel/Bisect/Step/Yields.antt =====
-- Actions that raise nothing on a clone and leave a clone.
use kdevops_ng.Prelude.{
  String, ◌≡◌, refl, ◌≢◌, ◌⊎◌, ◌<>◌, ne_of_test, eq_of_test, false, Option, some, inl, inr,
  Bool-cases, ◌!=◌, string_eq, list_eq,
}
use kdevops_ng.Kernel.Bisect.State.{
  Inputs, State, Git, Disk, Result, ok, err, Exec, continue, pure, on_repo, ◌>>=◌,
}
use kdevops_ng.Kernel.Bisect.Step.{resolve, fresh_clone, first_state}
use kdevops_ng.Kernel.Bisect.Step.Progress.{Leaves}

-- A run's command of git on a clone: it succeeds and leaves a clone.
abbrev pub Succeeds : {A : Type 0} → (A → Type 0) → Option A → Type 0
Succeeds {A} IsClone o = (r : A) × (o ≡ some r) × IsClone r

-- The first state, at two commits.
abbrev pub Started : {R : Type 0} → (String → Type 0) → Inputs R → State R → Type 0
Started IsCommit i t = (b g : String) × (t ≡ first_state i b g) × IsCommit b × IsCommit g

module _ {R : Type 0} {git : Git} (IsClone : git.Repo → Type 0) where
  -- On a clone the action raises nothing and leaves a clone, and its value has the property.
  pub record Yields {A : Type 0} (P : A → Type 0) (m : Exec R git A) : Type 0 where
    pub run : (d : Disk R git) → IsClone d.repo → Leaves IsClone P (m d)

  continue-yields :
      {A B : Type 0} {P : A → Type 0} {Q : B → Type 0} (x : Result A × Disk R git)
      (f : A → Exec R git B)
      → Leaves IsClone P x
      → ((a : A) → P a → Yields Q (f a))
      → Leaves IsClone Q (continue x f)
  continue-yields (ok a, d) f (p, c) k = (k a p).run d c
  continue-yields (err e, d) f (p, c) k = elim p [ ]

  pub bind-Yields :
      {A B : Type 0} {P : A → Type 0} {Q : B → Type 0} {m : Exec R git A} {f : A → Exec R git B}
      → Yields P m
      → ((a : A) → P a → Yields Q (f a))
      → Yields Q (m >>= f)
  unfolding ◌>>=◌
  bind-Yields {m} {f} h k = record { run = λ d c. continue-yields (m d) f (h.run d c) k }

  pub on_repo-Yields :
      (command : git.Repo → Option git.Repo)
      → ((r : git.Repo) → IsClone r → Succeeds IsClone (command r))
      → Yields (λ _. Unit {0}) (on_repo {R = R} {git = git} command)
  unfolding on_repo
  on_repo-Yields command works = record {
    run = λ d c. let (repo, done, clone) = works d.repo c in rw (done, on_repo) (tt, clone);
  }

  pub resolve-Yields :
      (IsCommit : String → Type 0) (ref : String)
      → ((r : git.Repo) (name : String)
          → IsClone r
          → git.rev_parse r name ≢ ""
          → IsCommit (git.rev_parse r name))
      → ((r : git.Repo)
          → IsClone r
          → (git.rev_parse r ref ≢ "") ⊎ (git.rev_parse r ("origin/" <> ref) ≢ ""))
      → Yields IsCommit (resolve {R = R} {git = git} ref)
  unfolding resolve
  resolve-Yields IsCommit ref commits there = record {
    run = λ d c. elim (Bool-cases (git.rev_parse d.repo ref != "")) [
      | inl direct ↦ rw (direct, resolve) (commits d.repo ref c (ne_of_test _ "" direct), c)
      | inr gone ↦ elim (Bool-cases (git.rev_parse d.repo ("origin/" <> ref) != "")) [
        | inl remote ↦
            rw (gone, remote, resolve)
              (commits d.repo ("origin/" <> ref) c (ne_of_test _ "" remote), c)
        | inr nowhere ↦ absurd (neither gone nowhere (there d.repo c))
      ]
    ];
  }
    where
      neither : {a b : String} → (a != "") ≡ false → (b != "") ≡ false → (a ≢ "") ⊎ (b ≢ "") → ⊥
      neither {a} {b} p q (inl h) = h (eq_of_test a "" p)
      neither {a} {b} p q (inr h) = h (eq_of_test b "" q)

  pub fresh_clone-Yields :
      Succeeds IsClone git.clone → Yields (λ _. Unit {0}) (fresh_clone {R = R} {git = git})
  unfolding fresh_clone on_repo
  fresh_clone-Yields (repo, made, clone) = record {
    run = λ d c. rw (made, fresh_clone, on_repo) (tt, clone);
  }

  pub first_state-Yields :
      (IsCommit : String → Type 0) (i : Inputs R) (b g : String)
      → IsCommit b
      → IsCommit g
      → Yields (Started IsCommit i) (pure {R = R} {git = git} (first_state i b g))
  unfolding pure
  first_state-Yields IsCommit i b g hb hg = record { run = λ d c. ((b, g, refl, hb, hg), c) }

pub returned :
    {R A : Type 0} {git : Git} (IsClone : git.Repo → Type 0) (P : A → Type 0)
    (x : Result A × Disk R git)
    → Leaves IsClone P x
    → (t : A) × (d : Disk R git) × (x ≡ (ok t, d)) × P t × IsClone d.repo
returned IsClone P (ok t, d) (h, c) = (t, d, refl, h, c)
returned IsClone P (err e, d) (h, c) = elim h [ ]
