-- ===== src/Kernel/Checks/Paths.antt =====
-- The two ways in which a tool names a file of the worktree.
use Prim.Native.Char.{code, char}
use text.Mathlib.TextLemmas.{nil-append, cons-append, append_assoc}
use kdevops_ng.Prelude.{
  String, ◌<>◌, ◌≡◌, ◌≢◌, refl, sym, ap, ◌∙◌, none, some, string_eq, nat_eq, eq_true, eq_false,
}
use kdevops_ng.Prelude.Words.{rstrip_char}
use kdevops_ng.Common.Gitrefs.{strip_prefix}
use kdevops_ng.Kernel.Checks.{drop_dots, below_root, worktree_path}

strip_prefix_lem : (p s : String) → strip_prefix p (p <> s) ≡ some s
unfolding strip_prefix
strip_prefix_lem String.[] s = ap some (nil-append s)
strip_prefix_lem (String.◌∷◌ c p) s =
    ap (strip_prefix (String.◌∷◌ c p)) (cons-append c p s)
    ∙ rw (eq_true (code c) (code c) refl) (strip_prefix_lem p s)

-- A file by its path below the root is itself: it does not begin with dots.
abbrev pub IsPlain : String → Type 0
IsPlain file = drop_dots file ≡ file

drop_parent : (file : String) → drop_dots ("../" <> file) ≡ drop_dots file
unfolding drop_dots nat_eq
drop_parent file = ap drop_dots (
    cons-append (char 46 tt) "./" file
    ∙ ap (λ u. String.◌∷◌ (char 46 tt) u)
        (cons-append (char 46 tt) "/" file
          ∙ ap (λ u. String.◌∷◌ (char 46 tt) u)
              (cons-append (char 47 tt) "" file
                ∙ ap (λ u. String.◌∷◌ (char 47 tt) u) (nil-append file))))

absolute_lem :
    (worktree file : String)
    → worktree ≢ ""
    → IsPlain file
    → worktree_path (rstrip_char b'/' worktree <> ("/" <> file)) worktree ≡ file
unfolding worktree_path below_root
absolute_lem worktree file named plain = rw (eq_false worktree "" named) (
    ap
      (λ path.
        drop_dots (elim (strip_prefix (rstrip_char b'/' worktree <> "/") path) as (λ _. String) [
          | none ↦ path
          | some rest ↦ rest
        ]))
      (sym (append_assoc (rstrip_char b'/' worktree) "/" file))
    ∙ rw (strip_prefix_lem (rstrip_char b'/' worktree <> "/") file) plain)

-- A tool that runs in a build directory beside the worktree says `../file`, and one that is given the
-- whole path says `worktree/file`: both are the file, where it does not begin with dots and the
-- worktree's path does not begin with `../`.
pub worktree_path-same :
    (worktree file : String)
    → worktree ≢ ""
    → IsPlain file
    → strip_prefix (rstrip_char b'/' worktree <> "/") ("../" <> file) ≡ none
    → (worktree_path ("../" <> file) worktree ≡ file)
      × (worktree_path (rstrip_char b'/' worktree <> ("/" <> file)) worktree ≡ file)
unfolding worktree_path below_root
worktree_path-same worktree file named plain outside = (
  rw (eq_false worktree "" named) (rw (outside, below_root) (drop_parent file ∙ plain)),
  absolute_lem worktree file named plain,
)
