-- ===== src/Common/Gitrefs/Tests.antt =====
-- A repository with a packed branch and tag and a loose mirror branch.
use kdevops_ng.Prelude.{◌≡◌, refl, String, true, none, some, [], ◌∷◌, contains, string_eq, nat_eq}
use kdevops_ng.Prelude.Dict.{lookup, insert}
use kdevops_ng.Common.Gitrefs.{
  Bare, strip_prefix, note_ref, note_refs, read_refs, read_refnames, candidates, first_in,
  qualify_ref, head, mirror,
}
use kdevops_ng.Common.Gitrefs.Picks.{qualify_ref-read_refs}

abbrev linux : Bare
linux = record {
  packed = "# pack-refs with: peeled" ∷ "aa refs/heads/topic" ∷ "bb refs/tags/v7.0" ∷ "^cc" ∷ [];
  loose = "refs/remotes/mirror/master" ∷ "refs/heads/refs/odd" ∷ [];
}

qualify_ref-read_refs_example :
    (q : String) × (qualify_ref (some linux) "mirror/master" ≡ some q)
    × (contains (read_refnames linux) q ≡ true)
unfolding lookup read_refs note_refs string_eq note_ref strip_prefix nat_eq insert
qualify_ref-read_refs_example =
    qualify_ref-read_refs linux "mirror/master" {kind = mirror} refl refl

qualifies : qualify_ref (some linux) "v7.0" ≡ some "refs/tags/v7.0"
unfolding qualify_ref first_in candidates read_refnames string_eq nat_eq
qualifies = refl

-- A branch whose name begins with `refs/` is offered, and is not found again.
odd_branch :
    (lookup "refs/odd" (read_refs linux) ≡ some head) × (qualify_ref (some linux) "refs/odd" ≡ none)
unfolding lookup read_refs note_refs string_eq note_ref strip_prefix nat_eq insert qualify_ref
    first_in candidates read_refnames
odd_branch = (refl, refl)
