-- ===== src/Common/Store/Refines.antt =====
-- The index as a map from names to store paths, over any sequence of operations.
pub mod Links
pub mod Runs
use mathlib.Core.Path.{subst, fun_ext}
use mathlib.Core.Option.{some-injective}
use kdevops_ng.Prelude.{
  ℕ, String, ◌≡◌, refl, sym, ap, ◌∙◌, Bool, true, false, ◌&&◌, Option, none, some, List, [], ◌∷◌,
  arith, ◌==◌, ◌!=◌, string_eq, contains, ◌⊎◌, inl, inr, Bool-cases, Option-cases, eq_true,
  eq_false, if-lem, if◌then◌else◌,
}
use kdevops_ng.Prelude.Dict.{Dict, lookup, insert, erase, lookup-insert, lookup-erase}
use kdevops_ng.Common.Store.Index.{
  Entry, link, other, Host, live_target, local_path, is_live, link_local, Transport, Peer, publish,
  pull, fetch_from_peers, resolve,
}
use kdevops_ng.Common.Store.Catalog.{forget_each, forget, is_dangling, prune_entries, prune}
use kdevops_ng.Common.Store.Pruning.{NodupKeys, lookup-forget, local_path-prune}

-- What nix promises: the path of a tree depends on the tree and the name, and what is added or
-- copied is there afterwards, with all that was there before, and an index that is as it was.
pub record Promises (net : Transport) : Type 0 where
  pub path_of : String → String → String
  pub added : (tree name : String) (h : Host) → (net.add_path tree name h).0 ≡ path_of tree name
  pub added_index : (tree name : String) (h : Host) → (net.add_path tree name h).1.index ≡ h.index
  pub added_there :
      (tree name : String) (h : Host)
      → contains (net.add_path tree name h).1.store (path_of tree name) ≡ true
  pub added_keeps :
      (tree name : String) (h : Host) (p : String)
      → contains h.store p ≡ true
      → contains (net.add_path tree name h).1.store p ≡ true
  pub copied_index : (remote sp : String) (h : Host) → (net.copy remote sp h).index ≡ h.index
  pub copied_there :
      (remote sp : String) (h : Host) → contains (net.copy remote sp h).store sp ≡ true
  pub copied_keeps :
      (remote sp : String) (h : Host) (p : String)
      → contains h.store p ≡ true
      → contains (net.copy remote sp h).store p ≡ true

-- A host whose index has each name once, and whose links are to paths that exist.
pub record IsWhole (h : Host) : Type 0 where
  pub distinct : NodupKeys h.index
  pub live :
      (k target : String) (mtime : ℕ)
      → lookup k h.index ≡ some (link target mtime)
      → contains h.store target ≡ true

-- The abstract state: a map from names to store paths.
abbrev pub View : Type 0
View = String → Option String

abbrev pub view : Host → View
view h k = local_path k h

abbrev pub set : String → Option String → View → View
set name value f k = if k == name then value else f k

-- Every call of a client.
pub data Op : Type 0 where
  publish_tree : String → String → Op
  resolve_name : String → String → String → Op
  sweep : String → List Peer → Op
  forget_names : List String → Bool → Op
  prune_all : Op

module _ (net : Transport) where
  unfoldable pub run : List Op → Host → Host
  run [] h = h
  run (publish_tree name tree ∷ ops) h = run ops (publish net name tree h).1
  run (resolve_name name remote index ∷ ops) h = run ops (resolve net name remote index h).1
  run (sweep name peers ∷ ops) h = run ops (fetch_from_peers net name peers h).1
  run (forget_names names confirm ∷ ops) h = run ops (forget names confirm h).1
  run (prune_all ∷ ops) h = run ops (prune h).1

  -- The path that the first peer with the name gives, if one does.
  unfoldable pub first_peer : String → List Peer → Option String
  first_peer name [] = none
  first_peer name (peer ∷ peers) = elim (net.peer_path peer.host peer.index name) [
    | none ↦ first_peer name peers
    | some sp ↦ some sp
  ]

  abbrev pub set_found : String → Option String → View → View
  set_found name none f = f
  set_found name (some sp) f = set name (some sp) f

  -- The path of one peer that is asked for, where both of its names are given.
  abbrev pub one_peer : String → String → String → Option String
  one_peer name remote index =
      if remote != "" && index != "" then net.peer_path remote index name else none

  -- A name that the map has stays.
  abbrev pub set_missing : String → Option String → Option String → View → View
  set_missing name (some sp) found f = f
  set_missing name none found f = set_found name found f

  -- The same calls on the map.
  unfoldable pub replay : (String → String → String) → List Op → View → View
  replay path_of [] f = f
  replay path_of (publish_tree name tree ∷ ops) f =
      replay path_of ops (set name (some (path_of tree name)) f)
  replay path_of (resolve_name name remote index ∷ ops) f =
      replay path_of ops (set_missing name (f name) (one_peer name remote index) f)
  replay path_of (sweep name peers ∷ ops) f =
      replay path_of ops (set_found name (first_peer name peers) f)
  replay path_of (forget_names names confirm ∷ ops) f =
      replay path_of ops (λ k. if confirm && contains names k then none else f k)
  replay path_of (prune_all ∷ ops) f = replay path_of ops f
