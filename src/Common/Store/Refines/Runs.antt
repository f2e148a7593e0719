-- ===== src/Common/Store/Refines/Runs.antt =====
-- Every sequence of calls refines its replay on the map.
use mathlib.Core.Path.{subst, fun_ext}
use kdevops_ng.Prelude.{
  ℕ, String, ◌≡◌, refl, sym, ap, ◌∙◌, Bool, true, false, ◌&&◌, Option, none, some, List, [], ◌∷◌,
  arith, ◌!=◌, string_eq, contains, inl, inr, Bool-cases, Option-cases, if◌then◌else◌,
}
use kdevops_ng.Prelude.Dict.{Dict, lookup, erase}
use kdevops_ng.Common.Store.Index.{
  Entry, link, other, Host, live_target, local_path, is_live, link_local, Transport, Peer, publish,
  pull, fetch_from_peers, resolve,
}
use kdevops_ng.Common.Store.Catalog.{forget_each, forget, is_dangling, prune_entries, prune}
use kdevops_ng.Common.Store.Pruning.{NodupKeys, lookup-forget, local_path-prune}
use kdevops_ng.Common.Store.Refines.{
  Promises, IsWhole, View, view, set, Op, publish_tree, resolve_name, sweep, forget_names,
  prune_all, run, first_peer, set_found, one_peer, set_missing, replay,
}
use kdevops_ng.Common.Store.Refines.Links.{Steps, grown, linked, erase-NodupKeys}

forget_each-store : (names : List String) (h : Host) → (forget_each names h).1.store ≡ h.store
forget_each-store [] h = refl
forget_each-store (name ∷ names) h =
    forget_each-store names (record h { index = erase name h.index })

forget_each-NodupKeys :
    (names : List String) (h : Host) → NodupKeys h.index → NodupKeys (forget_each names h).1.index
forget_each-NodupKeys [] h d = d
forget_each-NodupKeys (name ∷ names) h d =
    forget_each-NodupKeys names (record h { index = erase name h.index })
      (erase-NodupKeys name h.index d)

forget-store :
    (names : List String) (confirm : Bool) (h : Host) → (forget names confirm h).1.store ≡ h.store
unfolding forget
forget-store [] confirm h = refl
forget-store (name ∷ names) false h = refl
forget-store (name ∷ names) true h = forget_each-store (name ∷ names) h

forget-NodupKeys :
    (names : List String) (confirm : Bool) (h : Host)
    → NodupKeys h.index
    → NodupKeys (forget names confirm h).1.index
unfolding forget
forget-NodupKeys [] confirm h d = d
forget-NodupKeys (name ∷ names) false h d = d
forget-NodupKeys (name ∷ names) true h d = forget_each-NodupKeys (name ∷ names) h d

target_same :
    (h h' : Host) (e : Option Entry) → h'.store ≡ h.store → live_target h' e ≡ live_target h e
unfolding live_target
target_same h h' none same = refl
target_same h h' (some other) same = refl
target_same h h' (some (link t m)) same =
    ap (λ store. if contains store t then some t else none) same

gone_if :
    (gone : Bool) (e : Option Entry) (t : String) (m : ℕ)
    → (if gone then none else e) ≡ some (link t m)
    → e ≡ some (link t m)
gone_if true e t m h = cc
gone_if false e t m h = h

target_gone :
    (h : Host) (gone : Bool) (e : Option Entry)
    → live_target h (if gone then none else e) ≡ (if gone then none else live_target h e)
unfolding live_target
target_gone h true e = refl
target_gone h false e = refl

forget-Steps :
    (names : List String) (confirm : Bool) (h : Host)
    → IsWhole h
    → Steps (forget names confirm h).1 (λ k. if confirm && contains names k then none else view h k)
unfolding local_path
forget-Steps names confirm h whole =
    let h' = (forget names confirm h).1 in
    let same = forget-store names confirm h in
    (
      record {
        distinct = forget-NodupKeys names confirm h whole.distinct;
        live = λ k t m e.
            ap (λ store. contains store t) same
            ∙ whole.live k t m (
                gone_if (confirm && contains names k) (lookup k h.index) t m
                  (sym (lookup-forget names confirm h k) ∙ e));
      },
      fun_ext λ k.
          ap (live_target h') (lookup-forget names confirm h k)
          ∙ target_same h h' (if confirm && contains names k then none else lookup k h.index) same
          ∙ target_gone h (confirm && contains names k) (lookup k h.index),
    )

lookup-prune_none :
    (h : Host) (k : String) (d : Dict Entry)
    → lookup k d ≡ none
    → lookup k (prune_entries h d).1 ≡ none
unfolding lookup
lookup-prune_none h k [] e = refl
lookup-prune_none h k ((j, w) ∷ d) e = ground (arith, lookup-prune_none h k d, e)

prune-NodupKeys : (h : Host) (d : Dict Entry) → NodupKeys d → NodupKeys (prune_entries h d).1
prune-NodupKeys h [] u = tt
prune-NodupKeys h ((j, w) ∷ d) (fresh, u) =
    ground (arith, lookup-prune_none h j d fresh, prune-NodupKeys h d u)

prune-live :
    (h : Host) (k t : String) (m : ℕ) (d : Dict Entry)
    → lookup k (prune_entries h d).1 ≡ some (link t m)
    → contains h.store t ≡ true
unfolding lookup is_dangling is_live
prune-live h k t m [] e = cc
prune-live h k t m ((j, w) ∷ d) e = ground (arith, prune-live h k t m d, e)

prune-Steps : (h : Host) → IsWhole h → Steps (prune h).1 (view h)
unfolding prune
prune-Steps h whole = (
  record {
    distinct = prune-NodupKeys h h.index whole.distinct;
    live = λ k t m e. prune-live h k t m h.index e;
  },
  fun_ext λ k. (local_path-prune h k whole.distinct).0,
)

module _ (net : Transport) (nix : Promises net) where
  -- A link to a path that the store has just got.
  linked_after :
      (name sp : String) (h h' : Host)
      → Steps h' (view h)
      → contains h'.store sp ≡ true
      → Steps (link_local name sp h') (set name (some sp) (view h))
  linked_after name sp h h' (whole, same) there =
      let (whole', reads) = linked name sp h' whole there in
      (whole', reads ∙ ap (set name (some sp)) same)

  publish-Steps :
      (name tree : String) (h : Host)
      → IsWhole h
      → Steps (publish net name tree h).1 (set name (some (nix.path_of tree name)) (view h))
  unfolding publish
  publish-Steps name tree h whole =
      let h' = (net.add_path tree name h).1 in
      let sp = (net.add_path tree name h).0 in
      let is_path = nix.added tree name h in
      subst (λ path. Steps (link_local name sp h') (set name (some path) (view h))) is_path
        (linked_after name sp h h'
          (grown h h' whole (nix.added_index tree name h) (nix.added_keeps tree name h))
          (ap (contains h'.store) is_path ∙ nix.added_there tree name h))

  pull-Steps :
      (name remote sp : String) (h : Host)
      → IsWhole h
      → Steps (pull net name remote sp h) (set name (some sp) (view h))
  unfolding pull
  pull-Steps name remote sp h whole =
      linked_after name sp h (net.copy remote sp h)
        (grown h (net.copy remote sp h) whole (nix.copied_index remote sp h)
          (nix.copied_keeps remote sp h))
        (nix.copied_there remote sp h)

  sweep-Steps :
      (name : String) (peers : List Peer) (h : Host)
      → IsWhole h
      → Steps
          (fetch_from_peers net name peers h).1
          (set_found net name (first_peer net name peers) (view h))
  unfolding fetch_from_peers first_peer
  sweep-Steps name [] h whole = (whole, refl)
  sweep-Steps name (peer ∷ peers) h whole =
      elim (Option-cases (net.peer_path peer.host peer.index name)) [
        | inl lacks ↦ rw (lacks, fetch_from_peers, first_peer) (sweep-Steps name peers h whole)
        | inr (sp, e) ↦ rw (e, fetch_from_peers, first_peer) (pull-Steps name peer.host sp h whole)
      ]

  resolve-Steps :
      (name remote index : String) (h : Host)
      → IsWhole h
      → Steps
          (resolve net name remote index h).1
          (set_missing net name (view h name) (one_peer net name remote index) (view h))
  unfolding resolve
  resolve-Steps name remote index h whole = elim (Option-cases (local_path name h)) [
    | inr (sp, e) ↦ rw (e, resolve) (whole, refl)
    | inl absent ↦ elim (Bool-cases (remote != "" && index != "")) [
      | inr unasked ↦ rw (absent, unasked, resolve) (whole, refl)
      | inl asked ↦ elim (Option-cases (net.peer_path remote index name)) [
        | inl lacks ↦ rw (absent, asked, lacks, resolve) (whole, refl)
        | inr (sp, e) ↦ rw (absent, asked, e, resolve) (pull-Steps name remote sp h whole)
      ]
    ]
  ]

  -- What nix promises is assumed. From a host that is whole, over any sequence of calls: the host
  -- stays whole, and `local_path` reads the same as the map on which the calls are replayed, where a
  -- publication and a hit of a peer set a name, a name that is there is not asked for again, a
  -- confirmed forget removes its names, and a pruning changes nothing.
  pub run_refines :
      (ops : List Op) (h : Host) (f : View)
      → IsWhole h
      → view h ≡ f
      → IsWhole (run net ops h) × (view (run net ops h) ≡ replay net nix.path_of ops f)
  unfolding run replay
  run_refines [] h f whole same = (whole, same)
  run_refines (publish_tree name tree ∷ ops) h f whole same =
      let (whole', reads) = publish-Steps name tree h whole in
      run_refines ops _ _ whole' (reads ∙ ap (set name (some (nix.path_of tree name))) same)
  run_refines (resolve_name name remote index ∷ ops) h f whole same =
      let (whole', reads) = resolve-Steps name remote index h whole in
      run_refines ops _ _ whole'
        (reads ∙ ap (λ g. set_missing net name (g name) (one_peer net name remote index) g) same)
  run_refines (sweep name peers ∷ ops) h f whole same =
      let (whole', reads) = sweep-Steps name peers h whole in
      run_refines ops _ _ whole' (reads ∙ ap (set_found net name (first_peer net name peers)) same)
  run_refines (forget_names names confirm ∷ ops) h f whole same =
      let (whole', reads) = forget-Steps names confirm h whole in
      run_refines ops _ _ whole' (
        reads
        ∙ ap {B = View} (λ (g : View) k. if confirm && contains names k then none else g k) same)
  run_refines (prune_all ∷ ops) h f whole same =
      let (whole', reads) = prune-Steps h whole in run_refines ops _ _ whole' (reads ∙ same)
