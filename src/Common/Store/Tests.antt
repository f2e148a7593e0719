-- ===== src/Common/Store/Tests.antt =====
-- The store index on a host with two kernels, a devel layer and a dangling entry.
use kdevops_ng.Prelude.{
  ℕ, ◌≡◌, refl, ◌≤◌, ◌&&◌, ◌==◌, if◌then◌else◌, ◌++◌, String, true, none, some, List, [], ◌∷◌,
  arith, string_eq, nat_eq, contains,
}
use kdevops_ng.Prelude.Lists.{All}
use kdevops_ng.Prelude.Words.{words}
use kdevops_ng.Prelude.Dict.{lookup}
use kdevops_ng.Common.Store.Index.{
  latest_index, names_of, link, other, Host, Transport, Peer, local_path, is_live, live_target,
  latest_run_layer, newest_name, mtime_of, registered_peers, fetch_from_peers, resolve,
}
use kdevops_ng.Common.Store.Refines.{
  Promises, IsWhole, view, Op, publish_tree, resolve_name, forget_names, prune_all, run, replay,
}
use kdevops_ng.Common.Store.Refines.Runs.{run_refines}
use kdevops_ng.Common.Store.Catalog.{forget, is_dangling, prune}
use kdevops_ng.Common.Store.Laws.{Copies, Lack, resolve-resolve, fetch_from_peers-first}
use kdevops_ng.Common.Store.Layers.{Newest, latest_run_layer-Newest}
use kdevops_ng.Common.Store.Pruning.{lookup-forget, local_path-prune, latest_index-newest}

abbrev here : Host
here = record {
  index =
      ("kernel-7.1", link "/nix/store/b" 20)
      ∷ ("kernel-devel-7.1", link "/nix/store/d" 30)
      ∷ ("kernel-7.0", link "/nix/store/a" 10)
      ∷ ("kernel-6.9", link "/nix/store/gone" 40)
      ∷ ("README", other)
      ∷ [];
  store = "/nix/store/a" ∷ "/nix/store/b" ∷ "/nix/store/d" ∷ [];
  now = 50;
}

-- Only the peer `far` has the emulator.
abbrev toy : Transport
toy = record {
  peer_path = λ host index name. if host == "far" then some "/nix/store/q" else none;
  copy = λ remote sp h. record h { store = sp ∷ h.store };
  add_path = λ tree name h. (tree, record h { store = tree ∷ h.store });
}

toy-Copies : Copies toy
toy-Copies remote sp h = ground arith

resolve-resolve_example :
    let h' = (resolve toy "qemu-1" "far" "~/index" here).1 in
    resolve toy "qemu-1" "" "" h' ≡ (some "/nix/store/q", h')
unfolding resolve local_path live_target lookup string_eq
resolve-resolve_example =
    resolve-resolve toy toy "qemu-1" "far" "~/index" "" "" here {sp = "/nix/store/q"} toy-Copies
      refl

abbrev both : List Peer
both = record { host = "near"; index = "/i" } ∷ record { host = "far"; index = "/j" } ∷ []

first_has_it :
    (before after : List Peer) × (p : Peer) × (both ≡ before ++ (p ∷ after))
    × Lack toy "qemu-1" before
    × (p.host ≡ "far")
    × (toy.peer_path p.host p.index "qemu-1" ≡ some "/nix/store/q")
    × (local_path "qemu-1" (fetch_from_peers toy "qemu-1" both here).1 ≡ some "/nix/store/q")
unfolding fetch_from_peers string_eq
first_has_it =
    fetch_from_peers-first toy "qemu-1" both here {host = "far"} {sp = "/nix/store/q"} toy-Copies
      refl

forgets_one : lookup "kernel-7.1" (forget ("kernel-7.1" ∷ "qemu-2" ∷ []) true here).1.index ≡ (
    if true && contains {A = String} ("kernel-7.1" ∷ "qemu-2" ∷ []) "kernel-7.1"
    then none
    else lookup "kernel-7.1" here.index)
forgets_one = lookup-forget ("kernel-7.1" ∷ "qemu-2" ∷ []) true here "kernel-7.1"

local_path-prune_example :
    (local_path "kernel-6.9" (prune here).1 ≡ local_path "kernel-6.9" here)
    × ((prune (prune here).1).0 ≡ [])
unfolding lookup string_eq
local_path-prune_example =
    local_path-prune here "kernel-6.9" (refl, (refl, (refl, (refl, (refl, tt)))))

latest_run_layer-Newest_example :
    Newest "kernel" here "kernel-devel-7.1" (latest_run_layer "kernel" here)
unfolding lookup string_eq
latest_run_layer-Newest_example =
    latest_run_layer-Newest "kernel" here "kernel-devel-7.1"
      (refl, (refl, (refl, (refl, (refl, tt)))))

newest_kernel :
    (contains (names_of here "kernel-" here.index) "kernel-devel-7.1" ≡ true)
    × All
        (λ n. mtime_of (lookup n here.index) ≤ mtime_of (lookup "kernel-devel-7.1" here.index))
        (names_of here "kernel-" here.index)
unfolding latest_index newest_name is_live lookup string_eq
newest_kernel = latest_index-newest "kernel-" here {best = "kernel-devel-7.1"} refl

prune_finds : (prune here).0 ≡ "kernel-6.9" ∷ []
unfolding prune is_dangling is_live string_eq
prune_finds = refl

reads_peers :
    registered_peers ("far" ∷ "" ∷ "near /i" ∷ [])
    ≡ record { host = "far"; index = "~/.local/state/windmill/workbench/system/store-index" }
      ∷ record { host = "near"; index = "/i" }
      ∷ []
unfolding registered_peers words nat_eq string_eq
reads_peers = refl

-- A host with one kernel.
abbrev clean : Host
clean = record {
  index = ("kernel-7.1", link "/nix/store/b" 20) ∷ [];
  store = "/nix/store/b" ∷ [];
  now = 50;
}

clean-live :
    (k t : String) (m : ℕ) → lookup k clean.index ≡ some (link t m) → contains clean.store t ≡ true
unfolding lookup
clean-live k t m e = ground (arith, e)

clean-IsWhole : IsWhole clean
unfolding lookup
clean-IsWhole = record { distinct = (refl, tt); live = clean-live }

toy_promises : Promises toy
toy_promises = record {
  path_of = λ tree name. tree;
  added = λ tree name h. refl;
  added_index = λ tree name h. refl;
  added_there = λ tree name h. ground arith;
  added_keeps = λ tree name h p there. ground (arith, there);
  copied_index = λ remote sp h. refl;
  copied_there = λ remote sp h. ground arith;
  copied_keeps = λ remote sp h p there. ground (arith, there);
}

abbrev calls : List Op
calls =
    resolve_name "qemu-1" "far" "~/index"
    ∷ publish_tree "kernel-7.2" "/nix/store/c"
    ∷ forget_names ("kernel-7.1" ∷ []) true
    ∷ prune_all
    ∷ []

run_refines_example :
    IsWhole (run toy calls clean)
    × (view (run toy calls clean) ≡ replay toy toy_promises.path_of calls (view clean))
run_refines_example = run_refines toy toy_promises calls clean (view clean) clean-IsWhole refl
