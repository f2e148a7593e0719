-- ===== src/Common/Store/Laws.antt =====
-- What the index holds after each operation.
use mathlib.Core.Option.{some-injective}
use kdevops_ng.Prelude.{
  String, ◌≡◌, refl, ap, ◌∙◌, true, ◌&&◌, Option, none, some, List, [], ◌∷◌, ◌++◌, arith, ◌!=◌,
  string_eq, contains, inl, inr, Bool-cases, Option-cases,
}
use kdevops_ng.Prelude.Lists.{All}
use kdevops_ng.Prelude.Dict.{lookup-insert}
use kdevops_ng.Common.Store.Index.{
  link, Host, local_path, link_local, Transport, Peer, pull, fetch_from_peers, resolve,
}

-- `nix copy` brings the path that it was asked for.
abbrev pub Copies : Transport → Type 0
Copies net = (remote sp : String) (h : Host) → contains (net.copy remote sp h).store sp ≡ true

local_path-link_local :
    (name sp : String) (h : Host)
    → contains h.store sp ≡ true
    → local_path name (link_local name sp h) ≡ some sp
unfolding local_path link_local
local_path-link_local name sp h there =
    ground (arith, lookup-insert name name (link sp h.now) h.index)

resolve_here :
    (net : Transport) (name remote index : String) (h : Host) {sp : String}
    → local_path name h ≡ some sp
    → resolve net name remote index h ≡ (some sp, h)
unfolding resolve
resolve_here net name remote index h e = rw (e, resolve)

module _ (net : Transport) where
  pull-local_path :
      (name remote sp : String) (h : Host)
      → Copies net
      → local_path name (pull net name remote sp h) ≡ some sp
  unfolding pull
  pull-local_path name remote sp h copies =
      local_path-link_local name sp (net.copy remote sp h) (copies remote sp h)

  resolve-local_path :
      (name remote index : String) (h : Host) {sp : String}
      → Copies net
      → (resolve net name remote index h).0 ≡ some sp
      → local_path name (resolve net name remote index h).1 ≡ some sp
  unfolding resolve
  resolve-local_path name remote index h {sp} copies found =
      elim (Option-cases (local_path name h)) [
        | inr (here, e) ↦ rw (e, resolve) (e ∙ (rw (e, resolve) at found))
        | inl absent ↦ elim (Bool-cases (remote != "" && index != "")) [
          | inr no_peer ↦ cc (rw (absent, no_peer, resolve) at found)
          | inl asked ↦ elim (Option-cases (net.peer_path remote index name)) [
            | inl nothing ↦ cc (rw (absent, asked, nothing, resolve) at found)
            | inr (there, e) ↦
                rw (absent, asked, e, resolve)
                  (pull-local_path name remote there h copies
                    ∙ (rw (absent, asked, e, resolve) at found))
          ]
        ]
      ]

  -- Where `nix copy` brings what it is asked for: once `resolve` has found a store path, the local
  -- index has it, and any later call, with any peer, returns it at once and changes nothing.
  pub resolve-resolve :
      (other_net : Transport) (name remote index remote' index' : String) (h : Host) {sp : String}
      → Copies net
      → (resolve net name remote index h).0 ≡ some sp
      → let h' = (resolve net name remote index h).1 in
        resolve other_net name remote' index' h' ≡ (some sp, h')
  resolve-resolve other_net name remote index remote' index' h copies found =
      resolve_here other_net name remote' index' _
        (resolve-local_path name remote index h copies found)

  -- None of the peers has the identity.
  abbrev pub Lack : String → List Peer → Type 0
  Lack name peers = All (λ (p : Peer). net.peer_path p.host p.index name ≡ none) peers

  -- Where `nix copy` brings what it is asked for, the sweep's hit is of the first peer in order
  -- that has the identity, and the local index then has the path.
  pub fetch_from_peers-first :
      (name : String) (peers : List Peer) (h : Host) {host sp : String}
      → Copies net
      → (fetch_from_peers net name peers h).0 ≡ some (host, sp)
      → (before after : List Peer) × (p : Peer) × (peers ≡ before ++ (p ∷ after))
        × Lack name before
        × (p.host ≡ host)
        × (net.peer_path p.host p.index name ≡ some sp)
        × (local_path name (fetch_from_peers net name peers h).1 ≡ some sp)
  unfolding fetch_from_peers
  fetch_from_peers-first name [] h copies found = cc
  fetch_from_peers-first name (peer ∷ peers) h {host} {sp} copies found =
      elim (Option-cases (net.peer_path peer.host peer.index name)) [
        | inr (there, e) ↦
            let same : ◌≡◌ {A = Option (String × String)} (some (peer.host, there))
                (some (host, sp)) =
              rw (e, fetch_from_peers) at found in
            let both = some-injective _ _ same in
            let path_is : there ≡ sp = ap (λ (x : String × String). x.1) both in
            (
              [],
              peers,
              peer,
              refl,
              tt,
              ap (λ (x : String × String). x.0) both,
              e ∙ ap some path_is,
              rw (e, fetch_from_peers)
                  (pull-local_path name peer.host there h copies ∙ ap some path_is),
            )
        | inl lacks ↦
            let (before, after, p, split, lack, named, has, indexed) =
              fetch_from_peers-first name peers h {host = host} {sp = sp} copies
                (rw (lacks, fetch_from_peers) at found) in
            (
              peer ∷ before,
              after,
              p,
              ap (λ l. peer ∷ l) split,
              (lacks, lack),
              named,
              has,
              rw (lacks, fetch_from_peers) indexed,
            )
      ]
