-- ===== src/Common/Store/Index.antt =====
-- f/common/store.py: the index, its queries, and the cascade from the local index to the peers.
use Prim.Native.Char.{code}
use kdevops_ng.Prelude.{
  ℕ, ◌<>◌, String, Bool, true, false, ◌&&◌, ◌||◌, not, Option, none, some, List, [], ◌∷◌,
  starts_with, ◌==◌, ◌!=◌, string_eq, nat_eq, contains, ltb, if◌then◌else◌,
}
use kdevops_ng.Prelude.Lists.{keep}
use kdevops_ng.Prelude.Dict.{Dict, lookup, insert}
use kdevops_ng.Prelude.Words.{words}

-- What stands in the index directory: a symlink, by its resolved target and its own mtime (it is
-- a GC root), or something else.
pub data Entry : Type 0 where
  link : String → ℕ → Entry
  other : Entry

-- The host: the index directory, none where it is not there, and the store paths that exist.
pub record Host : Type 0 where
  pub index : Dict Entry
  pub store : List String
  pub now : ℕ

-- `entry.is_symlink() and Path(os.path.realpath(entry)).exists()`
unfoldable pub live_target : Host → Option Entry → Option String
live_target h (some (link target _)) = if contains h.store target then some target else none
live_target h _ = none

unfoldable pub local_path : String → Host → Option String
unfolding live_target
local_path name h = live_target h (lookup name h.index)

unfoldable pub is_live : Host → Entry → Bool
is_live h (link target _) = contains h.store target
is_live h other = false

-- Python's order of texts, by code points.
unfoldable pub text_lt : String → String → Bool
text_lt String.[] String.[] = false
text_lt String.[] (String.◌∷◌ d t) = true
text_lt (String.◌∷◌ c s) String.[] = false
text_lt (String.◌∷◌ c s) (String.◌∷◌ d t) =
    ltb (code c) (code d) || (code c == code d && text_lt s t)

module _ {ℓ} {V : Type ℓ} where
  unfoldable pub place : String × V → Dict V → Dict V
  place e [] = e ∷ []
  place e (f ∷ d) = if text_lt f.0 e.0 then f ∷ place e d else e ∷ f ∷ d

  -- `sorted(d.iterdir())`
  unfoldable pub sorted : Dict V → Dict V
  unfolding place
  sorted [] = []
  sorted (e ∷ d) = place e (sorted d)

abbrev pub names_of : Host → String → Dict Entry → List String
names_of h prefix [] = []
names_of h prefix ((name, e) ∷ d) =
    let rest = names_of h prefix d in
    if starts_with name prefix && is_live h e then name ∷ rest else rest

unfoldable pub list_index : String → Host → List String
unfolding sorted is_live
list_index prefix h = names_of h prefix (sorted h.index)

unfoldable pub list_run_layers : String → Host → List String
list_run_layers project h =
    keep (λ n. not (starts_with n (project <> "-devel-"))) (list_index (project <> "-") h)

-- `lstat().st_mtime` of an entry.
abbrev pub mtime_of : Option Entry → ℕ
mtime_of (some (link _ mtime)) = mtime
mtime_of _ = 0

-- The loop of `latest_run_layer`: `best`, with its mtime, is replaced by a strictly newer entry.
unfoldable pub newest_name : Host → Option (String × ℕ) → List String → Option (String × ℕ)
newest_name h best [] = best
newest_name h none (name ∷ names) =
    newest_name h (some (name, mtime_of (lookup name h.index))) names
newest_name h (some (best, best_mtime)) (name ∷ names) =
    let mtime = mtime_of (lookup name h.index) in
    newest_name h (if ltb best_mtime mtime then some (name, mtime) else some (best, best_mtime))
      names

unfoldable pub latest_run_layer : String → Host → Option String
unfolding newest_name
latest_run_layer project h = elim (newest_name h none (list_run_layers project h)) [
  | none ↦ none
  | some (name, _) ↦ some name
]

-- The same loop over the directory as it is listed, with the devel layers.
unfoldable pub latest_index : String → Host → Option String
unfolding newest_name
latest_index prefix h = elim (newest_name h none (names_of h prefix h.index)) [
  | none ↦ none
  | some (name, _) ↦ some name
]

-- `nix build <sp> --out-link <entry>` where it succeeds: the entry is a fresh symlink to the store
-- path. It is taken not to fail, as it does where the entry is there and no symlink.
unfoldable pub link_local : String → String → Host → Host
link_local name sp h = record h { index = insert name (link sp h.now) h.index }

-- What the program asks of the network and of nix: a peer's index entry over ssh (an empty
-- text, where it has none, reads as none), and the host after `nix copy` from a peer.
pub record Transport : Type 0 where
  pub peer_path : String → String → String → Option String
  pub copy : String → String → Host → Host
  -- `nix store add-path <tree> --name <name>`
  pub add_path : String → String → Host → String × Host

-- A registered peer: its ssh host, and the directory of its index.
pub record Peer : Type 0 where
  pub host : String
  pub index : String

abbrev default_peer_index : String
default_peer_index = "~/.local/state/windmill/workbench/system/store-index"

peer_of : List String → Option Peer
peer_of [] = none
peer_of (host ∷ []) = some (record { host = host; index = default_peer_index })
peer_of (host ∷ index ∷ _) = some (record { host = host; index = index })

-- The lines of `$SYSTEM_DIR/peers`; a missing file has none.
unfoldable pub registered_peers : List String → List Peer
unfolding peer_of
registered_peers [] = []
registered_peers (line ∷ lines) =
    let rest = registered_peers lines in
    elim (peer_of (words line)) [ none ↦ rest | some peer ↦ peer ∷ rest ]

module _ (net : Transport) where
  unfoldable pub publish : String → String → Host → String × Host
  unfolding link_local
  publish name tree h = let (sp, h') = net.add_path tree name h in (sp, link_local name sp h')

  -- Copies the store path from the peer and indexes it here.
  unfoldable pub pull : String → String → String → Host → Host
  unfolding link_local
  pull name remote sp h = link_local name sp (net.copy remote sp h)

  unfoldable pub fetch_from_peers : String → List Peer → Host → Option (String × String) × Host
  fetch_from_peers name [] h = (none, h)
  fetch_from_peers name (peer ∷ peers) h =
      let rest = fetch_from_peers name peers h in
      elim (net.peer_path peer.host peer.index name) [
        | none ↦ rest
        | some sp ↦ (some (peer.host, sp), pull name peer.host sp h)
      ]

  unfoldable pub resolve : String → String → String → Host → Option String × Host
  resolve name remote remote_index h = elim (local_path name h) [
    | some sp ↦ (some sp, h)
    | none ↦
        if remote != "" && remote_index != ""
        then elim (net.peer_path remote remote_index name) [
          | none ↦ (none, h)
          | some sp ↦ (some sp, pull name remote sp h)
        ]
        else (none, h)
  ]
