-- ===== src/Common/Store/Catalog.antt =====
-- f/common/store_index.py: inspecting and pruning the index.
use kdevops_ng.Prelude.{
  String, Bool, true, false, not, Option, none, some, List, [], ◌∷◌, ◌++◌, ◌==◌, ◌!=◌, string_eq,
  list_eq, contains, if◌then◌else◌, starts_with,
}
use kdevops_ng.Prelude.Dict.{Dict, lookup, erase}
use kdevops_ng.Common.Store.Index.{Entry, link, other, Host, is_live}

pub data Kind : Type 0 where
  kernel_devel kernel qemu other_kind : Kind

unfoldable pub kind_of : String → Kind
kind_of name =
    if starts_with name "kernel-devel-"
    then kernel_devel
    else if starts_with name "kernel-"
    then kernel
    else if starts_with name "qemu-"
    then qemu
    else other_kind

-- `os.path.realpath(entry) if entry.is_symlink() else None`
abbrev pub link_target : Option Entry → Option String
link_target (some (link target _)) = some target
link_target _ = none

-- What a `forget` reports: nothing removed, or each name with the path its entry had.
pub data Forgotten : Type 0 where
  refused : Forgotten
  unconfirmed : Forgotten
  removed : List (String × Option String) → Forgotten

abbrev pub forget_each : List String → Host → List (String × Option String) × Host
forget_each [] h = ([], h)
forget_each (name ∷ names) h =
    let (rest, h') = forget_each names (record h { index = erase name h.index }) in
    ((name, link_target (lookup name h.index)) ∷ rest, h')

-- `refused` where it raises: no name was given.
unfoldable pub forget : List String → Bool → Host → Forgotten × Host
forget [] confirm h = (refused, h)
forget (name ∷ names) false h = (unconfirmed, h)
forget (name ∷ names) true h = let (gone, h') = forget_each (name ∷ names) h in (removed gone, h')

-- A symlink whose store path is gone.
unfoldable pub is_dangling : Host → Entry → Bool
is_dangling h (link target mtime) = not (is_live h (link target mtime))
is_dangling h other = false

abbrev pub prune_entries : Host → Dict Entry → List String × Dict Entry
prune_entries h [] = ([], [])
prune_entries h ((name, e) ∷ d) =
    let (gone, kept) = prune_entries h d in
    if is_dangling h e then (name ∷ gone, kept) else (gone, (name, e) ∷ kept)

-- The names that were removed, and the host after it.
unfoldable pub prune : Host → List String × Host
unfolding is_dangling is_live
prune h = let (gone, kept) = prune_entries h h.index in (gone, record h { index = kept })

-- The names of `main`: the single name first, empty ones and repetitions dropped.
select : List String → List String → List String
select chosen [] = chosen
select chosen (entry ∷ entries) =
    select
      (if entry == ""
        then chosen
        else if contains chosen entry
        then chosen
        else chosen ++ (entry ∷ []))
      entries

unfoldable pub selected : String → List String → List String
unfolding select
selected name names = select [] ((if name != "" then name ∷ [] else []) ++ names)
