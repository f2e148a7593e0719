-- ===== src/Qsu/Machines.antt =====
-- f/qsu/common.py: `vm_options`, the guests that a form offers, from what systemd prints here and on
-- the peers.
pub mod Sorted
pub mod Offers
use mathlib.Core.Option.{get_or}
use kdevops_ng.Prelude.{
  ℕ, String, ◌<>◌, Bool, true, false, ◌&&◌, ◌||◌, not, Option, none, some, List, [], ◌∷◌, ◌++◌, map,
  ◌==◌, nat_eq, string_eq, contains, if◌then◌else◌,
}
use kdevops_ng.Prelude.Lists.{keep, sort_by}
use kdevops_ng.Prelude.Words.{words, split_lines, strip_ending, text_ltb}
use kdevops_ng.Common.Worktree.Labels.{codes, lower}
use kdevops_ng.Common.Gitrefs.{strip_prefix}

-- The guest of a token `qemu-system@<vm>.service`. The prefix and the suffix cannot overlap.
unfoldable pub guest_of : String → Option String
guest_of token = elim (strip_prefix "qemu-system@" token) [
  | none ↦ none
  | some rest ↦ strip_ending ".service" rest
]

unfoldable pub first_guest : List String → Option String
first_guest [] = none
first_guest (token ∷ tokens) =
    let rest = first_guest tokens in elim (guest_of token) [ none ↦ rest | some vm ↦ some vm ]

-- A set, as a list without repetition.
unfoldable pub add : String → List String → List String
add vm vms = if contains vms vm then vms else vm ∷ vms

abbrev pub add_found : Option String → List String → List String
add_found none vms = vms
add_found (some vm) vms = add vm vms

abbrev pub guests_in : List String → List String
guests_in [] = []
guests_in (line ∷ lines) = add_found (first_guest (words line)) (guests_in lines)

unfoldable pub running_vms : String → List String
running_vms out = guests_in (split_lines out)

unfoldable pub union : List String → List String → List String
union [] vms = vms
union (vm ∷ more) vms = add vm (union more vms)

pub record Choice : Type 0 where
  pub label : String
  pub value : String

abbrev pub sorted_vms : List String → List String
sorted_vms vms = sort_by text_ltb vms

abbrev pub local_choice : String → Choice
local_choice vm = record { label = vm; value = vm }

-- The options so far, and the values that were seen.
abbrev pub Offered : Type 0
Offered = List Choice × List String

abbrev begins : List ℕ → List ℕ → Bool
begins s [] = true
begins [] (c ∷ needle) = false
begins (d ∷ s) (c ∷ needle) = d == c && begins s needle

abbrev within : List ℕ → List ℕ → Bool
within needle [] = begins [] needle
within needle (c ∷ s) = begins (c ∷ s) needle || within needle s

-- `filter_text.lower() in vm.lower()`, for letters of ASCII.
unfoldable pub passes : String → String → Bool
passes filter_text vm = within (map lower (codes filter_text)) (map lower (codes vm))

module _ (matches : String → Bool) where
  unfoldable pub offer_from : String → List String → Offered → Offered
  offer_from peer [] offered = offered
  offer_from peer (vm ∷ vms) (options, seen) = offer_from peer vms (
      if not (contains seen vm) && matches vm
      then (
        options ++ (record { label = vm <> (" (" <> (peer <> ")")); value = vm } ∷ []),
        vm ∷ seen,
      )
      else (options, seen))

  -- A peer by its host, with what it prints, empty where it cannot be reached.
  unfoldable pub offer_peers : List (String × String) → Offered → Offered
  offer_peers [] offered = offered
  offer_peers ((host, remote) ∷ peers) offered =
      offer_peers peers (offer_from host (sorted_vms (running_vms remote)) offered)

  unfoldable pub local_vms : String → List String → List String
  local_vms local rendered =
      keep matches (sorted_vms (union (running_vms local) (union rendered [])))

  unfoldable pub options_by : String → List String → List (String × String) → List Choice
  options_by local rendered peers =
      let here = local_vms local rendered in (offer_peers peers (map local_choice here, here)).0

unfoldable pub vm_options : String → String → List String → List (String × String) → List Choice
vm_options filter_text local rendered peers = options_by (passes filter_text) local rendered peers
