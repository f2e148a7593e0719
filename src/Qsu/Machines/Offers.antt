-- ===== src/Qsu/Machines/Offers.antt =====
-- Which guests a form offers.
use kdevops_ng.Prelude.{
  String, ◌<>◌, ◌≡◌, refl, sym, ap, ◌∙◌, Bool, true, false, ◌&&◌, ◌||◌, not, List, [], ◌∷◌, ◌++◌,
  map, ◌==◌, string_eq, contains, arith, Bool-cases, inl, inr, if-lem,
}
use kdevops_ng.Prelude.Lists.{keep}
use kdevops_ng.Prelude.Words.{text_ltb}
use kdevops_ng.Prelude.Distinct.{Distinct}
use kdevops_ng.Qsu.Machines.{
  add, running_vms, union, Choice, sorted_vms, local_choice, Offered, offer_from, offer_peers,
  local_vms, options_by, passes, vm_options,
}
use kdevops_ng.Qsu.Machines.Sorted.{
  contains-sort_by, sort_by-Distinct, contains-keep, keep-Distinct, contains-snoc, snoc-Distinct,
}

abbrev pub values : List Choice → List String
values options = map (λ (c : Choice). c.value) options

add-Distinct : (vm : String) (vms : List String) → Distinct vms → Distinct (add vm vms)
unfolding add
add-Distinct vm vms h = elim (Bool-cases (contains vms vm)) [
  | inl there ↦ rw there h
  | inr new ↦ rw new (new, h)
]

contains-add :
    (vm : String) (vms : List String) (v : String)
    → contains (add vm vms) v ≡ (v == vm || contains vms v)
unfolding add
contains-add vm vms v = elim (string_eq.dec v vm) [
  | yes same ↦ rw same (ground arith)
  | no n ↦ ground (arith, n)
]

union-Distinct : (more vms : List String) → Distinct vms → Distinct (union more vms)
unfolding union
union-Distinct [] vms h = h
union-Distinct (vm ∷ more) vms h = add-Distinct vm (union more vms) (union-Distinct more vms h)

contains-union :
    (more vms : List String) (v : String)
    → contains (union more vms) v ≡ (contains more v || contains vms v)
unfolding union
contains-union [] vms v = refl
contains-union (vm ∷ more) vms v =
    contains-add vm (union more vms) v ∙ ground (arith, contains-union more vms v)

values-local : (vms : List String) → values (map local_choice vms) ≡ vms
values-local [] = refl
values-local (vm ∷ vms) = ap (λ rest. vm ∷ rest) (values-local vms)

values-snoc :
    (options : List Choice) (c : Choice)
    → values (options ++ (c ∷ [])) ≡ values options ++ (c.value ∷ [])
values-snoc [] c = refl
values-snoc (o ∷ options) c = ap (λ rest. o.value ∷ rest) (values-snoc options c)

-- Each value is offered once, and those that were seen are those that are offered.
record IsFair (offered : Offered) : Type 0 where
  distinct : Distinct (values offered.0)
  seen : (v : String) → contains offered.1 v ≡ contains (values offered.0) v

-- The guest runs on one of the peers.
abbrev pub on_peers : List (String × String) → String → Bool
on_peers [] v = false
on_peers ((host, remote) ∷ peers) v = contains (running_vms remote) v || on_peers peers v

module _ (matches : String → Bool) where
  -- The offers after a step: those before it, and the guests that match.
  Adds : List String → Offered → Offered → Type 0
  Adds vms before after =
      IsFair after
      × ((v : String)
          → contains (values after.0) v
            ≡ (contains (values before.0) v || (matches v && contains vms v)))

  one-IsFair :
      (options : List Choice) (seen : List String) (c : Choice)
      → IsFair (options, seen)
      → contains seen c.value ≡ false
      → IsFair (options ++ (c ∷ []), c.value ∷ seen)
  one-IsFair options seen c fair new = record {
    distinct =
        rw (values-snoc options c)
          (snoc-Distinct (values options) c.value (sym (fair.seen c.value) ∙ new) fair.distinct);
    seen = λ v.
        rw (values-snoc options c)
          (ground (arith, contains-snoc (values options) c.value v, fair.seen v));
  }

  offered_one :
      (a b : Bool) (v vm : String)
      → matches vm ≡ true
      → ((a || v == vm) || (matches v && b)) ≡ (a || (matches v && (v == vm || b)))
  offered_one a b v vm on = elim (string_eq.dec v vm) [
    | yes same ↦ rw same (ground (arith, on))
    | no n ↦ ground (arith, n)
  ]

  skipped_one :
      (options : List Choice) (seen : List String) (b : Bool) (v vm : String)
      → (not (contains seen vm) && matches vm) ≡ false
      → contains seen vm ≡ contains (values options) vm
      → (contains (values options) v || (matches v && b))
        ≡ (contains (values options) v || (matches v && (v == vm || b)))
  skipped_one options seen b v vm skip known = elim (string_eq.dec v vm) [
    | yes same ↦ rw same (ground (arith, skip, known))
    | no n ↦ ground (arith, n)
  ]

  offer_from-Adds :
      (peer : String) (vms : List String) (offered : Offered)
      → IsFair offered
      → Adds vms offered (offer_from matches peer vms offered)
  unfolding offer_from Adds
  offer_from-Adds peer [] offered fair = (fair, λ v. ground arith)
  offer_from-Adds peer (vm ∷ vms) (options, seen) fair =
      let c : Choice = record { label = vm <> (" (" <> (peer <> ")")); value = vm } in
      if-lem (λ (o : Offered). Adds (vm ∷ vms) (options, seen) (offer_from matches peer vms o))
        (not (contains seen vm) && matches vm) (options ++ (c ∷ []), vm ∷ seen) (options, seen)
        (λ offer.
          let (fair', adds) =
            offer_from-Adds peer vms (options ++ (c ∷ []), vm ∷ seen)
              (one-IsFair options seen c fair (ground (arith, offer))) in
          (
            fair',
            λ v.
                adds v
                ∙ ap (λ b. b || (matches v && contains vms v))
                    (ap (λ xs. contains xs v) (values-snoc options c)
                      ∙ contains-snoc (values options) vm v)
                ∙ offered_one (contains (values options) v) (contains vms v) v vm
                    (ground (arith, offer)),
          ))
        (λ skip.
          let (fair', adds) = offer_from-Adds peer vms (options, seen) fair in
          (fair', λ v. adds v ∙ skipped_one options seen (contains vms v) v vm skip (fair.seen vm)))

  offer_peers-IsFair :
      (peers : List (String × String)) (offered : Offered)
      → IsFair offered
      → IsFair (offer_peers matches peers offered)
        × ((v : String)
            → contains (values (offer_peers matches peers offered).0) v
              ≡ (contains (values offered.0) v || (matches v && on_peers peers v)))
  unfolding offer_peers Adds
  offer_peers-IsFair [] offered fair = (fair, λ v. ground arith)
  offer_peers-IsFair ((host, remote) ∷ peers) offered fair =
      let vms = sorted_vms (running_vms remote) in
      let (fair', adds) = offer_from-Adds host vms offered fair in
      let (fair'', all) = offer_peers-IsFair peers (offer_from matches host vms offered) fair' in
      (
        fair'',
        λ v. all v ∙ ground (arith, adds v, contains-sort_by text_ltb (running_vms remote) v),
      )

  options_by-Distinct :
      (local : String) (rendered : List String) (peers : List (String × String))
      → let offered = values (options_by matches local rendered peers) in
        Distinct offered
        × ((v : String)
            → contains offered v ≡ (
                matches v
                && (contains (running_vms local) v || contains rendered v || on_peers peers v)))
  unfolding options_by local_vms
  options_by-Distinct local rendered peers =
      let vms = union (running_vms local) (union rendered []) in
      let here = keep matches (sorted_vms vms) in
      let once = keep-Distinct matches (sorted_vms vms) (
        sort_by-Distinct text_ltb vms
          (union-Distinct (running_vms local) _ (union-Distinct rendered [] tt))) in
      let start : IsFair (map local_choice here, here) = record {
        distinct = rw (values-local here) once;
        seen = λ v. rw (values-local here) refl;
      } in
      let (fair, all) = offer_peers-IsFair peers (map local_choice here, here) start in
      (
        fair.distinct,
        λ v.
            all v
            ∙ ground (
              arith,
              ap (λ xs. contains xs v) (values-local here),
              contains-keep matches (sorted_vms vms) v,
              contains-sort_by text_ltb vms v,
              contains-union (running_vms local) (union rendered []) v,
              contains-union rendered [] v,
            ),
      )

-- For any filter and whatever systemd prints here and on the peers, each guest is offered once, and
-- the guests that are offered are just those that pass the filter and run here, have an environment
-- file here, or run on a peer.
pub vm_options-Distinct :
    (filter_text local : String) (rendered : List String) (peers : List (String × String))
    → let offered = values (vm_options filter_text local rendered peers) in
      Distinct offered
      × ((v : String)
          → contains offered v ≡ (
              passes filter_text v
              && (contains (running_vms local) v || contains rendered v || on_peers peers v)))
unfolding vm_options
vm_options-Distinct filter_text local rendered peers =
    options_by-Distinct (passes filter_text) local rendered peers
