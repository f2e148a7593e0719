-- ===== src/Common/Store/Refines/Links.antt =====
-- What a step of the store and a new link do to a whole host.
use mathlib.Core.Path.{subst, fun_ext}
use kdevops_ng.Prelude.{
  ℕ, String, ◌≡◌, refl, sym, ap, ◌∙◌, true, Option, none, some, [], ◌∷◌, arith, ◌==◌, string_eq,
  contains, ◌⊎◌, inl, inr, eq_true, eq_false, if-lem,
}
use kdevops_ng.Prelude.Dict.{Dict, lookup, insert, erase, lookup-insert, lookup-erase}
use kdevops_ng.Common.Store.Index.{Entry, link, other, Host, live_target, local_path, link_local}
use kdevops_ng.Common.Store.Pruning.{NodupKeys}
use kdevops_ng.Common.Store.Refines.{IsWhole, View, view, set}

-- A step that leaves a whole host, which reads as the map.
abbrev pub Steps : Host → View → Type 0
Steps h f = IsWhole h × (view h ≡ f)

Entry-cases :
    (e : Option Entry)
    → ((t : String) × (m : ℕ) × (e ≡ some (link t m))) ⊎ ((h : Host) → live_target h e ≡ none)
unfolding live_target
Entry-cases none = inr (λ h. refl)
Entry-cases (some other) = inr (λ h. refl)
Entry-cases (some (link t m)) = inl (t, m, refl)

local_path-there :
    (k t : String) (m : ℕ) (h : Host)
    → lookup k h.index ≡ some (link t m)
    → contains h.store t ≡ true
    → local_path k h ≡ some t
unfolding local_path live_target
local_path-there k t m h e there = rw e (rw there refl)

-- More store paths change no answer.
pub grown :
    (h h' : Host)
    → IsWhole h
    → h'.index ≡ h.index
    → ((p : String) → contains h.store p ≡ true → contains h'.store p ≡ true)
    → Steps h' (view h)
unfolding local_path
grown h h' whole same more = (
  record {
    distinct = subst NodupKeys (sym same) whole.distinct;
    live = λ k t m e. more t (whole.live k t m (ap (lookup k) (sym same) ∙ e));
  },
  fun_ext λ k. elim (Entry-cases (lookup k h.index)) [
    | inl (t, m, e) ↦
        let there = whole.live k t m e in
        local_path-there k t m h' (ap (lookup k) same ∙ e) (more t there)
        ∙ sym (local_path-there k t m h e there)
    | inr dead ↦ ap (λ d. live_target h' (lookup k d)) same ∙ dead h' ∙ sym (dead h)
  ],
)

link-injective :
    (a b : String) (m n : ℕ) → ◌≡◌ {A = Option Entry} (some (link a m)) (some (link b n)) → a ≡ b
link-injective a b m n h = cc

insert-NodupKeys :
    (k : String) (e : Entry) (d : Dict Entry) → NodupKeys d → NodupKeys (insert k e d)
unfolding insert lookup
insert-NodupKeys k e [] h = (refl, tt)
insert-NodupKeys k e ((j, w) ∷ d) h = elim (string_eq.dec k j) [
  | yes p ↦ rw (eq_true k j p) (rw p h)
  | no n ↦
      rw (eq_false k j n) (ground (arith, lookup-insert j k e d, n, h), insert-NodupKeys k e d h.1)
]

pub erase-NodupKeys : (k : String) (d : Dict Entry) → NodupKeys d → NodupKeys (erase k d)
unfolding erase lookup
erase-NodupKeys k [] h = tt
erase-NodupKeys k ((j, w) ∷ d) h =
    if-lem NodupKeys (k == j) _ _ (λ _. erase-NodupKeys k d h.1)
      (λ _. (ground (arith, lookup-erase j k d, h), erase-NodupKeys k d h.1))

same_store :
    (name sp : String) (h : Host) (e : Option Entry)
    → live_target (link_local name sp h) e ≡ live_target h e
unfolding live_target link_local
same_store name sp h none = refl
same_store name sp h (some (link t m)) = refl
same_store name sp h (some other) = refl

pub linked :
    (name sp : String) (h : Host)
    → IsWhole h
    → contains h.store sp ≡ true
    → Steps (link_local name sp h) (set name (some sp) (view h))
unfolding link_local local_path
linked name sp h whole there = (
  record {
    distinct = insert-NodupKeys name (link sp h.now) h.index whole.distinct;
    live = λ k t m e. elim (string_eq.dec k name) [
      | yes p ↦
          subst (λ u. contains h.store u ≡ true)
            (link-injective sp t h.now m
              (sym (lookup-insert k name (link sp h.now) h.index ∙ rw (eq_true k name p) refl) ∙ e))
            there
      | no n ↦
          whole.live k t m
            (sym (lookup-insert k name (link sp h.now) h.index ∙ rw (eq_false k name n) refl) ∙ e)
    ];
  },
  fun_ext λ k. elim (string_eq.dec k name) [
    | yes p ↦
        local_path-there k sp h.now (link_local name sp h)
          (lookup-insert k name (link sp h.now) h.index ∙ rw (eq_true k name p) refl) there
        ∙ sym (rw (eq_true k name p) refl)
    | no n ↦
        ap (live_target (link_local name sp h))
          (lookup-insert k name (link sp h.now) h.index ∙ rw (eq_false k name n) refl)
        ∙ same_store name sp h (lookup k h.index)
        ∙ sym (rw (eq_false k name n) refl)
  ],
)
