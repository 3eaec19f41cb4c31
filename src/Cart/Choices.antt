-- ===== src/Cart/Choices.antt =====
-- What a guest may choose of an item's modifiers (backend/internal/services/cart.go).
use Prim.Native.String.{String}
use text.Mathlib.Text.{◌==◌ as str_eq}
use text.Mathlib.TextEquality.{eq_iff}
use mathlib.Core.Option.{some-injective}
use qr_dining.Base.{
  ℕ, ◌≡◌, refl, sym, subst, ap, ◌∙◌, true, false, ◌&&◌, if◌then◌else◌, none, some, List, [], ◌∷◌,
  ◌==◌, arith, Bool-cases, Option-cases, inl, inr,
}
use qr_dining.Base.Rows.{All, find?-holds}
use qr_dining.Store.{
  World, ItemModifier, ModifierSnapshot, Result, ok, err, list_modifiers_for_item,
}
use qr_dining.Cart.{
  snapshot_of, modifier_by_id, single_select_group, group_chosen, is_other, choose_modifiers,
  snapshot_modifiers,
}

-- The modifier of an id belongs to the group.
abbrev pub InGroup : List ItemModifier → String → ℕ → Type 0
InGroup rows group id =
    (m : ItemModifier) × (modifier_by_id rows id ≡ some m) × (m.modifier_group ≡ group)

-- All that was chosen from a group is the modifier x.
abbrev pub OnlyChoice : List ItemModifier → String → ℕ → List ModifierSnapshot → Type 0
OnlyChoice rows group x = All λ s. InGroup rows group s.id → s.id ≡ x

module _ (rows : List ItemModifier) where
  abbrev noted : ItemModifier → ℕ → List (String × ℕ) → List (String × ℕ)
  noted m id chosen =
      if single_select_group rows m.modifier_group then (m.modifier_group, id) ∷ chosen else chosen

  -- What a choice that was accepted went through.
  data Accepted (chosen : List (String × ℕ)) (id : ℕ) (ids : List ℕ) (w : World)
      (ms : List ModifierSnapshot) : Type 0 where
    accepted :
        (m : ItemModifier) (rest : List ModifierSnapshot)
        → modifier_by_id rows id ≡ some m
        → (single_select_group rows m.modifier_group
            && is_other (group_chosen chosen m.modifier_group) id)
          ≡ false
        → (choose_modifiers rows (noted m id chosen) ids w).0 ≡ ok rest
        → ms ≡ snapshot_of m ∷ rest
        → Accepted chosen id ids w ms

  choose_modifiers-Accepted :
      (chosen : List (String × ℕ)) (id : ℕ) (ids : List ℕ) (w : World) (ms : List ModifierSnapshot)
      → (choose_modifiers rows chosen (id ∷ ids) w).0 ≡ ok ms
      → Accepted chosen id ids w ms
  choose_modifiers-Accepted chosen id ids w ms h = elim (Option-cases (modifier_by_id rows id)) [
    | inl unknown ↦ absurd (ground arith)
    | inr (m, known) ↦
        elim (Bool-cases (
          single_select_group rows m.modifier_group
          && is_other (group_chosen chosen m.modifier_group) id)) [
            | inl clash ↦ absurd (ground arith)
            | inr free ↦
                go m known free (choose_modifiers rows (noted m id chosen) ids w).0 refl
                  (ground arith)
          ]
  ]
    where
      go :
          (m : ItemModifier)
          → modifier_by_id rows id ≡ some m
          → (single_select_group rows m.modifier_group
              && is_other (group_chosen chosen m.modifier_group) id)
            ≡ false
          → (r : Result (List ModifierSnapshot))
          → (choose_modifiers rows (noted m id chosen) ids w).0 ≡ r
          → elim r as (λ _. Result (List ModifierSnapshot)) [
            | ok rest ↦ ok (snapshot_of m ∷ rest)
            | err e ↦ err e
          ]
            ≡ ok ms
          → Accepted chosen id ids w ms
      go m known free (ok rest) e e' = accepted m rest known free e (cc)
      go m known free (err x) e e' = absurd (cc)

  module _ (group : String) (single : single_select_group rows group ≡ true) (w : World) where
    agree :
        (chosen : List (String × ℕ)) (id x : ℕ) (m : ItemModifier)
        → m.modifier_group ≡ group
        → group_chosen chosen group ≡ some x
        → (single_select_group rows m.modifier_group
            && is_other (group_chosen chosen m.modifier_group) id)
          ≡ false
        → id ≡ x
    agree chosen id x m g noted_x free =
        let free' =
          subst (λ k. (single_select_group rows k && is_other (group_chosen chosen k) id) ≡ false) g
            free in
        ground arith

    note :
        (m : ItemModifier) (id : ℕ) (chosen : List (String × ℕ))
        → m.modifier_group ≡ group
        → group_chosen (noted m id chosen) group ≡ some id
    note m id chosen g =
        let self = (eq_iff m.modifier_group group).1 g in
        let flagged = subst (λ k. single_select_group rows k ≡ true) (sym g) single in ground arith

    -- The modifier that an accepted id stands for.
    belongs :
        (id : ℕ) (m : ItemModifier) {x : ℕ}
        → modifier_by_id rows id ≡ some m
        → InGroup rows group m.id
        → (m.modifier_group ≡ group → id ≡ x)
        → m.id ≡ x
    belongs id m known (m', known', g) agrees =
        let mine = find?-holds (λ (r : ItemModifier). r.id == id) rows known in
        let same : m.id ≡ id = ground arith in
        let here : modifier_by_id rows id ≡ some m' =
          subst (λ k. modifier_by_id rows k ≡ some m') same known' in
        same
        ∙ agrees (
            ap (λ (k : ItemModifier). k.modifier_group) (some-injective _ _ (sym known ∙ here)) ∙ g)

    -- Once a modifier of the group has been noted, no other of it is accepted.
    choose_modifiers-Only :
        (chosen : List (String × ℕ)) (ids : List ℕ) (ms : List ModifierSnapshot) (x : ℕ)
        → group_chosen chosen group ≡ some x
        → (choose_modifiers rows chosen ids w).0 ≡ ok ms
        → OnlyChoice rows group x ms
    choose_modifiers-Only chosen [] ms x noted_x h =
        let e : ◌≡◌ {A = List ModifierSnapshot} [] ms = cc in subst (OnlyChoice rows group x) e tt
    choose_modifiers-Only chosen (id ∷ ids) ms x noted_x h =
        elim (choose_modifiers-Accepted chosen id ids w ms h) [
          | accepted m rest known free e shape ↦
              let agrees : m.modifier_group ≡ group → id ≡ x =
                λ g. agree chosen id x m g noted_x free in
              let later : group_chosen (noted m id chosen) group ≡ some x =
                elim (Bool-cases (str_eq m.modifier_group group)) [
                  | inl eq ↦
                      let g = (eq_iff m.modifier_group group).0 eq in
                      note m id chosen g ∙ ap some (agrees g)
                  | inr ne ↦ ground arith
                ] in
              subst (OnlyChoice rows group x) (sym shape) (
                λ inside. belongs id m known inside agrees,
                choose_modifiers-Only (noted m id chosen) ids rest x later e,
              )
        ]

    -- Before any modifier of the group has been noted, the first one decides.
    choose_modifiers-first :
        (chosen : List (String × ℕ)) (ids : List ℕ) (ms : List ModifierSnapshot)
        → group_chosen chosen group ≡ none
        → (choose_modifiers rows chosen ids w).0 ≡ ok ms
        → (x : ℕ) × OnlyChoice rows group x ms
    choose_modifiers-first chosen [] ms none_ h =
        let e : ◌≡◌ {A = List ModifierSnapshot} [] ms = cc in
        (0, subst (OnlyChoice rows group 0) e tt)
    choose_modifiers-first chosen (id ∷ ids) ms none_ h =
        elim (choose_modifiers-Accepted chosen id ids w ms h) [
          | accepted m rest known free e shape ↦ elim (Bool-cases (str_eq m.modifier_group group)) [
            | inl eq ↦
                let g = (eq_iff m.modifier_group group).0 eq in
                (
                  id,
                  subst (OnlyChoice rows group id) (sym shape) (
                    λ inside. belongs id m known inside (λ _. refl),
                    choose_modifiers-Only (noted m id chosen) ids rest id (note m id chosen g) e,
                  ),
                )
            | inr ne ↦
                let (x, others) =
                  choose_modifiers-first (noted m id chosen) ids rest (ground arith) e in
                (
                  x,
                  subst (OnlyChoice rows group x) (sym shape) (
                    λ inside.
                        belongs id m known inside
                          (λ g. absurd (cc ((eq_iff m.modifier_group group).1 g))),
                    others,
                  ),
                )
          ]
        ]

-- What AddItem accepts of a single-select group of the menu item is one modifier: all modifiers of
-- such a group in the snapshot are one and the same.
pub single_select_is_single :
    (item_id : ℕ) (ids : List ℕ) (w : World) (ms : List ModifierSnapshot) (group : String)
    → (snapshot_modifiers item_id ids w).0 ≡ ok ms
    → single_select_group (list_modifiers_for_item item_id w) group ≡ true
    → (x : ℕ) × OnlyChoice (list_modifiers_for_item item_id w) group x ms
unfolding snapshot_modifiers
single_select_is_single item_id [] w ms group h single =
    let e : ◌≡◌ {A = List ModifierSnapshot} [] ms = cc in
    (0, subst (OnlyChoice (list_modifiers_for_item item_id w) group 0) e tt)
single_select_is_single item_id (id ∷ ids) w ms group h single =
    choose_modifiers-first (list_modifiers_for_item item_id w) group single w [] (id ∷ ids) ms refl
      h
