-- ===== src/Cart/Modifiers.antt =====
-- snapshotModifiers of backend/internal/services/cart.go: the chosen modifiers of an item, as they are
-- when the item is added.
use Prim.Native.String.{String}
use text.Mathlib.Text.{◌==◌ as str_eq}
use qr_dining.Base.{
  ℕ, Bool, false, ◌&&◌, not, Option, none, some, List, [], ◌∷◌, ◌==◌, if◌then◌else◌,
}
use qr_dining.Base.Rows.{find?, exists}
use qr_dining.Domain.{modifier_not_found, modifier_conflict}
use qr_dining.Store.{
  ItemModifier, ModifierSnapshot, Op, pure, gets, or_fail, fail_if, ◌>>=◌, ◌>>◌,
  list_modifiers_for_item,
}

abbrev pub snapshot_of : ItemModifier → ModifierSnapshot
snapshot_of m = record { id = m.id; name = m.name; price_delta = m.price_delta }

abbrev pub modifier_by_id : List ItemModifier → ℕ → Option ItemModifier
modifier_by_id rows id = find? (λ m. m.id == id) rows

-- A modifier group is single-select if ANY of its rows carry the flag.
abbrev pub single_select_group : List ItemModifier → String → Bool
single_select_group rows group = exists (λ m. m.single_select && str_eq m.modifier_group group) rows

-- groupChosen[group], the latest entry first.
abbrev pub group_chosen : List (String × ℕ) → String → Option ℕ
group_chosen [] group = none
group_chosen ((g, id) ∷ rest) group = if str_eq g group then some id else group_chosen rest group

abbrev pub is_other : Option ℕ → ℕ → Bool
is_other none id = false
is_other (some prev) id = not (prev == id)

abbrev pub choose_modifiers :
    List ItemModifier → List (String × ℕ) → List ℕ → Op (List ModifierSnapshot)
choose_modifiers rows chosen [] = pure []
choose_modifiers rows chosen (id ∷ ids) = do
  m ← or_fail (modifier_by_id rows id) modifier_not_found
  let single = single_select_group rows m.modifier_group
  fail_if (single && is_other (group_chosen chosen m.modifier_group) id) modifier_conflict
  rest ← choose_modifiers rows (if single then (m.modifier_group, id) ∷ chosen else chosen) ids
  pure (snapshot_of m ∷ rest)

unfoldable pub snapshot_modifiers : ℕ → List ℕ → Op (List ModifierSnapshot)
snapshot_modifiers item_id [] = pure []
snapshot_modifiers item_id (id ∷ ids) = do
  rows ← gets (list_modifiers_for_item item_id)
  choose_modifiers rows [] (id ∷ ids)
