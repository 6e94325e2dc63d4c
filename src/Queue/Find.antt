-- ===== src/Queue/Find.antt =====
-- The search by id and the removal at an index, against taking an item out of a list.
use media_share.Prelude.{
  ℕ, ◌+◌, ◌≡◌, refl, Option, none, some, List, [], ◌∷◌, Text, same, if◌then◌else◌, arith,
}
use media_share.Queue.{Item, find_from, find_by_id, remove_at}

-- The first item with the id, and the others in their order.
unfoldable pub take_out : Text → List Item → Option (Item × List Item)
take_out id [] = none
take_out id (it ∷ items) =
    let rest : Option (Item × List Item) = elim (take_out id items) [
      | none ↦ none
      | some (x, xs) ↦ some (x, it ∷ xs)
    ] in
    if same it.id id then some (it, items) else rest

abbrev bump : Option (Item × ℕ) → Option (Item × ℕ)
bump none = none
bump (some (it, i)) = some (it, i + 1)

find_from-suc :
    (i : ℕ) (items : List Item) (id : Text)
    → find_from (i + 1) items id ≡ bump (find_from i items id)
unfolding find_from
find_from-suc i [] id = refl
find_from-suc i (it ∷ items) id = ground (arith, find_from-suc (i + 1) items id)

abbrev pub removed : List Item → Option (Item × ℕ) → Option (Item × List Item)
removed items none = none
removed items (some (it, idx)) = some (it, remove_at items idx)

removed-bump :
    (x : Item) (items : List Item) (o : Option (Item × ℕ))
    → removed (x ∷ items) (bump o)
      ≡ elim (removed items o) [ none ↦ none | some (y, ys) ↦ some (y, x ∷ ys) ]
unfolding remove_at
removed-bump x items none = refl
removed-bump x items (some (it, i)) = ground arith

-- Finding and then removing at the index found takes the item out.
pub removed-find_by_id :
    (items : List Item) (id : Text) → removed items (find_by_id items id) ≡ take_out id items
unfolding find_by_id find_from take_out remove_at
removed-find_by_id [] id = refl
removed-find_by_id (it ∷ items) id = ground (
  arith,
  find_from-suc 0 items id,
  removed-bump it items (find_from 0 items id),
  removed-find_by_id items id,
)
