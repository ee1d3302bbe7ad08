-- ===== src/Database/Tree.antt =====
-- listObjectTree and _listObjectTree of dbmanager.cpp: the objects below an object, by parent or by owner.
use openpanel_opencore.Prelude.{
  ℕ, zero, suc, String, not, ◌||◌, Option, none, some, List, [], ◌∷◌, ◌++◌, eqb, is_zero,
  if◌then◌else◌,
}
use openpanel_opencore.Database.Tables.{Object, find_local_id, has_power}
use openpanel_opencore.Database.Access.{Manager, err_inval, err_noperm, fail}

-- The list so far; the outer `none` is that the fuel ran out, the inner one that an id is 0.
abbrev pub Listing : Type 0
Listing = Option (Option (List String))

abbrev pub then_list : Listing → (List String → Listing) → Listing
then_list none next = none
then_list (some none) next = some none
then_list (some (some into)) next = next into

-- SELECT id, uuid FROM objects WHERE (parent=... OR owner=...)
unfoldable pub rows_below : ℕ → List Object → List Object
rows_below localid [] = []
rows_below localid (o ∷ rest) =
    if eqb o.parent localid || eqb o.owner localid
    then o ∷ rows_below localid rest
    else rows_below localid rest

-- The loop over the rows of the query.
unfoldable pub list_rows : (ℕ → List String → Listing) → List Object → List String → Listing
list_rows visit [] into = some (some into)
list_rows visit (row ∷ rows) into =
    then_list (visit row.id into) λ next. list_rows visit rows (next ++ row.uuid ∷ [])

-- DBManager::_listObjectTree, on fuel
unfoldable pub list_below : ℕ → List Object → ℕ → List String → Listing
unfolding rows_below list_rows
list_below zero objects localid into = none
list_below (suc fuel) objects localid into =
    if is_zero localid
    then some none
    else list_rows (list_below fuel objects) (rows_below localid objects) into

abbrev pub listed_tree : String → Manager → Listing → Option (Option (List String) × Manager)
listed_tree uuid m none = none
listed_tree uuid m (some none) = some (fail err_inval none m)
listed_tree uuid m (some (some into)) = some (some (into ++ uuid ∷ []), m)

-- DBManager::listObjectTree, on an empty list; the outer `none` is that the fuel ran out.
unfoldable pub list_object_tree : ℕ → String → Manager → Option (Option (List String) × Manager)
unfolding find_local_id has_power list_below
list_object_tree fuel uuid m =
    let objects = m.tables.objects in
    let localid = find_local_id uuid objects in
    if is_zero localid
    then some (none, m)
    else if not (has_power localid (find_local_id m.useruuid objects) m.tables)
    then some (fail err_noperm none m)
    else listed_tree uuid m (list_below fuel objects localid [])
