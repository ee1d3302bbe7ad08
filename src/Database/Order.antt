-- ===== src/Database/Order.antt =====
-- createObject keeps the constraints on the tables, and makes what is owned after its owner.
use openpanel_opencore.Prelude.{
  ℕ, suc, String, ◌<◌, ◌≤◌, ◌≡◌, ◌≢◌, refl, sym, ◌∙◌, false, Option, none, some, List, [], ◌∷◌,
  ◌++◌, arith, Option-cases, ◌⊎◌, inl, inr, eq_iff,
}
use openpanel_opencore.Database.Tables.{Object, Tables, by_id, by_uuid, find_local_id}
use openpanel_opencore.Database.Access.{Backend, Manager, find_class_id, get_class_data}
use openpanel_opencore.Database.Insert.{conflicts}
use openpanel_opencore.Database.Create.{Request, create_object, parent_row, parent_owner, owner_or}
use openpanel_opencore.Database.Powers.{by_id-append}
use openpanel_opencore.Database.Mirror.{by_uuid-append}
use openpanel_opencore.Database.Deletion.{IsKeyed, by_id-by_uuid}
use openpanel_opencore.Database.Limits.{OwnersFall}
use openpanel_opencore.Database.Creation.{Returns, Created, create_object-Created}

-- Neither an id nor a uuid stands twice, all ids are below the next one, and owners come first.
pub record IsOrdered (t : Tables) : Type 0 where
  pub keyed : IsKeyed t.objects
  pub positive : 0 < t.next_id
  pub ids : (u : ℕ) (o : Object) → by_id u t.objects ≡ some o → u < t.next_id
  pub owners : OwnersFall t

find_local_id_next :
    (uuid : String) (t : Tables) → IsOrdered t → find_local_id uuid t.objects < t.next_id
unfolding find_local_id
find_local_id_next uuid t h = elim (Option-cases (by_uuid uuid t.objects)) [
  | inl e ↦ ground (arith, e, h.positive)
  | inr (o, e) ↦
      let (p, f) = by_id-by_uuid uuid t.objects o h.keyed e in
      ground (arith, e, h.positive, h.ids o.id o f)
]

pub by_uuid-conflicts :
    (b : Backend) (new : Object) (xs : List Object)
    → conflicts b new xs ≡ false
    → by_uuid new.uuid xs ≡ none
unfolding conflicts by_uuid
by_uuid-conflicts b new [] e = refl
by_uuid-conflicts b new (x ∷ xs) e = ground (arith, by_uuid-conflicts b new xs)

IsKeyed-append :
    (new : Object) (xs : List Object)
    → IsKeyed xs
    → new.id ≢ 0
    → by_id new.id xs ≡ none
    → by_uuid new.uuid xs ≡ none
    → IsKeyed (xs ++ new ∷ [])
unfolding by_id by_uuid
IsKeyed-append new [] k n i u = (n, refl, refl, tt)
IsKeyed-append new (x ∷ xs) (p, q, r, k) n i u = (
  p,
  by_id-append x.id xs new ∙ ground arith,
  by_uuid-append x.uuid xs (new ∷ [])
      ∙ grind (arith, eq_iff new.uuid x.uuid, eq_iff x.uuid new.uuid),
  IsKeyed-append new xs k n (ground arith) (ground arith),
)

parent_owner_next :
    (parent : String) (user : ℕ) (t : Tables)
    → IsOrdered t
    → user < t.next_id
    → owner_or user (parent_owner (parent_row parent t)) < t.next_id
parent_owner_next parent user t h k = elim (Option-cases (by_uuid parent t.objects)) [
  | inl e ↦ ground (arith, e, h.positive)
  | inr (o, e) ↦
      let (p, f) = by_id-by_uuid parent t.objects o h.keyed e in
      ground (arith, e, h.positive, h.ids o.id o f, h.owners.fall o.id o f)
]

-- One row more.
grow-IsOrdered :
    (t t' : Tables) (new : Object)
    → IsOrdered t
    → new.id ≡ t.next_id
    → new.owner < t.next_id
    → by_uuid new.uuid t.objects ≡ none
    → t'.objects ≡ t.objects ++ new ∷ []
    → t'.next_id ≡ suc t.next_id
    → IsOrdered t'
grow-IsOrdered t t' new h i w n g k =
    let free : by_id new.id t.objects ≡ none = elim (Option-cases (by_id new.id t.objects)) [
      | inl e ↦ e
      | inr (o, e) ↦ absurd (omega (arith, i, h.ids new.id o e))
    ] in
    let old : (u : ℕ) (o : Object)
        → by_id u t'.objects ≡ some o
        → (by_id u t.objects ≡ some o) ⊎ ((u ≡ new.id) × (o ≡ new)) =
      λ u o e. elim (Option-cases (by_id u t.objects)) [
        | inr (x, f) ↦ inl (f ∙ sym (by_id-append u t.objects new ∙ rw f refl) ∙ rw (← g) e)
        | inl f ↦ inr (ground (arith, by_id-append u t.objects new, rw g at e))
      ] in
    record {
      keyed = rw g (IsKeyed-append new t.objects h.keyed (omega (arith, i, h.positive)) free n);
      positive = omega (arith, k);
      ids = λ u o e. elim (old u o e) [
        | inl f ↦ omega (arith, k, h.ids u o f)
        | inr (f, x) ↦ omega (arith, k, f, i)
      ];
      owners = record {
        fall = λ u o e p. elim (old u o e) [
          | inl f ↦ h.owners.fall u o f p
          | inr (f, x) ↦ rw (f, i, x) w
        ];
      };
    }

ordered :
    (b : Backend) (fuel : ℕ) (uuid : String) (r : Request) (m : Manager)
    → IsOrdered m.tables
    → (x : Option (Option String × Manager)) → Returns (Created b fuel uuid r m) x
    → Returns (λ res m'. IsOrdered m'.tables) x
ordered b fuel uuid r m h none c = c
ordered b fuel uuid r m h (some (none, m')) c = rw c h
ordered b fuel uuid r m h (some (some u, m')) (e, context, members, c, a, w) =
    grow-IsOrdered m.tables m'.tables _ h refl
      (parent_owner_next r.parent (find_local_id m.useruuid m.tables.objects) m.tables h
        (find_local_id_next m.useruuid m.tables h))
      (by_uuid-conflicts b _ m.tables.objects a.fresh) a.objects a.next

-- With fuel for the next id, createObject without `permcheck` on a class without `magicdelimiter` returns;
-- and whatever it comes to, it keeps the order of the tables: neither an id nor a uuid stands twice, all ids
-- are positive and below the next one, and owners have smaller ids than what they own.
pub create_object-IsOrdered :
    (b : Backend) (fuel : ℕ) (uuid : String) (r : Request) (m : Manager)
    → IsOrdered m.tables
    → m.tables.next_id ≤ fuel
    → r.permcheck ≡ false
    → (get_class_data b (find_class_id b r.ofclass m.tables) m.tables).magicdelimiter ≡ none
    → Returns (λ res m'. IsOrdered m'.tables) (create_object b fuel uuid r m)
create_object-IsOrdered b fuel uuid r m h l n d =
    let user = find_local_id_next m.useruuid m.tables h in
    let made = create_object-Created b fuel uuid r m h.owners (omega (arith, user)) n d in
    ordered b fuel uuid r m h (create_object b fuel uuid r m) made
