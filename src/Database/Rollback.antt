-- ===== src/Database/Rollback.antt =====
-- createObject and then reportCreateFailure.
use openpanel_opencore.Prelude.{
  ℕ, String, ◌<◌, ◌≡◌, refl, false, Option, none, some, List, [], ◌∷◌, ◌++◌, arith, OnSome, eq_refl,
}
use openpanel_opencore.Database.Tables.{Object, by_uuid, find_local_id}
use openpanel_opencore.Database.Access.{Backend, Manager, find_class_id, get_class_data}
use openpanel_opencore.Database.Update.{erase, report_create_failure}
use openpanel_opencore.Database.Create.{Request, create_object}
use openpanel_opencore.Database.Limits.{OwnersFall}
use openpanel_opencore.Database.Creation.{Returns, Created, create_object-Created}
use openpanel_opencore.Database.Order.{by_uuid-conflicts}

erase-append :
    (new : Object) (xs : List Object)
    → by_uuid new.uuid xs ≡ none
    → erase new.uuid (xs ++ new ∷ []) ≡ xs
unfolding by_uuid erase
erase-append new [] e = rw (eq_refl new.uuid) refl
erase-append new (x ∷ xs) e = ground (arith, erase-append new xs)

-- The objects after reportCreateFailure for the result of a call.
abbrev pub TakenBack : Manager → Option String → Manager → Type 0
TakenBack m res m' =
    OnSome (λ u. (report_create_failure u m').1.tables.objects ≡ m.tables.objects) res

taken_back :
    (b : Backend) (fuel : ℕ) (uuid : String) (r : Request) (m : Manager)
    (x : Option (Option String × Manager))
    → Returns (Created b fuel uuid r m) x
    → Returns (TakenBack m) x
unfolding report_create_failure
taken_back b fuel uuid r m none c = c
taken_back b fuel uuid r m (some (none, m')) c = tt
taken_back b fuel uuid r m (some (some u, m')) (e, context, members, c, a, w) =
    rw (a.objects, e)
      (erase-append _ m.tables.objects (by_uuid-conflicts b _ m.tables.objects a.fresh))

-- createObject without `permcheck` on a class without `magicdelimiter` returns, with fuel beyond the user's id and owners
-- made in order, and reportCreateFailure for the uuid that it returns gives back the objects as they
-- were.
pub report_create_failure-create_object :
    (b : Backend) (fuel : ℕ) (uuid : String) (r : Request) (m : Manager)
    → OwnersFall m.tables
    → find_local_id m.useruuid m.tables.objects < fuel
    → r.permcheck ≡ false
    → (get_class_data b (find_class_id b r.ofclass m.tables) m.tables).magicdelimiter ≡ none
    → Returns (TakenBack m) (create_object b fuel uuid r m)
report_create_failure-create_object b fuel uuid r m o k n d =
    taken_back b fuel uuid r m (create_object b fuel uuid r m)
      (create_object-Created b fuel uuid r m o k n d)
