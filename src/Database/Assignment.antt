-- ===== src/Database/Assignment.antt =====
-- setUserQuota of dbmanager.cpp.
use openpanel_opencore.Prelude.{
  ℕ, String, ◌≡◌, ◌&&◌, Option, List, [], ◌∷◌, arith, eqb, if◌then◌else◌,
}
use openpanel_opencore.Database.Tables.{ClassQuota, find_local_id}
use openpanel_opencore.Database.Access.{Backend, Manager, find_class_id}
use openpanel_opencore.Database.Quota.{own_quota, replace_quota, set_user_quota}

own_quota-replace_quota :
    (u k : ℕ) (row : ClassQuota) (xs : List ClassQuota)
    → own_quota u k (replace_quota row xs)
      ≡ (if eqb row.userid u && eqb row.classid k then row.quota else own_quota u k xs)
unfolding own_quota replace_quota
own_quota-replace_quota u k row [] = ground arith
own_quota-replace_quota u k row (x ∷ xs) = ground (arith, own_quota-replace_quota u k row xs)

-- Where setUserQuota says yes, the limit of that user for that class is the new one and every other
-- limit is as before. Where it says no, all limits are as before.
pub own_quota-set_user_quota :
    (b : Backend) (ofclass : String) (count : Option ℕ) (useruuid : String) (m : Manager) (u k : ℕ)
    → own_quota u k (set_user_quota b ofclass count useruuid m).1.tables.classquota ≡ (
        if (set_user_quota b ofclass count useruuid m).0
          && eqb (find_local_id useruuid m.tables.objects) u
          && eqb (find_class_id b ofclass m.tables) k
        then count
        else own_quota u k m.tables.classquota)
unfolding set_user_quota
own_quota-set_user_quota b ofclass count useruuid m u k = ground (
  arith,
  own_quota-replace_quota u k
      (record {
        userid = find_local_id useruuid m.tables.objects;
        classid = find_class_id b ofclass m.tables;
        quota = count;
      })
      m.tables.classquota,
)
