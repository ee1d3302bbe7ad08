-- ===== src/Database/Quota.antt =====
-- Object quotas: getUserQuota and setUserQuota of dbmanager.cpp. A stored quota is -1 or a count.
use openpanel_opencore.Prelude.{
  ℕ, zero, suc, String, Bool, true, false, not, ◌&&◌, ◌||◌, ◌==◌, Option, none, some, List, [], ◌∷◌,
  eqb, ltb, is_zero, if◌then◌else◌,
}
use openpanel_opencore.Database.Tables.{
  Object, Power, ClassQuota, Tables, by_id, owner_of, find_local_id, mirrored, has_power,
}
use openpanel_opencore.Database.Access.{Backend, Manager, find_class_id}

-- -2, or the limit with the number of objects that count against it.
pub data QuotaReply : Type 0 where
  denied : QuotaReply
  counted : Option ℕ → ℕ → QuotaReply

-- SELECT quota FROM classquota WHERE userid=... AND classid=...
unfoldable pub own_quota : ℕ → ℕ → List ClassQuota → Option ℕ
own_quota userid classid [] = none
own_quota userid classid (row ∷ rest) =
    if eqb row.userid userid && eqb row.classid classid
    then row.quota
    else own_quota userid classid rest

-- The smaller limit overrides the bigger one, and any limit overrides none.
unfoldable pub tighter : Option ℕ → Option ℕ → Option ℕ
tighter quota none = quota
tighter none (some this) = some this
tighter (some quota) (some this) = if ltb this quota then some this else some quota

-- The loop of getUserQuota along the owners, on fuel; `none` is that the fuel ran out.
unfoldable pub quota_loop : ℕ → ℕ → ℕ → Option ℕ → Tables → Option (Option ℕ)
unfolding own_quota tighter by_id
quota_loop zero classid lookupid quota t = none
quota_loop (suc fuel) classid lookupid quota t =
    let quota' = tighter quota (own_quota lookupid classid t.classquota) in
    let owner = owner_of (by_id lookupid t.objects) in
    let rest = quota_loop fuel classid owner quota' t in if is_zero owner then some quota' else rest

-- SELECT COUNT(DISTINCT(o.id)) FROM objects o, powermirror p
--   WHERE class=... AND o.owner=p.userid AND p.powerid=...
unfoldable pub usage : ℕ → ℕ → List Power → List Object → ℕ
unfolding mirrored
usage classid userid pm [] = 0
usage classid userid pm (o ∷ rest) =
    let n = usage classid userid pm rest in
    if eqb o.class classid && mirrored o.owner userid pm then suc n else n

-- DBManager::getUserQuota, with the usage; the outer `none` is that the fuel ran out.
unfoldable pub get_user_quota : Backend → ℕ → String → String → Manager → Option QuotaReply
unfolding find_local_id find_class_id has_power quota_loop usage
get_user_quota b fuel ofclass useruuid m =
    let t = m.tables in
    let userid = find_local_id m.useruuid t.objects in
    let lookupid = if useruuid == "" then userid else find_local_id useruuid t.objects in
    let classid = find_class_id b ofclass t in
    let reply : Option QuotaReply = elim (quota_loop fuel classid lookupid none t) [
      | none ↦ none
      | some quota ↦ some (counted quota (usage classid lookupid t.powermirror t.objects))
    ] in
    if not (useruuid == "") && is_zero lookupid
    then some denied
    else if not (eqb lookupid userid) && not (has_power lookupid userid t)
    then some denied
    else reply

-- REPLACE INTO classquota: the row of the same user and class goes.
unfoldable pub replace_quota : ClassQuota → List ClassQuota → List ClassQuota
replace_quota row [] = row ∷ []
replace_quota row (r ∷ rest) =
    if eqb r.userid row.userid && eqb r.classid row.classid
    then replace_quota row rest
    else r ∷ replace_quota row rest

-- DBManager::setUserQuota
unfoldable pub set_user_quota : Backend → String → Option ℕ → String → Manager → Bool × Manager
unfolding find_local_id find_class_id has_power replace_quota
set_user_quota b ofclass count useruuid m =
    let t = m.tables in
    let uid = find_local_id useruuid t.objects in
    if is_zero uid
    then (false, m)
    else if not (has_power uid (find_local_id m.useruuid t.objects) t) || useruuid == m.useruuid
    then (false, m)
    else (
      true,
      record m {
        tables = record t {
          classquota =
              replace_quota
                (record { userid = uid; classid = find_class_id b ofclass t; quota = count })
                t.classquota;
        };
      },
    )
