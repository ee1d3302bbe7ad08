-- ===== src/Database/Special.antt =====
-- Quotas on other things than objects: getSpecialQuota, getSpecialQuotaUsage, getSpecialQuotaWarning,
-- setSpecialQuota and setSpecialQuotaUsage of dbmanager.cpp. Quotas and usages are counts below 2^31; sums
-- of two of them wrap around as an `int` of 32 bits does.
use openpanel_opencore.Prelude.{
  ℕ, zero, suc, ◌+◌, ◌-◌, ◌*◌, ◌%◌, ◌^◌, String, Bool, true, false, not, ◌&&◌, ◌==◌, Option, none,
  some, List, [], ◌∷◌, eqb, ltb, is_zero, put_key, if◌then◌else◌,
}
use openpanel_opencore.Database.Tables.{
  Object, Power, Tables, by_id, find_local_id, mirrored, has_power,
}
use openpanel_opencore.Database.Access.{Manager}

-- A row of the table specialquota.
pub record SpecialQuota : Type 0 where
  pub userid : ℕ
  pub tag : String
  pub quota : ℕ
  pub warning : ℕ

-- A row of the table specialquotausage.
pub record SpecialUsage : Type 0 where
  pub userid : ℕ
  pub tag : String
  pub usage : ℕ

-- SELECT ... FROM specialquota WHERE tag=... AND userid=...
unfoldable pub special_row : String → ℕ → List SpecialQuota → Option SpecialQuota
special_row tag userid [] = none
special_row tag userid (row ∷ rest) =
    if row.tag == tag && eqb row.userid userid then some row else special_row tag userid rest

abbrev pub quota_of : Option SpecialQuota → ℕ
quota_of none = 0
quota_of (some row) = row.quota

abbrev pub warning_of : Option SpecialQuota → ℕ
warning_of none = 0
warning_of (some row) = row.warning

-- haspower(oid, this->useruuid)
unfoldable pub may_manage : ℕ → Manager → Bool
unfolding find_local_id has_power
may_manage uid m = has_power uid (find_local_id m.useruuid m.tables.objects) m.tables

-- DBManager::getSpecialQuota; `none` is its -2.
unfoldable pub get_special_quota : String → String → List SpecialQuota → Manager → Option ℕ
unfolding find_local_id may_manage special_row
get_special_quota tag useruuid rows m =
    let uid = find_local_id useruuid m.tables.objects in
    if may_manage uid m then some (quota_of (special_row tag uid rows)) else none

-- DBManager::getSpecialQuotaWarning
unfoldable pub get_special_quota_warning : String → String → List SpecialQuota → Manager → Option ℕ
unfolding find_local_id may_manage special_row
get_special_quota_warning tag useruuid rows m =
    let uid = find_local_id useruuid m.tables.objects in
    if may_manage uid m then some (warning_of (special_row tag uid rows)) else none

-- The rows of the join for one user.
unfoldable pub mirror_rows : ℕ → ℕ → List Power → ℕ
mirror_rows u p [] = 0
mirror_rows u p (row ∷ rest) =
    let n = mirror_rows u p rest in if eqb row.userid u && eqb row.powerid p then suc n else n

-- SELECT SUM(squ.usage) FROM specialquotausage squ LEFT JOIN powermirror p ON squ.userid=p.userid
--   WHERE p.powerid=... AND squ.tag=...
unfoldable pub usage_sum : String → ℕ → List Power → List SpecialUsage → ℕ
unfolding mirror_rows
usage_sum tag powerid pm [] = 0
usage_sum tag powerid pm (row ∷ rest) =
    let more = usage_sum tag powerid pm rest in
    if row.tag == tag then mirror_rows row.userid powerid pm * row.usage + more else more

-- DBManager::getSpecialQuotaUsage; `none` is its -2.
unfoldable pub get_special_quota_usage : String → String → List SpecialUsage → Manager → Option ℕ
unfolding find_local_id may_manage usage_sum
get_special_quota_usage tag useruuid rows m =
    let uid = find_local_id useruuid m.tables.objects in
    if is_zero uid
    then none
    else if not (useruuid == m.useruuid) && not (may_manage uid m)
    then none
    else some (usage_sum tag uid m.tables.powermirror rows % 2 ^ 32)

-- SELECT s.q FROM (SELECT sq.quota q FROM specialquota sq JOIN powermirror p ON sq.userid=p.userid
--   WHERE p.powerid=... AND sq.tag=... AND sq.userid!=... AND sq.userid!=... GROUP BY sq.id) s,
-- of which the source reads the first row.
unfoldable pub sub_assigned : String → ℕ → ℕ → List Power → List SpecialQuota → ℕ
unfolding mirrored
sub_assigned tag lookupid uid pm [] = 0
sub_assigned tag lookupid uid pm (row ∷ rest) =
    if mirrored row.userid lookupid pm
      && row.tag == tag
      && not (eqb row.userid lookupid)
      && not (eqb row.userid uid)
    then row.quota
    else sub_assigned tag lookupid uid pm rest

-- `subassigned+quota > ownquota`, on the sum modulo 2^32: from 2^31 it is negative.
unfoldable pub exceeds : ℕ → ℕ → ℕ → Bool
exceeds sub quota own = ltb (sub + quota) (2 ^ 31) && ltb own (sub + quota)

-- `ownquota-subassigned-quota`, modulo 2^32
abbrev pub allowance : ℕ → ℕ → ℕ → ℕ
allowance own sub quota = (own + 2 ^ 32 - (sub + quota)) % 2 ^ 32

-- DBManager::_findmetaid
abbrev pub metaid_of : Option Object → String
metaid_of none = ""
metaid_of (some o) = elim o.metaid [ none ↦ "" | some metaid ↦ metaid ]

module _ (tag : String) (uid quota : ℕ) (rows : List SpecialQuota) (t : Tables) where
  -- The loop of setSpecialQuota up the owners, on fuel, with `phys`: the outer `none` is that the fuel ran
  -- out, the inner one that the quota is too large.
  unfoldable pub special_loop : ℕ → ℕ → List (String × ℕ) → Option (Option (List (String × ℕ)))
  unfolding by_id special_row sub_assigned exceeds put_key
  special_loop zero lookupid phys = none
  special_loop (suc fuel) lookupid phys = elim (by_id lookupid t.objects) [
    | none ↦ some (some phys)
    | some o ↦
        let sub = sub_assigned tag o.owner uid t.powermirror rows in
        elim (special_row tag o.owner rows) [
          | none ↦ special_loop fuel o.owner phys
          | some own ↦
              let rest = special_loop fuel o.owner (
                put_key (metaid_of (by_id o.owner t.objects)) (allowance own.quota sub quota)
                  phys) in
              if exceeds sub quota own.quota then some none else rest
        ]
  ]

-- REPLACE INTO specialquota: the row of the same user and tag goes.
unfoldable pub replace_special : SpecialQuota → List SpecialQuota → List SpecialQuota
replace_special row [] = row ∷ []
replace_special row (r ∷ rest) =
    if r.tag == row.tag && eqb r.userid row.userid
    then replace_special row rest
    else r ∷ replace_special row rest

-- What setSpecialQuota returns, the rows after it, and `phys`; of a refused call, `phys` is left out.
pub record SpecialReply : Type 0 where
  pub accepted : Bool
  pub rows : List SpecialQuota
  pub phys : List (String × ℕ)

abbrev pub refused : List SpecialQuota → SpecialReply
refused rows = record { accepted = false; rows = rows; phys = [] }

-- DBManager::setSpecialQuota, called with an empty `phys`; `none` is that the fuel ran out.
unfoldable pub set_special_quota :
    ℕ → String → String → ℕ → ℕ → List SpecialQuota → Manager → Option SpecialReply
unfolding find_local_id may_manage special_loop replace_special by_id
set_special_quota fuel tag useruuid quota warning rows m =
    let t = m.tables in
    let uid = find_local_id useruuid t.objects in
    let found =
      special_loop tag uid quota rows t fuel uid ((metaid_of (by_id uid t.objects), quota) ∷ []) in
    if not (may_manage uid m)
    then some (refused rows)
    else if ltb quota warning
    then some (refused rows)
    else elim found [
      | none ↦ none
      | some none ↦ some (refused rows)
      | some (some phys) ↦ some (record {
        accepted = true;
        rows =
            replace_special (record { userid = uid; tag = tag; quota = quota; warning = warning })
              rows;
        phys = phys;
      })
    ]

-- DBManager::setSpecialQuotaUsage
unfoldable pub replace_usage : SpecialUsage → List SpecialUsage → List SpecialUsage
replace_usage row [] = row ∷ []
replace_usage row (r ∷ rest) =
    if r.tag == row.tag && eqb r.userid row.userid
    then replace_usage row rest
    else r ∷ replace_usage row rest

unfoldable pub set_special_quota_usage :
    String → String → ℕ → List SpecialUsage → Manager → Bool × List SpecialUsage
unfolding find_local_id replace_usage
set_special_quota_usage tag useruuid amt rows m =
    if m.god
    then (
      true,
      replace_usage
          (record { userid = find_local_id useruuid m.tables.objects; tag = tag; usage = amt })
          rows,
    )
    else (false, rows)
