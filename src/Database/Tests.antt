-- ===== src/Database/Tests.antt =====
-- Runs of DBManager on concrete tables, and the theorems at concrete inputs.
use openpanel_opencore.Prelude.{
  ℕ, String, ◌≡◌, refl, true, false, ◌&&◌, ◌||◌, ◌==◌, Option, none, some, [], ◌∷◌, arith, eqb, ◌⊎◌,
  ◌↔◌, if◌then◌else◌,
}
use openpanel_opencore.Database.Tables.{
  Object, Tables, by_id, by_uuid, find_local_id, mirrored, has_power,
}
use openpanel_opencore.Database.Access.{Backend, ClassData, Manager, find_class_id, get_class_data}
use openpanel_opencore.Database.Quota.{
  counted, own_quota, quota_loop, get_user_quota, set_user_quota,
}
use openpanel_opencore.Database.Insert.{conflicts}
use openpanel_opencore.Database.Update.{replace, displace, delete_object, report_success, chown}
use openpanel_opencore.Database.Realm.{same_text, check_domain_suffix, codes}
use openpanel_opencore.Database.Create.{Request, set_power_mirror, create_object}
use openpanel_opencore.Database.Powers.{IsMirror, Above, self, mirrored-set_power_mirror}
use openpanel_opencore.Database.Mirror.{Leaves, LoggedIn, create_object-IsMirror}
use openpanel_opencore.Database.Authority.{Made, start, call, has_power_iff}
use openpanel_opencore.Database.Limits.{
  OwnersFall, IsTightest, get_user_quota-IsTightest, chown_self_diverges,
}
use openpanel_opencore.Database.Suffix.{IsSuffixed, check_domain_suffix_iff}
use openpanel_opencore.Database.Deletion.{IsUnique, delete-report}
use openpanel_opencore.Database.Creation.{Returns, Created, create_object-Created}
use openpanel_opencore.Database.Assignment.{own_quota-set_user_quota}
use openpanel_opencore.Database.Rollback.{TakenBack, report_create_failure-create_object}
use openpanel_opencore.Database.Order.{IsOrdered, create_object-IsOrdered}

abbrev pub plain : ClassData
plain = record {
  uniquein = none;
  uniqueclass = none;
  singleton = none;
  requires = none;
  parentrealm = none;
  magicdelimiter = none;
  prototype = "";
  worldreadable = false;
  field = λ f. if f == "name" then some ("string", "") else none;
}

abbrev pub backend : Backend
backend = record {
  toxml = λ ms. "<members/>";
  fromxml = λ s. [];
  class_data = λ s. plain;
  valueparse = λ v r. v;
  fresh_uuid = λ n. "copy";
  nocase = λ a c. a == c;
  uninitialised = 0;
}

abbrev pub row : ℕ → String → String → ℕ → ℕ → Object
row id uuid metaid owner class = record {
  id = id;
  uuid = uuid;
  metaid = some metaid;
  parent = 0;
  owner = owner;
  uniquecontext = none;
  class = class;
  content = "<members/>";
}

-- The two classes and the first user.
abbrev pub tables : Tables
tables = record {
  objects =
      row 1 "class-class" "Class" 0 1
      ∷ row 2 "class-user" "User" 0 1
      ∷ row 3 "u-root" "root" 0 2
      ∷ [];
  powermirror = record { userid = 3; powerid = 3 } ∷ [];
  classquota = record { userid = 3; classid = 2; quota = some 7 } ∷ [];
  next_id = 4;
}

abbrev pub root : Manager
root = record { tables = tables; god = false; useruuid = "u-root"; errorcode = 0 }

abbrev new_anna : Request
new_anna = record {
  parent = "";
  members = ("name", "Anna") ∷ [];
  ofclass = "User";
  metaid = "anna";
  permcheck = false;
  immediate = false;
}

abbrev pub with_anna : Manager
with_anna = record root {
  tables = record {
    objects =
        row 1 "class-class" "Class" 0 1
        ∷ row 2 "class-user" "User" 0 1
        ∷ row 3 "u-root" "root" 0 2
        ∷ row 4 "u-anna" "anna" 3 2
        ∷ [];
    powermirror =
        record { userid = 3; powerid = 3 }
        ∷ record { userid = 4; powerid = 3 }
        ∷ record { userid = 4; powerid = 4 }
        ∷ record { userid = 4; powerid = 3 }
        ∷ [];
    classquota = tables.classquota;
    next_id = 5;
  };
  errorcode = 0x2004;
}

create_anna : create_object backend 9 "u-anna" new_anna root ≡ some (some "u-anna", with_anna)
unfolding create_object
create_anna = refl

own_limit : get_user_quota backend 9 "User" "" with_anna ≡ some (counted (some 7) 1)
unfolding get_user_quota
own_limit = refl

at_root : (u p : ℕ) → (u ≡ 3) × (p ≡ 3) → Above tables.objects u p
at_root u p (e, f) = rw (e, f) (self 3)

tables-IsMirror : IsMirror tables
unfolding by_id mirrored
tables-IsMirror = record {
  positive = omega arith;
  ids = λ u o e. ground arith;
  users = λ u p e. ground arith;
  sound = λ u p e h k. at_root u p (ground arith);
  closed = λ u o e f h. ground arith;
  step = λ u p o e f h k. ground arith;
}

root-LoggedIn : LoggedIn backend root
unfolding find_local_id mirrored
root-LoggedIn = record { present = omega arith; user = refl }

tables-OwnersFall : OwnersFall tables
unfolding by_id
tables-OwnersFall = record { fall = λ u o e h. ground arith }

tables-IsOrdered : IsOrdered tables
unfolding by_id by_uuid
tables-IsOrdered = record {
  keyed = (omega arith, refl, refl, (omega arith, refl, refl, (omega arith, refl, refl, tt)));
  positive = omega arith;
  ids = λ u o e. ground arith;
  owners = tables-OwnersFall;
}

with_anna-Made : Made backend 9 tables with_anna.tables
with_anna-Made =
    call "u-anna" new_anna (some "u-anna") with_anna start root-LoggedIn refl (λ e. refl)
      create_anna

has_power_iff_example :
    (has_power 4 3 with_anna.tables ≡ true)
    ↔ ((◌≡◌ {A = ℕ} 4 3) ⊎ Above with_anna.tables.objects 3 3)
unfolding mirrored by_id
has_power_iff_example =
    has_power_iff backend 9 tables with_anna.tables 4 3 (row 4 "u-anna" "anna" 3 2) tables-IsMirror
      with_anna-Made refl refl (omega arith) (omega arith)

create_object-IsMirror_example : Leaves (create_object backend 9 "u-anna" new_anna root)
create_object-IsMirror_example =
    create_object-IsMirror backend 9 "u-anna" new_anna root tables-IsMirror root-LoggedIn refl
      (λ e. refl)

create_object-Created_example :
    Returns
      (Created backend 9 "u-anna" new_anna root)
      (create_object backend 9 "u-anna" new_anna root)
unfolding find_local_id get_class_data
create_object-Created_example =
    create_object-Created backend 9 "u-anna" new_anna root tables-OwnersFall (omega arith) refl refl

create_object-IsOrdered_example :
    Returns (λ res m'. IsOrdered m'.tables) (create_object backend 9 "u-anna" new_anna root)
unfolding get_class_data
create_object-IsOrdered_example =
    create_object-IsOrdered backend 9 "u-anna" new_anna root tables-IsOrdered (omega arith) refl
      refl

with_anna-IsOrdered : IsOrdered with_anna.tables
unfolding get_class_data
with_anna-IsOrdered = rw create_anna at (
    create_object-IsOrdered backend 9 "u-anna" new_anna root tables-IsOrdered (omega arith) refl
      refl)

abbrev anna : Manager
anna = record with_anna { useruuid = "u-anna" }

-- The limit of root holds for anna, who has none of her own.
get_user_quota-IsTightest_example :
    (limit : Option ℕ) × (n : ℕ) × (get_user_quota backend 9 "User" "" anna
      ≡ some (counted limit n))
    × IsTightest anna.tables
        (find_class_id backend "User" anna.tables)
        (find_local_id "u-anna" anna.tables.objects)
        limit
unfolding find_local_id
get_user_quota-IsTightest_example =
    get_user_quota-IsTightest backend 9 "User" anna with_anna-IsOrdered.owners (omega arith)

anna_limit : get_user_quota backend 9 "User" "" anna ≡ some (counted (some 7) 0)
unfolding get_user_quota
anna_limit = refl

with_anna-IsUnique : IsUnique backend with_anna.tables.objects
unfolding conflicts
with_anna-IsUnique = (
  (refl, (refl, (refl, (refl, (refl, tt))))),
  (
    (refl, (refl, (refl, (refl, (refl, tt))))),
    ((refl, (refl, (refl, (refl, (refl, tt))))), ((refl, (refl, (refl, (refl, (refl, tt))))), tt)),
  ),
)

delete-report_example :
    by_uuid "u-root"
      (report_success "u-anna" (delete_object backend "u-anna" false with_anna).1).1.tables.objects
    ≡ (if "u-anna" == "u-root" then none else by_uuid "u-root" with_anna.tables.objects)
unfolding delete_object find_local_id replace displace
delete-report_example =
    delete-report backend "u-anna" "u-root" false with_anna with_anna-IsOrdered.keyed
      with_anna-IsUnique refl (omega arith)

check_domain_suffix_iff_example :
    (check_domain_suffix (codes "www.Openpanel.com") (codes "openpanel.COM") b'.' ≡ true) ↔ (
      (same_text (codes "www.Openpanel.com") (codes "openpanel.COM") ≡ true)
      ⊎ IsSuffixed (codes "www.Openpanel.com") (codes "openpanel.COM") b'.')
check_domain_suffix_iff_example =
    check_domain_suffix_iff (codes "www.Openpanel.com") (codes "openpanel.COM") b'.'

suffix_runs :
    (check_domain_suffix (codes "www.Openpanel.com") (codes "openpanel.COM") b'.' ≡ true)
    × (check_domain_suffix (codes "myopenpanel.com") (codes "openpanel.com") b'.' ≡ false)
unfolding check_domain_suffix
suffix_runs = (refl, refl)

mirrored-set_power_mirror_example :
    mirrored 5 3 (set_power_mirror 5 4 with_anna.tables.powermirror) ≡ (
      mirrored 5 3 with_anna.tables.powermirror
      || (true && (false || false || mirrored 4 3 with_anna.tables.powermirror)))
mirrored-set_power_mirror_example =
    mirrored-set_power_mirror 5 3 5 4 with_anna.tables.powermirror (omega arith)

chown_self_diverges_example :
    quota_loop 1000 2
      (find_local_id "u-anna" with_anna.tables.objects)
      none
      (chown "u-anna" "u-anna" with_anna).1.tables
    ≡ none
unfolding chown
chown_self_diverges_example = chown_self_diverges 1000 2 "u-anna" with_anna refl

report_create_failure-create_object_example :
    Returns (TakenBack root) (create_object backend 9 "u-anna" new_anna root)
unfolding find_local_id get_class_data
report_create_failure-create_object_example =
    report_create_failure-create_object backend 9 "u-anna" new_anna root tables-OwnersFall
      (omega arith) refl refl

own_quota-set_user_quota_example :
    own_quota 4 2 (set_user_quota backend "User" (some 3) "u-anna" with_anna).1.tables.classquota
    ≡ (if (set_user_quota backend "User" (some 3) "u-anna" with_anna).0
          && eqb (find_local_id "u-anna" with_anna.tables.objects) 4
          && eqb (find_class_id backend "User" with_anna.tables) 2
        then some 3
        else own_quota 4 2 with_anna.tables.classquota)
own_quota-set_user_quota_example =
    own_quota-set_user_quota backend "User" (some 3) "u-anna" with_anna 4 2
