-- ===== src/Database/LoginTests.antt =====
-- Special quotas, logins and object trees on concrete tables, and the theorems at concrete inputs.
use openpanel_opencore.Prelude.{
  String, inl, inr, ◌++◌, true, false, ◌≡◌, ◌≢◌, refl, some, List, [], ◌∷◌, arith, ◌⊎◌,
}
use openpanel_opencore.Database.Tables.{has_power, Object, by_id, find_local_id}
use openpanel_opencore.Database.Access.{Backend, Manager, err_loginfail}
use openpanel_opencore.Database.Limits.{OwnersFall}
use openpanel_opencore.Database.Special.{
  SpecialQuota, SpecialReply, get_special_quota, get_special_quota_usage, get_special_quota_warning,
  set_special_quota, set_special_quota_usage,
}
use openpanel_opencore.Database.Allowance.{
  IsBounded, set_special_quota-IsBounded, get-set_special_quota,
}
use openpanel_opencore.Database.Login.{
  login, logout, user_login, password_of, IsUser, login-authenticates,
}
use openpanel_opencore.Database.Tree.{list_object_tree}
use openpanel_opencore.Database.Below.{IsRow, IsMade, IsListing}
use openpanel_opencore.Database.Descent.{list_object_tree-IsListing}
use openpanel_opencore.Database.Tests.{backend, root, with_anna}

-- The user may hand out 100.
abbrev quotas : List SpecialQuota
quotas = record { userid = 3; tag = "Mail/disk"; quota = 100; warning = 90 } ∷ []

with_anna-OwnersFall : OwnersFall with_anna.tables
unfolding by_id
with_anna-OwnersFall = record { fall = λ u o e h. ground arith }

set_special_quota-IsBounded_example :
    (reply : SpecialReply) × (set_special_quota 9 "Mail/disk" "u-anna" 60 50 quotas with_anna
      ≡ some reply)
    × (reply.accepted ≡ true → IsBounded "Mail/disk" "u-anna" 60 50 quotas with_anna)
set_special_quota-IsBounded_example =
    set_special_quota-IsBounded 9 "Mail/disk" "u-anna" 60 50 quotas with_anna with_anna-OwnersFall
      (unfold by_id in refl) (unfold find_local_id in omega arith)

abbrev accepted : SpecialReply
accepted = record {
  accepted = true;
  rows =
      record { userid = 3; tag = "Mail/disk"; quota = 100; warning = 90 }
      ∷ record { userid = 4; tag = "Mail/disk"; quota = 60; warning = 50 }
      ∷ [];
  phys = ("anna", 60) ∷ ("root", 40) ∷ [];
}

set_anna : set_special_quota 9 "Mail/disk" "u-anna" 60 50 quotas with_anna ≡ some accepted
unfolding set_special_quota
set_anna = refl

get-set_special_quota_example :
    (get_special_quota "Mail/disk" "u-anna" accepted.rows with_anna ≡ some 60)
    × (get_special_quota_warning "Mail/disk" "u-anna" accepted.rows with_anna ≡ some 50)
get-set_special_quota_example =
    get-set_special_quota 9 "Mail/disk" "u-anna" 60 50 quotas with_anna accepted set_anna refl

-- Two users below the owner of the quota hold 60 and 40; only the first of them counts against a third.
abbrev handed_out : List SpecialQuota
handed_out =
    record { userid = 3; tag = "Mail/disk"; quota = 100; warning = 90 }
    ∷ record { userid = 5; tag = "Mail/disk"; quota = 60; warning = 50 }
    ∷ record { userid = 6; tag = "Mail/disk"; quota = 40; warning = 30 }
    ∷ []

abbrev crowded : Manager
crowded = record with_anna {
  tables = record with_anna.tables {
    powermirror =
        record { userid = 5; powerid = 3 }
        ∷ record { userid = 6; powerid = 3 }
        ∷ with_anna.tables.powermirror;
  };
}

too_much :
    set_special_quota 9 "Mail/disk" "u-anna" 40 30 handed_out crowded
    ≡ some (record {
      accepted = true;
      rows =
          record { userid = 3; tag = "Mail/disk"; quota = 100; warning = 90 }
          ∷ record { userid = 5; tag = "Mail/disk"; quota = 60; warning = 50 }
          ∷ record { userid = 6; tag = "Mail/disk"; quota = 40; warning = 30 }
          ∷ record { userid = 4; tag = "Mail/disk"; quota = 40; warning = 30 }
          ∷ [];
      phys = ("anna", 40) ∷ ("root", 0) ∷ [];
    })
unfolding set_special_quota
too_much = refl

-- createObject has mirrored the new user to its maker twice, so that a usage of 7 counts as 14.
counted_twice :
    get_special_quota_usage "Mail/disk" "u-root"
      (record { userid = 4; tag = "Mail/disk"; usage = 7 } ∷ [])
      with_anna
    ≡ some 14
unfolding get_special_quota_usage
counted_twice = refl

usage_needs_god : set_special_quota_usage "Mail/disk" "u-root" 7 [] root ≡ (false, [])
unfolding set_special_quota_usage
usage_needs_god = refl

abbrev salted : Backend
salted = record backend { fromxml = λ s. ("password", "$1$secret") ∷ [] }

login_root :
    (login salted (λ p salt. "$1$secret") "root" "secret" (logout salted with_anna)).1.useruuid
    ≡ "u-root"
unfolding login logout
login_root = refl

user_login_root : (user_login salted "root" (logout salted with_anna)).1.useruuid ≡ "u-root"
unfolding user_login logout
user_login_root = refl

login-authenticates_example :
    (((login salted (λ p salt. "$1$secret") "root" "secret" with_anna).0 ≡ true)
      × ((o : Object) × IsUser salted "root" with_anna o
          × (o.uuid ≢ "")
          × (password_of salted o ≡ "$1$secret")
          × ((login salted (λ p salt. "$1$secret") "root" "secret" with_anna).1
              ≡ record with_anna { useruuid = o.uuid })))
    ⊎ (((login salted (λ p salt. "$1$secret") "root" "secret" with_anna).0 ≡ false)
        × ((login salted (λ p salt. "$1$secret") "root" "secret" with_anna).1
            ≡ record with_anna { useruuid = ""; errorcode = err_loginfail }))
login-authenticates_example =
    login-authenticates salted (λ p salt. "$1$secret") "root" "secret" with_anna

anna_IsMade : (o : Object) → IsRow o with_anna.tables.objects → IsMade 5 o
anna_IsMade o (inl e) = rw e (record {
  positive = omega arith;
  bounded = omega arith;
  parent = omega arith;
  owner = omega arith;
})
anna_IsMade o (inr (inl e)) = rw e (record {
  positive = omega arith;
  bounded = omega arith;
  parent = omega arith;
  owner = omega arith;
})
anna_IsMade o (inr (inr (inl e))) = rw e (record {
  positive = omega arith;
  bounded = omega arith;
  parent = omega arith;
  owner = omega arith;
})
anna_IsMade o (inr (inr (inr (inl e)))) = rw e (record {
  positive = omega arith;
  bounded = omega arith;
  parent = omega arith;
  owner = omega arith;
})
anna_IsMade o (inr (inr (inr (inr e)))) = absurd e

list_object_tree-IsListing_example :
    (listed : List String) × (list_object_tree 2 "u-root" with_anna
      ≡ some (some (listed ++ "u-root" ∷ []), with_anna))
    × IsListing with_anna.tables.objects (find_local_id "u-root" with_anna.tables.objects) listed
list_object_tree-IsListing_example =
    list_object_tree-IsListing 5 2 "u-root" with_anna anna_IsMade
      (unfold find_local_id in omega arith) (unfold find_local_id in omega arith)
      (unfold find_local_id in omega arith) (unfold find_local_id has_power in refl)

root_tree :
    list_object_tree 2 "u-root" with_anna ≡ some (some ("u-anna" ∷ "u-root" ∷ []), with_anna)
unfolding list_object_tree
root_tree = refl
