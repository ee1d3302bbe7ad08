-- ===== src/Requests/Tests.antt =====
-- Runs of the requests on a small database, a list of names, and the theorems at concrete inputs.
use mathlib.Core.List.{append_cancel_right}
use openpanel_opencore.Prelude.{
  ℕ, suc, String, Bool, ◌≡◌, refl, true, false, ◌||◌, ◌==◌, none, some, List, [], ◌∷◌, ◌++◌,
  if◌then◌else◌,
}
use openpanel_opencore.Database.Realm.{check_domain_suffix, codes}
use openpanel_opencore.Requests.Services.{
  Status, status_ok, status_failed, Core, Class, Values, Store, Modules,
}
use openpanel_opencore.Requests.Naming.{domain_id, email_id, copy_until, contains}
use openpanel_opencore.Requests.Create.{create_request, class_is_dynamic}
use openpanel_opencore.Requests.Ends.{IsEnded, create_request-IsEnded}
use openpanel_opencore.Requests.Update.{update_request}
use openpanel_opencore.Requests.Fitting.{
  check_domain_suffix-domain_id, check_domain_suffix-email_id,
}

abbrev has : String → List String → Bool
has u [] = false
has u (v ∷ rest) = v == u || has u rest

abbrev without : String → List String → List String
without u [] = []
without u (v ∷ rest) = if v == u then without u rest else v ∷ without u rest

abbrev names : Store (List String) String
names = record {
  find_object = λ p c uuid metaid s. (if has uuid s then uuid else "", s);
  fetch_object = λ u m s. (if has u s then some u else none, s);
  create_object = λ p v c metaid i s. if has "new" s then ("", s) else ("new", "new" ∷ s);
  update_object = λ v u i s. (has u s, s);
  delete_object = λ u i g s. (true, without u s);
  list_tree = λ u s. (some (u ∷ []), s);
  chown = λ u o s. (true, s);
  report_success = λ u s. (true, s);
  report_create_failure = λ u s. (true, without u s);
  report_update_failure = λ u s. (true, s);
  report_delete_failure = λ u s. (true, without u s);
  last_error = λ s. 0x2003;
}

abbrev values : Values String
values = record {
  empty = "";
  exists = λ v k. false;
  get = λ v k. v;
  set = λ k t v. t;
  rmval = λ k v. v;
  merge = λ v w. w;
  member = λ k v. v;
  metaid = λ v. v;
  head_id = λ v. "Domain";
  head_get = λ v k. v;
  class_get = λ v c k. v;
  context = λ a c o. o;
  contains_prototype = λ t. false;
  codes = λ t. [];
  text = λ t. "";
  precrypted = λ t. none;
  md5 = λ t. "crypted";
}

abbrev domain : Class String
domain = record {
  singleton = "";
  manualindex = true;
  parentrealm = "";
  hasprototype = false;
  requires = "";
  dynamic = false;
  cascades = false;
  params = record { id = "password"; enabled = true; crypt = some "md5" } ∷ [];
  normalize = λ v. some v;
}

-- Modules that answer every action with the status.
abbrev answering : Status → Modules (List String) String ℕ
answering status = record {
  is_internal = λ c. false;
  internal_create = λ c p v i k. (none, k);
  internal_update = λ c p i v k. (false, k);
  internal_delete = λ c p i k. (false, k);
  get_class = λ c. some domain;
  create_object = λ c i v w. (status, (w.0, suc w.1));
  delete_object = λ c i v w. (status, (w.0, suc w.1));
  update_object = λ c i v w. (status, (w.0, suc w.1));
  make_crypt = λ c f t w. (some t, w);
  sync_dynamic = λ p c i k. ("", k);
  get_classes = λ c. [];
  fresh_uuid = "fresh";
}

abbrev core : Core (List String) ℕ
core = record { db = "root" ∷ "old" ∷ []; modules = 0; error = 0 }

-- The module accepts: the object stays.
create_accepted :
    (create_request values names (answering status_ok) "" "Domain" "secret" "a.com" false core)
    ≡ (some "new", record { db = "new" ∷ "root" ∷ "old" ∷ []; modules = 1; error = 0 })
unfolding create_request
create_accepted = refl

-- The module refuses: the object goes again.
create_refused :
    (create_request values names (answering status_failed) "" "Domain" "secret" "a.com" false core)
    ≡ (none, record { db = "root" ∷ "old" ∷ []; modules = 1; error = 0x1002 })
unfolding create_request
create_refused = refl

create_request-IsEnded_example :
    IsEnded values names (answering status_failed) ("root" ∷ "old" ∷ []) (
      create_request values names (answering status_failed) "" "Domain" "secret" "a.com" false core)
unfolding class_is_dynamic
create_request-IsEnded_example =
    create_request-IsEnded values names (answering status_failed) "" "Domain" "secret" "a.com" core
      refl refl

-- The module refuses an update that the database has made.
update_refused :
    (update_request values names (answering status_failed) "" "Domain" "old" "secret" false core)
    ≡ (false, record { db = "root" ∷ "old" ∷ []; modules = 1; error = 0x1002 })
unfolding update_request
update_refused = refl

at_end :
    (pre : List ℕ)
    → codes "www.a.com" ≡ pre ++ codes "a.com"
    → copy_until (codes "www.a.com") (codes "a.com") ≡ pre
unfolding copy_until
at_end pre e = append_cancel_right (codes "www.") pre (codes "a.com") e

check_domain_suffix-domain_id_example :
    check_domain_suffix (domain_id (codes "www.a.com") (codes "a.com")) (codes "a.com") b'.' ≡ true
check_domain_suffix-domain_id_example =
    check_domain_suffix-domain_id (codes "www.a.com") (codes "a.com") at_end

check_domain_suffix-email_id_example :
    check_domain_suffix (email_id (codes "info") (codes "a.com")) (codes "a.com") b'@' ≡ true
unfolding contains
check_domain_suffix-email_id_example =
    check_domain_suffix-email_id (codes "info") (codes "a.com") refl

-- The test of createObject reads the text before the first occurrence of the parent's name, so it keeps
-- an id that _checkdomainsuffix refuses.
first_occurrence :
    (domain_id (codes "x.a.comya.com") (codes "a.com") ≡ codes "x.a.comya.com")
    × (check_domain_suffix (codes "x.a.comya.com") (codes "a.com") b'.' ≡ false)
unfolding domain_id check_domain_suffix
first_occurrence = (refl, refl)
