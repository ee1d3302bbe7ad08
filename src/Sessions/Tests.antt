-- ===== src/Sessions/Tests.antt =====
-- Runs of SessionDB on concrete sessions, and the theorems at concrete inputs. All identifiers hash to
-- one key here, so that every descent meets a collision.
use mathlib.Core.Option
use openpanel_opencore.Prelude.{
  ℕ, ◌+◌, String, ◌≡◌, refl, false, some, List, [], ◌∷◌, ◌++◌, map, length,
}
use openpanel_opencore.Sessions.Store.{Session, deref}
use openpanel_opencore.Sessions.Invariant.{IsIndexed, run-empty-IsIndexed}
use openpanel_opencore.Sessions.Usage.{release-get, touch, create_new, made}
use openpanel_opencore.Sessions.Expiry.{fresh, expire-fresh, get_survives_expire}
use openpanel_opencore.Sessions.Persistence.{revived, load-save}
use openpanel_opencore.Sessions.{
  Host, SessionDb, Serialized, Call, gets, releases, removes, creates, expires, empty, keep,
  release, save_to_disk, get, create, load_from_disk, expire, run, step, exists,
}

abbrev host : Host String ℕ
host = record { key = λ s. 7; no_value = ""; open_db = some 1; user_login = λ meta d. d + 1 }

abbrev calls : List (ℕ × Call String)
calls =
    (100, creates "a" "anna")
    ∷ (110, creates "b" "bob")
    ∷ (120, creates "c" "carl")
    ∷ (130, releases "c")
    ∷ (140, gets "a")
    ∷ (150, removes "b")
    ∷ (160, expires)
    ∷ []

abbrev db : SessionDb String ℕ
db = run host empty calls

db_ids : map (λ (s : Session String ℕ). s.id) db.sessions ≡ "a" ∷ "c" ∷ []
unfolding run empty step get release create expire
db_ids = refl

-- Session "a" was the first: `create` left it unclaimed, and only `get` claimed it.
db_claims : map (λ (s : Session String ℕ). s.inuse) db.sessions ≡ 1 ∷ 0 ∷ []
unfolding run empty step get release create expire
db_claims = refl

db_expires : (expire host 731 db).1 ≡ 1
unfolding run empty step get release create expire
db_expires = refl

db_exists : exists host "b" db ≡ false
unfolding run empty step get release create expire exists
db_exists = refl

run-empty-IsIndexed_example : IsIndexed host (run host empty calls)
run-empty-IsIndexed_example = run-empty-IsIndexed host calls

expire-fresh_example :
    ((expire host 731 db).0.sessions ≡ fresh 731 db.sessions)
    × ((expire host 731 db).1 + length (fresh 731 db.sessions) ≡ length db.sessions)
expire-fresh_example = expire-fresh host 731 db run-empty-IsIndexed_example

get_survives_expire_example :
    deref "c" (expire host 9000 (get host "c" db).1).0.sessions
    ≡ Option.map keep (deref "c" db.sessions)
get_survives_expire_example = get_survives_expire host 9000 "c" db run-empty-IsIndexed_example

release-get_example :
    deref "c" (release 200 "c" (get host "c" db).1).sessions
    ≡ Option.map (touch host 200) (deref "c" db.sessions)
release-get_example = release-get host 200 "c" db run-empty-IsIndexed_example

create_new_example :
    ((create host 300 "d" "dora" db).0 ≡ some "d")
    × ((create host 300 "d" "dora" db).1.sessions
        ≡ db.sessions ++ record (made host 300 "d" 1 1) { meta = "dora" } ∷ [])
unfolding run empty step get release create expire
create_new_example = create_new host 300 "d" "dora" 1 db run-empty-IsIndexed_example refl refl

load-save_example :
    (load_from_disk host 500 (save_to_disk db) empty).sessions
    ≡ map (revived host 1 refl) db.sessions
load-save_example =
    load-save host 1 refl (List (Serialized String)) (λ v. v) (λ f. f) 500 db (λ v. refl)
      run-empty-IsIndexed_example
