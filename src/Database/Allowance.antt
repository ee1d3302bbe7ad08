-- ===== src/Database/Allowance.antt =====
-- What setSpecialQuota accepts, and that it terminates.
use openpanel_opencore.Prelude.{
  ℕ, zero, suc, ◌+◌, ◌^◌, ◌≤◌, ◌<◌, String, true, false, ◌≡◌, ◌≢◌, refl, Option, none, some, List,
  [], ◌∷◌, arith, eq_refl, eqb, ltb, put_key, Bool-cases, Option-cases, inl, inr,
}
use openpanel_opencore.Database.Tables.{Object, Tables, by_id, find_local_id}
use openpanel_opencore.Database.Access.{Manager}
use openpanel_opencore.Database.Powers.{Above}
use openpanel_opencore.Database.Limits.{OwnersFall, Above-cases}
use openpanel_opencore.Database.Special.{
  SpecialQuota, special_row, may_manage, get_special_quota, get_special_quota_warning, sub_assigned,
  exceeds, allowance, metaid_of, special_loop, replace_special, SpecialReply, refused,
  set_special_quota,
}

module _ (tag : String) (uid quota : ℕ) (rows : List SpecialQuota) (t : Tables) where
  -- Every owner on the way up from the object passes the test.
  pub record IsAllowed (lookupid : ℕ) : Type 0 where
    pub allowed :
        (w : ℕ) (o : Object) (own : SpecialQuota)
        → Above t.objects lookupid w
        → by_id w t.objects ≡ some o
        → special_row tag o.owner rows ≡ some own
        → exceeds (sub_assigned tag o.owner uid t.powermirror rows) quota own.quota ≡ false

  -- The loop's answer: it is refused, or every owner passes.
  abbrev pub IsSound : ℕ → Option (List (String × ℕ)) → Type 0
  IsSound lookupid none = Unit
  IsSound lookupid (some phys) = IsAllowed lookupid

  nothing-IsAllowed : (lookupid : ℕ) → by_id lookupid t.objects ≡ none → IsAllowed lookupid
  nothing-IsAllowed lookupid e = record {
    allowed = λ w o own a f g. elim (Above-cases a) [
      | inl same ↦ absurd (let z : ⊥ = cc in z)
      | inr (x, k, n, b) ↦ absurd (let z : ⊥ = cc in z)
    ];
  }

  step-IsAllowed :
      (lookupid : ℕ) (o : Object)
      → by_id lookupid t.objects ≡ some o
      → ((own : SpecialQuota)
          → special_row tag o.owner rows ≡ some own
          → exceeds (sub_assigned tag o.owner uid t.powermirror rows) quota own.quota ≡ false)
      → (r : Option (List (String × ℕ))) → IsSound o.owner r
      → IsSound lookupid r
  step-IsAllowed lookupid o e here none h = tt
  step-IsAllowed lookupid o e here (some phys) h = record {
    allowed = λ w x own a f g. elim (Above-cases a) [
      | inl same ↦
          let f' : by_id lookupid t.objects ≡ some x = rw (← same) f in
          let k : x ≡ o = cc in rw k (here own (rw (← k) g))
      | inr (y, k, n, b) ↦ let z : y ≡ o = cc in h.allowed w x own (rw (← z) b) f g
    ];
  }

  special_loop-IsSound :
      OwnersFall t
      → by_id 0 t.objects ≡ none
      → (fuel lookupid : ℕ) (phys : List (String × ℕ)) → lookupid < fuel
      → (r : Option (List (String × ℕ))) × (special_loop tag uid quota rows t fuel lookupid phys
          ≡ some r)
        × IsSound lookupid r
  unfolding special_loop
  special_loop-IsSound d z zero lookupid phys l = absurd (omega (arith, l))
  special_loop-IsSound d z (suc fuel) lookupid phys l =
      elim (Option-cases (by_id lookupid t.objects)) [
        | inl e ↦ (some phys, rw (e, special_loop) refl, nothing-IsAllowed lookupid e)
        | inr (o, e) ↦
            let sub = sub_assigned tag o.owner uid t.powermirror rows in
            let low : o.owner < fuel = elim (Bool-cases (eqb o.owner 0)) [
              | inl q ↦
                  let start : lookupid ≢ 0 = λ same.
                    let y : by_id lookupid t.objects ≡ none = rw same z in
                    let z' : ⊥ = cc in absurd z' in
                  ground (arith, start)
              | inr q ↦ ground (arith, d.fall lookupid o e)
            ] in
            elim (Option-cases (special_row tag o.owner rows)) [
              | inl f ↦
                  let (r, g, s) = special_loop-IsSound d z fuel o.owner phys low in
                  (
                    r,
                    rw (e, f, special_loop) g,
                    step-IsAllowed lookupid o e (λ own k. absurd (let z : ⊥ = cc in z)) r s,
                  )
              | inr (own, f) ↦ elim (Bool-cases (exceeds sub quota own.quota)) [
                | inl x ↦ (none, rw (e, f, x, special_loop) refl, tt)
                | inr x ↦
                    let next =
                      put_key (metaid_of (by_id o.owner t.objects)) (allowance own.quota sub quota)
                        phys in
                    let (r, g, s) = special_loop-IsSound d z fuel o.owner next low in
                    (
                      r,
                      rw (e, f, x, special_loop) g,
                      step-IsAllowed lookupid o e
                          (λ own' k. let same : own' ≡ own = cc in rw same x) r s,
                    )
              ]
            ]
      ]

special_row-replace :
    (row : SpecialQuota) (rows : List SpecialQuota)
    → special_row row.tag row.userid (replace_special row rows) ≡ some row
unfolding special_row replace_special
special_row-replace row [] = ground (arith, eq_refl row.tag)
special_row-replace row (r ∷ rest) = ground (arith, special_row-replace row rest)

-- What an accepted quota comes to: the user can be managed, the warning is not above the quota, and at
-- every owner that has a quota of his own, what the first of the other users below him has been given and
-- the new quota are together at most his quota, unless their sum reaches 2^31.
pub record IsBounded (tag useruuid : String) (quota warning : ℕ) (rows : List SpecialQuota)
    (m : Manager) : Type 0 where
  pub managed : may_manage (find_local_id useruuid m.tables.objects) m ≡ true
  pub warned : warning ≤ quota
  pub within :
      (w : ℕ) (o : Object) (own : SpecialQuota)
      → Above m.tables.objects (find_local_id useruuid m.tables.objects) w
      → by_id w m.tables.objects ≡ some o
      → special_row tag o.owner rows ≡ some own
      → sub_assigned tag o.owner (find_local_id useruuid m.tables.objects) m.tables.powermirror rows
          + quota
        < 2 ^ 31
      → sub_assigned tag o.owner (find_local_id useruuid m.tables.objects) m.tables.powermirror rows
          + quota
        ≤ own.quota

exceeds_lem :
    (sub quota own : ℕ) → exceeds sub quota own ≡ false → sub + quota < 2 ^ 31 → sub + quota ≤ own
unfolding exceeds
exceeds_lem sub quota own e l = ground arith

module _ (fuel : ℕ) (tag useruuid : String) (quota warning : ℕ) (rows : List SpecialQuota)
    (m : Manager) where
  abbrev user : ℕ
  user = find_local_id useruuid m.tables.objects

  abbrev phys_start : List (String × ℕ)
  phys_start = (metaid_of (by_id user m.tables.objects), quota) ∷ []

  abbrev new_row : ℕ → SpecialQuota
  new_row uid = record { userid = uid; tag = tag; quota = quota; warning = warning }

  answered :
      (r : Option (List (String × ℕ)))
      → special_loop tag user quota rows m.tables fuel user phys_start ≡ some r
      → IsSound tag user quota rows m.tables user r
      → may_manage user m ≡ true
      → ltb quota warning ≡ false
      → (reply : SpecialReply) × (set_special_quota fuel tag useruuid quota warning rows m
          ≡ some reply)
        × (reply.accepted ≡ true → IsBounded tag useruuid quota warning rows m)
  unfolding set_special_quota
  answered none e s f g =
      (refused rows, rw (f, g, e, set_special_quota) refl, λ k. let z : ⊥ = cc in absurd z)
  answered (some phys) e s f g = (
    record { accepted = true; rows = replace_special (new_row user) rows; phys = phys },
    rw (f, g, e, set_special_quota) refl,
    λ k. record {
      managed = f;
      warned = ground arith;
      within = λ w o own a b c l.
          exceeds_lem (sub_assigned tag o.owner user m.tables.powermirror rows) quota own.quota
            (s.allowed w o own a b c) l;
    },
  )

-- Where owners come before what they own and no object has the id 0, setSpecialQuota returns, on any fuel
-- that exceeds the user's id; and if it accepts a quota, then the caller may manage the user, the warning is
-- at most the quota, and at every owner on the way up that has a quota for the tag: if the quota plus what one
-- other user below that owner has (the first row of the query) is below 2^31, it is at most the owner's.
pub set_special_quota-IsBounded :
    (fuel : ℕ) (tag useruuid : String) (quota warning : ℕ) (rows : List SpecialQuota) (m : Manager)
    → OwnersFall m.tables
    → by_id 0 m.tables.objects ≡ none
    → find_local_id useruuid m.tables.objects < fuel
    → (reply : SpecialReply) × (set_special_quota fuel tag useruuid quota warning rows m
        ≡ some reply)
      × (reply.accepted ≡ true → IsBounded tag useruuid quota warning rows m)
unfolding set_special_quota
set_special_quota-IsBounded fuel tag useruuid quota warning rows m d z l =
    let uid = find_local_id useruuid m.tables.objects in
    let (r, e, s) =
      special_loop-IsSound tag uid quota rows m.tables d z fuel uid
        ((metaid_of (by_id uid m.tables.objects), quota) ∷ []) l in
    elim (Bool-cases (may_manage uid m)) [
      | inr f ↦ (refused rows, rw (f, set_special_quota) refl, λ k. let z' : ⊥ = cc in absurd z')
      | inl f ↦ elim (Bool-cases (ltb quota warning)) [
        | inl g ↦
            (refused rows, rw (f, g, set_special_quota) refl, λ k. let z' : ⊥ = cc in absurd z')
        | inr g ↦ answered fuel tag useruuid quota warning rows m r e s f g
      ]
    ]

-- After setSpecialQuota has accepted a quota, getSpecialQuota and getSpecialQuotaWarning answer the same
-- caller with that quota and that warning.
pub get-set_special_quota :
    (fuel : ℕ) (tag useruuid : String) (quota warning : ℕ) (rows : List SpecialQuota) (m : Manager)
    (reply : SpecialReply)
    → set_special_quota fuel tag useruuid quota warning rows m ≡ some reply
    → reply.accepted ≡ true
    → (get_special_quota tag useruuid reply.rows m ≡ some quota)
      × (get_special_quota_warning tag useruuid reply.rows m ≡ some warning)
unfolding set_special_quota get_special_quota get_special_quota_warning
get-set_special_quota fuel tag useruuid quota warning rows m reply e a =
    let uid = find_local_id useruuid m.tables.objects in
    let row : SpecialQuota = record { userid = uid; tag = tag; quota = quota; warning = warning } in
    let k = special_row-replace row rows in
    let start : List (String × ℕ) = (metaid_of (by_id uid m.tables.objects), quota) ∷ [] in
    elim (Bool-cases (may_manage uid m)) [
      | inr f ↦ absurd (let z : ⊥ = ground arith in z)
      | inl f ↦ elim (Bool-cases (ltb quota warning)) [
        | inl g ↦ absurd (let z : ⊥ = ground arith in z)
        | inr g ↦ elim (Option-cases (special_loop tag uid quota rows m.tables fuel uid start)) [
          | inl h ↦
              let y : set_special_quota fuel tag useruuid quota warning rows m ≡ none =
                rw (f, g, h, set_special_quota) refl in
              absurd (let z : ⊥ = cc in z)
          | inr (q, h) ↦ elim (Option-cases q) [
            | inl i ↦
                let j : special_loop tag uid quota rows m.tables fuel uid start ≡ some none =
                  rw (← i) h in
                let y : set_special_quota fuel tag useruuid quota warning rows m
                    ≡ some (refused rows) =
                  rw (f, g, j, set_special_quota) refl in
                absurd (let z : ⊥ = cc in z)
            | inr (phys, i) ↦
                let j : special_loop tag uid quota rows m.tables fuel uid start ≡ some (some phys) =
                  rw (← i) h in
                let done : SpecialReply = record {
                  accepted = true;
                  rows = replace_special row rows;
                  phys = phys;
                } in
                let y : set_special_quota fuel tag useruuid quota warning rows m ≡ some done =
                  rw (f, g, j, set_special_quota) refl in
                let w : reply ≡ done = cc in (rw (w, f, k) refl, rw (w, f, k) refl)
          ]
        ]
      ]
    ]
