-- ===== src/Database/Limits.antt =====
-- getUserQuota finds the tightest limit along the owners, where the owners come before what they own;
-- and an object that owns itself makes it walk for ever.
use openpanel_opencore.Prelude.{
  ℕ, zero, suc, ◌≤◌, ◌<◌, String, ◌≡◌, ◌≢◌, refl, true, Option, none, some, List, [], ◌∷◌, arith,
  subst, eqb, is_zero, Bool-cases, Option-cases, ◌⊎◌, inl, inr, ltb,
}
use openpanel_opencore.Database.Tables.{Object, Tables, by_id, owner_of, find_local_id}
use openpanel_opencore.Database.Access.{Backend, Manager, find_class_id}
use openpanel_opencore.Database.Quota.{
  counted, own_quota, tighter, quota_loop, usage, get_user_quota,
}
use openpanel_opencore.Database.Update.{chown, write}
use openpanel_opencore.Database.Powers.{Above, self, up}

-- An owner was made before what it owns. Ids grow, so only chown can break this.
pub record OwnersFall (t : Tables) : Type 0 where
  pub fall : (u : ℕ) (o : Object) → by_id u t.objects ≡ some o → o.owner ≢ 0 → o.owner < u

-- The limit is at most every limit on the way up from `u`, and it is one of them.
pub record IsTightest (t : Tables) (classid u : ℕ) (limit : Option ℕ) : Type 0 where
  pub below :
      (v k : ℕ)
      → Above t.objects u v
      → own_quota v classid t.classquota ≡ some k
      → (q : ℕ) × (limit ≡ some q) × (q ≤ k)
  pub attained :
      (q : ℕ)
      → limit ≡ some q
      → (v : ℕ) × Above t.objects u v × (own_quota v classid t.classquota ≡ some q)

tighter_first :
    (acc this : Option ℕ) (k : ℕ) → acc ≡ some k → (q : ℕ) × (tighter acc this ≡ some q) × (q ≤ k)
unfolding tighter
tighter_first acc none k e = (k, e, omega arith)
tighter_first none (some n) k e = cc
tighter_first (some a) (some n) k e = elim (Bool-cases (ltb n a)) [
  | inl h ↦ (n, rw h, ground arith)
  | inr h ↦ (a, rw h, ground arith)
]

tighter_second :
    (acc this : Option ℕ) (k : ℕ) → this ≡ some k → (q : ℕ) × (tighter acc this ≡ some q) × (q ≤ k)
unfolding tighter
tighter_second acc none k e = cc
tighter_second none (some n) k e = (k, e, omega arith)
tighter_second (some a) (some n) k e = elim (Bool-cases (ltb n a)) [
  | inl h ↦ (n, rw h, ground arith)
  | inr h ↦ (a, rw h, ground arith)
]

tighter_either :
    (acc this : Option ℕ) (q : ℕ) → tighter acc this ≡ some q → (acc ≡ some q) ⊎ (this ≡ some q)
unfolding tighter
tighter_either acc none q e = inl e
tighter_either none (some n) q e = inr e
tighter_either (some a) (some n) q e = ground arith

pub Above-cases :
    {objects : List Object} {u v : ℕ}
    → Above objects u v
    → (v ≡ u)
      ⊎ ((o : Object) × (by_id u objects ≡ some o) × (o.owner ≢ 0) × Above objects o.owner v)
Above-cases (self u) = inl refl
Above-cases (up o e h a) = inr (o, e, h, a)

module _ (t : Tables) (classid : ℕ) where
  abbrev own : ℕ → Option ℕ
  own v = own_quota v classid t.classquota

  -- What the loop finds, from `u` and a limit that it has found before.
  record Walked (u : ℕ) (acc limit : Option ℕ) : Type 0 where
    before : (k : ℕ) → acc ≡ some k → (q : ℕ) × (limit ≡ some q) × (q ≤ k)
    below : (v k : ℕ) → Above t.objects u v → own v ≡ some k → (q : ℕ) × (limit ≡ some q) × (q ≤ k)
    attained :
        (q : ℕ)
        → limit ≡ some q
        → (acc ≡ some q) ⊎ ((v : ℕ) × Above t.objects u v × (own v ≡ some q))

  trans_le :
      (limit : Option ℕ) (k : ℕ)
      → (p : (q : ℕ) × (q ≤ k) × ((r : ℕ) × (limit ≡ some r) × (r ≤ q)))
      → (r : ℕ) × (limit ≡ some r) × (r ≤ k)
  trans_le limit k (q, h, (r, e, l)) = (r, e, omega arith)

  last_owner :
      (u : ℕ) (acc : Option ℕ)
      → owner_of (by_id u t.objects) ≡ 0
      → Walked u acc (tighter acc (own u))
  last_owner u acc z = record {
    before = tighter_first acc (own u);
    below = λ v k a e. elim (Above-cases a) [
      | inl same ↦ tighter_second acc (own u) k (rw (← same) e)
      | inr (o, f, h, a') ↦ absurd (h (ground arith))
    ];
    attained = λ q e. elim (tighter_either acc (own u) q e) [
      | inl old ↦ inl old
      | inr new ↦ inr (u, self u, new)
    ];
  }

  next_owner :
      (u : ℕ) (acc limit : Option ℕ) (o : Object)
      → by_id u t.objects ≡ some o
      → o.owner ≢ 0
      → Walked o.owner (tighter acc (own u)) limit
      → Walked u acc limit
  next_owner u acc limit o f h w = record {
    before = λ k e.
        let (q, x, l) = tighter_first acc (own u) k e in trans_le limit k (q, l, w.before q x);
    below = λ v k a e. elim (Above-cases a) [
      | inl same ↦
          let (q, x, l) = tighter_second acc (own u) k (rw (← same) e) in
          trans_le limit k (q, l, w.before q x)
      | inr (o', f', h', a') ↦
          let same : o' ≡ o = cc in
          w.below v k (subst (λ (x : Object). Above t.objects x.owner v) same a') e
    ];
    attained = λ q e. elim (w.attained q e) [
      | inl old ↦ elim (tighter_either acc (own u) q old) [
        | inl first ↦ inl first
        | inr new ↦ inr (u, self u, new)
      ]
      | inr (v, a, x) ↦ inr (v, up o f h a, x)
    ];
  }

  quota_loop-Walked :
      (fuel u : ℕ) (acc : Option ℕ)
      → OwnersFall t
      → u < fuel
      → (limit : Option ℕ) × (quota_loop fuel classid u acc t ≡ some limit) × Walked u acc limit
  unfolding quota_loop
  quota_loop-Walked zero u acc d h = elim h [ ]
  quota_loop-Walked (suc fuel) u acc d h = elim (Option-cases (by_id u t.objects)) [
    | inl f ↦ (tighter acc (own u), rw (f, quota_loop), last_owner u acc (rw f))
    | inr (o, f) ↦ elim (Bool-cases (is_zero o.owner)) [
      | inl z ↦ (tighter acc (own u), rw (f, z, quota_loop), last_owner u acc (rw f (ground arith)))
      | inr z ↦
          let some_owner : o.owner ≢ 0 = ground arith in
          let (limit, e, w) =
            quota_loop-Walked fuel o.owner (tighter acc (own u)) d
              (omega (arith, d.fall u o f some_owner)) in
          (limit, rw (f, z, quota_loop) e, next_owner u acc limit o f some_owner w)
    ]
  ]

-- The own quota of a session whose user's owners were made in order: with fuel beyond the user's id
-- getUserQuota returns, its limit is the tightest on the way up the owners, and no limit where no
-- user on the way has one.
pub get_user_quota-IsTightest :
    (b : Backend) (fuel : ℕ) (ofclass : String) (m : Manager)
    → OwnersFall m.tables
    → find_local_id m.useruuid m.tables.objects < fuel
    → (limit : Option ℕ) × (n : ℕ) × (get_user_quota b fuel ofclass "" m ≡ some (counted limit n))
      × IsTightest m.tables
          (find_class_id b ofclass m.tables)
          (find_local_id m.useruuid m.tables.objects)
          limit
unfolding get_user_quota
get_user_quota-IsTightest b fuel ofclass m d h =
    let t = m.tables in
    let u = find_local_id m.useruuid t.objects in
    let classid = find_class_id b ofclass t in
    let (limit, e, w) = quota_loop-Walked t classid fuel u none d h in
    (
      limit,
      usage classid u t.powermirror t.objects,
      ground (arith, e),
      record {
        below = w.below;
        attained = λ q x. elim (w.attained q x) [ inl none_before ↦ cc | inr found ↦ found ];
      },
    )

by_id-id : (u : ℕ) (xs : List Object) (o : Object) → by_id u xs ≡ some o → o.id ≡ u
unfolding by_id
by_id-id u [] o e = cc
by_id-id u (x ∷ xs) o e = ground (arith, by_id-id u xs o)

by_id-write :
    (u : ℕ) (new : Object) (xs : List Object) (o : Object)
    → new.id ≡ u
    → by_id u xs ≡ some o
    → by_id u (write new xs) ≡ some new
unfolding by_id write
by_id-write u new [] o same e = cc
by_id-write u new (x ∷ xs) o same e = elim (Bool-cases (eqb x.id new.id)) [
  | inl h ↦ rw (h, write, by_id) (ground arith)
  | inr h ↦ rw (h, write, by_id) (ground (arith, by_id-write u new xs o same))
]

-- A loop that has come to an object that owns itself never ends.
self_owned_diverges :
    (fuel classid u : ℕ) (acc : Option ℕ) (t : Tables) (o : Object)
    → by_id u t.objects ≡ some o
    → o.owner ≡ u
    → u ≢ 0
    → quota_loop fuel classid u acc t ≡ none
unfolding quota_loop
self_owned_diverges zero classid u acc t o e f h = refl
self_owned_diverges (suc fuel) classid u acc t o e f h = ground (
  arith,
  self_owned_diverges fuel classid u (tighter acc (own_quota u classid t.classquota)) t o e f h,
)

-- What chown has done where it returns true.
chown_stores :
    (objectuuid useruuid : String) (m : Manager)
    → (chown objectuuid useruuid m).0 ≡ true
    → (o : Object) × (by_id (find_local_id objectuuid m.tables.objects) m.tables.objects ≡ some o)
      × (find_local_id objectuuid m.tables.objects ≢ 0)
      × ((chown objectuuid useruuid m).1.tables.objects
          ≡ write (record o { owner = find_local_id useruuid m.tables.objects }) m.tables.objects)
unfolding chown
chown_stores objectuuid useruuid m h =
    let u = find_local_id objectuuid m.tables.objects in
    elim (Option-cases (by_id u m.tables.objects)) [
      | inl e ↦ absurd (ground (arith, e))
      | inr (o, e) ↦ (o, e, ground arith, ground (arith, e))
    ]

-- chown accepts an object as its own owner; after that getUserQuota of that user, for any class and
-- on any fuel, does not return.
pub chown_self_diverges :
    (fuel classid : ℕ) (uuid : String) (m : Manager)
    → (chown uuid uuid m).0 ≡ true
    → quota_loop fuel classid
        (find_local_id uuid m.tables.objects)
        none
        (chown uuid uuid m).1.tables
      ≡ none
chown_self_diverges fuel classid uuid m h =
    let u = find_local_id uuid m.tables.objects in
    let (o, e, p, stored) = chown_stores uuid uuid m h in
    let same = by_id-id u m.tables.objects o e in
    let new = record o { owner = u } in
    self_owned_diverges fuel classid u none (chown uuid uuid m).1.tables new
      (rw stored (by_id-write u new m.tables.objects o same e)) refl p
