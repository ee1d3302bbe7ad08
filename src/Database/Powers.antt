-- ===== src/Database/Powers.antt =====
-- The power mirror against the chain of owners: `mirrored` answers whether one user stands above
-- another, as long as users are made by users who are logged in.
use openpanel_opencore.Prelude.{
  ℕ, suc, ◌<◌, ◌≡◌, ◌≢◌, refl, true, ◌&&◌, ◌||◌, none, some, List, [], ◌∷◌, ◌++◌, arith, eqb,
  if◌then◌else◌, ◌∙◌, ◌⊎◌, inl, inr, Option-cases,
}
use openpanel_opencore.Database.Tables.{Object, Power, Tables, by_id, mirrored}
use openpanel_opencore.Database.Create.{set_power_mirror, inherited}

mirrored-append :
    (u p : ℕ) (xs ys : List Power) → mirrored u p (xs ++ ys) ≡ (mirrored u p xs || mirrored u p ys)
unfolding mirrored
mirrored-append u p [] ys = refl
mirrored-append u p (x ∷ xs) ys = ground (arith, mirrored-append u p xs ys)

mirrored-inherited :
    (u p uid userid : ℕ) (pm : List Power)
    → mirrored u p (inherited uid userid pm) ≡ (eqb uid u && mirrored userid p pm)
unfolding mirrored inherited
mirrored-inherited u p uid userid [] = ground arith
mirrored-inherited u p uid userid (row ∷ pm) = ground (arith, mirrored-inherited u p uid userid pm)

-- `_setpowermirror` puts a new user below the maker, below itself, and below all whom the maker is
-- below, and changes no other user.
pub mirrored-set_power_mirror :
    (u p uid userid : ℕ) (pm : List Power)
    → uid ≢ userid
    → mirrored u p (set_power_mirror uid userid pm)
      ≡ (mirrored u p pm || (eqb uid u && (eqb userid p || eqb uid p || mirrored userid p pm)))
unfolding set_power_mirror mirrored
mirrored-set_power_mirror u p uid userid pm h =
    let two : List Power =
      record { userid = uid; powerid = userid } ∷ record { userid = uid; powerid = uid } ∷ [] in
    ground (
      arith,
      mirrored-append u p (pm ++ two) (inherited uid userid (pm ++ two)),
      mirrored-append u p pm two,
      mirrored-append userid p pm two,
      mirrored-inherited u p uid userid (pm ++ two),
    )

pub by_id-append :
    (u : ℕ) (xs : List Object) (o : Object)
    → by_id u (xs ++ o ∷ [])
      ≡ elim (by_id u xs) [ none ↦ if eqb o.id u then some o else none | some x ↦ some x ]
unfolding by_id
by_id-append u [] o = refl
by_id-append u (x ∷ xs) o = ground (arith, by_id-append u xs o)

-- `p` is `u` itself, or stands above it in the chain of owners.
pub data Above (objects : List Object) : ℕ → ℕ → Type 0 where
  self : (u : ℕ) → Above objects u u
  up :
      {u p : ℕ} (o : Object)
      → by_id u objects ≡ some o
      → o.owner ≢ 0
      → Above objects o.owner p
      → Above objects u p

Above-append : (xs : List Object) (o : Object) {u p : ℕ} → Above xs u p → Above (xs ++ o ∷ []) u p
Above-append xs o (self u) = self u
Above-append xs o (up {u = u} {p = p} x e h a) =
    up x (by_id-append u xs o ∙ rw e) h (Above-append xs o a)

-- A user is an id that the mirror puts below itself. The mirror answers as the owners do.
pub record IsMirror (t : Tables) : Type 0 where
  pub positive : 0 < t.next_id
  pub ids : (u : ℕ) (o : Object) → by_id u t.objects ≡ some o → u < t.next_id
  pub users : (u p : ℕ) → mirrored u p t.powermirror ≡ true → u < t.next_id
  pub sound : (u p : ℕ) → mirrored u p t.powermirror ≡ true → u ≢ 0 → p ≢ 0 → Above t.objects u p
  pub closed :
      (u : ℕ) (o : Object)
      → mirrored u u t.powermirror ≡ true
      → by_id u t.objects ≡ some o
      → o.owner ≢ 0
      → mirrored o.owner o.owner t.powermirror ≡ true
  pub step :
      (u p : ℕ) (o : Object)
      → mirrored u u t.powermirror ≡ true
      → by_id u t.objects ≡ some o
      → o.owner ≢ 0
      → mirrored o.owner p t.powermirror ≡ true
      → mirrored u p t.powermirror ≡ true

-- The other direction of `sound`.
pub mirrored-Above :
    (t : Tables)
    → IsMirror t
    → {u p : ℕ} → mirrored u u t.powermirror ≡ true
    → Above t.objects u p
    → mirrored u p t.powermirror ≡ true
mirrored-Above t v h (self u) = h
mirrored-Above t v h (up {u = u} {p = p} o e k a) =
    v.step u p o h e k (mirrored-Above t v (v.closed u o h e k) a)

module _ (t : Tables) (o : Object) (v : IsMirror t) (id : o.id ≡ t.next_id) where
  -- The table with one object more.
  abbrev pub grown : Tables
  grown = record t { objects = t.objects ++ o ∷ []; next_id = suc t.next_id }

  old_id :
      (u : ℕ) (x : Object)
      → u < t.next_id
      → by_id u (t.objects ++ o ∷ []) ≡ some x
      → by_id u t.objects ≡ some x
  old_id u x h e = ground (arith, by_id-append u t.objects o)

  ids_grown : (u : ℕ) (x : Object) → by_id u (t.objects ++ o ∷ []) ≡ some x → u < suc t.next_id
  ids_grown u x e = elim (Option-cases (by_id u t.objects)) [
    | inl n ↦ ground (arith, by_id-append u t.objects o)
    | inr (y, s) ↦ omega (arith, v.ids u y s)
  ]

  -- An object that is no user.
  pub object-IsMirror : IsMirror grown
  object-IsMirror = record {
    positive = omega arith;
    ids = ids_grown;
    users = λ u p h. omega (arith, v.users u p h);
    sound = λ u p h k l. Above-append t.objects o (v.sound u p h k l);
    closed = λ u x h e k. v.closed u x h (old_id u x (v.users u u h) e) k;
    step = λ u p x h e k l. v.step u p x h (old_id u x (v.users u u h) e) k l;
  }

  -- A user that is made by the user who owns it.
  module _ (owned : o.owner ≢ 0) (by_user : mirrored o.owner o.owner t.powermirror ≡ true) where
    abbrev pub with_user : Tables
    with_user = record grown { powermirror = set_power_mirror t.next_id o.owner t.powermirror }

    law :
        (u p : ℕ)
        → mirrored u p with_user.powermirror ≡ (
            mirrored u p t.powermirror
            || (eqb t.next_id u
                && (eqb o.owner p || eqb t.next_id p || mirrored o.owner p t.powermirror)))
    law u p =
        mirrored-set_power_mirror u p t.next_id o.owner t.powermirror
          (omega (arith, v.users o.owner o.owner by_user))

    -- The rows of the new mirror.
    old_or_new :
        (u p : ℕ)
        → mirrored u p with_user.powermirror ≡ true
        → (mirrored u p t.powermirror ≡ true)
          ⊎ ((u ≡ t.next_id)
              × ((p ≡ o.owner) ⊎ (p ≡ t.next_id) ⊎ (mirrored o.owner p t.powermirror ≡ true)))
    old_or_new u p h = ground (arith, law u p)

    at_new : by_id t.next_id with_user.objects ≡ some o
    at_new = elim (Option-cases (by_id t.next_id t.objects)) [
      | inl n ↦ ground (arith, by_id-append t.next_id t.objects o)
      | inr (y, s) ↦ absurd (omega (arith, v.ids t.next_id y s))
    ]

    through_owner :
        (p : ℕ) → Above with_user.objects o.owner p → Above with_user.objects t.next_id p
    through_owner p a = up o at_new owned a

    sound_new :
        (u p : ℕ)
        → mirrored u p with_user.powermirror ≡ true
        → u ≢ 0
        → p ≢ 0
        → Above with_user.objects u p
    sound_new u p h k l = elim (old_or_new u p h) [
      | inl old ↦ Above-append t.objects o (v.sound u p old k l)
      | inr (e, inl own) ↦ rw (e, own) (through_owner o.owner (self o.owner))
      | inr (e, inr (inl me)) ↦ rw (e, me) (self t.next_id)
      | inr (e, inr (inr above)) ↦
          rw e (through_owner p (Above-append t.objects o (v.sound o.owner p above owned l)))
    ]

    closed_new :
        (u : ℕ) (x : Object)
        → mirrored u u with_user.powermirror ≡ true
        → by_id u with_user.objects ≡ some x
        → x.owner ≢ 0
        → mirrored x.owner x.owner with_user.powermirror ≡ true
    closed_new u x h e k = elim (old_or_new u u h) [
      | inl old ↦
          ground (arith, law x.owner x.owner, v.closed u x old (old_id u x (v.users u u old) e) k)
      | inr (n, w) ↦ ground (arith, law o.owner o.owner, at_new)
    ]

    step_new :
        (u p : ℕ) (x : Object)
        → mirrored u u with_user.powermirror ≡ true
        → by_id u with_user.objects ≡ some x
        → x.owner ≢ 0
        → mirrored x.owner p with_user.powermirror ≡ true
        → mirrored u p with_user.powermirror ≡ true
    step_new u p x h e k l = elim (old_or_new u u h) [
      | inl old ↦
          let f = old_id u x (v.users u u old) e in
          let g = v.closed u x old f k in
          ground (arith, law u p, law x.owner p, v.users x.owner x.owner g, v.step u p x old f k)
      | inr (n, w) ↦ ground (arith, law u p, law o.owner p, at_new)
    ]

    pub user-IsMirror : IsMirror with_user
    user-IsMirror = record {
      positive = omega arith;
      ids = ids_grown;
      users = λ u p h. elim (old_or_new u p h) [
        | inl old ↦ omega (arith, v.users u p old)
        | inr (n, w) ↦ omega arith
      ];
      sound = sound_new;
      closed = closed_new;
      step = step_new;
    }
