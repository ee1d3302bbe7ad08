-- ===== src/Sessions/Store.antt =====
-- The sessions that SessionDB owns (session.h, class CoreSession), in the order of its doubly linked
-- list from `first` to `last`. A pointer to a session is the session's identifier, and the neighbours
-- of an entry are its `prev` and `next`.
use mathlib.Core.Option
use openpanel_opencore.Prelude.{
  ℕ, String, ◌≡◌, refl, Bool, false, ◌||◌, Option, none, some, List, [], ◌∷◌, ◌++◌, arith, ◌==◌,
  eq_iff, if◌then◌else◌,
}

-- The data of one session. `V` is grace's `value`, and `D` the state of the session's DBManager.
pub record Session (V D : Type 0) : Type 0 where
  pub id : String
  pub meta : V
  pub errors : V
  pub quotamap : V
  pub heartbeat : ℕ
  pub inuse : ℕ
  pub db : D

module _ {V D : Type 0} where
  -- The session that a pointer leads to.
  abbrev pub deref : String → List (Session V D) → Option (Session V D)
  deref id [] = none
  deref id (s ∷ rest) = if s.id == id then some s else deref id rest

  abbrev pub has : String → List (Session V D) → Bool
  has id [] = false
  has id (s ∷ rest) = s.id == id || has id rest

  -- A write through a pointer.
  abbrev pub modify : String → (Session V D → Session V D) → List (Session V D) → List (Session V D)
  modify id f [] = []
  modify id f (s ∷ rest) = if s.id == id then f s ∷ rest else s ∷ modify id f rest

  -- The four cases of SessionDB::remove that join the two neighbours.
  abbrev pub unlink : String → List (Session V D) → List (Session V D)
  unlink id [] = []
  unlink id (s ∷ rest) = if s.id == id then rest else s ∷ unlink id rest

  -- No two sessions have one identifier.
  abbrev pub Distinct : List (Session V D) → Type 0
  Distinct [] = Unit
  Distinct (s ∷ rest) = (has s.id rest ≡ false) × Distinct rest

  pub has-append :
      (id : String) (xs ys : List (Session V D)) → has id (xs ++ ys) ≡ (has id xs || has id ys)
  has-append id [] ys = refl
  has-append id (s ∷ xs) ys = ground (arith, has-append id xs ys)

  pub has-modify :
      (id j : String) (f : Session V D → Session V D) (xs : List (Session V D))
      → ((s : Session V D) → (f s).id ≡ s.id)
      → has j (modify id f xs) ≡ has j xs
  has-modify id j f [] h = refl
  has-modify id j f (s ∷ xs) h = ground (arith, h s, has-modify id j f xs h)

  pub has-unlink :
      (id j : String) (xs : List (Session V D))
      → Distinct xs
      → has j (unlink id xs) ≡ (if id == j then false else has j xs)
  has-unlink id j [] d = ground arith
  has-unlink id j (s ∷ xs) d =
      ground (arith, has-unlink id j xs d.1, eq_iff s.id id, eq_iff s.id j, eq_iff id j)

  pub deref-modify :
      (id j : String) (f : Session V D → Session V D) (xs : List (Session V D))
      → ((s : Session V D) → (f s).id ≡ s.id)
      → deref j (modify id f xs) ≡ (if id == j then Option.map f (deref j xs) else deref j xs)
  deref-modify id j f [] h = ground arith
  deref-modify id j f (s ∷ xs) h =
      ground (arith, h s, deref-modify id j f xs h, eq_iff s.id id, eq_iff s.id j, eq_iff id j)

  pub deref-append :
      (j : String) (xs ys : List (Session V D))
      → deref j (xs ++ ys) ≡ (if has j xs then deref j xs else deref j ys)
  deref-append j [] ys = refl
  deref-append j (s ∷ xs) ys = ground (arith, deref-append j xs ys)

  pub deref-has : (j : String) (xs : List (Session V D)) → has j xs ≡ false → deref j xs ≡ none
  deref-has j [] h = refl
  deref-has j (s ∷ xs) h = ground (arith, deref-has j xs)

  pub deref-unlink :
      (id j : String) (xs : List (Session V D))
      → Distinct xs
      → deref j (unlink id xs) ≡ (if id == j then none else deref j xs)
  deref-unlink id j [] d = ground arith
  deref-unlink id j (s ∷ xs) d = ground (
    arith,
    deref-unlink id j xs d.1,
    deref-has s.id xs d.0,
    eq_iff s.id id,
    eq_iff s.id j,
    eq_iff id j,
  )

  pub Distinct-modify :
      (id : String) (f : Session V D → Session V D) (xs : List (Session V D))
      → ((s : Session V D) → (f s).id ≡ s.id)
      → Distinct xs
      → Distinct (modify id f xs)
  Distinct-modify id f [] h d = tt
  Distinct-modify id f (s ∷ xs) h d =
      ground (arith, h s, has-modify id s.id f xs h, Distinct-modify id f xs h d.1)

  pub Distinct-unlink :
      (id : String) (xs : List (Session V D)) → Distinct xs → Distinct (unlink id xs)
  Distinct-unlink id [] d = tt
  Distinct-unlink id (s ∷ xs) d =
      ground (arith, has-unlink id s.id xs d.1, Distinct-unlink id xs d.1)

  pub Distinct-append :
      (xs : List (Session V D)) (s : Session V D)
      → Distinct xs
      → has s.id xs ≡ false
      → Distinct (xs ++ s ∷ [])
  Distinct-append [] s d h = (refl, tt)
  Distinct-append (x ∷ xs) s d h = ground (
    arith,
    has-append x.id xs (s ∷ []),
    Distinct-append xs s d.1,
    eq_iff x.id s.id,
    eq_iff s.id x.id,
  )

  pub has-deref : (j : String) (xs : List (Session V D)) → deref j xs ≡ none → has j xs ≡ false
  has-deref j [] h = refl
  has-deref j (s ∷ xs) h = ground (arith, has-deref j xs)

  pub Distinct-middle :
      (xs ys : List (Session V D)) (s : Session V D) → Distinct (xs ++ s ∷ ys) → has s.id xs ≡ false
  Distinct-middle [] ys s d = refl
  Distinct-middle (x ∷ xs) ys s d = ground (
    arith,
    has-append x.id xs (s ∷ ys),
    Distinct-middle xs ys s d.1,
    eq_iff x.id s.id,
    eq_iff s.id s.id,
  )

  pub unlink_middle :
      (xs ys : List (Session V D)) (s : Session V D)
      → has s.id xs ≡ false
      → unlink s.id (xs ++ s ∷ ys) ≡ xs ++ ys
  unlink_middle [] ys s h = ground (arith, eq_iff s.id s.id)
  unlink_middle (x ∷ xs) ys s h = ground (arith, unlink_middle xs ys s)

  pub modify_last :
      (id : String) (f : Session V D → Session V D) (xs : List (Session V D)) (s : Session V D)
      → s.id ≡ id
      → has id xs ≡ false
      → modify id f (xs ++ s ∷ []) ≡ xs ++ f s ∷ []
  modify_last id f [] s e h = ground (arith, eq_iff s.id id)
  modify_last id f (x ∷ xs) s e h = ground (arith, modify_last id f xs s e)
