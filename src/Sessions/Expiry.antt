-- ===== src/Sessions/Expiry.antt =====
-- SessionDB::expire against a filter, and the sessions that it leaves alone.
use mathlib.Core.List.{append_assoc}
use mathlib.Core.Option
use openpanel_opencore.Prelude.{
  ℕ, ◌+◌, String, Bool, ◌≡◌, refl, true, false, not, ◌||◌, is_zero, leb, inl, inr, Option, none,
  some, List, [], ◌∷◌, ◌++◌, arith, eq_iff, sym, ◌∙◌, ap, length, if◌then◌else◌, Bool-cases,
}
use openpanel_opencore.Sessions.Store.{
  Session, deref, has, Distinct, has-append, Distinct-middle, unlink_middle, deref-has,
}
use openpanel_opencore.Sessions.Invariant.{IsIndexed, remove-IsIndexed, get-IsIndexed}
use openpanel_opencore.Sessions.Usage.{deref-get}
use openpanel_opencore.Sessions.{Host, SessionDb, keep, stale, get, remove, expire_loop, expire}

module _ {V D : Type 0} where
  -- In use, or heard of in the last 600 seconds.
  abbrev pub is_recent : ℕ → Session V D → Bool
  is_recent now s = not (is_zero s.inuse) || leb now (s.heartbeat + 600)

  is_recent-stale : (now : ℕ) (s : Session V D) → is_recent now s ≡ not (stale now s)
  unfolding stale
  is_recent-stale now s = ground arith

  pub fresh : ℕ → List (Session V D) → List (Session V D)
  fresh now [] = []
  fresh now (s ∷ rest) = if is_recent now s then s ∷ fresh now rest else fresh now rest

  -- What is left of one session.
  abbrev pub if_recent : ℕ → Option (Session V D) → Option (Session V D)
  if_recent now none = none
  if_recent now (some s) = if is_recent now s then some s else none

  has-fresh :
      (now : ℕ) (id : String) (xs : List (Session V D))
      → has id xs ≡ false
      → has id (fresh now xs) ≡ false
  unfolding fresh
  has-fresh now id [] h = refl
  has-fresh now id (s ∷ xs) h = ground (arith, has-fresh now id xs)

  deref-fresh :
      (now : ℕ) (id : String) (xs : List (Session V D))
      → Distinct xs
      → deref id (fresh now xs) ≡ if_recent now (deref id xs)
  unfolding fresh
  deref-fresh now id [] d = refl
  deref-fresh now id (s ∷ xs) d = ground (
    arith,
    deref-fresh now id xs d.1,
    has-fresh now s.id xs d.0,
    deref-has id (fresh now xs),
    eq_iff s.id id,
  )

module _ {V D : Type 0} (host : Host V D) where
  remove_middle :
      (xs ys : List (Session V D)) (s : Session V D) (db : SessionDb V D)
      → IsIndexed host db
      → db.sessions ≡ xs ++ s ∷ ys
      → (remove host s.id db).sessions ≡ xs ++ ys
  unfolding remove
  remove_middle xs ys s db v e = ground (
    arith,
    v.indexed s.id,
    has-append s.id xs (s ∷ ys),
    eq_iff s.id s.id,
    unlink_middle xs ys s (Distinct-middle xs ys s (rw e at v.distinct)),
  )

  -- The loop, from a point where `xs` has been passed and `todo` remains.
  expire_loop-fresh :
      (now : ℕ) (xs todo : List (Session V D)) (db : SessionDb V D) (n : ℕ)
      → IsIndexed host db
      → db.sessions ≡ xs ++ todo
      → ((expire_loop host now todo db n).0.sessions ≡ xs ++ fresh now todo)
        × ((expire_loop host now todo db n).1 + length (fresh now todo) ≡ n + length todo)
  unfolding expire_loop fresh
  expire_loop-fresh now xs [] db n v e = (e, refl)
  expire_loop-fresh now xs (s ∷ todo) db n v e = elim (Bool-cases (stale now s)) [
    | inl old ↦
        let gone : is_recent now s ≡ false = is_recent-stale now s ∙ rw old refl in
        let (a, b) =
          expire_loop-fresh now xs todo (remove host s.id db) (n + 1)
            (remove-IsIndexed host s.id db v) (remove_middle xs todo s db v e) in
        (
          rw (old, gone, expire_loop, fresh) a,
          rw (old, gone, expire_loop, fresh) (omega (arith, b)),
        )
    | inr new ↦
        let kept : is_recent now s ≡ true = is_recent-stale now s ∙ rw new refl in
        let (a, b) =
          expire_loop-fresh now (xs ++ s ∷ []) todo db n v
            (e ∙ sym (append_assoc xs (s ∷ []) todo)) in
        (
          rw (new, kept, expire_loop, fresh) (a ∙ append_assoc xs (s ∷ []) (fresh now todo)),
          rw (new, kept, expire_loop, fresh) (omega (arith, b)),
        )
  ]

  -- On an indexed database, where no other call comes in between its removals, `expire` leaves exactly the sessions that are in use or were heard of in
  -- the last 600 seconds, in their order, and returns how many it took out.
  pub expire-fresh :
      (now : ℕ) (db : SessionDb V D)
      → IsIndexed host db
      → ((expire host now db).0.sessions ≡ fresh now db.sessions)
        × ((expire host now db).1 + length (fresh now db.sessions) ≡ length db.sessions)
  unfolding expire
  expire-fresh now db v =
      let (a, b) = expire_loop-fresh now [] db.sessions db 0 v refl in (a, omega (arith, b))

  -- What a client of an indexed database finds after a sweep.
  deref-expire :
      (now : ℕ) (id : String) (db : SessionDb V D)
      → IsIndexed host db
      → deref id (expire host now db).0.sessions ≡ if_recent now (deref id db.sessions)
  deref-expire now id db v =
      ap (deref id) (expire-fresh now db v).0 ∙ deref-fresh now id db.sessions v.distinct

  if_recent-keep :
      (now : ℕ) (o : Option (Session V D)) → if_recent now (Option.map keep o) ≡ Option.map keep o
  unfolding keep
  if_recent-keep now none = refl
  if_recent-keep now (some s) = ground arith

  -- A session that `get` has handed out is still there, unchanged but for the claim, after the next
  -- sweep of `expire`, however late that starts, if no other call comes in between its removals; one that is
  -- not there is not made up.
  pub get_survives_expire :
      (now : ℕ) (id : String) (db : SessionDb V D)
      → IsIndexed host db
      → deref id (expire host now (get host id db).1).0.sessions
        ≡ Option.map keep (deref id db.sessions)
  get_survives_expire now id db v =
      deref-expire now id (get host id db).1 (get-IsIndexed host id db v)
      ∙ rw (deref-get host id db v) (if_recent-keep now (deref id db.sessions))
