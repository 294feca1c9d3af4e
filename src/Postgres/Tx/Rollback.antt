-- ===== src/Postgres/Tx/Rollback.antt =====
-- A transaction that fails leaves outside it what was there.
use comments_service.Prelude.{
  ◌≡◌, refl, subst, ap, ◌∙◌, ◌⊎◌, inl, inr, Bool, true, false, Option, some, Option-cases,
}
use comments_service.Go.Text.{ascii}
use comments_service.Domain.Errors.{Error, operation, Result, ok, err, Result-cases}
use comments_service.Domain.Ids.{UuidText}
use comments_service.Application.Tx.{
  InTx, Context, AfterCommitAction, with_registry, after_commit, from_context, ◌>>=◌, ◌>>◌, pure,
  lift, call, draw, check,
}
use comments_service.Postgres.Sql.{Query, Command}
use comments_service.Postgres.Database.{in_pool, in_tx, Database, IsSql}
use comments_service.Postgres.Tx.{
  Session, with_tx, tx_from_context, committed, finish, run_in, within_tx, on_db, drawn,
}

-- What of the world no statement of an open transaction changes, and no rollback.
pub record IsKept {Tx W V : Type 0} (db : Database Tx W) (view : W → V) : Type 0 where
  pub by_begin_tx : (w : W) → view (db.begin_tx w).1 ≡ view w
  pub by_rollback : (tx : Tx) (w : W) → view (db.rollback tx w).1 ≡ view w
  pub by_exec : (tx : Tx) (c : Command) (w : W) → view (db.exec (in_tx tx) c w).1 ≡ view w
  pub by_query : (tx : Tx) (q : Query) (w : W) → view (db.query (in_tx tx) q w).1 ≡ view w
  pub by_query_row : (tx : Tx) (q : Query) (w : W) → view (db.query_row (in_tx tx) q w).1 ≡ view w

-- The tables that others see are kept.
pub tables-IsKept :
    {Tx W : Type 0} (db : Database Tx W) ⦃uuid : UuidText⦄ (sql : IsSql db)
    → IsKept db (sql.tables in_pool)
tables-IsKept db sql = record {
  by_begin_tx = sql.begin_tx_isolated;
  by_rollback = sql.rollback_isolated;
  by_exec = sql.exec_isolated;
  by_query = λ tx q w. sql.query-reads (in_tx tx) in_pool q w;
  by_query_row = λ tx q w. sql.query_row-reads (in_tx tx) in_pool q w;
}

after_commit_world :
    {S : Type 0} (action : AfterCommitAction S) (ctx : Context S)
    → (after_commit action ctx).1.world ≡ ctx.world
unfolding after_commit from_context
after_commit_world action ctx = elim (Option-cases ctx.registry) [
  | inl e ↦ rw (after_commit, from_context, e) refl
  | inr (r, e) ↦ rw (after_commit, from_context, e) refl
]

module _ {Tx W V : Type 0} (view : W → V) where
  -- What is left has the same transaction and the same view.
  abbrev pub Stays : Session Tx W → Session Tx W → Type 0
  Stays s left = (left.tx ≡ s.tx) × (view left.world ≡ view s.world)

  -- Inside a transaction, the function keeps the view.
  abbrev pub Confined : {A : Type 0} → InTx (Session Tx W) A → Type 0
  Confined fn =
      (ctx : Context (Session Tx W)) (tx : Tx)
      → ctx.world.tx ≡ some tx
      → Stays ctx.world (fn ctx).1.world

  module _ {A : Type 0} where
    pub pure-Confined : (a : A) → Confined (pure a)
    pure-Confined a ctx tx h = (refl, refl)

    pub lift-Confined : (r : Result A) → Confined (lift r)
    lift-Confined r ctx tx h = (refl, refl)

    pub draw-Confined :
        (f : W → A × W) → ((w : W) → view (f w).1 ≡ view w) → Confined (draw (drawn f))
    draw-Confined f kept ctx tx h = (refl, kept ctx.world.world)

    pub call-Confined :
        (f : Option Tx → W → Result A × W)
        → ((tx : Tx) (w : W) → view (f (some tx) w).1 ≡ view w)
        → Confined (call (on_db f))
    unfolding tx_from_context
    call-Confined f kept ctx tx h = (refl, rw h (kept tx ctx.world.world))

  pub check-Confined : (b : Bool) (e : Error) → Confined (check b e)
  check-Confined true e ctx tx h = (refl, refl)
  check-Confined false e ctx tx h = (refl, refl)

  pub after_commit-Confined :
      (action : AfterCommitAction (Session Tx W)) → Confined (after_commit action)
  after_commit-Confined action ctx tx h =
      let same = after_commit_world action ctx in (ap (λ s. s.tx) same, ap (λ s. view s.world) same)

  pub bind-Confined :
      {A B : Type 0} (m : InTx (Session Tx W) A) (f : A → InTx (Session Tx W) B)
      → Confined m
      → ((a : A) → Confined (f a))
      → Confined (m >>= f)
  bind-Confined m f first later ctx tx h = elim (Result-cases (m ctx).0) [
    | inr (e, failed) ↦ rw failed (first ctx tx h)
    | inl (a, fine) ↦
        let (same_tx, same) = first ctx tx h in
        let (same_tx', same') = later a (m ctx).1 tx (same_tx ∙ h) in
        rw fine (same_tx' ∙ same_tx, same' ∙ same)
  ]

  -- The steps of a do block, each before the rest `f`.
  module _ {A B : Type 0} (f : A → InTx (Session Tx W) B) (later : (a : A) → Confined (f a)) where
    pub lift_bind : (r : Result A) → Confined (lift r >>= f)
    lift_bind r = bind-Confined (lift r) f (lift-Confined r) later

    pub call_bind :
        (g : Option Tx → W → Result A × W)
        → ((tx : Tx) (w : W) → view (g (some tx) w).1 ≡ view w)
        → Confined (call (on_db g) >>= f)
    call_bind g kept = bind-Confined (call (on_db g)) f (call-Confined g kept) later

  pub check_bind :
      {B : Type 0} (f : InTx (Session Tx W) B) (b : Bool) (e : Error)
      → Confined f
      → Confined (check b e >> f)
  check_bind f b e later =
      bind-Confined (check b e) (λ done. f) (check-Confined b e) (λ done. later)

-- The error that a failing commit gives.
abbrev pub IsCommitError : Error → Type 0
IsCommitError e = (cause : Error) × (e ≡ operation (ascii "commit postgres transaction") cause)

module _ {Tx W V : Type 0} (db : Database Tx W) (view : W → V) (kept : IsKept db view) where
  -- What an error leaves, seen from the session before.
  abbrev Undone : {A : Type 0} → Session Tx W → Result A × Session Tx W → Type 0
  Undone s (ok a, left) = Unit
  Undone s (err e, left) = Stays view s left ⊎ IsCommitError e

  committed-Undone :
      {A : Type 0} (s : Session Tx W) (done : Result (Unit {0})) (a : A)
      (ctx : Context (Session Tx W))
      → Undone s (committed db done a ctx)
  unfolding committed
  committed-Undone s (ok done) a ctx = tt
  committed-Undone s (err e) a ctx = inr (e, refl)

  finish-Undone :
      {A : Type 0} (s : Session Tx W) (tx : Tx) (r : Result A) (ctx : Context (Session Tx W))
      → view ctx.world.world ≡ view s.world
      → Undone s (finish db s.tx tx r ctx)
  unfolding finish
  finish-Undone s tx (err e) ctx same = inl (refl, kept.by_rollback tx ctx.world.world ∙ same)
  finish-Undone s tx (ok a) ctx same =
      committed-Undone s (db.commit tx ctx.world.world).0 a
        (record ctx { world = record { world = (db.commit tx ctx.world.world).1; tx = s.tx } })

  run_in-Undone :
      {A : Type 0} (fn : InTx (Session Tx W) A) (begun : Result Tx) (s : Session Tx W)
      → Confined view fn
      → Undone s (run_in db begun fn s)
  unfolding run_in with_tx with_registry
  run_in-Undone fn (err e) s confined = inl (refl, refl)
  run_in-Undone fn (ok tx) s confined =
      let (same_tx, same) = confined (with_registry (with_tx tx s)) tx refl in
      let (r, ctx) = fn (with_registry (with_tx tx s)) in finish-Undone s tx r ctx same

  -- If a function keeps `view` inside its transaction and WithinTx of it returns an error, then `view` shows
  -- what it showed before, and the context carries the transaction that it carried before, unless it is the
  -- commit that has failed. This holds of any view of the world that no statement of an open transaction
  -- and no rollback changes.
  pub within_tx-rolled_back :
      {A : Type 0} (fn : InTx (Session Tx W) A) (s s' : Session Tx W) (e : Error)
      → Confined view fn
      → within_tx db fn s ≡ (err e, s')
      → Stays view s s' ⊎ IsCommitError e
  unfolding within_tx
  within_tx-rolled_back fn s s' e confined h =
      let (begun, left) = db.begin_tx s.world in
      let at_start = kept.by_begin_tx s.world in
      elim (subst (Undone (record s { world = left })) h
        (run_in-Undone fn begun (record s { world = left }) confined)) [
          | inl (same_tx, same) ↦ inl (same_tx, same ∙ at_start)
          | inr failed ↦ inr failed
        ]
