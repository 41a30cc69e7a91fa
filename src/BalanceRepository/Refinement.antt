-- ===== src/BalanceRepository/Refinement.antt =====
-- `upsert` refines the observation of a balance: it stores it if it is new, and else keeps the later.
use blockchain_transaction_s.Prelude.{
  ◌≤◌, ◌≡◌, refl, sym, ◌∙◌, true, false, ◌&&◌, not, List, [], ◌∷◌, Option, none, some, eq_refl, ltb,
  inl, inr, count_where, arith, Bool-cases, subst,
}
use blockchain_transaction_s.Effects.{
  Result, ok, err, Process, Action, pure, ◌>>=◌, ◌>>◌, catch_error, known_request,
}
use blockchain_transaction_s.Schema.{World, BalanceSnapshot}
use blockchain_transaction_s.Prisma.{Prisma, IsPrisma}
use blockchain_transaction_s.Prisma.Tables.{
  count_mono, count-update_where, count_le-update_where, count_split, update_where-none,
}
use blockchain_transaction_s.BalanceRepository.{
  BalanceData, IsSnapshotTable, is_older, observed, new_snapshot, create_snapshot, on_create_error,
  after_update, upsert,
}
use blockchain_transaction_s.BalanceRepository.Latest.{
  Observation, View, later, observe, observe_all, shows, Holds, Represents, quiet, key, updated,
  update_older-quiet, known, Represents-observe, Upserted, reread-Upserted, updated-LeavesOthers,
}

module _ (prisma : Prisma) (laws : IsPrisma prisma) (unique : IsSnapshotTable prisma)
    (d : BalanceData) (w : World) (view : View) (represents : Represents w view) where
  -- The update comes first.
  upsert_unfold :
      (o : Result BalanceSnapshot × Process World)
      → after_update prisma d (count_where (is_older d) w.balance_snapshots) (quiet (updated d w))
        ≡ o
      → upsert prisma d (quiet w) ≡ o
  unfolding upsert ◌>>=◌
  upsert_unfold o e = rw (update_older-quiet prisma laws unique d w) e

  -- Nothing is older: the table is as it was.
  unchanged : count_where (is_older d) w.balance_snapshots ≡ 0 → updated d w ≡ w
  unchanged nothing =
      rw (update_where-none (is_older d) (observed d w) w.balance_snapshots nothing) refl

  no_older :
      (o : Observation)
      → Holds (key d) (some o) w.balance_snapshots
      → ltb o.block_number d.block_number ≡ false
      → count_where (is_older d) w.balance_snapshots ≡ 0
  no_older o holds stale =
      let le =
        count_mono (is_older d) (λ s. key d s && not (shows o s)) w.balance_snapshots
          (λ s older. ground arith) in
      omega (arith, le, holds.1)

  all_older :
      (o : Observation)
      → Holds (key d) (some o) w.balance_snapshots
      → ltb o.block_number d.block_number ≡ true
      → count_where (is_older d) w.balance_snapshots ≡ 1
  all_older o holds newer =
      let split =
        count_split (key d) (λ s. ltb s.block_number d.block_number) w.balance_snapshots in
      let le =
        count_mono (λ s. key d s && not (ltb s.block_number d.block_number))
          (λ s. key d s && not (shows o s)) w.balance_snapshots
          (λ s not_older. ground (arith, newer)) in
      omega (arith, split, le, holds.0, holds.1)

  -- After the update of the stored row, it shows the observation.
  updated-Holds :
      count_where (key d) w.balance_snapshots ≡ 1
      → count_where (is_older d) w.balance_snapshots ≡ 1
      → Holds (key d) (some (later d none)) (updated d w).balance_snapshots
  updated-Holds one older =
      let same =
        count-update_where (key d) (is_older d) (observed d w) w.balance_snapshots (λ s h. refl) in
      let split = count_split (key d) (shows (later d none)) (updated d w).balance_snapshots in
      let shown =
        count_le-update_where (λ s. key d s && shows (later d none) s) (is_older d) (observed d w)
          w.balance_snapshots (λ s h. ground arith) in
      (same ∙ one, omega (arith, same, split, shown, one, older))

  -- A later observation replaces the one that is stored.
  upsert-newer :
      (o : Observation)
      → known d view ≡ some o
      → Holds (key d) (some o) w.balance_snapshots
      → ltb o.block_number d.block_number ≡ true
      → Upserted d view (upsert prisma d (quiet w))
  unfolding after_update
  upsert-newer o is_known holds newer =
      let older = all_older o holds newer in
      subst (Upserted d view) (sym (upsert_unfold _ (rw older refl))) (
        reread-Upserted prisma laws unique d w view (updated d w) represents
          (updated-LeavesOthers prisma laws unique d w view)
          (rw is_known (rw newer (updated-Holds holds.0 older))))

  create_refused :
      1 ≤ count_where (key d) w.balance_snapshots
      → create_snapshot prisma d w ≡ (err (known_request "P2002" prisma.unique_violated), w)
  unfolding create_snapshot
  create_refused somebody =
      rw
        (
          unique.create_unique (new_snapshot prisma d w) w.balance_snapshots somebody,
          create_snapshot,
        )
        refl

  -- An observation that is not later is dropped, and the stored one is read.
  upsert-stale :
      (o : Observation)
      → known d view ≡ some o
      → Holds (key d) (some o) w.balance_snapshots
      → ltb o.block_number d.block_number ≡ false
      → Upserted d view (upsert prisma d (quiet w))
  unfolding after_update on_create_error catch_error
  upsert-stale o is_known holds stale =
      let nothing = no_older o holds stale in
      let refused = create_refused (omega (arith, holds.0)) in
      subst (Upserted d view)
        (sym (upsert_unfold _ (rw nothing (rw (unchanged nothing) (rw refused refl)))))
        (reread-Upserted prisma laws unique d w view w represents (λ q others. refl)
          (rw is_known (rw stale holds)))

  create_done :
      (rows : List BalanceSnapshot)
      → prisma.balance_snapshot.create (new_snapshot prisma d w) w.balance_snapshots ≡ some rows
      → create_snapshot prisma d w
        ≡ (ok (new_snapshot prisma d w), record w { balance_snapshots = rows })
  unfolding create_snapshot
  create_done rows created = rw (created, create_snapshot) refl

  -- The first observation of a wallet and a token is added.
  upsert-first :
      known d view ≡ none
      → count_where (key d) w.balance_snapshots ≡ 0
      → Upserted d view (upsert prisma d (quiet w))
  unfolding after_update catch_error
  upsert-first is_known nobody =
      let nothing : count_where (is_older d) w.balance_snapshots ≡ 0 = omega (
        arith,
        nobody,
        count_mono (is_older d) (key d) w.balance_snapshots (λ s h. ground arith),
      ) in
      let s = new_snapshot prisma d w in
      let (rows, created) = unique.create_free d w nobody in
      let counts = laws.balance_snapshot_lem.create_lem s w.balance_snapshots rows created in
      let v = record w { balance_snapshots = rows } in
      let here : key d s ≡ true = rw (eq_refl d.wallet_id) (rw (eq_refl d.token_id) refl) in
      let shown : shows (later d none) s ≡ true = ground arith in
      let none_other =
        count_mono (λ s. key d s && not (shows (later d none) s)) (key d) w.balance_snapshots
          (λ s h. ground arith) in
      subst (Upserted d view)
        (sym (
          upsert_unfold _
            (rw nothing (rw (unchanged nothing) (rw (create_done rows created) refl)))))
        (
          s,
          v,
          refl,
          rw is_known shown,
          Represents-observe prisma laws unique d w view v represents
              (λ q others. counts q ∙ rw (others s here) (omega arith))
              (rw is_known (
                counts (key d) ∙ rw here (rw nobody refl),
                counts (λ s. key d s && not (shows (later d none) s))
                    ∙ rw here (rw shown (omega (arith, none_other, nobody))),
              )),
        )

  -- One `upsert`, whatever is known.
  upsert-Upserted : Upserted d view (upsert prisma d (quiet w))
  upsert-Upserted = go (view d.wallet_id d.token_id) refl (represents d.wallet_id d.token_id)
    where
      go :
          (o : Option Observation)
          → known d view ≡ o
          → Holds (key d) o w.balance_snapshots
          → Upserted d view (upsert prisma d (quiet w))
      go none e holds = upsert-first e holds
      go (some o) e holds = elim (Bool-cases (ltb o.block_number d.block_number)) [
        | inl newer ↦ upsert-newer o e holds newer
        | inr stale ↦ upsert-stale o e holds stale
      ]

-- The observations of a history, recorded one after the other.
abbrev pub upsert_all : Prisma → List BalanceData → Action World (Unit {0})
upsert_all prisma [] = pure tt
upsert_all prisma (d ∷ ds) = upsert prisma d >> upsert_all prisma ds

-- If the table of the snapshots keeps its unique constraints, and represents what is known of every
-- wallet and token (no row where nothing is known, and else one row, with the balance and the block
-- that are known), then recording any sequence of observations, with nobody else acting and no call
-- lost, returns, and the table then represents what the sequence of observations makes known: of each
-- wallet and token the first observation that has the greatest block number.
pub upsert_all-Represents :
    (prisma : Prisma)
    → IsPrisma prisma
    → IsSnapshotTable prisma
    → (ds : List BalanceData) (w : World) (view : View) → Represents w view
    → (v : World) × (upsert_all prisma ds (quiet w) ≡ (ok tt, quiet v))
      × Represents v (observe_all ds view)
unfolding ◌>>=◌
upsert_all-Represents prisma laws unique [] w view represents = (w, refl, represents)
upsert_all-Represents prisma laws unique (d ∷ ds) w view represents =
    let (s, v, ran, shown, after) = upsert-Upserted prisma laws unique d w view represents in
    rw ran (upsert_all-Represents prisma laws unique ds v (observe d view) after)

-- If the table keeps its unique constraints and represents what is known of every wallet and token,
-- then an `upsert` among nobody else, of which no call is lost, returns the snapshot that shows the
-- later of the stored observation and the given one, where the stored one is kept if their blocks are
-- the same, and the table represents what is known afterwards.
pub upsert-later :
    (prisma : Prisma)
    → IsPrisma prisma
    → IsSnapshotTable prisma
    → (d : BalanceData) (w : World) (view : View) → Represents w view
    → Upserted d view (upsert prisma d (quiet w))
upsert-later = upsert-Upserted
