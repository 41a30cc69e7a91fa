-- ===== src/BalanceRepository/Newer.antt =====
-- Among other workers, no snapshot moves back to an older block or changes within its block.
use blockchain_transaction_s.Prelude.{
  ℕ, ◌≤◌, ◌<◌, ◌≡◌, refl, sym, String, Bool, true, false, ◌&&◌, ◌||◌, not, List, ◌∷◌, some, eq_iff,
  ◌==◌, ltb, inl, inr, count_where, arith, Bool-cases, Option-cases, find, ◌⊎◌, subst,
}
use blockchain_transaction_s.Effects.{Process, call}
use blockchain_transaction_s.Effects.Rely.{IsRely, Benign}
use blockchain_transaction_s.Effects.Keeps.{
  Keeps, Keeps-bind, Keeps-call, Keeps-read, Keeps-catch, Keeps-if, Keeps-raise, Keeps-or_raise,
}
use blockchain_transaction_s.Schema.{World, BalanceSnapshot}
use blockchain_transaction_s.Prisma.{Prisma, IsPrisma}
use blockchain_transaction_s.Prisma.Tables.{
  count-update_where, count_kept-update_where, find-count, find_passes, count-find, count_split,
}
use blockchain_transaction_s.BalanceRepository.{
  BalanceData, IsSnapshotTable, of_wallet_token, is_older, observed, is_unique_violation,
  find as find_snapshot, find_unique_or_throw, update_older, new_snapshot, create_snapshot,
  on_create_error, after_update, upsert,
}

-- A snapshot shows a block and balance, or those of a later block.
abbrev pub is_at_least : ℕ → ℕ → BalanceSnapshot → Bool
is_at_least balance block s =
    ltb block s.block_number || (s.block_number == block && s.balance == balance)

-- What every step keeps to: of the snapshots of a wallet and token that show at least some state of
-- the chain, none is lost, and no second snapshot of a wallet and token appears.
pub record NeverOlder (u v : World) : Type 0 where
  pub kept :
      (wallet_id token_id : String) (balance block : ℕ)
      → count_where
          (λ s. of_wallet_token wallet_id token_id s && is_at_least balance block s)
          u.balance_snapshots
        ≤ count_where
            (λ s. of_wallet_token wallet_id token_id s && is_at_least balance block s)
            v.balance_snapshots
  pub one :
      (wallet_id token_id : String)
      → count_where (of_wallet_token wallet_id token_id) u.balance_snapshots ≤ 1
      → count_where (of_wallet_token wallet_id token_id) v.balance_snapshots ≤ 1

pub NeverOlder-rely : IsRely NeverOlder
NeverOlder-rely = record {
  same = λ w. record { kept = λ a b x n. omega arith; one = λ a b h. h };
  chain = λ u v w f g. record {
    kept = λ a b x n. omega (arith, f.kept a b x n, g.kept a b x n);
    one = λ a b h. g.one a b (f.one a b h);
  };
}

-- A snapshot that was found has a successor that shows at least as much.
pub find-NeverOlder :
    (u v : World) (wallet_id token_id : String) (s : BalanceSnapshot)
    → NeverOlder u v
    → count_where (of_wallet_token wallet_id token_id) u.balance_snapshots ≤ 1
    → find (of_wallet_token wallet_id token_id) u.balance_snapshots ≡ some s
    → (s' : BalanceSnapshot) × (find (of_wallet_token wallet_id token_id) v.balance_snapshots
        ≡ some s')
      × ((s.block_number < s'.block_number)
          ⊎ ((s'.block_number ≡ s.block_number) × (s'.balance ≡ s.balance)))
find-NeverOlder u v wallet_id token_id s newer single found =
    let there =
      find-count key (λ x. key x && above x) u.balance_snapshots s found
        (rw (find_passes key u.balance_snapshots s found) (ground arith)) in
    let kept = newer.kept wallet_id token_id s.balance s.block_number in
    let split = count_split key above v.balance_snapshots in
    let (s', found') = count-find key v.balance_snapshots (omega (arith, there, kept, split)) in
    elim (Bool-cases (above s')) [
      | inl shown ↦ (s', found', ground arith)
      | inr lost ↦
          let other =
            find-count key (λ x. key x && not (above x)) v.balance_snapshots s' found'
              (rw (find_passes key v.balance_snapshots s' found') (rw lost refl)) in
          absurd (omega (arith, there, kept, split, other, newer.one wallet_id token_id single))
    ]
  where
    key : BalanceSnapshot → Bool
    key = of_wallet_token wallet_id token_id

    above : BalanceSnapshot → Bool
    above = is_at_least s.balance s.block_number

module _ (prisma : Prisma) (laws : IsPrisma prisma) (unique : IsSnapshotTable prisma)
    (d : BalanceData) where
  update_older-NeverOlder : (w : World) → NeverOlder w (update_older prisma d w).1
  unfolding update_older
  update_older-NeverOlder w =
      rw (laws.balance_snapshot_lem.update_many_lem (is_older d) (observed d w) w.balance_snapshots)
        (record {
          kept = λ a b x n.
              count_kept-update_where (λ s. of_wallet_token a b s && is_at_least x n s) (is_older d)
                (observed d w) w.balance_snapshots (λ s older h. ground arith);
          one = λ a b h. omega (
            arith,
            h,
            count-update_where (of_wallet_token a b) (is_older d) (observed d w) w.balance_snapshots
                (λ s older. refl),
          );
        })

  created-free :
      (w : World) (s : BalanceSnapshot) (rows : List BalanceSnapshot)
      → prisma.balance_snapshot.create s w.balance_snapshots ≡ some rows
      → count_where (of_wallet_token s.wallet_id s.token_id) w.balance_snapshots ≡ 0
  created-free w s rows created =
      elim (Bool-cases
        (ltb 0 (count_where (of_wallet_token s.wallet_id s.token_id) w.balance_snapshots))) [
          | inl taken ↦
              let refused = unique.create_unique s w.balance_snapshots (ground arith) in absurd cc
          | inr free ↦ ground arith
        ]

  created-NeverOlder :
      (w : World) (s : BalanceSnapshot) (rows : List BalanceSnapshot)
      → prisma.balance_snapshot.create s w.balance_snapshots ≡ some rows
      → NeverOlder w (record w { balance_snapshots = rows })
  created-NeverOlder w s rows created =
      let counts = laws.balance_snapshot_lem.create_lem s w.balance_snapshots rows created in
      record {
        kept = λ a b x n. omega (arith, counts (λ s. of_wallet_token a b s && is_at_least x n s));
        one = λ a b h. go a b h (counts (of_wallet_token a b)) (Bool-cases (of_wallet_token a b s));
      }
    where
      go :
          (a b : String)
          → count_where (of_wallet_token a b) w.balance_snapshots ≤ 1
          → count_where (of_wallet_token a b) rows
            ≡ count_where (of_wallet_token a b) (s ∷ w.balance_snapshots)
          → (of_wallet_token a b s ≡ true) ⊎ (of_wallet_token a b s ≡ false)
          → count_where (of_wallet_token a b) rows ≤ 1
      go a b h e (inl mine) =
          let same : a ≡ s.wallet_id = ground (arith, eq_iff s.wallet_id a) in
          let same' : b ≡ s.token_id = ground (arith, eq_iff s.token_id b) in
          let free =
            subst (λ (x : String). count_where (of_wallet_token x b) w.balance_snapshots ≡ 0)
              (sym same)
              (subst
                (λ (x : String).
                  count_where (of_wallet_token s.wallet_id x) w.balance_snapshots ≡ 0)
                (sym same') (created-free w s rows created)) in
          rw e (rw mine (omega (arith, free)))
      go a b h e (inr other) = rw e (rw other (omega (arith, h)))

  create_snapshot-NeverOlder : (w : World) → NeverOlder w (create_snapshot prisma d w).1
  unfolding create_snapshot
  create_snapshot-NeverOlder w =
      elim (Option-cases
        (prisma.balance_snapshot.create (new_snapshot prisma d w) w.balance_snapshots)) [
          | inl refused ↦ rw (refused, create_snapshot) (NeverOlder-rely.same w)
          | inr (rows, created) ↦
              rw (created, create_snapshot)
                (created-NeverOlder w (new_snapshot prisma d w) rows created)
        ]

  find_unique_or_throw-NeverOlder :
      (wallet_id token_id : String)
      → Keeps NeverOlder (find_unique_or_throw prisma wallet_id token_id)
  unfolding find_unique_or_throw find_snapshot
  find_unique_or_throw-NeverOlder wallet_id token_id =
      Keeps-bind NeverOlder NeverOlder-rely (find_snapshot prisma wallet_id token_id) _
        (Keeps-read NeverOlder NeverOlder-rely _)
        (λ o. Keeps-or_raise NeverOlder NeverOlder-rely o _)

  pub upsert-Keeps : Keeps NeverOlder (upsert prisma d)
  unfolding upsert after_update on_create_error
  upsert-Keeps =
      Keeps-bind NeverOlder NeverOlder-rely (call (update_older prisma d)) (after_update prisma d)
        (Keeps-call NeverOlder NeverOlder-rely (update_older prisma d) update_older-NeverOlder)
        (λ n.
          Keeps-if NeverOlder NeverOlder-rely (ltb 0 n) _ _
            (find_unique_or_throw-NeverOlder d.wallet_id d.token_id)
            (Keeps-catch NeverOlder NeverOlder-rely (call (create_snapshot prisma d))
              (on_create_error prisma d)
              (Keeps-call NeverOlder NeverOlder-rely (create_snapshot prisma d)
                create_snapshot-NeverOlder)
              (λ e.
                Keeps-if NeverOlder NeverOlder-rely (is_unique_violation e) _ _
                  (find_unique_or_throw-NeverOlder d.wallet_id d.token_id)
                  (Keeps-raise NeverOlder NeverOlder-rely e))))

-- If the table of the snapshots keeps its unique constraints, and the steps of the other workers
-- never take a snapshot back, then whatever calls of an `upsert` are lost and whether it returns or
-- throws: a wallet and a token that have one snapshot when it begins have one when it ends, and the
-- later one is of a later block, or of the same block with the same balance.
pub upsert-NeverOlder :
    (prisma : Prisma)
    → IsPrisma prisma
    → IsSnapshotTable prisma
    → (d : BalanceData) (p : Process World) → Benign NeverOlder p.turns
    → (wallet_id token_id : String) (s : BalanceSnapshot)
    → count_where (of_wallet_token wallet_id token_id) p.world.balance_snapshots ≤ 1
    → find (of_wallet_token wallet_id token_id) p.world.balance_snapshots ≡ some s
    → (s' : BalanceSnapshot) × (find
          (of_wallet_token wallet_id token_id)
          (upsert prisma d p).1.world.balance_snapshots
        ≡ some s')
      × ((s.block_number < s'.block_number)
          ⊎ ((s'.block_number ≡ s.block_number) × (s'.balance ≡ s.balance)))
upsert-NeverOlder prisma laws unique d p benign wallet_id token_id s single found =
    find-NeverOlder p.world (upsert prisma d p).1.world wallet_id token_id s
      ((upsert-Keeps prisma laws unique d).run p benign tt).0 single found
