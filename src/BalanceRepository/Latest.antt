-- ===== src/BalanceRepository/Latest.antt =====
-- A sequence of observations leaves the latest of them in the table.
use blockchain_transaction_s.Prelude.{
  ℕ, ◌≤◌, ◌≡◌, refl, ◌∙◌, String, Bool, true, false, ◌&&◌, not, List, [], ◌∷◌, Option, none, some,
  str_eq, eq_iff, ◌==◌, ltb, if◌then◌else◌, inl, inr, count_where, update_where, arith, Bool-cases,
  find,
}
use blockchain_transaction_s.Effects.{Result, ok, Process, ◌>>=◌}
use blockchain_transaction_s.Schema.{World, BalanceSnapshot}
use blockchain_transaction_s.Prisma.{Prisma, IsPrisma}
use blockchain_transaction_s.Prisma.Tables.{count-update_where, count-find, find-count, find_passes}
use blockchain_transaction_s.BalanceRepository.{
  BalanceData, IsSnapshotTable, of_wallet_token, is_older, observed, find as find_snapshot,
  find_unique_or_throw, update_older,
}

-- The abstract view: the balance and the block that are known of each wallet and token.
pub record Observation : Type 0 where
  pub balance : ℕ
  pub block_number : ℕ

abbrev pub View : Type 0
View = String → String → Option Observation

-- An observation counts if it is the first, or of a later block than the known one.
abbrev pub later : BalanceData → Option Observation → Observation
later d none = record { balance = d.balance; block_number = d.block_number }
later d (some o) =
    if ltb o.block_number d.block_number
    then record { balance = d.balance; block_number = d.block_number }
    else o

abbrev pub observe : BalanceData → View → View
observe d view wallet_id token_id =
    if str_eq d.wallet_id wallet_id && str_eq d.token_id token_id
    then some (later d (view wallet_id token_id))
    else view wallet_id token_id

abbrev pub observe_all : List BalanceData → View → View
observe_all [] view = view
observe_all (d ∷ ds) view = observe_all ds (observe d view)

abbrev pub shows : Observation → BalanceSnapshot → Bool
shows o s = s.balance == o.balance && s.block_number == o.block_number

-- The rows of a wallet and a token: none, or one that shows what is known.
abbrev pub Holds : (BalanceSnapshot → Bool) → Option Observation → List BalanceSnapshot → Type 0
Holds key none t = count_where key t ≡ 0
Holds key (some o) t = (count_where key t ≡ 1) × (count_where (λ s. key s && not (shows o s)) t ≡ 0)

abbrev pub Represents : World → View → Type 0
Represents w view =
    (wallet_id token_id : String)
    → Holds (of_wallet_token wallet_id token_id) (view wallet_id token_id) w.balance_snapshots

-- One process that nobody interrupts.
abbrev pub quiet : World → Process World
quiet w = record { world = w; turns = [] }

abbrev pub key : BalanceData → BalanceSnapshot → Bool
key d = of_wallet_token d.wallet_id d.token_id

abbrev pub known : BalanceData → View → Option Observation
known d view = view d.wallet_id d.token_id

abbrev pub updated : BalanceData → World → World
updated d w = record w {
  balance_snapshots = update_where (is_older d) (observed d w) w.balance_snapshots;
}

-- What a test that fails on the rows of this wallet and token counts is left alone.
abbrev pub LeavesOthers : BalanceData → World → World → Type 0
LeavesOthers d w v =
    (q : BalanceSnapshot → Bool)
    → ((s : BalanceSnapshot) → key d s ≡ true → q s ≡ false)
    → count_where q v.balance_snapshots ≡ count_where q w.balance_snapshots

-- How an undisturbed `upsert` ends: with a snapshot that shows what is known afterwards.
abbrev pub Upserted : BalanceData → View → Result BalanceSnapshot × Process World → Type 0
Upserted d view o =
    (s : BalanceSnapshot) × (v : World) × (o ≡ (ok s, quiet v))
    × (shows (later d (known d view)) s ≡ true)
    × Represents v (observe d view)

module _ (prisma : Prisma) (laws : IsPrisma prisma) (unique : IsSnapshotTable prisma)
    (d : BalanceData) (w : World) where
  pub update_older-quiet :
      update_older prisma d w ≡ (ok (count_where (is_older d) w.balance_snapshots), (updated d w))
  unfolding update_older
  update_older-quiet =
      rw (laws.balance_snapshot_lem.update_many_lem (is_older d) (observed d w) w.balance_snapshots)
        refl

  pub find_unique_or_throw-quiet :
      (v : World) (s : BalanceSnapshot)
      → find (key d) v.balance_snapshots ≡ some s
      → find_unique_or_throw prisma d.wallet_id d.token_id (quiet v) ≡ (ok s, quiet v)
  unfolding find_unique_or_throw find_snapshot ◌>>=◌
  find_unique_or_throw-quiet v s found =
      rw (laws.balance_snapshot_lem.find_first_lem (key d) v.balance_snapshots) (rw found refl)

  other_key :
      (wallet_id token_id : String) (s : BalanceSnapshot)
      → (str_eq d.wallet_id wallet_id && str_eq d.token_id token_id) ≡ false
      → key d s ≡ true
      → of_wallet_token wallet_id token_id s ≡ false
  other_key wallet_id token_id s differs here = ground (
    arith,
    eq_iff s.wallet_id d.wallet_id,
    eq_iff s.token_id d.token_id,
    eq_iff s.wallet_id wallet_id,
    eq_iff s.token_id token_id,
    eq_iff d.wallet_id wallet_id,
    eq_iff d.token_id token_id,
  )

  Holds-other :
      (o : Option Observation) (v : World) (wallet_id token_id : String)
      → LeavesOthers d w v
      → (str_eq d.wallet_id wallet_id && str_eq d.token_id token_id) ≡ false
      → Holds (of_wallet_token wallet_id token_id) o w.balance_snapshots
      → Holds (of_wallet_token wallet_id token_id) o v.balance_snapshots
  Holds-other none v wallet_id token_id leaves differs h =
      leaves (of_wallet_token wallet_id token_id) (λ s. other_key wallet_id token_id s differs) ∙ h
  Holds-other (some o) v wallet_id token_id leaves differs h = (
    leaves (of_wallet_token wallet_id token_id) (λ s. other_key wallet_id token_id s differs) ∙ h.0,
    leaves (λ s. of_wallet_token wallet_id token_id s && not (shows o s))
          (λ s here. rw (other_key wallet_id token_id s differs here) refl)
        ∙ h.1,
  )

  module _ (view : View) where
    -- The table after the update represents the view after the observation.
    pub Represents-observe :
        (v : World)
        → Represents w view
        → LeavesOthers d w v
        → Holds (key d) (some (later d (known d view))) v.balance_snapshots
        → Represents v (observe d view)
    Represents-observe v represents leaves here wallet_id token_id =
        elim (Bool-cases (str_eq d.wallet_id wallet_id && str_eq d.token_id token_id)) [
          | inl same ↦ rw same (go wallet_id token_id same)
          | inr differs ↦ rw differs (
              Holds-other (view wallet_id token_id) v wallet_id token_id leaves differs
                (represents wallet_id token_id))
        ]
      where
        go :
            (wallet_id token_id : String)
            → (str_eq d.wallet_id wallet_id && str_eq d.token_id token_id) ≡ true
            → Holds
                (of_wallet_token wallet_id token_id)
                (some (later d (view wallet_id token_id)))
                v.balance_snapshots
        go wallet_id token_id same =
            let e : d.wallet_id ≡ wallet_id = ground (arith, eq_iff d.wallet_id wallet_id) in
            let e' : d.token_id ≡ token_id = ground (arith, eq_iff d.token_id token_id) in
            rw (← e) (rw (← e') here)

    -- The snapshot that is read shows what the rows of its (key d) show.
    found-shows :
        (o : Observation) (v : World) (s : BalanceSnapshot)
        → Holds (key d) (some o) v.balance_snapshots
        → find (key d) v.balance_snapshots ≡ some s
        → shows o s ≡ true
    found-shows o v s holds found = elim (Bool-cases (shows o s)) [
      | inl yes' ↦ yes'
      | inr no' ↦ absurd (
          go (
            find-count (key d) (λ s. key d s && not (shows o s)) v.balance_snapshots s found
              (rw (find_passes (key d) v.balance_snapshots s found) (rw no' refl))))
    ]
      where
        go : 1 ≤ count_where (λ s. key d s && not (shows o s)) v.balance_snapshots → ⊥
        go h = omega (arith, h, holds.1)

    -- It is read again where the table holds what is (known d view) afterwards.
    pub reread-Upserted :
        (v : World)
        → Represents w view
        → LeavesOthers d w v
        → Holds (key d) (some (later d (known d view))) v.balance_snapshots
        → Upserted d view (find_unique_or_throw prisma d.wallet_id d.token_id (quiet v))
    reread-Upserted v represents leaves here =
        let (s, found) = count-find (key d) v.balance_snapshots (omega (arith, here.0)) in
        (
          s,
          v,
          find_unique_or_throw-quiet v s found,
          found-shows (later d (known d view)) v s here found,
          Represents-observe v represents leaves here,
        )

    -- the update leaves the other wallets and tokens alone
    pub updated-LeavesOthers : LeavesOthers d w (updated d w)
    updated-LeavesOthers q others =
        count-update_where q (is_older d) (observed d w) w.balance_snapshots
          (λ s older. rw (others s (ground arith)) (others (observed d w s) (ground arith)))
