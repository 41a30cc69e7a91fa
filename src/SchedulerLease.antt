-- ===== src/SchedulerLease.antt =====
-- src/scheduling/postgres-scheduler-lease.ts: each SQL statement is one atomic step on the table of
-- leases, at the time that the database reads as NOW(). The primary key of a lease is its name.
pub mod Exclusive
pub mod Decided
use blockchain_transaction_s.Prelude.{
  ℕ, ◌+◌, String, Bool, true, false, ◌&&◌, ◌||◌, not, List, [], ◌∷◌, Option, none, some, str_eq,
  find, count_where, filter_where, update_where, ◌==◌, leb, ltb, if◌then◌else◌,
}
use blockchain_transaction_s.Effects.{Result, ok, err, plain}

pub record Lease : Type 0 where
  pub name : String
  pub owner_id : String
  pub expires_at : ℕ
  pub updated_at : ℕ

abbrev pub named : String → Lease → Bool
named name l = str_eq l.name name

abbrev pub owned_by : String → Lease → Bool
owned_by owner_id l = str_eq l.owner_id owner_id

module _ (owner_id : String) where
  -- `assertTtl`; a lifetime in milliseconds is finite.
  abbrev pub assert_ttl :
      {A : Type 0} → ℕ → Result A × List Lease → List Lease → Result A × List Lease
  assert_ttl ttl_ms result leases =
      if ttl_ms == 0
      then (err (plain "Scheduler lease TTL must be greater than zero"), leases)
      else result

  abbrev pub new_lease : String → ℕ → ℕ → Lease
  new_lease name ttl_ms now = record {
    name = name;
    owner_id = owner_id;
    expires_at = now + ttl_ms;
    updated_at = now;
  }

  -- the condition of `ON CONFLICT … DO UPDATE`
  abbrev pub may_take : ℕ → Lease → Bool
  may_take now l = leb l.expires_at now || owned_by owner_id l

  unfoldable pub acquire : String → ℕ → ℕ → List Lease → Result Bool × List Lease
  acquire name ttl_ms now leases =
      assert_ttl ttl_ms
        (elim (find (named name) leases) [
          | none ↦ (ok true, new_lease name ttl_ms now ∷ leases)
          | some l ↦
              if may_take now l
              then (
                ok true,
                update_where (named name)
                    (λ l. record l {
                      owner_id = owner_id;
                      expires_at = now + ttl_ms;
                      updated_at = now;
                    })
                    leases,
              )
              else (ok false, leases)
        ])
        leases

  abbrev pub renewable : String → ℕ → Lease → Bool
  renewable name now l = named name l && (owned_by owner_id l && ltb now l.expires_at)

  unfoldable pub renew : String → ℕ → ℕ → List Lease → Result Bool × List Lease
  renew name ttl_ms now leases =
      assert_ttl ttl_ms
        (
          ok (count_where (renewable name now) leases == 1),
          update_where (renewable name now)
              (λ l. record l { expires_at = now + ttl_ms; updated_at = now }) leases,
        )
        leases

  unfoldable pub release : String → List Lease → List Lease
  release name leases = filter_where (λ l. not (named name l && owned_by owner_id l)) leases
