-- ===== src/SubmissionRecoveryProcessor/Enqueued.antt =====
-- The jobs that the recovery of submitted transactions leaves in the queue.
use blockchain_transaction_s.Prelude.{
  ◌+◌, ◌≤◌, ◌≡◌, refl, sym, subst, String, Bool, ◌&&◌, not, str_eq, if◌then◌else◌, List, [], ◌∷◌,
  eq_iff, eq_refl, count_where, All, arith, Bool-cases, inl, inr, ◌==◌,
}
use Prim.Native.String.{◌++◌}
use text.Mathlib.TextLemmas.{append_cancel_left}
use blockchain_transaction_s.Prisma.Tables.{count_split}
use blockchain_transaction_s.Effects.{Result, Process, ok, ◌>>=◌, catch_error}
use blockchain_transaction_s.Transaction.{Transaction}
use blockchain_transaction_s.Transaction.StateMachine.{submitted, status_eq}
use blockchain_transaction_s.Schema.{World, ConfirmationJob, job_named}
use blockchain_transaction_s.Prisma.{Prisma, IsPrisma}
use blockchain_transaction_s.TransactionRepository.{find_submitted_candidates, is_some, at_or}
use blockchain_transaction_s.ConfirmationQueue.{job_id, confirm_job, enqueue}
use blockchain_transaction_s.SubmissionRecoveryProcessor.{
  recover, recover_all, process_submitted_transactions,
}

-- No two jobs of the queue have one identifier.
abbrev pub NoTwins : List ConfirmationJob → Type 0
NoTwins q = (id : String) → count_where (job_named id) q ≤ 1

-- The job that asks for the confirmation of a transaction of a tenant.
abbrev pub asks_for : String → String → ConfirmationJob → Bool
asks_for id tenant_id job = str_eq job.transaction_id id && str_eq job.tenant_id tenant_id

-- A job whose identifier names a transaction asks for the confirmation of that transaction.
abbrev pub AsksForNamed : (String → String) → List ConfirmationJob → Type 0
AsksForNamed tenant_of q =
    (id : String)
    → count_where (λ j. job_named ("confirm-" ++ id) j && not (asks_for id (tenant_of id) j)) q ≡ 0

-- The candidates that the repository finds.
abbrev pub candidates : Prisma → World → List Transaction
candidates prisma w =
    prisma.transaction.find_many (λ r. status_eq r.status submitted && is_some r.tx_hash)
      (λ r. at_or 0 r.submitted_at) 100 w.transactions

module _ (prisma : Prisma) (lawful : IsPrisma prisma) where
  -- A job more: its identifier is there once, every other as often as before.
  add_once :
      (name id tenant_id : String) (q : List ConfirmationJob)
      → NoTwins q
      → let q' = prisma.add (confirm_job id tenant_id) q in
        (count_where (job_named (job_id id)) q' ≡ 1)
        × ((count_where (job_named name) q' ≤ 1)
            × (count_where (job_named name) q ≤ count_where (job_named name) q'))
  add_once name id tenant_id q no_twins =
      elim (Bool-cases (count_where (job_named (job_id id)) q == 0)) [
        | inl absent ↦
            let e = lawful.add_new (job_id id) (confirm_job id tenant_id) q refl (ground arith) in
            rw (e (job_named (job_id id)), e (job_named name))
              (ground (arith, no_twins name, absent, eq_refl (job_id id), eq_iff (job_id id) name))
        | inr there ↦
            rw (lawful.add_again (job_id id) (confirm_job id tenant_id) q refl (ground arith))
              (ground (arith, no_twins name, no_twins (job_id id), there))
      ]

  -- A job more asks for what its identifier names.
  add_named :
      (tenant_of : String → String) (id : String) (q : List ConfirmationJob)
      → NoTwins q
      → AsksForNamed tenant_of q
      → AsksForNamed tenant_of (prisma.add (confirm_job id (tenant_of id)) q)
  add_named tenant_of id q no_twins named other =
      let p : ConfirmationJob → Bool =
        λ j. job_named ("confirm-" ++ other) j && not (asks_for other (tenant_of other) j) in
      elim (Bool-cases (count_where (job_named (job_id id)) q == 0)) [
        | inr there ↦
            rw (lawful.add_again (job_id id) (confirm_job id (tenant_of id)) q refl (ground arith))
              (named other)
        | inl absent ↦
            rw (lawful.add_new (job_id id) (confirm_job id (tenant_of id)) q refl (ground arith) p)
              (elim (Bool-cases (str_eq (job_id id) ("confirm-" ++ other))) [
                | inr differs ↦ rw differs (omega (arith, named other))
                | inl same ↦
                    let e : id ≡ other =
                      append_cancel_left "confirm-" id other
                        ((eq_iff (job_id id) ("confirm-" ++ other)).0 same) in
                    rw same (
                      subst
                        (λ (x : String).
                          (if not (str_eq id x && str_eq (tenant_of id) (tenant_of x))
                              then 1
                              else 0)
                            + count_where p q
                          ≡ 0)
                        e (rw (eq_refl id, eq_refl (tenant_of id)) (omega (arith, named other))))
              ])
      ]

  abbrev add_all : List Transaction → List ConfirmationJob → List ConfirmationJob
  add_all [] q = q
  add_all (tx ∷ txs) q = add_all txs (prisma.add (confirm_job tx.id tx.tenant_id) q)

  recover_all_alone :
      (txs : List Transaction) (w : World)
      → recover_all prisma txs (record { world = w; turns = [] }) ≡ (
        ok tt,
        record {
          world = record w { confirmation_jobs = add_all txs w.confirmation_jobs };
          turns = [];
        },
      )
  unfolding recover_all recover enqueue catch_error ◌>>=◌
  recover_all_alone [] w = refl
  recover_all_alone (tx ∷ txs) w = recover_all_alone txs _

  -- What was in the queue stays, and no twins arise.
  add_all_keeps :
      (name : String) (txs : List Transaction) (q : List ConfirmationJob)
      → NoTwins q
      → (count_where (job_named name) (add_all txs q) ≤ 1)
        × (count_where (job_named name) q ≤ count_where (job_named name) (add_all txs q))
  add_all_keeps name [] q no_twins = (no_twins name, omega arith)
  add_all_keeps name (tx ∷ txs) q no_twins =
      let (few, more) =
        add_all_keeps name txs (prisma.add (confirm_job tx.id tx.tenant_id) q)
          (λ other. (add_once other tx.id tx.tenant_id q no_twins).1.0) in
      (few, omega (arith, more, (add_once name tx.id tx.tenant_id q no_twins).1.1))

  add_all_once :
      (txs : List Transaction) (q : List ConfirmationJob)
      → NoTwins q
      → All (λ tx. count_where (job_named (job_id tx.id)) (add_all txs q) ≡ 1) txs
  add_all_once [] q no_twins = tt
  add_all_once (tx ∷ txs) q no_twins =
      let q' = prisma.add (confirm_job tx.id tx.tenant_id) q in
      let still : NoTwins q' = λ other. (add_once other tx.id tx.tenant_id q no_twins).1.0 in
      let (few, more) = add_all_keeps (job_id tx.id) txs q' still in
      (
        omega (arith, few, more, (add_once "" tx.id tx.tenant_id q no_twins).0),
        add_all_once txs q' still,
      )

  abbrev IsOf : (String → String) → Transaction → Type 0
  IsOf tenant_of tx = tx.tenant_id ≡ tenant_of tx.id

  -- One job with the identifier of each, and none of them asks for something else.
  add_all_named :
      (tenant_of : String → String) (txs : List Transaction) (q : List ConfirmationJob)
      → All (IsOf tenant_of) txs
      → NoTwins q
      → AsksForNamed tenant_of q
      → AsksForNamed tenant_of (add_all txs q)
  add_all_named tenant_of [] q of' no_twins named = named
  add_all_named tenant_of (tx ∷ txs) q (of', ofs) no_twins named =
      let q' = prisma.add (confirm_job tx.id tx.tenant_id) q in
      add_all_named tenant_of txs q' ofs
        (λ other. (add_once other tx.id tx.tenant_id q no_twins).1.0)
        (subst (λ (t : String). AsksForNamed tenant_of (prisma.add (confirm_job tx.id t) q))
          (sym of') (add_named tenant_of tx.id q no_twins named))

  asks_once :
      (tenant_of : String → String) (txs : List Transaction) (q : List ConfirmationJob)
      → All (IsOf tenant_of) txs
      → AsksForNamed tenant_of q
      → All (λ tx. count_where (job_named (job_id tx.id)) q ≡ 1) txs
      → All
          (λ tx.
            count_where (λ j. job_named ("confirm-" ++ tx.id) j && asks_for tx.id tx.tenant_id j) q
            ≡ 1)
          txs
  asks_once tenant_of [] q of' named once = tt
  asks_once tenant_of (tx ∷ txs) q (of', ofs) named (once, onces) = (
    rw of' (
        omega (
          arith,
          count_split (job_named ("confirm-" ++ tx.id)) (asks_for tx.id (tenant_of tx.id)) q,
          named tx.id,
          once,
        )),
    asks_once tenant_of txs q ofs named onces,
  )

-- What a recovery run returns and leaves in the queue.
abbrev pub Enqueued :
    Prisma → (String → String) → World → Result (Unit {0}) × Process World → Type 0
Enqueued prisma tenant_of w (r, p) =
    let q = p.world.confirmation_jobs in
    (r ≡ ok tt)
    × (All
          (λ tx.
            count_where (λ j. job_named ("confirm-" ++ tx.id) j && asks_for tx.id tx.tenant_id j) q
            ≡ 1)
          (candidates prisma w)
        × (NoTwins q
            × (AsksForNamed tenant_of q
                × ((name : String)
                    → count_where (job_named name) w.confirmation_jobs
                      ≤ count_where (job_named name) q))))

-- A recovery run that nobody interferes with returns, from a queue in which no two jobs have one
-- identifier and each job named confirm-<id> asks for the confirmation of the transaction with this
-- id, if the tenant of each candidate is told by its id. Then for each candidate that the repository
-- found the queue has exactly one job named confirm-<id> that asks for the confirmation of this
-- transaction of its tenant, still no two jobs with one identifier, still no job named confirm-<id> that
-- asks for something else, and for each identifier no fewer jobs than it had.
pub process_submitted_transactions-Enqueued :
    (prisma : Prisma)
    → IsPrisma prisma
    → (w : World) (tenant_of : String → String)
    → All (λ tx. tx.tenant_id ≡ tenant_of tx.id) (candidates prisma w)
    → NoTwins w.confirmation_jobs
    → AsksForNamed tenant_of w.confirmation_jobs
    → Enqueued prisma tenant_of w
        (process_submitted_transactions prisma (record { world = w; turns = [] }))
unfolding process_submitted_transactions find_submitted_candidates ◌>>=◌
process_submitted_transactions-Enqueued prisma lawful w tenant_of of' no_twins named =
    let txs = candidates prisma w in
    let q = w.confirmation_jobs in
    let still = add_all_named prisma lawful tenant_of txs q of' no_twins named in
    rw (recover_all_alone prisma lawful txs w) (
      refl,
      (
        asks_once prisma lawful tenant_of txs (add_all prisma lawful txs q) of' still
            (add_all_once prisma lawful txs q no_twins),
        (
          (λ name. (add_all_keeps prisma lawful name txs q no_twins).0),
          (still, λ name. (add_all_keeps prisma lawful name txs q no_twins).1),
        ),
      ),
    )
