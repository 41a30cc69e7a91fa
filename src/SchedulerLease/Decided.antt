-- ===== src/SchedulerLease/Decided.antt =====
-- When an `acquire` is granted, when it is refused, and what each leaves in the table.
use blockchain_transaction_s.Prelude.{
  ℕ, ◌+◌, ◌≤◌, ◌<◌, ◌≡◌, ◌≢◌, ◌⊎◌, refl, sym, ◌∙◌, leb, inl, inr, String, Bool, true, false, List,
  [], ◌∷◌, none, some, str_eq, eq_iff, find, update_where, ◌==◌, arith, Bool-cases, Option-cases,
}
use blockchain_transaction_s.Effects.{Result, ok}
use blockchain_transaction_s.SchedulerLease.{Lease, named, may_take, acquire}
use blockchain_transaction_s.SchedulerLease.Exclusive.{acquired}

-- The lease is free for an owner: there is none, it has expired, or it is the owner's own.
pub data IsFree (owner name : String) (now : ℕ) (t : List Lease) : Type 0 where
  absent : find (named name) t ≡ none → IsFree owner name now t
  expired :
      (l : Lease) → find (named name) t ≡ some l → l.expires_at ≤ now → IsFree owner name now t
  own : (l : Lease) → find (named name) t ≡ some l → l.owner_id ≡ owner → IsFree owner name now t

-- Another owner holds the lease, and it has not expired.
pub record IsHeld (owner name : String) (now : ℕ) (t : List Lease) : Type 0 where
  pub lease : Lease
  pub there : find (named name) t ≡ some lease
  pub alive : now < lease.expires_at
  pub other : lease.owner_id ≢ owner

-- The lease is the owner's for the whole time, and the other leases are as they were.
pub record IsGranted (owner name : String) (until : ℕ) (t t' : List Lease) : Type 0 where
  pub lease : Lease
  pub there : find (named name) t' ≡ some lease
  pub mine : lease.owner_id ≡ owner
  pub until_then : lease.expires_at ≡ until
  pub others : (name' : String) → name' ≢ name → find (named name') t' ≡ find (named name') t

-- What an `acquire` answers and leaves.
abbrev pub Decided : String → String → ℕ → ℕ → List Lease → Result Bool × List Lease → Type 0
Decided owner name ttl_ms now t (r, t') =
    ((r ≡ ok true) × (IsFree owner name now t × IsGranted owner name (now + ttl_ms) t t'))
    ⊎ ((r ≡ ok false) × (IsHeld owner name now t × (t' ≡ t)))

find-update_named :
    (name name' : String) (f : Lease → Lease) (t : List Lease)
    → name' ≢ name
    → ((l : Lease) → (f l).name ≡ l.name)
    → find (named name') (update_where (named name) f t) ≡ find (named name') t
find-update_named name name' f [] differ same = refl
find-update_named name name' f (l ∷ t) differ same = elim (Bool-cases (str_eq l.name name)) [
  | inl here ↦ elim (Bool-cases (str_eq l.name name')) [
    | inl both ↦ absurd (differ (sym ((eq_iff l.name name').0 both) ∙ (eq_iff l.name name).0 here))
    | inr there ↦ rw (here, same l, there) (find-update_named name name' f t differ same)
  ]
  | inr there ↦ rw there (rw (find-update_named name name' f t differ same) refl)
]

others-acquire :
    (owner name : String) (ttl_ms now : ℕ) (t : List Lease) (name' : String)
    → name' ≢ name
    → find (named name') (acquire owner name ttl_ms now t).1 ≡ find (named name') t
unfolding acquire
others-acquire owner name ttl_ms now t name' differ = elim (Bool-cases (ttl_ms == 0)) [
  | inl no_time ↦ rw no_time refl
  | inr time ↦ rw time (elim (Option-cases (find (named name) t)) [
    | inl free ↦ rw free (elim (Bool-cases (str_eq name name')) [
      | inl same ↦ absurd (differ (sym ((eq_iff name name').0 same)))
      | inr other ↦ rw other refl
    ])
    | inr (l, taken) ↦ rw taken (elim (Bool-cases (may_take owner now l)) [
      | inl takes ↦ rw takes (find-update_named name name' _ t differ (λ l. refl))
      | inr late ↦ rw late refl
    ])
  ])
]

-- The answer, and what it says of the lease that was there.
answer :
    (owner name : String) (ttl_ms now : ℕ) (t : List Lease)
    → 1 ≤ ttl_ms
    → (((acquire owner name ttl_ms now t).0 ≡ ok true) × IsFree owner name now t)
      ⊎ (((acquire owner name ttl_ms now t).0 ≡ ok false)
          × (IsHeld owner name now t × ((acquire owner name ttl_ms now t).1 ≡ t)))
unfolding acquire
answer owner name ttl_ms now t some_time =
    let positive : (ttl_ms == 0) ≡ false = ground arith in
    rw positive (elim (Option-cases (find (named name) t)) [
      | inl free ↦ rw free (inl (refl, absent free))
      | inr (l, taken) ↦ rw taken (elim (Bool-cases (leb l.expires_at now)) [
        | inl late ↦ rw late (inl (refl, expired l taken (ground arith)))
        | inr alive ↦ rw alive (elim (Bool-cases (str_eq l.owner_id owner)) [
          | inl mine ↦ rw mine (inl (refl, own l taken ((eq_iff l.owner_id owner).0 mine)))
          | inr other ↦ rw other (
              inr (
                refl,
                (
                  record {
                    lease = l;
                    there = taken;
                    alive = ground arith;
                    other = λ e. let same = (eq_iff l.owner_id owner).1 e in cc;
                  },
                  refl,
                ),
              ))
        ])
      ])
    ])

-- An `acquire` of a positive time always answers. It answers true if there is no lease of the name, if
-- the lease has expired, or if the caller holds it; then the lease is the caller's until that time from
-- now, and every other lease is as it was. It answers false if another owner holds a lease that has not
-- expired, and then the table is as it was.
pub acquire-Decided :
    (owner name : String) (ttl_ms now : ℕ) (t : List Lease)
    → 1 ≤ ttl_ms
    → Decided owner name ttl_ms now t (acquire owner name ttl_ms now t)
acquire-Decided owner name ttl_ms now t some_time =
    elim (answer owner name ttl_ms now t some_time) [
      | inl (granted, free) ↦
          let (l, there, mine, until) = acquired owner name ttl_ms now t granted in
          inl (
            granted,
            (
              free,
              record {
                lease = l;
                there = there;
                mine = mine;
                until_then = until;
                others = others-acquire owner name ttl_ms now t;
              },
            ),
          )
      | inr refused ↦ inr refused
    ]
