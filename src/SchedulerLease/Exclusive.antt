-- ===== src/SchedulerLease/Exclusive.antt =====
-- A lease is exclusive: nobody else acquires it before it expires or is released.
use blockchain_transaction_s.Prelude.{
  ℕ, ◌+◌, ◌≤◌, ◌<◌, ◌≡◌, ◌≢◌, refl, sym, ◌∙◌, inl, inr, String, Bool, true, false, List, [], ◌∷◌,
  some, str_eq, eq_iff, eq_refl, find, filter_where, update_where, ◌==◌, All, arith, Bool-cases,
  Option-cases, subst,
}
use blockchain_transaction_s.Effects.{ok}
use blockchain_transaction_s.Prisma.Tables.{find-update_where, find_passes}
use blockchain_transaction_s.SchedulerLease.{
  Lease, named, owned_by, may_take, renewable, acquire, renew, release, new_lease,
}

-- What happens to the table: time passes, or an instance of an owner calls one of the operations.
pub data Event : Type 0 where
  tick : ℕ → Event
  acquiring : String → String → ℕ → Event
  renewing : String → String → ℕ → Event
  releasing : String → String → Event

pub record Store : Type 0 where
  pub leases : List Lease
  pub now : ℕ

abbrev pub happen : Event → Store → Store
happen (tick ms) s = record s { now = s.now + ms }
happen (acquiring owner name ttl_ms) s = record s {
  leases = (acquire owner name ttl_ms s.now s.leases).1;
}
happen (renewing owner name ttl_ms) s = record s {
  leases = (renew owner name ttl_ms s.now s.leases).1;
}
happen (releasing owner name) s = record s { leases = release owner name s.leases }

abbrev pub history : List Event → Store → Store
history [] s = s
history (e ∷ es) s = history es (happen e s)

-- The event is not an operation of this owner.
abbrev pub ByOther : String → Event → Type 0
ByOther owner (tick ms) = Unit
ByOther owner (acquiring other name ttl_ms) = other ≢ owner
ByOther owner (renewing other name ttl_ms) = other ≢ owner
ByOther owner (releasing other name) = other ≢ owner

-- Time does not go back.
now-history : (es : List Event) (s : Store) → s.now ≤ (history es s).now
now-history [] s = omega arith
now-history (tick ms ∷ es) s = omega (arith, now-history es (happen (tick ms) s))
now-history (acquiring o n t ∷ es) s = now-history es (happen (acquiring o n t) s)
now-history (renewing o n t ∷ es) s = now-history es (happen (renewing o n t) s)
now-history (releasing o n ∷ es) s = now-history es (happen (releasing o n) s)

-- The lease of a name that an owner holds, which has not expired.
abbrev Held : String → String → ℕ → Store → Type 0
Held owner name until s =
    (l : Lease) × (find (named name) s.leases ≡ some l)
    × (l.owner_id ≡ owner)
    × (l.expires_at ≡ until)

-- A row that a deletion spares is found as before.
find-filter_where :
    {A : Type 0} (q p : A → Bool) (t : List A) (l : A)
    → find q t ≡ some l
    → p l ≡ true
    → find q (filter_where p t) ≡ some l
find-filter_where q p [] l e h = cc
find-filter_where q p (x ∷ t) l e h = elim (Bool-cases (q x)) [
  | inl here ↦ ground arith
  | inr there ↦ ground (arith, find-filter_where q p t l)
]

not_owned :
    (owner other : String) (l : Lease)
    → l.owner_id ≡ owner
    → other ≢ owner
    → owned_by other l ≡ false
not_owned owner other l mine differ = elim (Bool-cases (owned_by other l)) [
  | inl his ↦ absurd (differ (sym ((eq_iff l.owner_id other).0 his) ∙ mine))
  | inr another ↦ another
]

-- An update that leaves the names alone and passes over a lease leaves it to be found.
find-spared :
    (name : String) (p : Lease → Bool) (f : Lease → Lease) (t : List Lease) (l : Lease)
    → ((x : Lease) → (f x).name ≡ x.name)
    → find (named name) t ≡ some l
    → p l ≡ false
    → find (named name) (update_where p f t) ≡ some l
find-spared name p f t l same found spared =
    rw (find-update_where (named name) p f t (λ x. rw (same x) refl)) (rw found (rw spared refl))

-- A lease of another name is not the one that was found.
other_name :
    (name n : String) (t : List Lease) (l : Lease)
    → find (named name) t ≡ some l
    → str_eq n name ≡ false
    → named n l ≡ false
other_name name n t l found differ =
    ground (
      arith,
      find_passes (named name) t l found,
      eq_iff l.name name,
      eq_iff l.name n,
      eq_iff n name,
    )

module _ (owner other name : String) (now : ℕ) (t : List Lease) (l : Lease)
    (found : find (named name) t ≡ some l) (mine : l.owner_id ≡ owner) (alive : now < l.expires_at)
    (differ : other ≢ owner) where
  refused : may_take other now l ≡ false
  refused = ground (arith, not_owned owner other l mine differ)

  -- Another owner is refused while the lease lasts.
  acquire-refused : (ttl_ms : ℕ) → 1 ≤ ttl_ms → acquire other name ttl_ms now t ≡ (ok false, t)
  unfolding acquire
  acquire-refused ttl_ms some_time = rw found (rw refused (ground arith))

  acquire-spares_same :
      (ttl_ms : ℕ) → find (named name) (acquire other name ttl_ms now t).1 ≡ some l
  unfolding acquire
  acquire-spares_same ttl_ms = elim (Bool-cases (ttl_ms == 0)) [
    | inl no_time ↦ rw no_time found
    | inr time ↦ rw time (rw found (rw refused found))
  ]

  acquire-spares_other :
      (n : String) (ttl_ms : ℕ)
      → str_eq n name ≡ false
      → find (named name) (acquire other n ttl_ms now t).1 ≡ some l
  unfolding acquire
  acquire-spares_other n ttl_ms differs = elim (Bool-cases (ttl_ms == 0)) [
    | inl no_time ↦ rw no_time found
    | inr time ↦ rw time (elim (Option-cases (find (named n) t)) [
      | inl free ↦ rw free (rw differs found)
      | inr (l', taken) ↦ rw taken (elim (Bool-cases (may_take other now l')) [
        | inl takes ↦ rw takes (
            find-spared name (named n)
              (λ x. record x { owner_id = other; expires_at = now + ttl_ms; updated_at = now }) t l
              (λ x. refl) found (other_name name n t l found differs))
        | inr late ↦ rw late found
      ])
    ])
  ]

  acquire-spares :
      (n : String) (ttl_ms : ℕ) → find (named name) (acquire other n ttl_ms now t).1 ≡ some l
  acquire-spares n ttl_ms = elim (Bool-cases (str_eq n name)) [
    | inl same ↦
        subst (λ (m : String). find (named name) (acquire other m ttl_ms now t).1 ≡ some l)
          (sym ((eq_iff n name).0 same)) (acquire-spares_same ttl_ms)
    | inr differs ↦ acquire-spares_other n ttl_ms differs
  ]

  renew-spares :
      (n : String) (ttl_ms : ℕ) → find (named name) (renew other n ttl_ms now t).1 ≡ some l
  unfolding renew
  renew-spares n ttl_ms = elim (Bool-cases (ttl_ms == 0)) [
    | inl no_time ↦ rw no_time found
    | inr time ↦ rw time (
        find-spared name (renewable other n now) _ t l (λ x. refl) found
          (ground (arith, not_owned owner other l mine differ)))
  ]

  release-spares : (n : String) → find (named name) (release other n t) ≡ some l
  unfolding release
  release-spares n =
      find-filter_where (named name) _ t l found
        (ground (arith, not_owned owner other l mine differ))

-- Through events of others, the lease is found as it was.
still_held :
    (owner name : String) (es : List Event) (s : Store) (l : Lease)
    → find (named name) s.leases ≡ some l
    → l.owner_id ≡ owner
    → All (ByOther owner) es
    → (history es s).now < l.expires_at
    → find (named name) (history es s).leases ≡ some l
still_held owner name [] s l found mine others alive = found
still_held owner name (tick ms ∷ es) s l found mine others alive =
    still_held owner name es _ l found mine others.1 alive
still_held owner name (acquiring other n ttl ∷ es) s l found mine others alive =
    let before : s.now < l.expires_at =
      omega (arith, alive, now-history es (happen (acquiring other n ttl) s)) in
    still_held owner name es _ l
      (acquire-spares owner other name s.now s.leases l found mine before others.0 n ttl) mine
      others.1 alive
still_held owner name (renewing other n ttl ∷ es) s l found mine others alive =
    let before : s.now < l.expires_at =
      omega (arith, alive, now-history es (happen (renewing other n ttl) s)) in
    still_held owner name es _ l
      (renew-spares owner other name s.now s.leases l found mine before others.0 n ttl) mine
      others.1 alive
still_held owner name (releasing other n ∷ es) s l found mine others alive =
    let before : s.now < l.expires_at =
      omega (arith, alive, now-history es (happen (releasing other n) s)) in
    still_held owner name es _ l
      (release-spares owner other name s.now s.leases l found mine before others.0 n) mine others.1
      alive

-- An `acquire` that returns true has written a lease of its owner for the whole time.
pub acquired :
    (owner name : String) (ttl_ms now : ℕ) (t : List Lease)
    → (acquire owner name ttl_ms now t).0 ≡ ok true
    → (l : Lease) × (find (named name) (acquire owner name ttl_ms now t).1 ≡ some l)
      × (l.owner_id ≡ owner)
      × (l.expires_at ≡ now + ttl_ms)
unfolding acquire
acquired owner name ttl_ms now t = elim (Bool-cases (ttl_ms == 0)) [
  | inl no_time ↦ rw no_time (λ granted. absurd cc)
  | inr time ↦ rw time (elim (Option-cases (find (named name) t)) [
    | inl free ↦
        rw free (λ granted. (new_lease owner name ttl_ms now, rw (eq_refl name) refl, refl, refl))
    | inr (l, taken) ↦ rw taken (elim (Bool-cases (may_take owner now l)) [
      | inl takes ↦ rw takes (λ granted. (
        record l { owner_id = owner; expires_at = now + ttl_ms; updated_at = now },
        rw
            (find-update_where (named name) (named name)
              (λ l. record l { owner_id = owner; expires_at = now + ttl_ms; updated_at = now }) t
              (λ x. refl))
            (rw taken (rw (find_passes (named name) t l taken) refl)),
        refl,
        refl,
      ))
      | inr late ↦ rw late (λ granted. absurd cc)
    ])
  ])
]

-- If an owner acquires a lease, then whatever the instances of other owners do, and however much
-- time passes, each other owner that asks for the lease for a positive time is refused as long as
-- its time has not run out, and the refused call leaves the table as it is.
pub acquire-IsExclusive :
    (owner other name : String) (ttl_ms other_ttl_ms : ℕ) (s : Store) (es : List Event)
    → (acquire owner name ttl_ms s.now s.leases).0 ≡ ok true
    → All (ByOther owner) es
    → (history es (happen (acquiring owner name ttl_ms) s)).now < s.now + ttl_ms
    → other ≢ owner
    → 1 ≤ other_ttl_ms
    → let s' = history es (happen (acquiring owner name ttl_ms) s) in
      acquire other name other_ttl_ms s'.now s'.leases ≡ (ok false, s'.leases)
acquire-IsExclusive owner other name ttl_ms other_ttl_ms s es granted others alive differ
      some_time =
    let (l, found, mine, until) = acquired owner name ttl_ms s.now s.leases granted in
    let s' = history es (happen (acquiring owner name ttl_ms) s) in
    let still =
      still_held owner name es (happen (acquiring owner name ttl_ms) s) l found mine others
        (rw until alive) in
    acquire-refused owner other name s'.now s'.leases l still mine (rw until alive) differ
      other_ttl_ms some_time
