-- ===== src/BalanceDriftProcessor/Pages.antt =====
-- Pages that are cut behind the last row of the page before.
use blockchain_transaction_s.Prelude.{
  ℕ, zero, suc, ◌≤◌, ◌<◌, ◌≡◌, refl, sym, ap, ◌∙◌, String, Bool, List, [], ◌∷◌, ◌++◌, map, Option,
  none, some, if◌then◌else◌, inl, inr, Bool-cases, length, take, drop, arith, eq_refl, subst,
  count_where,
}
use blockchain_transaction_s.Schema.{BalanceSnapshot}
use blockchain_transaction_s.Prisma.{Prisma}
use blockchain_transaction_s.BalanceRepository.{SnapshotForReconciliation, has_snapshot_id}
use blockchain_transaction_s.BalanceDriftProcessor.{last_id}

-- The rows behind the one with an identifier.
abbrev pub after_id : String → List BalanceSnapshot → List BalanceSnapshot
after_id id [] = []
after_id id (s ∷ t) = let rest = after_id id t in if has_snapshot_id id s then t else rest

abbrev pub following : Option String → List BalanceSnapshot → List BalanceSnapshot
following none t = t
following (some id) t = after_id id t

-- How the pages of the table are cut: from the rows in an order that has each of them once.
pub record IsPaged (prisma : Prisma) : Type 0 where
  pub by_id : List BalanceSnapshot → List BalanceSnapshot
  pub by_id_lem :
      (p : BalanceSnapshot → Bool) (t : List BalanceSnapshot)
      → count_where p (by_id t) ≡ count_where p t
  pub find_after_lem :
      (after : Option String) (n : ℕ) (t : List BalanceSnapshot)
      → prisma.find_after after n t ≡ take n (following after (by_id t))

-- No two snapshots have the same identifier.
abbrev pub Unique : List BalanceSnapshot → Type 0
Unique t = (id : String) → count_where (has_snapshot_id id) t ≤ 1

abbrev pub last_of : BalanceSnapshot → List BalanceSnapshot → String
last_of s [] = s.id
last_of s (next ∷ rest) = last_of next rest

count-last_of :
    (s : BalanceSnapshot) (page rest : List BalanceSnapshot)
    → 1 ≤ count_where (has_snapshot_id (last_of s page)) (s ∷ (page ++ rest))
count-last_of s [] rest = rw (eq_refl s.id) (omega arith)
count-last_of s (next ∷ page) rest = omega (arith, count-last_of next page rest)

-- Behind the last row of a page stands the rest of the table.
after_id-last_of :
    (s : BalanceSnapshot) (page rest : List BalanceSnapshot)
    → count_where (has_snapshot_id (last_of s page)) (s ∷ (page ++ rest)) ≤ 1
    → after_id (last_of s page) (s ∷ (page ++ rest)) ≡ rest
after_id-last_of s [] rest one = rw (eq_refl s.id) refl
after_id-last_of s (next ∷ page) rest one =
    elim (Bool-cases (has_snapshot_id (last_of next page) s)) [
      | inl here ↦
          let twice = rw here at one in absurd (omega (arith, twice, count-last_of next page rest))
      | inr there ↦
          let once = rw there at one in
          rw there (after_id-last_of next page rest (omega (arith, once)))
    ]

count-append :
    (p : BalanceSnapshot → Bool) (front t : List BalanceSnapshot)
    → count_where p t ≤ count_where p (front ++ t)
count-append p [] t = omega arith
count-append p (s ∷ front) t = omega (arith, count-append p front t)

after_id-append :
    (id : String) (front t : List BalanceSnapshot)
    → 1 ≤ count_where (has_snapshot_id id) t
    → count_where (has_snapshot_id id) (front ++ t) ≤ 1
    → after_id id (front ++ t) ≡ after_id id t
after_id-append id [] t there one = refl
after_id-append id (s ∷ front) t there one = elim (Bool-cases (has_snapshot_id id s)) [
  | inl here ↦
      let twice = rw here at one in
      absurd (omega (arith, twice, count-append (has_snapshot_id id) front t, there))
  | inr no' ↦
      let once = rw no' at one in rw no' (after_id-append id front t there (omega (arith, once)))
]

pub length-map :
    (f : BalanceSnapshot → SnapshotForReconciliation) (t : List BalanceSnapshot)
    → length (map f t) ≡ length t
length-map f [] = refl
length-map f (s ∷ t) = omega (arith, length-map f t)

take-drop : (n : ℕ) (t : List BalanceSnapshot) → take n t ++ drop n t ≡ t
take-drop zero t = refl
take-drop (suc n) [] = refl
take-drop (suc n) (s ∷ t) = rw (take-drop n t) refl

pub append_assoc : (a b c : List BalanceSnapshot) → (a ++ b) ++ c ≡ a ++ (b ++ c)
append_assoc [] b c = refl
append_assoc (s ∷ a) b c = rw (append_assoc a b c) refl

pub take-short : (n : ℕ) (t : List BalanceSnapshot) → length (take n t) < n → take n t ≡ t
take-short zero t h = absurd (omega arith)
take-short (suc n) [] h = refl
take-short (suc n) (s ∷ t) h = rw (take-short n t (omega (arith, h))) refl

pub length-drop : (n : ℕ) (t : List BalanceSnapshot) → length (drop n t) ≤ length t
length-drop zero t = omega arith
length-drop (suc n) [] = omega arith
length-drop (suc n) (s ∷ t) = omega (arith, length-drop n t)

pub last_id-map :
    (f : BalanceSnapshot → SnapshotForReconciliation)
    → ((s : BalanceSnapshot) → (f s).id ≡ s.id)
    → (s : BalanceSnapshot) (t : List BalanceSnapshot) → last_id (f s) (map f t) ≡ last_of s t
last_id-map f same s [] = same s
last_id-map f same s (next ∷ t) = last_id-map f same next t

-- Behind a page that is cut from what is left stands the rest of it.
pub after_page :
    (all front : List BalanceSnapshot) (s : BalanceSnapshot) (t : List BalanceSnapshot) (n : ℕ)
    → Unique all
    → all ≡ front ++ (s ∷ t)
    → (after_id (last_of s (take n t)) all ≡ drop n t)
      × (all ≡ (front ++ (s ∷ take n t)) ++ drop n t)
after_page all front s t n unique e =
    let id = last_of s (take n t) in
    let whole : all ≡ front ++ (s ∷ (take n t ++ drop n t)) = e ∙ rw (take-drop n t) refl in
    let one : count_where (has_snapshot_id id) (front ++ (s ∷ (take n t ++ drop n t))) ≤ 1 =
      subst (λ x. count_where (has_snapshot_id id) x ≤ 1) whole (unique id) in
    let there = count-last_of s (take n t) (drop n t) in
    let once : count_where (has_snapshot_id id) (s ∷ (take n t ++ drop n t)) ≤ 1 =
      omega (arith, count-append (has_snapshot_id id) front (s ∷ (take n t ++ drop n t)), one) in
    (
      ap (after_id id) whole
          ∙ after_id-append id front (s ∷ (take n t ++ drop n t)) there one
          ∙ after_id-last_of s (take n t) (drop n t) once,
      whole ∙ sym (append_assoc front (s ∷ take n t) (drop n t)),
    )
