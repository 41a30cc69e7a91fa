-- ===== src/Prisma/Tables.antt =====
-- Updates and queries of a table.
use blockchain_transaction_s.Prelude.{
  ◌≤◌, ◌≡◌, ◌+◌, ◌&&◌, not, refl, inl, inr, count_where, Bool, true, false, List, [], ◌∷◌, Option,
  none, some, arith, find, update_where, Bool-cases, if◌then◌else◌,
}

abbrev pub map_option : {A B : Type 0} → (A → B) → Option A → Option B
map_option f none = none
map_option f (some a) = some (f a)

-- Looking up a row by a test that updates do not change finds its update.
pub find-update_where :
    {A : Type 0} (q p : A → Bool) (f : A → A) (t : List A)
    → ((r : A) → q (f r) ≡ q r)
    → find q (update_where p f t) ≡ map_option (λ r. if p r then f r else r) (find q t)
find-update_where q p f [] same = refl
find-update_where q p f (x ∷ t) same = ground (arith, same x, find-update_where q p f t same)

pub find_passes : {A : Type 0} (q : A → Bool) (t : List A) (r : A) → find q t ≡ some r → q r ≡ true
find_passes q [] r h = cc
find_passes q (x ∷ t) r h = ground (arith, find_passes q t r)

pub find-count :
    {A : Type 0} (q p : A → Bool) (t : List A) (r : A)
    → find q t ≡ some r
    → p r ≡ true
    → 1 ≤ count_where p t
find-count q p [] r h e = cc
find-count q p (x ∷ t) r h e = elim (Bool-cases (q x)) [
  | inl here ↦ ground arith
  | inr there ↦ ground (arith, find-count q p t r)
]

pub update_where-none :
    {A : Type 0} (p : A → Bool) (f : A → A) (t : List A)
    → count_where p t ≡ 0
    → update_where p f t ≡ t
update_where-none p f [] h = refl
update_where-none p f (x ∷ t) h = ground (arith, update_where-none p f t)

-- A further test that the found row passes changes nothing.
pub find_and :
    {A : Type 0} (q p : A → Bool) (t : List A) (r : A)
    → find q t ≡ some r
    → p r ≡ true
    → find (λ x. q x && p x) t ≡ some r
find_and q p [] r h e = cc
find_and q p (x ∷ t) r h e = elim (Bool-cases (q x)) [
  | inl here ↦ ground arith
  | inr there ↦ ground (arith, find_and q p t r)
]

-- Counting after an update that does not change whether the updated rows pass.
pub count-update_where :
    {A : Type 0} (q p : A → Bool) (f : A → A) (t : List A)
    → ((r : A) → p r ≡ true → q (f r) ≡ q r)
    → count_where q (update_where p f t) ≡ count_where q t
count-update_where q p f [] same = refl
count-update_where q p f (x ∷ t) same = elim (Bool-cases (p x)) [
  | inl here ↦ rw here (rw (same x here) (rw (count-update_where q p f t same) refl))
  | inr there ↦ rw there (rw (count-update_where q p f t same) refl)
]

pub count_mono :
    {A : Type 0} (p q : A → Bool) (t : List A)
    → ((r : A) → p r ≡ true → q r ≡ true)
    → count_where p t ≤ count_where q t
count_mono p q [] h = omega arith
count_mono p q (x ∷ t) h = ground (arith, h x, count_mono p q t h)

-- The updated rows all pass a test that the update makes true.
pub count_le-update_where :
    {A : Type 0} (q p : A → Bool) (f : A → A) (t : List A)
    → ((r : A) → p r ≡ true → q (f r) ≡ true)
    → count_where p t ≤ count_where q (update_where p f t)
count_le-update_where q p f [] h = omega arith
count_le-update_where q p f (x ∷ t) h = elim (Bool-cases (p x)) [
  | inl here ↦ rw here (rw (h x here) (ground (arith, count_le-update_where q p f t h)))
  | inr there ↦ rw there (ground (arith, count_le-update_where q p f t h))
]

-- An update after which every row that passed still passes.
pub count_kept-update_where :
    {A : Type 0} (q p : A → Bool) (f : A → A) (t : List A)
    → ((r : A) → p r ≡ true → q r ≡ true → q (f r) ≡ true)
    → count_where q t ≤ count_where q (update_where p f t)
count_kept-update_where q p f [] h = omega arith
count_kept-update_where q p f (x ∷ t) h = elim (Bool-cases (p x)) [
  | inl here ↦ rw here (ground (arith, h x here, count_kept-update_where q p f t h))
  | inr there ↦ rw there (ground (arith, count_kept-update_where q p f t h))
]

pub count_split :
    {A : Type 0} (p q : A → Bool) (t : List A)
    → count_where p t ≡ count_where (λ r. p r && q r) t + count_where (λ r. p r && not (q r)) t
count_split p q [] = refl
count_split p q (x ∷ t) = ground (arith, count_split p q t)

pub count-find :
    {A : Type 0} (p : A → Bool) (t : List A) → 1 ≤ count_where p t → (r : A) × (find p t ≡ some r)
count-find p [] h = absurd (omega arith)
count-find p (x ∷ t) h = elim (Bool-cases (p x)) [
  | inl here ↦ (x, rw here refl)
  | inr there ↦ let (r, e) = count-find p t (ground arith) in (r, rw there e)
]

-- After an update that makes the updated rows fail, those that were not updated are counted.
pub count-update_where_out :
    {A : Type 0} (q p : A → Bool) (f : A → A) (t : List A)
    → ((r : A) → p r ≡ true → q (f r) ≡ false)
    → count_where q (update_where p f t) ≡ count_where (λ r. q r && not (p r)) t
count-update_where_out q p f [] h = refl
count-update_where_out q p f (x ∷ t) h = elim (Bool-cases (p x)) [
  | inl here ↦ rw here (rw (h x here) (ground (arith, count-update_where_out q p f t h)))
  | inr there ↦ rw there (ground (arith, count-update_where_out q p f t h))
]
