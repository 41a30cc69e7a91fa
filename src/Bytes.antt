-- ===== src/Bytes.antt =====
-- `timingSafeEqual` of the runtime, on buffers of one length: whether their bytes are the same.
use blockchain_transaction_s.Prelude.{
  ℕ, ◌≡◌, refl, Bool, true, false, ◌&&◌, List, [], ◌∷◌, ◌==◌, arith,
}

abbrev pub bytes_eq : List ℕ → List ℕ → Bool
bytes_eq [] [] = true
bytes_eq (x ∷ xs) (y ∷ ys) = x == y && bytes_eq xs ys
bytes_eq _ _ = false

pub bytes_eq_refl : (bs : List ℕ) → bytes_eq bs bs ≡ true
bytes_eq_refl [] = refl
bytes_eq_refl (b ∷ bs) = ground (arith, bytes_eq_refl bs)

pub bytes_eq→≡ : (as' bs : List ℕ) → bytes_eq as' bs ≡ true → as' ≡ bs
bytes_eq→≡ [] [] h = refl
bytes_eq→≡ [] (b ∷ bs) h = cc
bytes_eq→≡ (x ∷ xs) [] h = cc
bytes_eq→≡ (x ∷ xs) (y ∷ ys) h =
    let e : x ≡ y = ground arith in rw e (rw (bytes_eq→≡ xs ys (ground arith)) refl)
