-- ===== src/MemFs/Tables.antt =====
-- The lists that stand for the hash maps of examples/memfs.rs.
use anymount.Prelude.{ℕ, suc, ◌<◌, ◌≡◌, ◌≢◌, refl, true, false, none, some, inl, inr}
use anymount.Prelude.{List, [], ◌∷◌, ◌==◌, ==_iff, arith, All, Bool-cases}
use anymount.MemFs.Defs.{get, remove, insert}

pub eq_refl : (k : ℕ) → (k == k) ≡ true
eq_refl k = ground arith

pub eq_ne : (i k : ℕ) → i ≢ k → (i == k) ≡ false
eq_ne i k h = ground arith

module _ {V : Type 0} where
  pub get-insert : (k : ℕ) (v : V) (l : List (ℕ × V)) → get k (insert k v l) ≡ some v
  unfolding get insert
  get-insert k v l = rw (eq_refl k)

  pub get-remove : (k : ℕ) (l : List (ℕ × V)) → get k (remove k l) ≡ none
  unfolding get remove
  get-remove k [] = refl
  get-remove k ((i, v) ∷ l) = elim (Bool-cases (i == k)) [
    | inl same ↦ rw same (get-remove k l)
    | inr apart ↦ rw (apart, get, apart) (get-remove k l)
  ]

  pub get-remove_ne : (k j : ℕ) (l : List (ℕ × V)) → j ≢ k → get k (remove j l) ≡ get k l
  unfolding get remove
  get-remove_ne k j [] h = refl
  get-remove_ne k j ((i, v) ∷ l) h = elim (Bool-cases (i == j)) [
    | inl same ↦
        (let other : (i == k) ≡ false = ground (arith, ==_iff i j) in
          rw (same, other) (get-remove_ne k j l h))
    | inr apart ↦ elim (Bool-cases (i == k)) [
      | inl hit ↦ rw (apart, get, hit)
      | inr miss ↦ rw (apart, get, miss) (get-remove_ne k j l h)
    ]
  ]

  pub get-insert_ne : (k j : ℕ) (v : V) (l : List (ℕ × V)) → j ≢ k → get k (insert j v l) ≡ get k l
  unfolding insert
  get-insert_ne k j v l h = unfold get in rw (eq_ne j k h) (get-remove_ne k j l h)

  -- Every key of the list is below the bound.
  abbrev pub Below : ℕ → List (ℕ × V) → Type 0
  Below n l = All (λ (p : ℕ × V). p.0 < n) l

  pub Below-get : (n k : ℕ) (l : List (ℕ × V)) → Below n l → n ≡ k → get k l ≡ none
  unfolding get
  Below-get n k [] h e = refl
  Below-get n k ((i, v) ∷ l) (h, hs) e = rw (eq_ne i k (omega arith)) (Below-get n k l hs e)

  pub Below-remove : (n k : ℕ) (l : List (ℕ × V)) → Below n l → Below n (remove k l)
  unfolding remove
  Below-remove n k [] h = tt
  Below-remove n k ((i, v) ∷ l) (h, hs) = elim (Bool-cases (i == k)) [
    | inl same ↦ rw same (Below-remove n k l hs)
    | inr apart ↦ rw apart (h, Below-remove n k l hs)
  ]

  pub Below-suc : (n : ℕ) (l : List (ℕ × V)) → Below n l → Below (suc n) l
  Below-suc n [] h = tt
  Below-suc n ((i, v) ∷ l) (h, hs) = (omega arith, Below-suc n l hs)

  pub Below-insert : (n : ℕ) (v : V) (l : List (ℕ × V)) → Below n l → Below (suc n) (insert n v l)
  unfolding insert
  Below-insert n v l h = (omega arith, Below-remove (suc n) n l (Below-suc n l h))
