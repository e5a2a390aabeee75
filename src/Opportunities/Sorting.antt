-- ===== src/Opportunities/Sorting.antt =====
-- Python's stable sort with `reverse=True`, over a test whether the key of the first is below that
-- of the second: the larger keys come first, and equal keys stay in the order of the list.
use asgard_hl_basisstrategy.Base.{
  ◌≡◌, refl, sym, ◌∙◌, Bool, true, false, ◌&&◌, ◌||◌, not, List, [], ◌∷◌, all, any, filter, length,
  if◌then◌else◌, arith,
}

module _ {A : Type 0} (below : A → A → Bool) where
  abbrev pub insert_by : A → List A → List A
  insert_by x [] = x ∷ []
  insert_by x (y ∷ ys) = if below x y then y ∷ insert_by x ys else x ∷ y ∷ ys

  abbrev pub sort_by : List A → List A
  sort_by [] = []
  sort_by (x ∷ xs) = insert_by x (sort_by xs)

  -- No later element has a greater key.
  abbrev pub descending : List A → Bool
  descending [] = true
  descending (x ∷ xs) = all (λ y. not (below x y)) xs && descending xs

  any-insert_by : (p : A → Bool) (x : A) (ys : List A) → any p (insert_by x ys) ≡ (p x || any p ys)
  any-insert_by p x [] = refl
  any-insert_by p x (y ∷ ys) = ground (arith, any-insert_by p x ys)

  pub any-sort_by : (p : A → Bool) (xs : List A) → any p (sort_by xs) ≡ any p xs
  any-sort_by p [] = refl
  any-sort_by p (x ∷ xs) = ground (arith, any-insert_by p x (sort_by xs), any-sort_by p xs)

  all-insert_by : (p : A → Bool) (x : A) (ys : List A) → all p (insert_by x ys) ≡ (p x && all p ys)
  all-insert_by p x [] = refl
  all-insert_by p x (y ∷ ys) = ground (arith, all-insert_by p x ys)

  pub all-sort_by : (p : A → Bool) (xs : List A) → all p (sort_by xs) ≡ all p xs
  all-sort_by p [] = refl
  all-sort_by p (x ∷ xs) = ground (arith, all-insert_by p x (sort_by xs), all-sort_by p xs)

  count-insert_by :
      (p : A → Bool) (x : A) (ys : List A)
      → length (filter p (insert_by x ys)) ≡ length (filter p (x ∷ ys))
  count-insert_by p x [] = refl
  count-insert_by p x (y ∷ ys) = ground (arith, count-insert_by p x ys)

  -- A sort keeps how many elements pass a test.
  pub count-sort_by :
      (p : A → Bool) (xs : List A) → length (filter p (sort_by xs)) ≡ length (filter p xs)
  count-sort_by p [] = refl
  count-sort_by p (x ∷ xs) = ground (arith, count-insert_by p x (sort_by xs), count-sort_by p xs)

-- A test of keys in a linear order.
pub record IsStrict {A : Type 0} (below : A → A → Bool) : Type 0 where
  pub asymmetric : (x y : A) → below x y ≡ true → below y x ≡ false
  pub splits : (x y z : A) → below x z ≡ true → (below x y || below y z) ≡ true

module _ {A : Type 0} (below : A → A → Bool) (strict : IsStrict below) where
  -- What no key exceeds stays so below a greater key.
  tops_below :
      (x y : A) (ys : List A)
      → below x y ≡ false
      → all (λ z. not (below y z)) ys ≡ true
      → all (λ z. not (below x z)) ys ≡ true
  tops_below x y [] h k = refl
  tops_below x y (z ∷ ys) h k = ground (arith, strict.splits x y z, tops_below x y ys)

  descending-insert_by :
      (x : A) (ys : List A)
      → descending below ys ≡ true
      → descending below (insert_by below x ys) ≡ true
  descending-insert_by x [] h = refl
  descending-insert_by x (y ∷ ys) h = ground (
    arith,
    descending-insert_by x ys,
    all-insert_by below (λ z. not (below y z)) x ys,
    strict.asymmetric x y,
    tops_below x y ys,
  )

  pub descending-sort_by : (xs : List A) → descending below (sort_by below xs) ≡ true
  descending-sort_by [] = refl
  descending-sort_by (x ∷ xs) = descending-insert_by x (sort_by below xs) (descending-sort_by xs)

  irreflexive : (x : A) → below x x ≡ false
  irreflexive x = ground (arith, strict.asymmetric x x)

  -- What a sort puts first has a key that none of the list exceeds, and is of the list; and there is
  -- a first one unless the list is empty.
  abbrev pub First : List A → List A → Type 0
  First xs [] = xs ≡ []
  First xs (o ∷ rest) =
      (all (λ y. not (below o y)) xs ≡ true) × ((p : A → Bool) → p o ≡ true → any p xs ≡ true)

  descending_top :
      (xs ys : List A)
      → descending below ys ≡ true
      → ((p : A → Bool) → all p ys ≡ all p xs)
      → ((p : A → Bool) → any p ys ≡ any p xs)
      → First xs ys
  descending_top [] [] d k j = refl
  descending_top (x ∷ xs) [] d k j = absurd (ground (arith, j (λ y. true)))
  descending_top xs (o ∷ rest) d k j = (
    sym (k (λ y. not (below o y))) ∙ ground (arith, irreflexive o, d),
    λ p h. sym (j p) ∙ ground (arith, h),
  )

  pub sort_by-First : (xs : List A) → First xs (sort_by below xs)
  sort_by-First xs =
      descending_top xs (sort_by below xs) (descending-sort_by xs) (λ p. all-sort_by below p xs)
        (λ p. any-sort_by below p xs)
