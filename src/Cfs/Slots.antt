-- ===== src/Cfs/Slots.antt =====
-- The array `fds` of cfs/src/cfs.c: clearing, searching and counting its entries.
use fusefs_block.Base.{
  ℕ, zero, suc, ◌+◌, ◌≤◌, ◌<◌, ◌≡◌, ◌≢◌, refl, sym, ap, ◌∙◌, false, none, some, List, [], ◌∷◌, ◌++◌,
  arith, if◌then◌else◌, Bool-cases, inl, inr, ℤ, pos, ◌==ℤ◌, ==ℤ_iff, length, take, drop, get_elem?,
  set, replicate, length-set, take-all,
}
use mathlib.Core.List.{append_assoc, append-nil}
use native.Mathlib.Numerals.{add-one}
use fusefs_block.Io.{minus_one}
use fusefs_block.Cfs.Table.{clear_from, find_slot}

module _ {ℓ} {A : Type ℓ} where
  pub replicate-append :
      (n m : ℕ) (a : A) (k : ℕ) → k ≡ n + m → replicate n a ++ replicate m a ≡ replicate k a
  replicate-append zero m a k e = let e' : m ≡ k = omega arith in rw e'
  replicate-append (suc n) m a zero e = absurd (omega arith)
  replicate-append (suc n) m a (suc k) e = ap (λ t. a ∷ t) (replicate-append n m a k (omega arith))

  pub take_of_append :
      (xs ys : List A) (n m : ℕ) → n ≡ length xs + m → take n (xs ++ ys) ≡ xs ++ take m ys
  take_of_append [] ys n m e = let e' : n ≡ m = omega arith in rw e'
  take_of_append (x ∷ xs) ys zero m e = absurd (omega arith)
  take_of_append (x ∷ xs) ys (suc n) m e = ap (λ t. x ∷ t) (take_of_append xs ys n m (omega arith))

  pub take-replicate :
      (n m : ℕ) (a : A) (ys : List A) → n ≤ m → take n (replicate m a ++ ys) ≡ replicate n a
  take-replicate zero m a ys h = refl
  take-replicate (suc n) zero a ys h = absurd (omega arith)
  take-replicate (suc n) (suc m) a ys h = ap (λ t. a ∷ t) (take-replicate n m a ys (omega arith))

  take-set :
      (xs : List A) (i : ℕ) (x : A)
      → i < length xs
      → take (suc i) (set xs i x) ≡ take i xs ++ (x ∷ [])
  take-set [] i x h = absurd (omega arith)
  take-set (y ∷ xs) zero x h = refl
  take-set (y ∷ xs) (suc i) x h = ap (λ t. y ∷ t) (take-set xs i x (omega arith))

  pub drop-set : (xs : List A) (i n : ℕ) (x : A) → i < n → drop n (set xs i x) ≡ drop n xs
  drop-set [] i n x h = refl
  drop-set (y ∷ xs) i zero x h = absurd (omega arith)
  drop-set (y ∷ xs) zero (suc n) x h = refl
  drop-set (y ∷ xs) (suc i) (suc n) x h = drop-set xs i n x (omega arith)

  pub get_elem?-set_self :
      (xs : List A) (i : ℕ) (v : A) → i < length xs → get_elem? (set xs i v) i ≡ some v
  get_elem?-set_self [] i v h = absurd (omega arith)
  get_elem?-set_self (x ∷ xs) zero v h = refl
  get_elem?-set_self (x ∷ xs) (suc i) v h = get_elem?-set_self xs i v (omega arith)

  pub get_elem?-set_ne :
      (xs : List A) (i j : ℕ) (v : A) → i ≢ j → get_elem? (set xs i v) j ≡ get_elem? xs j
  get_elem?-set_ne [] i j v h = refl
  get_elem?-set_ne (x ∷ xs) zero zero v h = absurd (h refl)
  get_elem?-set_ne (x ∷ xs) zero (suc j) v h = refl
  get_elem?-set_ne (x ∷ xs) (suc i) zero v h = refl
  get_elem?-set_ne (x ∷ xs) (suc i) (suc j) v h = get_elem?-set_ne xs i j v (λ e. h (ap suc e))

  pub get_elem?-append :
      (xs ys : List A) (i : ℕ) → i < length xs → get_elem? (xs ++ ys) i ≡ get_elem? xs i
  get_elem?-append [] ys i h = absurd (omega arith)
  get_elem?-append (x ∷ xs) ys zero h = refl
  get_elem?-append (x ∷ xs) ys (suc i) h = get_elem?-append xs ys i (omega arith)

-- Clearing from `i` on leaves the entries before `i`.
pub clear_from_lem :
    (rounds i : ℕ) (xs : List ℤ)
    → i + rounds ≡ length xs
    → clear_from rounds i xs ≡ take i xs ++ replicate rounds minus_one
unfolding clear_from
clear_from_lem zero i xs e = sym (append-nil (take i xs) ∙ take-all i xs (omega arith))
clear_from_lem (suc rounds) i xs e =
    clear_from_lem rounds (i + 1) (set xs i minus_one) (omega (arith, length-set xs i minus_one))
    ∙ ap (λ n. take n (set xs i minus_one) ++ replicate rounds minus_one) (add-one i)
    ∙ ap (λ t. t ++ replicate rounds minus_one) (take-set xs i minus_one (omega arith))
    ∙ append_assoc (take i xs) (minus_one ∷ []) (replicate rounds minus_one)

-- The number of entries in use.
unfoldable pub used : List ℤ → ℕ
used [] = 0
used (x ∷ xs) = if x ==ℤ minus_one then used xs else suc (used xs)

pub used-append_free : (xs : List ℤ) (n : ℕ) → used (xs ++ replicate n minus_one) ≡ used xs
unfolding used
used-append_free [] zero = refl
used-append_free [] (suc n) = used-append_free [] n
used-append_free (x ∷ xs) n = ground (arith, used-append_free xs n)

-- Where an entry is free the search finds one, no further than the number of those in use.
pub find_free :
    (xs : List ℤ) (j : ℕ)
    → used xs < length xs
    → (i : ℕ) × (find_slot minus_one xs j ≡ some (j + i))
      × (i ≤ used xs)
      × (get_elem? xs i ≡ some minus_one)
unfolding used find_slot
find_free [] j h = absurd (omega arith)
find_free (x ∷ xs) j h = elim (Bool-cases (x ==ℤ minus_one)) [
  | inl free ↦
      (0, rw free (ap some (omega arith)), omega arith, ap some ((==ℤ_iff x minus_one).0 free))
  | inr taken ↦ further taken (find_free xs (j + 1) (rest taken))
]
  where
    rest : (x ==ℤ minus_one) ≡ false → used xs < length xs
    rest taken = ground arith

    further :
        (x ==ℤ minus_one) ≡ false
        → ((i : ℕ) × (find_slot minus_one xs (j + 1) ≡ some (j + 1 + i))
            × (i ≤ used xs)
            × (get_elem? xs i ≡ some minus_one))
        → (i : ℕ) × ((if x ==ℤ minus_one then some j else find_slot minus_one xs (j + 1))
            ≡ some (j + i))
          × (i ≤ (if x ==ℤ minus_one then used xs else suc (used xs)))
          × (get_elem? (x ∷ xs) i ≡ some minus_one)
    further taken (i, found, le, free) =
        (suc i, rw taken (found ∙ ap some (shift i)), rw taken (omega arith), free)
      where
        shift : (i : ℕ) → j + 1 + i ≡ j + suc i
        shift i = omega arith

-- An entry that is found holds what was looked for.
pub find_slot_holds :
    (fd : ℤ) (xs : List ℤ) (j k : ℕ)
    → find_slot fd xs j ≡ some k
    → (i : ℕ) × (k ≡ j + i) × (i < length xs) × (get_elem? xs i ≡ some fd)
unfolding find_slot
find_slot_holds fd [] j k h = cc
find_slot_holds fd (x ∷ xs) j k h = elim (Bool-cases (x ==ℤ fd)) [
  | inl same ↦ (0, ground arith, omega arith, ap some ((==ℤ_iff x fd).0 same))
  | inr other ↦ further (find_slot_holds fd xs (j + 1) k (rw other at h))
]
  where
    further :
        ((i : ℕ) × (k ≡ j + 1 + i) × (i < length xs) × (get_elem? xs i ≡ some fd))
        → (i : ℕ) × (k ≡ j + i) × (i < length (x ∷ xs)) × (get_elem? (x ∷ xs) i ≡ some fd)
    further (i, e, lt, g) = (suc i, omega arith, omega arith, g)

-- A free entry that is taken counts as used, and is found unless the value was there already.
pub used-set :
    (xs : List ℤ) (i fd : ℕ)
    → get_elem? xs i ≡ some minus_one
    → used (set xs i (pos fd)) ≡ suc (used xs)
unfolding used
used-set [] i fd h = cc
used-set (x ∷ xs) zero fd h = ground arith
used-set (x ∷ xs) (suc i) fd h = ground (arith, used-set xs i fd h)

pub used-set_free :
    (xs : List ℤ) (i fd : ℕ)
    → get_elem? xs i ≡ some (pos fd)
    → suc (used (set xs i minus_one)) ≡ used xs
unfolding used
used-set_free [] i fd h = cc
used-set_free (x ∷ xs) zero fd h = ground arith
used-set_free (x ∷ xs) (suc i) fd h = ground (arith, used-set_free xs i fd h)

pub find_slot-set_self :
    (fd : ℤ) (xs : List ℤ) (i j : ℕ)
    → find_slot fd xs j ≡ none
    → i < length xs
    → find_slot fd (set xs i fd) j ≡ some (j + i)
unfolding find_slot
find_slot-set_self fd [] i j h lt = absurd (omega arith)
find_slot-set_self fd (x ∷ xs) zero j h lt = ground (arith, (==ℤ_iff fd fd).1 refl)
find_slot-set_self fd (x ∷ xs) (suc i) j h lt = ground (arith, find_slot-set_self fd xs i (j + 1))

-- An entry that holds another value does not matter to a search.
pub find_slot-set_ne :
    (other : ℤ) (xs : List ℤ) (i j : ℕ) (old new : ℤ)
    → get_elem? xs i ≡ some old
    → (old ==ℤ other) ≡ false
    → (new ==ℤ other) ≡ false
    → find_slot other (set xs i new) j ≡ find_slot other xs j
unfolding find_slot
find_slot-set_ne other [] i j old new h e f = refl
find_slot-set_ne other (x ∷ xs) zero j old new h e f = let same : x ≡ old = cc in rw (same, e, f)
find_slot-set_ne other (x ∷ xs) (suc i) j old new h e f =
    rw (find_slot-set_ne other xs i (j + 1) old new h e f)

pub find_slot-append_free :
    (fd n j : ℕ) (xs : List ℤ)
    → find_slot (pos fd) (xs ++ replicate n minus_one) j ≡ find_slot (pos fd) xs j
unfolding find_slot
find_slot-append_free fd zero j [] = refl
find_slot-append_free fd (suc n) j [] = find_slot-append_free fd n (j + 1) []
find_slot-append_free fd n j (x ∷ xs) = rw (find_slot-append_free fd n (j + 1) xs)
