-- ===== src/Cfs/Once.antt =====
-- How often a descriptor stands in the table of open files of cfs/src/cfs.c. `cfs_release_file`
-- frees the first entry that it finds, so that a file is gone only if it had no other.
use fusefs_block.Base.{
  ℕ, zero, suc, ◌+◌, ◌/◌, ◌≤◌, ◌≡◌, refl, sym, ap, ◌∙◌, Option, none, some, arith, List, [], ◌∷◌,
  ◌++◌, ℤ, pos, ◌==ℤ◌, ==ℤ_iff, if◌then◌else◌, Bool-cases, inl, inr, get_elem?, set, replicate,
  Bytes, CString,
}
use native.Mathlib.Decide.{dec_le}
use fusefs_block.Io.{minus_one}
use fusefs_block.Cfs.{CfsFile, CfsState, Garbage}
use fusefs_block.Cfs.Table.{find_slot, claim, grow, update_header, cfs_release_file}
use fusefs_block.Cfs.Entries.{pos_inj}
use fusefs_block.Cfs.Slots.{find_slot_holds}
use fusefs_block.Cfs.Invariant.{IsTable, grow_lem, grow_not}

abbrev pub hit : ℕ → ℤ → ℕ
hit fd x = if x ==ℤ pos fd then 1 else 0

unfoldable pub occurs : ℕ → List ℤ → ℕ
occurs fd [] = 0
occurs fd (x ∷ xs) = hit fd x + occurs fd xs

occurs-set :
    (fd : ℕ) (xs : List ℤ) (i : ℕ) (old new : ℤ)
    → get_elem? xs i ≡ some old
    → occurs fd (set xs i new) + hit fd old ≡ occurs fd xs + hit fd new
unfolding occurs
occurs-set fd [] i old new h = cc
occurs-set fd (x ∷ xs) zero old new h = let same : x ≡ old = cc in rw same (omega arith)
occurs-set fd (x ∷ xs) (suc i) old new h = omega (arith, occurs-set fd xs i old new h)

occurs-replicate : (fd n : ℕ) → occurs fd (replicate n minus_one) ≡ 0
unfolding occurs
occurs-replicate fd zero = refl
occurs-replicate fd (suc n) = omega (arith, occurs-replicate fd n)

occurs-append_free :
    (fd n : ℕ) (xs : List ℤ) → occurs fd (xs ++ replicate n minus_one) ≡ occurs fd xs
unfolding occurs
occurs-append_free fd n [] = occurs-replicate fd n
occurs-append_free fd n (x ∷ xs) = ap (λ k. hit fd x + k) (occurs-append_free fd n xs)

-- What does not occur is not found, and the other way round.
pub find_slot-none : (fd j : ℕ) (xs : List ℤ) → occurs fd xs ≡ 0 → find_slot (pos fd) xs j ≡ none
unfolding occurs find_slot
find_slot-none fd j [] h = refl
find_slot-none fd j (x ∷ xs) h = ground (arith, find_slot-none fd (j + 1) xs)

pub occurs-none : (fd j : ℕ) (xs : List ℤ) → find_slot (pos fd) xs j ≡ none → occurs fd xs ≡ 0
unfolding occurs find_slot
occurs-none fd j [] h = refl
occurs-none fd j (x ∷ xs) h = ground (arith, occurs-none fd (j + 1) xs)

pub occurs-grow :
    (garbage : Garbage) (state : CfsState)
    → IsTable state
    → (fd : ℕ) → occurs fd (grow garbage state).fds ≡ occurs fd state.fds
occurs-grow garbage state table fd = elim (dec_le (state.fds_cap / 2) state.n_fds) [
  | yes full ↦
      ap (λ (t : CfsState). occurs fd t.fds) (grow_lem garbage state table full)
      ∙ occurs-append_free fd state.fds_cap state.fds
  | no room ↦ ap (λ (t : CfsState). occurs fd t.fds) (grow_not garbage state table (omega arith))
]

-- A claim puts the descriptor into a free entry.
pub claim-fds :
    (garbage : Garbage) (state after : CfsState) (path : CString) (fd : ℤ) (i : ℕ)
    → claim garbage state path fd ≡ some (i, after)
    → (get_elem? state.fds i ≡ some minus_one) × (after.fds ≡ set state.fds i fd)
unfolding claim
claim-fds garbage state after path fd i h = go (find_slot minus_one state.fds 0) refl
  where
    fds_of : Option (ℕ × CfsState) → Option (ℕ × List ℤ)
    fds_of none = none
    fds_of (some (k, t)) = some (k, t.fds)

    go :
        (o : Option ℕ)
        → find_slot minus_one state.fds 0 ≡ o
        → (get_elem? state.fds i ≡ some minus_one) × (after.fds ≡ set state.fds i fd)
    go none e =
        let never : none ≡ some (i, after) =
          (let none_of : claim garbage state path fd ≡ none = rw (claim, e) refl in
            sym none_of ∙ h) in
        absurd (cc)
    go (some k) e =
        let claimed : fds_of (claim garbage state path fd) ≡ some (k, set state.fds k fd) =
          rw (claim, e) refl in
        let same : some (k, set state.fds k fd) ≡ some (i, after.fds) = sym claimed ∙ ap fds_of h in
        let (l, shift, lt, holds) = find_slot_holds minus_one state.fds 0 k e in
        let here : k ≡ i = cc in
        let there : l ≡ i = omega arith in
        (ap (get_elem? state.fds) (sym there) ∙ holds, sym (cc) ∙ ap (λ n. set state.fds n fd) here)

pub update_header-fds :
    (state : CfsState) (i : ℕ) (a b : Bytes) → (update_header state i a b).fds ≡ state.fds
unfolding update_header
update_header-fds state i a b = go (get_elem? state.files i) refl
  where
    go :
        (o : Option CfsFile)
        → get_elem? state.files i ≡ o
        → (update_header state i a b).fds ≡ state.fds
    go none e = rw (update_header, e) refl
    go (some f) e = rw (update_header, e) refl

hit_self : (fd : ℕ) → hit fd (pos fd) ≡ 1
hit_self fd = ap (λ b. if b then 1 else 0) ((==ℤ_iff (pos fd) (pos fd)).1 refl)

-- Entering a descriptor that is not there leaves every descriptor at most once.
pub once-enter :
    (fd : ℕ) (xs : List ℤ) (i : ℕ)
    → get_elem? xs i ≡ some minus_one
    → occurs fd xs ≡ 0
    → ((other : ℕ) → occurs other xs ≤ 1)
    → (other : ℕ) → occurs other (set xs i (pos fd)) ≤ 1
once-enter fd xs i free absent once other =
    let counts = occurs-set other xs i minus_one (pos fd) free in
    elim (Bool-cases (pos fd ==ℤ pos other)) [
      | inl same ↦
          let e : fd ≡ other = pos_inj ((==ℤ_iff (pos fd) (pos other)).0 same) in
          let none_here : occurs other xs ≡ 0 = ap (λ k. occurs k xs) (sym e) ∙ absent in
          let one : hit other (pos fd) ≡ 1 = ap (λ b. if b then 1 else 0) same in
          omega (arith, none_here, one)
      | inr differ ↦
          let nothing : hit other (pos fd) ≡ 0 = ap (λ b. if b then 1 else 0) differ in
          omega (arith, nothing, once other)
    ]

-- Freeing its entry removes a descriptor that is there once.
pub once-free :
    (fd : ℕ) (xs : List ℤ) (i : ℕ)
    → get_elem? xs i ≡ some (pos fd)
    → ((other : ℕ) → occurs other xs ≤ 1)
    → (occurs fd (set xs i minus_one) ≡ 0) × ((other : ℕ) → occurs other (set xs i minus_one) ≤ 1)
once-free fd xs i here once = (
  omega (arith, occurs-set fd xs i (pos fd) minus_one here, once fd, hit_self fd),
  λ other. omega (arith, occurs-set other xs i (pos fd) minus_one here, once other),
)

-- What releasing a descriptor that is found leaves.
pub release-fds :
    (state : CfsState) (fd : ℤ) (i : ℕ)
    → find_slot fd state.fds 0 ≡ some i
    → (get_elem? state.fds i ≡ some fd)
      × ((cfs_release_file state fd).1.fds ≡ set state.fds i minus_one)
unfolding cfs_release_file
release-fds state fd i e =
    let (l, shift, lt, holds) = find_slot_holds fd state.fds 0 i e in
    let there : l ≡ i = omega arith in
    (ap (get_elem? state.fds) (sym there) ∙ holds, rw (cfs_release_file, e) refl)
