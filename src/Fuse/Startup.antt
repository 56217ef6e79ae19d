-- ===== src/Fuse/Startup.antt =====
-- When `main` of cfs/src/bbfs.c mounts.
use fusefs_block.Base.{
  ℕ, zero, suc, ◌+◌, ◌-◌, ◌≤◌, ◌<◌, ◌≡◌, ◌≢◌, ◌↔◌, refl, sym, ap, ◌∙◌, Bool, Bool-cases, ◌⊎◌, inl,
  inr, is_some, is_neg, ℤ, pos, negsuc, none, true, false, ◌||◌, ltb, lt→ltb, ◌==◌, Option, some,
  arith, List, [], ◌∷◌, ◌++◌, if◌then◌else◌, length, length-append, take, set, set-append,
  get_elem?, CString,
}
use native.Mathlib.Decide.{dec_le}
use mathlib.Core.Path.{subst}
use fusefs_block.Cfs.Slots.{take_of_append}
use fusefs_block.Fuse.Main.{
  Startup, exit_status, usage, crashed, fuse_main, is_option, drop_root, start, main,
}

-- Every list of two or more arguments ends in two.
last_two :
    (argv : List CString)
    → 2 ≤ length argv
    → (front : List CString) × (dir : CString) × (mount : CString) × (argv
        ≡ front ++ (dir ∷ mount ∷ []))
last_two [] h = absurd (omega arith)
last_two (a ∷ []) h = absurd (omega arith)
last_two (a ∷ b ∷ []) h = ([], a, b, refl)
last_two (a ∷ b ∷ c ∷ rest) h =
    let (front, dir, mount, e) = last_two (b ∷ c ∷ rest) (omega arith) in
    (a ∷ front, dir, mount, ap (λ t. a ∷ t) e)

get_elem?-behind :
    {A : Type 0} (front back : List A) (k n : ℕ)
    → n ≡ length front + k
    → get_elem? (front ++ back) n ≡ get_elem? back k
get_elem?-behind [] back k n e = ap (get_elem? back) (let same : n ≡ k = omega arith in same)
get_elem?-behind (x ∷ front) back k zero e = absurd (omega arith)
get_elem?-behind (x ∷ front) back k (suc n) e = get_elem?-behind front back k n (omega arith)

-- The root directory is taken out of the arguments.
drop_root-lem_at :
    (front : List CString) (dir mount : CString) (n : ℕ)
    → n ≡ length front
    → take (n + 1) (set (front ++ (dir ∷ mount ∷ [])) n mount) ≡ front ++ (mount ∷ [])
drop_root-lem_at front dir mount n e =
    ap (λ k. take (n + 1) (set (front ++ (dir ∷ mount ∷ [])) k mount)) e
    ∙ ap (take (n + 1)) (set-append front (mount ∷ []) dir mount)
    ∙ take_of_append front (mount ∷ mount ∷ []) (n + 1) 1 (omega arith)

abbrev arguments : List CString → CString → CString → List CString
arguments front dir mount = front ++ (dir ∷ mount ∷ [])

module _ (front : List CString) (dir mount : CString) where
  count : length (arguments front dir mount) ≡ length front + 2
  count = length-append front (dir ∷ mount ∷ [])

  at_dir : get_elem? (arguments front dir mount) (length (arguments front dir mount) - 2) ≡ some dir
  at_dir =
      get_elem?-behind front (dir ∷ mount ∷ []) 0 (length (arguments front dir mount) - 2)
        (omega (arith, count))

  at_mount :
      get_elem? (arguments front dir mount) (length (arguments front dir mount) - 1) ≡ some mount
  at_mount =
      get_elem?-behind front (dir ∷ mount ∷ []) 1 (length (arguments front dir mount) - 1)
        (omega (arith, count))

  drop_root_lem : drop_root (arguments front dir mount) ≡ front ++ (mount ∷ [])
  unfolding drop_root
  drop_root_lem =
      rw (drop_root, at_mount)
        (ap
            (λ k.
              take k
                (set (arguments front dir mount) (length (arguments front dir mount) - 2) mount))
            (let e : length (arguments front dir mount) - 1
                  ≡ length (arguments front dir mount) - 2 + 1 =
                omega (arith, count) in
              e)
          ∙ drop_root-lem_at front dir mount (length (arguments front dir mount) - 2)
              (omega (arith, count)))

  -- `main` on arguments that end in two, by its tests.
  main-arguments :
      (realpath : CString → Option CString) (log_opens : Bool) (max_fds : ℤ) (uid euid : ℕ)
      → main realpath log_opens max_fds uid euid (arguments front dir mount) ≡ (
          if (uid == 0) || (euid == 0)
          then exit_status 1
          else if ltb (length front + 2) 3 || (is_option (some dir) || is_option (some mount))
          then usage
          else start log_opens max_fds (front ++ (mount ∷ [])) (realpath dir))
  unfolding main
  main-arguments realpath log_opens max_fds uid euid =
      rw (at_dir, at_mount, drop_root_lem, count) refl

-- A call of the program that mounts.
pub record Mounts (uid euid : ℕ) (argv front : List CString) (dir mount : CString) : Type 0 where
  pub no_root : uid ≢ 0
  pub no_effective_root : euid ≢ 0
  pub split : argv ≡ front ++ (dir ∷ mount ∷ [])
  pub some_front : front ≢ []
  pub dir_no_option : is_option (some dir) ≡ false
  pub mount_no_option : is_option (some mount) ≡ false

is_fuse_main : Startup → Bool
is_fuse_main (exit_status n) = false
is_fuse_main usage = false
is_fuse_main crashed = false
is_fuse_main (fuse_main argv root) = true

-- With fewer than two arguments `main` stops.
main_short :
    (realpath : CString → Option CString) (log_opens : Bool) (max_fds : ℤ) (uid euid : ℕ)
    (argv : List CString)
    → length argv < 2
    → is_fuse_main (main realpath log_opens max_fds uid euid argv) ≡ false
unfolding main is_fuse_main
main_short realpath log_opens max_fds uid euid argv short =
    let few : ltb (length argv) 3 ≡ true = lt→ltb (length argv) 3 (omega arith) in
    rw few (elim (Bool-cases ((uid == 0) || (euid == 0))) [ inl e ↦ rw e refl | inr e ↦ rw e refl ])

stopped :
    (startup : Startup)
    → is_fuse_main startup ≡ false
    → (args : List CString) (root : Option CString) → startup ≢ fuse_main args root
unfolding is_fuse_main
stopped (exit_status n) e args root h = cc
stopped usage e args root h = cc
stopped crashed e args root h = cc
stopped (fuse_main args' root') e args root h = cc

-- The tests of `main`.
abbrev tested : Bool → Bool → Startup → Startup
tested superuser misused startup =
    if superuser then exit_status 1 else if misused then usage else startup

tested-fuse_main :
    (superuser misused : Bool) (startup : Startup) (args : List CString) (root : Option CString)
    → tested superuser misused startup ≡ fuse_main args root
    → (superuser ≡ false) × (misused ≡ false) × (startup ≡ fuse_main args root)
tested-fuse_main true misused startup args root h = absurd (cc)
tested-fuse_main false true startup args root h = absurd (cc)
tested-fuse_main false false startup args root h = (refl, refl, h)

-- Whether the root directory is measured before libfuse is called, and is not there.
abbrev pub Survives : ℤ → Option CString → Type 0
Survives max_fds root = (is_neg max_fds ≡ true) ⊎ (is_some root ≡ true)

-- What stands between the arguments and libfuse.
start-fuse_main :
    (log_opens : Bool) (max_fds : ℤ) (args args' : List CString) (root root' : Option CString)
    → start log_opens max_fds args' root' ≡ fuse_main args root
    → (log_opens ≡ true) × Survives max_fds root' × (args ≡ args') × (root ≡ root')
unfolding start
start-fuse_main false max_fds args args' root root' h = absurd (cc)
start-fuse_main true (negsuc n) args args' root root' h = (refl, inl refl, cc, cc)
start-fuse_main true (pos n) args args' root none h = absurd (cc)
start-fuse_main true (pos n) args args' root (some r) h = (refl, inr refl, cc, cc)

start_lem :
    (log_opens : Bool) (max_fds : ℤ) (args : List CString) (root : Option CString)
    → log_opens ≡ true
    → Survives max_fds root
    → start log_opens max_fds args root ≡ fuse_main args root
unfolding start
start_lem false max_fds args root e survives = absurd (cc)
start_lem true (negsuc n) args root e survives = refl
start_lem true (pos n) args none e (inl u) = absurd (cc)
start_lem true (pos n) args none e (inr u) = absurd (cc)
start_lem true (pos n) args (some r) e survives = refl

-- What it means that the tests pass.
tests_pass :
    (uid euid : ℕ) (front : List CString) (dir mount : CString)
    → ((uid == 0) || (euid == 0)) ≡ false
    → (ltb (length front + 2) 3 || (is_option (some dir) || is_option (some mount))) ≡ false
    → Mounts uid euid (arguments front dir mount) front dir mount
tests_pass uid euid front dir mount user args = record {
  no_root = ground arith;
  no_effective_root = ground arith;
  split = refl;
  some_front = λ e. nonempty (ap length e);
  dir_no_option = ground arith;
  mount_no_option = ground arith;
}
  where
    nonempty : length front ≢ 0
    nonempty e = ground arith

Mounts-tests :
    (uid euid : ℕ) (front : List CString) (dir mount : CString)
    → Mounts uid euid (arguments front dir mount) front dir mount
    → (((uid == 0) || (euid == 0)) ≡ false)
      × ((ltb (length front + 2) 3 || (is_option (some dir) || is_option (some mount))) ≡ false)
Mounts-tests uid euid [] dir mount m = absurd (m.some_front refl)
Mounts-tests uid euid (a ∷ front) dir mount m = (
  ground (arith, m.no_root, m.no_effective_root),
  rw (m.dir_no_option, m.mount_no_option) (ground arith),
)

module _ (realpath : CString → Option CString) (log_opens : Bool) (max_fds : ℤ) (uid euid : ℕ)
    (argv args : List CString) (root : Option CString) where
  -- `main` reaches the call of libfuse exactly if neither the user nor the effective user is
  -- root, there are two arguments behind at least one other, neither of these two begins with a
  -- hyphen, the log can be opened, and the last but one has a real path, without which
  -- `init_storage` measures a null pointer unless `cfs_init` gives up because `sysconf` fails.
  -- libfuse then gets the arguments without the last but one, and the root directory is the real
  -- path of that one.
  pub main_lem : (main realpath log_opens max_fds uid euid argv ≡ fuse_main args root) ↔ (
      (front : List CString) × (dir : CString) × (mount : CString) × Mounts uid euid argv front dir
        mount
      × (log_opens ≡ true)
      × Survives max_fds (realpath dir)
      × (args ≡ front ++ (mount ∷ []))
      × (root ≡ realpath dir))
  main_lem = (
    reaches,
    λ (front, dir, mount, m, opens, survives, same_args, same_root).
        let (user, misused) =
          Mounts-tests uid euid front dir mount
            (subst (λ t. Mounts uid euid t front dir mount) m.split m) in
        let begun : Startup = start log_opens max_fds (front ++ (mount ∷ [])) (realpath dir) in
        ap (main realpath log_opens max_fds uid euid) m.split
        ∙ main-arguments front dir mount realpath log_opens max_fds uid euid
        ∙ ap
            (λ b.
              tested b
                (ltb (length front + 2) 3 || (is_option (some dir) || is_option (some mount)))
                begun)
            user
        ∙ ap (λ b. tested false b begun) misused
        ∙ start_lem log_opens max_fds (front ++ (mount ∷ [])) (realpath dir) opens survives
        ∙ (λ i. fuse_main (sym same_args i) (sym same_root i)),
  )
    where
      Reached : Type 0
      Reached =
          (front : List CString) × (dir : CString) × (mount : CString) × Mounts uid euid argv front
            dir mount
          × (log_opens ≡ true)
          × Survives max_fds (realpath dir)
          × (args ≡ front ++ (mount ∷ []))
          × (root ≡ realpath dir)

      at_arguments :
          (front : List CString) (dir mount : CString)
          → argv ≡ arguments front dir mount
          → main realpath log_opens max_fds uid euid argv ≡ fuse_main args root
          → Reached
      at_arguments front dir mount e h =
          let (user, misused, begun) = tested-fuse_main _ _ _ args root (
            sym (
              ap (main realpath log_opens max_fds uid euid) e
              ∙ main-arguments front dir mount realpath log_opens max_fds uid euid)
            ∙ h) in
          let (opens, survives, same_args, same_root) =
            start-fuse_main log_opens max_fds args _ root _ begun in
          (
            front,
            dir,
            mount,
            subst (λ t. Mounts uid euid t front dir mount) (sym e)
                (tests_pass uid euid front dir mount user misused),
            opens,
            survives,
            same_args,
            same_root,
          )

      reaches : main realpath log_opens max_fds uid euid argv ≡ fuse_main args root → Reached
      reaches h = elim (dec_le 2 (length argv)) [
        | yes two ↦
            let (front, dir, mount, e) = last_two argv two in at_arguments front dir mount e h
        | no short ↦ absurd (
            stopped _ (main_short realpath log_opens max_fds uid euid argv (omega arith)) args root
              h)
      ]
