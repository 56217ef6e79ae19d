-- ===== src/Posix/Memory.antt =====
-- A system in memory that behaves as documented. It shows that the laws can be met, and runs
-- the tests: reads and writes may be cut to a number of bytes, and signals interrupt them.
use mathlib.Core.Path.{subst}
use fusefs_block.Base.{
  ℕ, zero, suc, ◌+◌, ◌≤◌, ◌<◌, ◌≡◌, refl, sym, ◌∙◌, ◌⊎◌, inl, inr, max, min, true, ◌&&◌, Option,
  none, some, [], ◌∷◌, arith, if◌then◌else◌, is_some, ℤ, pos, negsuc, ◌+ℤ◌, length, take, drop,
  Bytes, CString,
}
use fusefs_block.Posix.{Posix, Sys, ok, fail, enoent, eintr, eexist, OpenFlags, Whence}
use fusefs_block.Posix.View.{
  View, Descriptor, Descriptors, find_fd, overwrite, can_read, can_write, moved, opened, closed,
  stored, unlinked,
}
use fusefs_block.Posix.Laws.{IsPosix, Gives, base}

pub record Memory : Type 0 where
  pub shown : View
  pub signals : ℕ

-- The lowest descriptor above all that are open.
unfoldable pub next_fd : Descriptors → ℕ
next_fd [] = 3
next_fd ((k, d) ∷ ds) = max (suc k) (next_fd ds)

pub find_fd_above : (fd : ℕ) (ds : Descriptors) → next_fd ds ≤ fd → find_fd fd ds ≡ none
unfolding find_fd next_fd
find_fd_above fd [] h = refl
find_fd_above fd ((k, d) ∷ ds) h = ground (arith, find_fd_above fd ds)

-- An open descriptor with the contents of its file.
pub record Target : Type 0 where
  pub number : ℕ
  pub at : Descriptor
  pub contents : Bytes
  pub path : CString

abbrev pub target_file : ℕ → View → Descriptor → Option CString → Option Target
target_file fd v d none = none
target_file fd v d (some p) = elim (v.files p) [
  | none ↦ none
  | some c ↦ some (record { number = fd; at = d; contents = c; path = p })
]

unfoldable pub target : ℤ → View → Option Target
target (negsuc n) v = none
target (pos fd) v = elim (find_fd fd v.descriptors) [
  | none ↦ none
  | some d ↦ target_file fd v d d.file
]

target_lem :
    (fd : ℕ) (v : View) (d : Descriptor) (p : CString) (c : Bytes)
    → find_fd fd v.descriptors ≡ some d
    → d.file ≡ some p
    → v.files p ≡ some c
    → target (pos fd) v ≡ some (record { number = fd; at = d; contents = c; path = p })
unfolding target
target_lem fd v d p c h hp hc = ground arith

-- At most the limit, where there is one; at least one byte.
unfoldable pub cut : Option ℕ → ℕ → ℕ
cut none n = n
cut (some limit) n = min (suc limit) n

cut_le : (limit : Option ℕ) (n : ℕ) → cut limit n ≤ n
unfolding cut
cut_le none n = omega arith
cut_le (some limit) n = omega arith

cut_pos : (limit : Option ℕ) (n : ℕ) → 0 < n → 0 < cut limit n
unfolding cut
cut_pos none n h = h
cut_pos (some limit) n h = omega arith

abbrev pub show : Memory → View → Memory
show s v = record s { shown = v }

module _ (read_limit write_limit : Option ℕ) where
  unfoldable pub memory_read : ℕ → ℕ → Memory → Target → Sys Bytes × Memory
  memory_read (suc m) n s t = (fail eintr, record s { signals = m })
  memory_read zero n s t =
      let rest = drop t.at.offset t.contents in
      let k = cut read_limit (min n (length rest)) in
      (ok (take k rest), show s (moved s.shown t.number (t.at.offset + k)))

  unfoldable pub memory_write : ℕ → Bytes → Memory → Target → Sys ℕ × Memory
  memory_write (suc m) bs s t = (fail eintr, record s { signals = m })
  memory_write zero bs s t =
      let k = cut write_limit (length bs) in
      (
        ok k,
        show s (
            moved (stored s.shown t.path (some (overwrite t.contents t.at.offset (take k bs))))
              t.number (t.at.offset + k)),
      )

  abbrev pub memory_seek : Memory → Target → ℤ → Sys ℕ × Memory
  memory_seek s t (pos n) = (ok n, show s (moved s.shown t.number n))
  memory_seek s t (negsuc n) = (fail 22, s)

  abbrev pub memory_open : CString → OpenFlags → Memory → Option Bytes → Sys ℕ × Memory
  memory_open p f s none =
      if f.create
      then (
        ok (next_fd s.shown.descriptors),
        show s (opened (stored s.shown p (some [])) (next_fd s.shown.descriptors) p f.access),
      )
      else (fail enoent, s)
  memory_open p f s (some c) = if f.exclusive && f.create then (fail eexist, s) else (
    ok (next_fd s.shown.descriptors),
    show s (opened s.shown (next_fd s.shown.descriptors) p f.access),
  )

  abbrev pub on_fd : {A : Type 0} → ℤ → Memory → (ℕ → Sys A × Memory) → Sys A × Memory
  on_fd (negsuc n) s f = (fail 9, s)
  on_fd (pos fd) s f = elim (find_fd fd s.shown.descriptors) [ none ↦ (fail 9, s) | some d ↦ f fd ]

  abbrev pub memory_os : Posix
  memory_os = record {
    State = Memory;
    open_file = λ p f mode s. memory_open p f s (s.shown.files p);
    close_file = λ fd s. on_fd fd s (λ n. (ok 0, show s (closed s.shown n)));
    read_file = λ fd n s. elim (target fd s.shown) [
      | none ↦ (fail 9, s)
      | some t ↦ if can_read t.at.access then memory_read s.signals n s t else (fail 9, s)
    ];
    write_file = λ fd bs s. elim (target fd s.shown) [
      | none ↦ (fail 9, s)
      | some t ↦ if can_write t.at.access then memory_write s.signals bs s t else (fail 9, s)
    ];
    seek_file = λ fd z whence s. elim (target fd s.shown) [
      | none ↦ (fail 9, s)
      | some t ↦ memory_seek s t (pos (base whence t.at.offset (length t.contents)) +ℤ z)
    ];
    lock_file = λ fd command fl s. on_fd fd s (λ n. (ok 0, s));
    access_f_ok = λ p s. (is_some (s.shown.files p), s);
    unlink_file = λ p s. elim (s.shown.files p) [
      | none ↦ (fail enoent, s)
      | some c ↦ (ok 0, show s (unlinked s.shown p))
    ];
    stat_path = λ p s. (fail enoent, s);
    make_dir = λ p mode s. (ok 0, s);
  }

  -- The cases of a read and of a write.
  abbrev pub Reads : ℕ → Memory → Target → Sys Bytes × Memory → Type 0
  Reads n s t out =
      ((m : ℕ) × (m < s.signals) × Gives Memory.shown Memory.signals out (fail eintr) s.shown m)
      ⊎ ((k : ℕ) × (k ≤ n)
          × (k ≤ length (drop t.at.offset t.contents))
          × (0 < n → 0 < length (drop t.at.offset t.contents) → 0 < k)
          × Gives Memory.shown Memory.signals out (ok (take k (drop t.at.offset t.contents)))
              (moved s.shown t.number (t.at.offset + k)) s.signals)

  pub memory_read_lem :
      (m n : ℕ) (s : Memory) (t : Target) → s.signals ≡ m → Reads n s t (memory_read m n s t)
  unfolding memory_read
  memory_read_lem (suc m) n s t e =
      inl (m, omega arith, record { result = refl; view_after = refl; pending_after = omega arith })
  memory_read_lem zero n s t e =
      let len = length (drop t.at.offset t.contents) in
      inr (
        cut read_limit (min n len),
        omega (arith, cut_le read_limit (min n len)),
        omega (arith, cut_le read_limit (min n len)),
        λ h k. cut_pos read_limit (min n len) (omega arith),
        record { result = refl; view_after = refl; pending_after = omega arith },
      )

  abbrev pub Writes : Bytes → Memory → Target → Sys ℕ × Memory → Type 0
  Writes bs s t out =
      ((m : ℕ) × (m < s.signals) × Gives Memory.shown Memory.signals out (fail eintr) s.shown m)
      ⊎ ((k : ℕ) × (k ≤ length bs)
          × (0 < length bs → 0 < k)
          × Gives Memory.shown Memory.signals out (ok k)
              (moved (stored s.shown t.path (some (overwrite t.contents t.at.offset (take k bs))))
                t.number (t.at.offset + k))
              s.signals)

  pub memory_write_lem :
      (m : ℕ) (bs : Bytes) (s : Memory) (t : Target)
      → s.signals ≡ m
      → Writes bs s t (memory_write m bs s t)
  unfolding memory_write
  memory_write_lem (suc m) bs s t e =
      inl (m, omega arith, record { result = refl; view_after = refl; pending_after = omega arith })
  memory_write_lem zero bs s t e = inr (
    cut write_limit (length bs),
    cut_le write_limit (length bs),
    λ h. cut_pos write_limit (length bs) h,
    record { result = refl; view_after = refl; pending_after = omega arith },
  )

  pub Gives-eq :
      {A : Type 0} (s : Memory) (out : Sys A × Memory) {a : Sys A} {s' : Memory}
      → out ≡ (a, s')
      → s'.signals ≡ s.signals
      → Gives Memory.shown Memory.signals out a s'.shown s.signals
  Gives-eq s out e h = record {
    result = λ i. (e i).0;
    view_after = λ i. (e i).1.shown;
    pending_after = let g : out.1.signals ≡ s.signals = (λ i. (e i).1.signals) ∙ h in omega arith;
  }

  pub read_as :
      (s : Memory) (fd n : ℕ) (d : Descriptor) (p : CString) (c : Bytes)
      → find_fd fd s.shown.descriptors ≡ some d
      → d.file ≡ some p
      → can_read d.access ≡ true
      → s.shown.files p ≡ some c
      → memory_os.read_file (pos fd) n s
        ≡ memory_read s.signals n s (record { number = fd; at = d; contents = c; path = p })
  read_as s fd n d p c h hp ha hc = ground (arith, target_lem fd s.shown d p c h hp hc)

  pub write_as :
      (s : Memory) (fd : ℕ) (bs : Bytes) (d : Descriptor) (p : CString) (c : Bytes)
      → find_fd fd s.shown.descriptors ≡ some d
      → d.file ≡ some p
      → can_write d.access ≡ true
      → s.shown.files p ≡ some c
      → memory_os.write_file (pos fd) bs s
        ≡ memory_write s.signals bs s (record { number = fd; at = d; contents = c; path = p })
  write_as s fd bs d p c h hp ha hc = ground (arith, target_lem fd s.shown d p c h hp hc)

  pub seek_as :
      (s : Memory) (fd : ℕ) (z : ℤ) (whence : Whence) (n : ℕ) (d : Descriptor) (p : CString)
      (c : Bytes)
      → find_fd fd s.shown.descriptors ≡ some d
      → d.file ≡ some p
      → s.shown.files p ≡ some c
      → pos (base whence d.offset (length c)) +ℤ z ≡ pos n
      → memory_os.seek_file (pos fd) z whence s ≡ (ok n, show s (moved s.shown fd n))
  seek_as s fd z whence n d p c h hp hc x = ground (arith, target_lem fd s.shown d p c h hp hc)

  abbrev pub memory_os-IsPosix : IsPosix memory_os
  memory_os-IsPosix = record {
    view = λ s. s.shown;
    pending = λ s. s.signals;
    usable = λ p. true;
    creatable = λ p mode. true;
    usable_creatable = λ p mode u owner. refl;
    fresh = λ v. next_fd v.descriptors;
    fresh_free = λ v. find_fd_above _ v.descriptors (omega arith);
    open_existing = λ s p f mode u h x. Gives-eq s _ (rw (h, memory_open, x)) refl;
    open_missing = λ s p f mode u h x. Gives-eq s _ (rw (h, memory_open, x)) refl;
    open_creating = λ s p f mode u h x. Gives-eq s _ (rw (h, memory_open, x)) refl;
    open_exclusive = λ s p f mode u h x y. Gives-eq s _ (rw (h, memory_open, y, x)) refl;
    close_lem = λ s fd h. Gives-eq s _ (rw (h, on_fd)) refl;
    read_lem = λ s fd n {d} {p} {c} h hp ha hc.
        subst (Reads n s (record { number = fd; at = d; contents = c; path = p }))
          (sym (read_as s fd n d p c h hp ha hc))
          (memory_read_lem s.signals n s (record { number = fd; at = d; contents = c; path = p })
            refl);
    write_lem = λ s fd bs {d} {p} {c} h hp ha hc.
        subst (Writes bs s (record { number = fd; at = d; contents = c; path = p }))
          (sym (write_as s fd bs d p c h hp ha hc))
          (memory_write_lem s.signals bs s (record { number = fd; at = d; contents = c; path = p })
            refl);
    seek_lem = λ s fd z whence n {d} {p} {c} h hp hc x.
        Gives-eq s _ (seek_as s fd z whence n d p c h hp hc x) refl;
    lock_lem = λ s fd command fl h. Gives-eq s _ (rw (h, on_fd)) refl;
    access_lem = λ s p u. (refl, refl, omega arith);
    unlink_lem = λ s p u h. Gives-eq s _ (rw h) refl;
  }
