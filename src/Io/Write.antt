-- ===== src/Io/Write.antt =====
-- `s_write` of cfs/src/io.c: all bytes reach the file, whatever short writes and interruptions
-- occur; the result is the count of the last call.
use fusefs_block.Base.{
  ℕ, zero, suc, ◌+◌, ◌≤◌, ◌<◌, ◌≡◌, refl, ap, ◌∙◌, true, some, inl, inr, arith, ltb, lt→ltb, le→ltb,
  Bool-cases, ℤ, pos, length, length-take, length-drop, take, drop, take-append-drop, take-all,
  Bytes, CString,
}
use fusefs_block.Posix.{Posix, Sys-cases, ok, fail, eintr, call, pure, ◌>>=◌}
use fusefs_block.Posix.View.{
  View, Descriptor, find_fd, put_file, put_file_self, put_file-put_file, seek_fd, seek_fd-seek_fd,
  find_fd-seek_fd, can_write, overwrite, moved, stored,
}
use fusefs_block.Posix.Overwrite.{overwrite-overwrite}
use fusefs_block.Posix.Laws.{IsPosix, Gives}
use fusefs_block.Posix.Runs.{Ends, Runs, Ends-step, Ends-cast}
use fusefs_block.Io.{s_write}

module _ (os : Posix) (fuel fd : ℕ) (buf : Bytes) (s : os.State) where
  -- One round of the loop, on each branch.
  round_again :
      (os.write_file (pos fd) buf s).0 ≡ fail eintr
      → 0 < length buf
      → s_write os (suc fuel) (pos fd) buf s
        ≡ s_write os fuel (pos fd) buf (os.write_file (pos fd) buf s).1
  unfolding s_write ◌>>=◌ call
  round_again e h = rw (e, lt→ltb 0 _ h)

  round_more :
      (k : ℕ)
      → (os.write_file (pos fd) buf s).0 ≡ ok k
      → k < length buf
      → s_write os (suc fuel) (pos fd) buf s
        ≡ s_write os fuel (pos fd) (drop k buf) (os.write_file (pos fd) buf s).1
  unfolding s_write ◌>>=◌ call
  round_more k e h = rw (e, lt→ltb _ _ h)

  round_done :
      (k : ℕ)
      → (os.write_file (pos fd) buf s).0 ≡ ok k
      → length buf ≤ k
      → s_write os (suc fuel) (pos fd) buf s ≡ some (pos k, (os.write_file (pos fd) buf s).1)
  unfolding s_write ◌>>=◌ call pure
  round_done k e h = rw (e, le→ltb _ _ h)

module _ {os : Posix} (law : IsPosix os) (signals : ℕ) where
  -- The loop ends in the view with the count of a last call, which wrote something.
  pub record Writes (fuel fd : ℕ) (buf : Bytes) (s : os.State) (w : View) : Type 0 where
    pub last : ℕ
    pub last_pos : 0 < last
    pub last_le : last ≤ length buf
    pub ends : Ends law signals (s_write os fuel (pos fd) buf) s (pos last) w

-- The view after a write at the descriptor's offset.
abbrev pub written : View → ℕ → Descriptor → CString → Bytes → Bytes → View
written v fd d p c bs =
    moved (stored v p (some (overwrite c d.offset bs))) fd (d.offset + length bs)

written_twice :
    (v : View) (fd : ℕ) (d : Descriptor) (p : CString) (c buf : Bytes) (k : ℕ)
    → k ≤ length buf
    → let v' = moved (stored v p (some (overwrite c d.offset (take k buf)))) fd (d.offset + k) in
      written v' fd
        (record d { offset = d.offset + k })
        p
        (overwrite c d.offset (take k buf))
        (drop k buf)
      ≡ written v fd d p c buf
written_twice v fd d p c buf k h = λ i. record { files = files i; descriptors = descriptors i }
  where
    contents :
        overwrite (overwrite c d.offset (take k buf)) (d.offset + k) (drop k buf)
        ≡ overwrite c d.offset buf
    contents =
        overwrite-overwrite c d.offset (take k buf) (drop k buf) (d.offset + k)
          (omega (arith, length-take k buf))
        ∙ ap (overwrite c d.offset) (take-append-drop k buf)

    files :
        put_file p
          (some (overwrite (overwrite c d.offset (take k buf)) (d.offset + k) (drop k buf)))
          (put_file p (some (overwrite c d.offset (take k buf))) v.files)
        ≡ put_file p (some (overwrite c d.offset buf)) v.files
    files = put_file-put_file p _ _ v.files ∙ ap (λ t. put_file p (some t) v.files) contents

    reach : d.offset + k + length (drop k buf) ≡ d.offset + length buf
    reach = omega (arith, length-drop k buf)

    descriptors :
        seek_fd fd (d.offset + k + length (drop k buf)) (seek_fd fd (d.offset + k) v.descriptors)
        ≡ seek_fd fd (d.offset + length buf) v.descriptors
    descriptors = seek_fd-seek_fd fd _ _ v.descriptors ∙ ap (λ n. seek_fd fd n v.descriptors) reach

module _ {os : Posix} (law : IsPosix os) (signals : ℕ) (fd : ℕ) (p : CString) where
  abbrev LoopWrites : ℕ → Type 0
  LoopWrites fuel =
      (buf : Bytes) (v : View) (d : Descriptor) (c : Bytes) (s : os.State)
      → find_fd fd v.descriptors ≡ some d
      → d.file ≡ some p
      → can_write d.access ≡ true
      → v.files p ≡ some c
      → law.view s ≡ v
      → law.pending s ≤ signals
      → 0 < length buf
      → length buf + law.pending s < fuel
      → Writes law signals fuel fd buf s (written v fd d p c buf)

  module _ (fuel : ℕ) (ih : LoopWrites fuel) (buf : Bytes) (v : View) (d : Descriptor) (c : Bytes)
      (s : os.State) (hd : find_fd fd v.descriptors ≡ some d) (hp : d.file ≡ some p)
      (ha : can_write d.access ≡ true) (hc : v.files p ≡ some c) (e : law.view s ≡ v)
      (h : law.pending s ≤ signals) (some_left : 0 < length buf)
      (lt : length buf + law.pending s < suc fuel) where
    interrupted :
        (m : ℕ)
        → m < law.pending s
        → Gives law.view law.pending (os.write_file (pos fd) buf s) (fail eintr) (law.view s) m
        → Writes law signals (suc fuel) fd buf s (written v fd d p c buf)
    interrupted m less g =
        let r =
          ih buf v d c (os.write_file (pos fd) buf s).1 hd hp ha hc (g.view_after ∙ e)
            (omega (arith, g.pending_after)) some_left (omega (arith, g.pending_after)) in
        record {
          last = r.last;
          last_pos = r.last_pos;
          last_le = r.last_le;
          ends = Ends-step (round_again os fuel fd buf s g.result some_left) r.ends;
        }

    abbrev partly : ℕ → View → View
    partly k t = moved (stored t p (some (overwrite c d.offset (take k buf)))) fd (d.offset + k)

    transferred :
        (k : ℕ)
        → k ≤ length buf
        → (0 < length buf → 0 < k)
        → Gives law.view law.pending
            (os.write_file (pos fd) buf s)
            (ok k)
            (partly k (law.view s))
            (law.pending s)
        → Writes law signals (suc fuel) fd buf s (written v fd d p c buf)
    transferred k kn kp g = elim (Bool-cases (ltb k (length buf))) [
      | inl more ↦
          let r =
            ih (drop k buf) (partly k v) (record d { offset = d.offset + k }) _
              (os.write_file (pos fd) buf s).1 (find_fd-seek_fd fd _ v.descriptors d hd) hp ha
              (put_file_self p _ v.files) (g.view_after ∙ ap (partly k) e)
              (omega (arith, g.pending_after)) (ground (arith, length-drop k buf))
              (ground (arith, length-drop k buf, g.pending_after, kp some_left)) in
          record {
            last = r.last;
            last_pos = r.last_pos;
            last_le = omega (arith, r.last_le, length-drop k buf);
            ends =
                Ends-step (round_more os fuel fd buf s k g.result (ground arith))
                  (Ends-cast refl (written_twice v fd d p c buf k kn) r.ends);
          }
      | inr stop ↦
          let all : k ≡ length buf = ground arith in
          record {
            last = k;
            last_pos = kp some_left;
            last_le = kn;
            ends = record {
              after = (os.write_file (pos fd) buf s).1;
              returns = round_done os fuel fd buf s k g.result (omega arith);
              shows =
                  g.view_after
                  ∙ ap (partly k) e
                  ∙ ap (λ bs. moved (stored v p (some (overwrite c d.offset bs))) fd (d.offset + k))
                      (take-all k buf (omega arith))
                  ∙ ap (λ n. moved (stored v p (some (overwrite c d.offset buf))) fd (d.offset + n))
                      all;
              calm = omega (arith, g.pending_after);
            };
          }
    ]

  s_write_loop_lem : (fuel : ℕ) → LoopWrites fuel
  s_write_loop_lem zero buf v d c s hd hp ha hc e h sl lt = absurd (omega arith)
  s_write_loop_lem (suc fuel) buf v d c s hd hp ha hc e h sl lt =
      elim (law.write_lem s fd buf {d = d} {p = p} {c = c} (rw e hd) hp ha (rw e hc)) [
        | inl (m, less, g) ↦
            interrupted fuel (s_write_loop_lem fuel) buf v d c s hd hp ha hc e h sl lt m less g
        | inr (k, kn, kp, g) ↦
            transferred fuel (s_write_loop_lem fuel) buf v d c s hd hp ha hc e h sl lt k kn kp g
      ]

-- The system writes all bytes of a call that is not interrupted.
abbrev pub IsWhole : Posix → Type 0
IsWhole os =
    (s : os.State) (fd : ℤ) (bs : Bytes) (k : ℕ) → (os.write_file fd bs s).0 ≡ ok k → k ≡ length bs

module _ (os : Posix) (whole : IsWhole os) where
  count_of_whole :
      (fuel fd : ℕ) (buf : Bytes) (s : os.State) (k : ℕ) (s' : os.State)
      → s_write os fuel (pos fd) buf s ≡ some (pos k, s')
      → k ≡ length buf
  unfolding s_write ◌>>=◌ call pure
  count_of_whole zero fd buf s k s' e = cc
  count_of_whole (suc fuel) fd buf s k s' e = elim (Sys-cases (os.write_file (pos fd) buf s).0) [
    | inl (n, r) ↦
        let all : n ≡ length buf = whole s (pos fd) buf n r in
        ground (arith, round_done os fuel fd buf s n r (omega arith))
    | inr (errno, r) ↦
        ground (arith, count_of_whole fuel fd buf (os.write_file (pos fd) buf s).1 k s')
  ]

module _ {os : Posix} (law : IsPosix os) {signals : ℕ} where
  -- `s_write` puts all bytes into the file at the offset.
  pub s_write_all :
      (fuel fd : ℕ) (buf : Bytes) (v : View) (d : Descriptor) (p : CString) (c : Bytes)
      (s : os.State)
      → find_fd fd v.descriptors ≡ some d
      → d.file ≡ some p
      → can_write d.access ≡ true
      → v.files p ≡ some c
      → law.view s ≡ v
      → law.pending s ≤ signals
      → 0 < length buf
      → length buf + signals < fuel
      → Writes law signals fuel fd buf s (written v fd d p c buf)
  s_write_all fuel fd buf v d p c s hd hp ha hc e h sl lt =
      s_write_loop_lem law signals fd p fuel buf v d c s hd hp ha hc e h sl (omega arith)

  -- Where the system writes whole buffers, the result is their length.
  pub Runs-s_write :
      IsWhole os
      → (fuel fd : ℕ) (buf : Bytes) (v : View) (d : Descriptor) (p : CString) (c : Bytes)
      → find_fd fd v.descriptors ≡ some d
      → d.file ≡ some p
      → can_write d.access ≡ true
      → v.files p ≡ some c
      → 0 < length buf
      → length buf + signals < fuel
      → Runs law signals
          (s_write os fuel (pos fd) buf)
          v
          (pos (length buf))
          (written v fd d p c buf)
  Runs-s_write whole fuel fd buf v d p c hd hp ha hc sl lt = record {
    from = λ s e h.
        let r = s_write_all fuel fd buf v d p c s hd hp ha hc e h sl lt in
        Ends-cast (ap pos (count_of_whole os whole fuel fd buf s r.last _ r.ends.returns)) refl
          r.ends;
  }
