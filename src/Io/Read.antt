-- ===== src/Io/Read.antt =====
-- `s_read` of cfs/src/io.c: all bytes asked for, or all up to the end of the file, whatever
-- short reads and interruptions occur.
use fusefs_block.Base.{
  lt→ltb, le→ltb, ℕ, zero, suc, ◌+◌, ◌-◌, ◌≤◌, ◌<◌, ◌≡◌, refl, sym, ap, ◌∙◌, ◌&&◌, true, false,
  some, inl, inr, [], ◌∷◌, ◌++◌, arith, ltb, Bool-cases, pos, length, length-append, length-take,
  take, drop, take_split, drop-drop, Bytes, CString,
}
use mathlib.Core.List.{append_assoc, append-nil}
use fusefs_block.Posix.{Posix, ok, fail, eintr, pure, call, ◌>>=◌}
use fusefs_block.Posix.View.{
  View, Descriptor, find_fd, find_fd-seek_fd, can_read, moved, moved-moved, moved_same,
}
use fusefs_block.Posix.Laws.{IsPosix, Gives}
use fusefs_block.Posix.Runs.{Ends, Runs, Ends-step, Ends-cast}
use fusefs_block.Io.{s_read_loop, s_read}

module _ (os : Posix) (fuel fd left : ℕ) (buf : Bytes) (s : os.State) where
  -- One round of the loop, on each branch.
  round_again :
      (os.read_file (pos fd) left s).0 ≡ fail eintr
      → 0 < left
      → s_read_loop os (suc fuel) (pos fd) left buf s
        ≡ s_read_loop os fuel (pos fd) left buf (os.read_file (pos fd) left s).1
  unfolding s_read_loop ◌>>=◌ call
  round_again e h = rw (e, lt→ltb 0 left h)

  round_stop :
      (os.read_file (pos fd) left s).0 ≡ fail eintr
      → left ≡ 0
      → s_read_loop os (suc fuel) (pos fd) left buf s
        ≡ some ((pos (length buf), buf), (os.read_file (pos fd) left s).1)
  unfolding s_read_loop ◌>>=◌ call pure
  round_stop e h = rw (e, le→ltb 0 left (omega arith))

  round_more :
      (bs : Bytes)
      → (os.read_file (pos fd) left s).0 ≡ ok bs
      → length bs < left
      → 0 < length bs
      → s_read_loop os (suc fuel) (pos fd) left buf s
        ≡ s_read_loop os fuel
            (pos fd)
            (left - length bs)
            (buf ++ bs)
            (os.read_file (pos fd) left s).1
  unfolding s_read_loop ◌>>=◌ call
  round_more bs e h k = rw (e, lt→ltb _ _ h, lt→ltb _ _ k)

  round_done :
      (bs : Bytes)
      → (os.read_file (pos fd) left s).0 ≡ ok bs
      → (ltb (length bs) left && ltb 0 (length bs)) ≡ false
      → s_read_loop os (suc fuel) (pos fd) left buf s
        ≡ some ((pos (length (buf ++ bs)), buf ++ bs), (os.read_file (pos fd) left s).1)
  unfolding s_read_loop ◌>>=◌ call pure
  round_done bs e h = rw (e, h)

-- The number of bytes that a call has returned.
length_prefix : (k : ℕ) (xs : Bytes) → k ≤ length xs → length (take k xs) ≡ k
length_prefix k xs h = omega (arith, length-take k xs)

-- A call that leaves nothing to read has returned all.
last_part :
    (k n : ℕ) (xs : Bytes)
    → k ≤ n
    → k ≤ length xs
    → (0 < n → 0 < length xs → 0 < k)
    → (ltb k n && ltb 0 k) ≡ false
    → take k xs ≡ take n xs
last_part zero zero xs h l q e = refl
last_part zero (suc n) [] h l q e = refl
last_part zero (suc n) (x ∷ xs) h l q e = absurd (omega (arith, q (omega arith) (omega arith)))
last_part (suc k) n xs h l q e = let same : suc k ≡ n = ground arith in rw same

module _ {os : Posix} (law : IsPosix os) (signals : ℕ) (fd : ℕ) (p : CString) (c : Bytes) where
  abbrev rest_of : ℕ → Descriptor → Bytes
  rest_of left d = take left (drop d.offset c)

  abbrev LoopEnds : ℕ → ℕ → Bytes → View → Descriptor → os.State → Type 0
  LoopEnds fuel left buf v d s =
      Ends law signals (s_read_loop os fuel (pos fd) left buf) s
        (pos (length (buf ++ rest_of left d)), buf ++ rest_of left d)
        (moved v fd (d.offset + length (rest_of left d)))

  -- The loop with some fuel reads what is left behind what was read before.
  abbrev LoopReads : ℕ → Type 0
  LoopReads fuel =
      (left : ℕ) (buf : Bytes) (v : View) (d : Descriptor) (s : os.State)
      → find_fd fd v.descriptors ≡ some d
      → d.file ≡ some p
      → can_read d.access ≡ true
      → v.files p ≡ some c
      → law.view s ≡ v
      → law.pending s ≤ signals
      → left + law.pending s < fuel
      → LoopEnds fuel left buf v d s

  module _ (fuel : ℕ) (ih : LoopReads fuel) (left : ℕ) (buf : Bytes) (v : View) (d : Descriptor)
      (s : os.State) (hd : find_fd fd v.descriptors ≡ some d) (hp : d.file ≡ some p)
      (ha : can_read d.access ≡ true) (hc : v.files p ≡ some c) (e : law.view s ≡ v)
      (h : law.pending s ≤ signals) (lt : left + law.pending s < suc fuel) where
    interrupted :
        (m : ℕ)
        → m < law.pending s
        → Gives law.view law.pending (os.read_file (pos fd) left s) (fail eintr) (law.view s) m
        → LoopEnds (suc fuel) left buf v d s
    interrupted m less g = elim (Bool-cases (ltb 0 left)) [
      | inl more ↦ Ends-step (round_again os fuel fd left buf s g.result (ground arith)) (
          ih left buf v d _ hd hp ha hc (g.view_after ∙ e) (omega (arith, g.pending_after))
            (omega (arith, g.pending_after)))
      | inr stop ↦
          let none_left : left ≡ 0 = ground arith in
          let nothing : rest_of left d ≡ [] = rw none_left in
          record {
            after = (os.read_file (pos fd) left s).1;
            returns =
                round_stop os fuel fd left buf s g.result none_left ∙ rw (nothing, append-nil);
            shows =
                g.view_after
                ∙ e
                ∙ sym (moved_same v fd d hd)
                ∙ ap (λ n. moved v fd n) (rw nothing (omega arith));
            calm = omega (arith, g.pending_after);
          }
    ]

    transferred :
        (k : ℕ)
        → k ≤ left
        → k ≤ length (drop d.offset c)
        → (0 < left → 0 < length (drop d.offset c) → 0 < k)
        → Gives law.view law.pending
            (os.read_file (pos fd) left s)
            (ok (take k (drop d.offset c)))
            (moved (law.view s) fd (d.offset + k))
            (law.pending s)
        → LoopEnds (suc fuel) left buf v d s
    transferred k kn kl kp g = elim (Bool-cases (ltb k left && ltb 0 k)) [
      | inl more ↦
          Ends-step
            (round_more os fuel fd left buf s _ g.result (ground (arith, size))
              (ground (arith, size)))
            (Ends-cast (ap (λ t. (pos (length t), t)) whole)
              (moved-moved v fd _ _ ∙ ap (λ n. moved v fd n) reach)
              (ih (left - length (take k (drop d.offset c))) _ (moved v fd (d.offset + k))
                (record d { offset = d.offset + k }) _
                (find_fd-seek_fd fd (d.offset + k) v.descriptors d hd) hp ha hc
                (g.view_after ∙ ap (λ t. moved t fd (d.offset + k)) e)
                (omega (arith, g.pending_after)) (ground (arith, size, g.pending_after))))
      | inr stop ↦ record {
        after = (os.read_file (pos fd) left s).1;
        returns =
            round_done os fuel fd left buf s _ g.result (rw size stop)
            ∙ ap (λ t. some ((pos (length (buf ++ t)), buf ++ t), (os.read_file (pos fd) left s).1))
                (all stop);
        shows =
            g.view_after
            ∙ ap (λ t. moved t fd (d.offset + k)) e
            ∙ ap (λ n. moved v fd (d.offset + n)) (sym size ∙ ap length (all stop));
        calm = omega (arith, g.pending_after);
      }
    ]
      where
        size : length (take k (drop d.offset c)) ≡ k
        size = length_prefix k (drop d.offset c) kl

        all : (ltb k left && ltb 0 k) ≡ false → take k (drop d.offset c) ≡ rest_of left d
        all stop = last_part k left (drop d.offset c) kn kl kp stop

        rest : Bytes
        rest = take (left - length (take k (drop d.offset c))) (drop (d.offset + k) c)

        glue : take k (drop d.offset c) ++ rest ≡ rest_of left d
        glue = rw (size, ← drop-drop k d.offset c) (take_split k left (drop d.offset c) kn)

        whole : (buf ++ take k (drop d.offset c)) ++ rest ≡ buf ++ rest_of left d
        whole = append_assoc buf _ _ ∙ ap (λ t. buf ++ t) glue

        reach : d.offset + k + length rest ≡ d.offset + length (rest_of left d)
        reach = omega (arith, ap length glue, size, length-append (take k (drop d.offset c)) rest)

  s_read_loop_lem : (fuel : ℕ) → LoopReads fuel
  s_read_loop_lem zero left buf v d s hd hp ha hc e h lt = absurd (omega arith)
  s_read_loop_lem (suc fuel) left buf v d s hd hp ha hc e h lt =
      elim (law.read_lem s fd left {d = d} {p = p} {c = c} (rw e hd) hp ha (rw e hc)) [
        | inl (m, less, g) ↦
            interrupted fuel (s_read_loop_lem fuel) left buf v d s hd hp ha hc e h lt m less g
        | inr (k, kn, kl, kp, g) ↦
            transferred fuel (s_read_loop_lem fuel) left buf v d s hd hp ha hc e h lt k kn kl kp g
      ]

  -- `s_read` puts the bytes from the offset on into the buffer, as many as are asked for or all
  -- up to the end of the file, returns their number and moves the offset behind them.
  pub Runs-s_read :
      (fuel n : ℕ) (v : View) (d : Descriptor)
      → find_fd fd v.descriptors ≡ some d
      → d.file ≡ some p
      → can_read d.access ≡ true
      → v.files p ≡ some c
      → n + signals < fuel
      → Runs law signals
          (s_read os fuel (pos fd) n)
          v
          (pos (length (rest_of n d)), rest_of n d)
          (moved v fd (d.offset + length (rest_of n d)))
  unfolding s_read
  Runs-s_read fuel n v d hd hp ha hc f = record {
    from = λ s e h. s_read_loop_lem fuel n [] v d s hd hp ha hc e h (omega arith);
  }
