-- ===== src/Tests/Whole.antt =====
-- The system in memory without a limit on writes takes all bytes of a call.
use fusefs_block.Base.{
  ℕ, zero, suc, ◌≡◌, Option, none, some, Bytes, length, if◌then◌else◌, Bool-cases, inl, inr,
}
use fusefs_block.Posix.{Sys, ok, fail}
use fusefs_block.Posix.View.{can_write}
use fusefs_block.Posix.Memory.{Memory, Target, target, memory_os, memory_write, cut}
use fusefs_block.Io.Write.{IsWhole}

whole_write :
    (read_limit : Option ℕ) (m : ℕ) (bs : Bytes) (s : Memory) (t : Target) (k : ℕ)
    → (memory_write read_limit none m bs s t).0 ≡ ok k
    → k ≡ length bs
unfolding memory_write cut
whole_write read_limit zero bs s t k e = cc
whole_write read_limit (suc m) bs s t k e = cc

module _ (read_limit : Option ℕ) (s : Memory) (bs : Bytes) (k : ℕ) where
  whole_target :
      (o : Option Target)
      → (elim o as (λ _. Sys ℕ × Memory) [
        | none ↦ (fail 9, s)
        | some t ↦
            if can_write t.at.access
            then memory_write read_limit none s.signals bs s t
            else (fail 9, s)
      ]).0
        ≡ ok k
      → k ≡ length bs
  whole_target none e = cc
  whole_target (some t) e = elim (Bool-cases (can_write t.at.access)) [
    | inl w ↦ whole_write read_limit s.signals bs s t k (rw w at e)
    | inr w ↦ never (rw w at e)
  ]
    where
      never : fail 9 ≡ ok k → k ≡ length bs
      never e = cc

pub whole_memory : (read_limit : Option ℕ) → IsWhole (memory_os read_limit none)
whole_memory read_limit s fd bs k e = whole_target read_limit s bs k (target fd s.shown) e
