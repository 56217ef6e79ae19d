-- ===== src/Tests/Util.antt =====
-- The string functions of cfs/src/util.c at concrete strings.
use fusefs_block.Base.{ℕ, ◌≡◌, ◌≢◌, some, [], ◌∷◌, arith, CString}
use fusefs_block.Util.{combine, hexify, hex_digit}
use fusefs_block.Util.Combine.{without_trailing, without_leading, combine_joint}
use fusefs_block.Util.Hexify.{hex_text, unhex, hexify_lem, unhex-hexify}

cons_ne : (c : ℕ) (s : CString) → c ∷ s ≢ []
cons_ne c s e = cc

-- "a/" and "/b"
combine_joint_example :
    combine (some (b'a' ∷ b'/' ∷ [])) (some (b'/' ∷ b'b' ∷ [])) ≡ b'a' ∷ b'/' ∷ b'b' ∷ []
unfolding without_trailing without_leading
combine_joint_example =
    combine_joint (b'a' ∷ b'/' ∷ []) (b'/' ∷ b'b' ∷ []) (cons_ne _ _) (cons_ne _ _)

-- Four bytes of room hold one byte and the terminator.
hexify_lem_example : hexify (0xab ∷ 0x01 ∷ []) 2 4 ≡ (2, some (b'a' ∷ b'b' ∷ []))
unfolding hex_text hex_digit
hexify_lem_example = hexify_lem (0xab ∷ 0x01 ∷ []) 2 4 (omega arith) (omega arith) (omega arith)

unhex-hexify_example :
    (t : CString) × (hexify (0xab ∷ 0x01 ∷ []) 2 5 ≡ (4, some t)) × (unhex t ≡ 0xab ∷ 0x01 ∷ [])
unhex-hexify_example =
    unhex-hexify (0xab ∷ 0x01 ∷ []) 5 (omega arith) (omega arith, (omega arith, tt)) (omega arith)
