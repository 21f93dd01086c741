-- ===== src/Copy/Function/Whole/Again.antt =====
-- Where the operands of a function that src/copy.c has copied point.
use pthreads.Base.{ℕ, ◌+◌, ◌*◌, ◌^◌, ◌<◌, ◌≤◌, ◌≡◌, true, some, List, length, arith, word}
use pthreads.Copy.{Engine, Value}
use pthreads.Copy.Function.{Opcodes}
use pthreads.Copy.Function.Operands.{SameOps, copy_opcodes-SameOps}
use pthreads.Copy.Function.Whole.{OpArray, Places, aligned, literals_memory, copy_parts}

aligned_least : (n : ℕ) → n ≤ aligned n
aligned_least n = omega arith

aligned_most : (n : ℕ) → aligned n ≤ n + 15
aligned_most n = omega arith

-- For a function after its second pass, with literals, whose block of opcodes and literals is smaller
-- than 2 ^ 31 bytes and ends, as its old literals do, below 2 ^ 64: the copied opcodes are the same,
-- and the operands that are literals are the same ones in the copied block.
pub copy_parts-SameOps :
    (e : Engine) (z : Opcodes) (p : Places) (o : OpArray) (ls : List Value)
    → o.done_pass_two ≡ true
    → o.literals ≡ some ls
    → 32 * length o.opcodes + 16 * length ls + 15 < 2 ^ 31
    → p.opcodes_at + 32 * length o.opcodes + 16 * length ls + 15 < word
    → o.literals_at + 16 * length ls < word
    → SameOps
        (length ls)
        o.opcodes_at
        p.opcodes_at
        o.literals_at
        (literals_memory p o)
        o.opcodes
        ((copy_parts e z p o).opcodes)
unfolding copy_parts
copy_parts-SameOps e z p o ls two has small fits old_fits =
    let least = aligned_least (32 * length o.opcodes) in
    let most = aligned_most (32 * length o.opcodes) in
    simp (two, has)
      (copy_opcodes-SameOps z (length ls) o.opcodes_at p.opcodes_at o.literals_at
        (p.opcodes_at + aligned (32 * length o.opcodes)) o.opcodes (omega (arith, least))
        (omega (arith, most, small)) old_fits (omega (arith, most, fits)))
