-- ===== src/Copy/Function/Operands.antt =====
-- Where the operands of copied opcodes in src/copy.c point.
use pthreads.Base.{
  ℕ, ◌+◌, ◌-◌, ◌*◌, ◌/◌, ◌%◌, ◌^◌, ◌<◌, ◌≤◌, ◌≡◌, refl, true, false, arith, word, List, [], ◌∷◌,
  length,
}
use pthreads.Copy.Function.{target, relocate, sign_extend, Op, Opcodes, copy_opcodes}

distance : (a b : ℕ) → a < word → b ≤ a → a < b + 2 ^ 31 → (a + (word - b)) % word % 2 ^ 32 ≡ a - b
distance a b la low near = omega (arith, la, low, near)

sign_extend_small : (c : ℕ) → c < 2 ^ 31 → sign_extend c ≡ c
sign_extend_small c l = ground arith

forth :
    (a b : ℕ) → a < word → b ≤ a → a < b + 2 ^ 31 → target b ((a + (word - b)) % word % 2 ^ 32) ≡ a
forth a b la low near =
    rw (distance a b la low near, sign_extend_small (a - b) (omega (arith, low, near)))
      (omega (arith, la, low))

back : (a k : ℕ) → a + 16 * k < word → (a + 16 * k + (word - a)) % word / 16 ≡ k
back a k l = omega (arith, l)

module _ (old_op new_op old_literals new_literals constant k : ℕ)
    (meant : target old_op constant ≡ old_literals + 16 * k)
    (old_fits : old_literals + 16 * k < word) (new_fits : new_literals + 16 * k < word)
    (behind : new_op ≤ new_literals) (near : new_literals + 16 * k < new_op + 2 ^ 31) where
  relocate-target :
      target new_op (relocate old_op new_op old_literals new_literals constant)
      ≡ new_literals + 16 * k
  unfolding relocate
  relocate-target =
      rw (meant, back old_literals k old_fits)
        (forth (new_literals + 16 * k) new_op new_fits (omega (arith, behind)) near)

-- An operand that is the literal `k` of the old table is the same literal of the new one.
abbrev pub SameLiteral : (lits old_op new_op old_literals new_literals old new : ℕ) → Type 0
SameLiteral lits old_op new_op old_literals new_literals old new =
    (k : ℕ)
    → k < lits
    → target old_op old ≡ old_literals + 16 * k
    → target new_op new ≡ new_literals + 16 * k

-- Opcode by opcode, what is copied is the same but for the operands that are literals, and these are
-- the same literals.
abbrev pub SameOps : (lits old_op new_op old_literals new_literals : ℕ) → List Op → List Op → Type 0
SameOps lits old_op new_op old_literals new_literals [] [] = Unit
SameOps lits old_op new_op old_literals new_literals (o ∷ ops) [] = ⊥
SameOps lits old_op new_op old_literals new_literals [] (c ∷ copies) = ⊥
SameOps lits old_op new_op old_literals new_literals (o ∷ ops) (c ∷ copies) =
    (c.opcode ≡ o.opcode)
    × (o.op1_const ≡ true → SameLiteral lits old_op new_op old_literals new_literals o.op1 c.op1)
    × (o.op1_const ≡ false → c.op1 ≡ o.op1)
    × (o.op2_const ≡ true → SameLiteral lits old_op new_op old_literals new_literals o.op2 c.op2)
    × (o.op2_const ≡ false → c.op2 ≡ o.op2)
    × SameOps lits (old_op + 32) (new_op + 32) old_literals new_literals ops copies

-- For a function whose copied literals lie behind its copied opcodes, all within 2 ^ 31 bytes of the
-- first of them, and whose old and new literals end below 2 ^ 64: the copy has the same opcodes, each
-- operand that was an offset to a literal is one, from the opcode's new place, to the same literal of
-- the new table, and every other operand is as it was.
pub copy_opcodes-SameOps :
    (z : Opcodes) (lits old_op new_op old_literals new_literals : ℕ) (ops : List Op)
    → new_op + 32 * length ops ≤ new_literals
    → new_literals + 16 * lits < new_op + 2 ^ 31
    → old_literals + 16 * lits < word
    → new_literals + 16 * lits < word
    → SameOps lits old_op new_op old_literals new_literals ops
        (copy_opcodes z old_op new_op old_literals new_literals ops)
unfolding copy_opcodes
copy_opcodes-SameOps z lits old_op new_op old_literals new_literals [] behind near old_fits
      new_fits =
    tt
copy_opcodes-SameOps z lits old_op new_op old_literals new_literals (o ∷ ops) behind near old_fits
      new_fits =
    (
      refl,
      λ c. rw c (at_op o.op1),
      λ n. rw n refl,
      λ c. rw c (at_op o.op2),
      λ n. rw n refl,
      copy_opcodes-SameOps z lits (old_op + 32) (new_op + 32) old_literals new_literals ops
          (omega (arith, behind)) (omega (arith, near)) old_fits new_fits,
    )
  where
    at_op :
        (c : ℕ)
        → SameLiteral lits old_op new_op old_literals new_literals c
            (relocate old_op new_op old_literals new_literals c)
    at_op c k l meant =
        relocate-target old_op new_op old_literals new_literals c k meant
          (omega (arith, l, old_fits)) (omega (arith, l, new_fits)) (omega (arith, behind))
          (omega (arith, l, near))
