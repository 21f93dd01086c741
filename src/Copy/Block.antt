-- ===== src/Copy/Block.antt =====
-- `pthreads_copy_ast_tree` and `pthreads_copy_ast` in src/copy.c lay the copied tree out in the block
-- that was allocated for it.
use pthreads.Base.{
  ℕ, ◌+◌, ◌-◌, ◌*◌, ◌<◌, ◌≤◌, ◌≡◌, inl, inr, refl, subst, ◌∙◌, none, some, arith, ==_refl, suc,
}
use pthreads.Copy.{
  Engine, Ast, zval_node, constant_node, list_node, node, Children, last, absent, child, copy_ast,
  copy_children,
}
use pthreads.Copy.Tree.{
  list_cell, node_cell, pointer, ref_cell, Memory, write, Sizes, count, ast_size, list_size,
  tree_size, children_size, copy_tree, copy_slots, copy_ast_ref, Lies, LieChildren,
}
use pthreads.Copy.Layout.{
  Outside, end_tree, frame_tree, frame_slots, same_size, same_count, write_other, part,
}

abbrev Same : Memory → Memory → ℕ → ℕ → Type 0
Same m m2 from size = (x : ℕ) → from ≤ x → x < from + size → m2 x ≡ m x

within :
    {m m2 : Memory} (from size at_part part_size : ℕ)
    → Same m m2 from size
    → from ≤ at_part
    → at_part + part_size ≤ from + size
    → Same m m2 at_part part_size
within from size at_part part_size same low high x l h =
    same x (omega (arith, l, low)) (omega (arith, h, high))

module _ (z : Sizes) where
  mutual
    unfolding tree_size Lies

    -- A tree that stands in memory stands in every memory that is the same in its block.
    keep_tree :
        (m m2 : Memory) (b : ℕ) (a : Ast)
        → Same m m2 b (tree_size z a)
        → Lies z m b a
        → Lies z m2 b a
    keep_tree m m2 b (zval_node attr v) same l =
        same b (omega arith) (omega (arith, z.zval_filled)) ∙ l
    keep_tree m m2 b (constant_node attr s) same l =
        same b (omega arith) (omega (arith, z.zval_filled)) ∙ l
    keep_tree m m2 b (list_node kind attr cs) same (l, ls) =
        let whole = list_size z (count cs) + children_size z cs in
        (
          same b (omega arith) (omega (arith, z.list_filled)) ∙ l,
          keep_children m m2 (b + (z.list - 8)) (b + list_size z (count cs)) cs
              (within b whole (b + (z.list - 8)) (8 * count cs) same (omega arith) (omega arith))
              (within b whole (b + list_size z (count cs)) (children_size z cs) same (omega arith)
                (omega arith))
              ls,
        )
    keep_tree m m2 b (node kind attr cs) same (l, ls) =
        let whole = ast_size z (count cs) + children_size z cs in
        (
          same b (omega arith) (omega (arith, z.ast_filled)) ∙ l,
          keep_children m m2 (b + (z.ast - 8)) (b + ast_size z (count cs)) cs
              (within b whole (b + (z.ast - 8)) (8 * count cs) same (omega arith) (omega arith))
              (within b whole (b + ast_size z (count cs)) (children_size z cs) same (omega arith)
                (omega arith))
              ls,
        )

    keep_children :
        (m m2 : Memory) (slot b : ℕ) (cs : Children)
        → Same m m2 slot (8 * count cs)
        → Same m m2 b (children_size z cs)
        → LieChildren z m slot b cs
        → LieChildren z m2 slot b cs
    keep_children m m2 slot b last same same2 l = tt
    keep_children m m2 slot b (absent cs) same same2 (l, ls) = (
      same slot (omega arith) (omega arith) ∙ l,
      keep_children m m2 (slot + 8) b cs
          (within slot (8 * suc (count cs)) (slot + 8) (8 * count cs) same (omega arith)
            (omega arith))
          same2 ls,
    )
    keep_children m m2 slot b (child a cs) same same2 (l, t, ls) =
        let whole = tree_size z a + children_size z cs in
        (
          same slot (omega arith) (omega arith) ∙ l,
          keep_tree m m2 b a (within b whole b (tree_size z a) same2 (omega arith) (omega arith)) t,
          keep_children m m2 (slot + 8) (b + tree_size z a) cs
              (within slot (8 * suc (count cs)) (slot + 8) (8 * count cs) same (omega arith)
                (omega arith))
              (within b whole (b + tree_size z a) (children_size z cs) same2 (omega arith)
                (omega arith))
              ls,
        )

  module _ (e : Engine) where
    mutual
      unfolding tree_size Lies copy_tree copy_ast

      lay_tree :
          (a : Ast) (buf : ℕ) (m : Memory) → Lies z (copy_tree z e a buf m).1 buf (copy_ast e a)
      lay_tree (zval_node attr v) buf m = rw (==_refl buf) refl
      lay_tree (constant_node attr s) buf m = rw (==_refl buf) refl
      lay_tree (list_node kind attr cs) buf m =
          let slots = buf + (z.list - 8) in
          let start = buf + list_size z (count cs) in
          let first = write buf (list_cell kind attr (count cs)) m in
          rw (same_count z e cs) (
            frame_slots z e cs slots start first buf (inl (omega (arith, z.list_filled)))
                  (inl (omega (arith, z.list_filled)))
                ∙ rw (==_refl buf) refl,
            lay_slots cs slots start first (omega (arith, z.list_filled)),
          )
      lay_tree (node kind attr cs) buf m =
          let slots = buf + (z.ast - 8) in
          let start = buf + ast_size z (count cs) in
          let first = write buf (node_cell kind attr) m in
          rw (same_count z e cs) (
            frame_slots z e cs slots start first buf (inl (omega (arith, z.ast_filled)))
                  (inl (omega (arith, z.ast_filled)))
                ∙ rw (==_refl buf) refl,
            lay_slots cs slots start first (omega (arith, z.ast_filled)),
          )

      lay_slots :
          (cs : Children) (slot buf : ℕ) (m : Memory)
          → slot + 8 * count cs ≤ buf
          → LieChildren z (copy_slots z e cs slot buf m).1 slot buf (copy_children e cs)
      lay_slots last slot buf m apart = tt
      lay_slots (absent cs) slot buf m apart = (
        frame_slots z e cs (slot + 8) buf (write slot (pointer none) m) slot (inl (omega arith))
              (inl (omega (arith, apart)))
            ∙ rw (==_refl slot) refl,
        lay_slots cs (slot + 8) buf (write slot (pointer none) m) (omega (arith, apart)),
      )
      lay_slots (child a cs) slot buf m apart =
          let put = write slot (pointer (some buf)) m in
          let laid = copy_tree z e a buf put in
          let ends : laid.0 ≡ buf + tree_size z a = end_tree z e a buf put in
          (
            frame_slots z e cs (slot + 8) laid.0 laid.1 slot (inl (omega arith))
                  (inl (omega (arith, apart, ends)))
                ∙ frame_tree z e a buf put slot (inl (omega (arith, apart)))
                ∙ rw (==_refl slot) refl,
            keep_tree laid.1 (copy_slots z e cs (slot + 8) laid.0 laid.1).1 buf (copy_ast e a)
                (λ x l h.
                  frame_slots z e cs (slot + 8) laid.0 laid.1 x (inr (omega (arith, apart, l)))
                    (inl (omega (arith, ends, h, same_size z e a))))
                (lay_tree a buf put),
            subst
                (λ b.
                  LieChildren z (copy_slots z e cs (slot + 8) laid.0 laid.1).1 (slot + 8) b
                    (copy_children e cs))
                (omega (arith, ends, same_size z e a))
                (lay_slots cs (slot + 8) laid.0 laid.1 (omega (arith, apart, ends))),
          )

    -- What `pthreads_copy_ast` leaves for a tree in a block that starts at `base`.
    pub record LaidOut (a : Ast) (base : ℕ) (m : Memory) : Type 0 where
      pub ref : (copy_ast_ref z e a base m).1 base ≡ some (ref_cell 1)
      pub tree : Lies z (copy_ast_ref z e a base m).1 (base + z.ref) (copy_ast e a)
      pub filled : (copy_tree z e a (base + z.ref) m).0 ≡ base + (copy_ast_ref z e a base m).0
      pub outside :
          (x : ℕ)
          → Outside z e base (copy_ast_ref z e a base m).0 x
          → (copy_ast_ref z e a base m).1 x ≡ m x

    -- For every tree, wherever its block starts and whatever is in memory, `pthreads_copy_ast` fills
    -- exactly the block that it allocates, writes nowhere else, and leaves in it a reference counted
    -- once and behind that the copied tree, each structure with its pointers and then its children.
    pub copy_ast_ref-LaidOut : (a : Ast) (base : ℕ) (m : Memory) → LaidOut a base m
    unfolding copy_ast_ref
    copy_ast_ref-LaidOut a base m = record {
      ref = rw (==_refl base) refl;
      tree =
          keep_tree laid (copy_ast_ref z e a base m).1 (base + z.ref) (copy_ast e a)
            (λ x l h. write_other z e base (ref_cell 1) laid x z.ref z.ref_filled (inr l))
            (lay_tree a (base + z.ref) m);
      filled = omega (arith, end_tree z e a (base + z.ref) m);
      outside = λ x out.
          write_other z e base (ref_cell 1) laid x z.ref z.ref_filled
            (part z e base (tree_size z a + z.ref) base z.ref x out (omega arith) (omega arith))
          ∙ frame_tree z e a (base + z.ref) m x (
              part z e base (tree_size z a + z.ref) (base + z.ref) (tree_size z a) x out
                (omega arith) (omega arith));
    }
      where
        laid : Memory
        laid = (copy_tree z e a (base + z.ref) m).1
