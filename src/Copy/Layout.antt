-- ===== src/Copy/Layout.antt =====
-- What `pthreads_copy_ast_tree` in src/copy.c leaves in memory: where it ends, what it does not touch,
-- and the tree that stands in the block.
use pthreads.Base.{
  ℕ, ◌+◌, ◌-◌, ◌*◌, ◌<◌, ◌≤◌, ◌≡◌, ◌⊎◌, inl, inr, refl, ◌∙◌, none, some, arith, ==_ne, suc,
}
use pthreads.Copy.{
  Engine, Ast, zval_node, constant_node, list_node, node, Children, last, absent, child,
  copy_string, copy_zval, copy_ast, copy_children,
}
use pthreads.Copy.Tree.{
  Cell, zval_cell, constant_cell, list_cell, node_cell, pointer, Memory, write, Sizes, count,
  ast_size, list_size, tree_size, children_size, copy_tree, copy_slots,
}

module _ (z : Sizes) (e : Engine) where
  mutual
    unfolding tree_size copy_tree

    pub end_tree :
        (a : Ast) (buf : ℕ) (m : Memory) → (copy_tree z e a buf m).0 ≡ buf + tree_size z a
    end_tree (zval_node attr v) buf m = refl
    end_tree (constant_node attr s) buf m = refl
    end_tree (list_node kind attr cs) buf m = omega (
      arith,
      end_slots cs (buf + (z.list - 8)) (buf + list_size z (count cs))
          (write buf (list_cell kind attr (count cs)) m),
    )
    end_tree (node kind attr cs) buf m = omega (
      arith,
      end_slots cs (buf + (z.ast - 8)) (buf + ast_size z (count cs))
          (write buf (node_cell kind attr) m),
    )

    end_slots :
        (cs : Children) (slot buf : ℕ) (m : Memory)
        → (copy_slots z e cs slot buf m).0 ≡ buf + children_size z cs
    end_slots last slot buf m = omega arith
    end_slots (absent cs) slot buf m = end_slots cs (slot + 8) buf (write slot (pointer none) m)
    end_slots (child a cs) slot buf m =
        let laid = copy_tree z e a buf (write slot (pointer (some buf)) m) in
        omega (
          arith,
          end_tree a buf (write slot (pointer (some buf)) m),
          end_slots cs (slot + 8) laid.0 laid.1,
        )

  mutual
    unfolding tree_size copy_ast

    pub same_size : (a : Ast) → tree_size z (copy_ast e a) ≡ tree_size z a
    same_size (zval_node attr v) = refl
    same_size (constant_node attr s) = refl
    same_size (list_node kind attr cs) = rw (same_count cs, same_children cs) refl
    same_size (node kind attr cs) = rw (same_count cs, same_children cs) refl

    same_children : (cs : Children) → children_size z (copy_children e cs) ≡ children_size z cs
    same_children last = refl
    same_children (absent cs) = same_children cs
    same_children (child a cs) = rw (same_size a, same_children cs) refl

    pub same_count : (cs : Children) → count (copy_children e cs) ≡ count cs
    same_count last = refl
    same_count (absent cs) = rw (same_count cs) refl
    same_count (child a cs) = rw (same_count cs) refl

  -- An address that is in neither of two blocks.
  abbrev pub Outside : ℕ → ℕ → ℕ → Type 0
  Outside from size x = (x < from) ⊎ (from + size ≤ x)

  -- Parts of a block that an address is outside of.
  pub part :
      (from size at_part part_size x : ℕ)
      → Outside from size x
      → from ≤ at_part
      → at_part + part_size ≤ from + size
      → Outside at_part part_size x
  part from size at_part part_size x out low high = elim out [
    | inl l ↦ inl (omega (arith, l, low))
    | inr h ↦ inr (omega (arith, h, high))
  ]

  pub write_other :
      (a : ℕ) (c : Cell) (m : Memory) (x size : ℕ)
      → 0 < size
      → Outside a size x
      → write a c m x ≡ m x
  write_other a c m x size filled out =
      rw (==_ne (λ (q : a ≡ x). omega (arith, out, filled, q))) refl

  abbrev SlotsFrame : Children → Type 0
  SlotsFrame cs =
      (slot buf : ℕ) (m : Memory) (x : ℕ)
      → Outside slot (8 * count cs) x
      → Outside buf (children_size z cs) x
      → (copy_slots z e cs slot buf m).1 x ≡ m x

  -- A structure of a size, its pointers after the last one's place, and then the children.
  frame_block :
      (h : ℕ)
      → 8 < h
      → (c : Cell) (cs : Children) (buf : ℕ) (m : Memory) (x : ℕ)
      → Outside buf (h - 8 + 8 * count cs + children_size z cs) x
      → SlotsFrame cs
      → (copy_slots z e cs (buf + (h - 8)) (buf + (h - 8 + 8 * count cs)) (write buf c m)).1 x ≡ m x
  frame_block h filled c cs buf m x out slots =
      let size = h - 8 + 8 * count cs in
      let whole = size + children_size z cs in
      slots (buf + (h - 8)) (buf + size) (write buf c m) x
        (part buf whole (buf + (h - 8)) (8 * count cs) x out (omega arith) (omega arith))
        (part buf whole (buf + size) (children_size z cs) x out (omega arith) (omega arith))
      ∙ write_other buf c m x (h - 8) (omega (arith, filled))
          (part buf whole buf (h - 8) x out (omega arith) (omega arith))

  mutual
    unfolding tree_size copy_tree

    pub frame_tree :
        (a : Ast) (buf : ℕ) (m : Memory) (x : ℕ)
        → Outside buf (tree_size z a) x
        → (copy_tree z e a buf m).1 x ≡ m x
    frame_tree (zval_node attr v) buf m x out =
        write_other buf (zval_cell attr (copy_zval e e.unwritten v).1) m x z.zval z.zval_filled out
    frame_tree (constant_node attr s) buf m x out =
        write_other buf (constant_cell attr (copy_string e s)) m x z.zval z.zval_filled out
    frame_tree (list_node kind attr cs) buf m x out =
        frame_block z.list z.list_filled (list_cell kind attr (count cs)) cs buf m x out
          (frame_slots cs)
    frame_tree (node kind attr cs) buf m x out =
        frame_block z.ast z.ast_filled (node_cell kind attr) cs buf m x out (frame_slots cs)

    pub frame_slots :
        (cs : Children) (slot buf : ℕ) (m : Memory) (x : ℕ)
        → Outside slot (8 * count cs) x
        → Outside buf (children_size z cs) x
        → (copy_slots z e cs slot buf m).1 x ≡ m x
    frame_slots last slot buf m x out out2 = refl
    frame_slots (absent cs) slot buf m x out out2 =
        frame_slots cs (slot + 8) buf (write slot (pointer none) m) x
          (part slot (8 * suc (count cs)) (slot + 8) (8 * count cs) x out (omega arith)
            (omega arith))
          out2
        ∙ write_other slot (pointer none) m x 8 (omega arith)
            (part slot (8 * suc (count cs)) slot 8 x out (omega arith) (omega arith))
    frame_slots (child a cs) slot buf m x out out2 =
        let put = write slot (pointer (some buf)) m in
        let laid = copy_tree z e a buf put in
        let ends : laid.0 ≡ buf + tree_size z a = end_tree a buf put in
        let whole = tree_size z a + children_size z cs in
        frame_slots cs (slot + 8) laid.0 laid.1 x
          (part slot (8 * suc (count cs)) (slot + 8) (8 * count cs) x out (omega arith)
            (omega arith))
          (part buf whole laid.0 (children_size z cs) x out2 (omega (arith, ends))
            (omega (arith, ends)))
        ∙ frame_tree a buf put x
            (part buf whole buf (tree_size z a) x out2 (omega arith) (omega arith))
        ∙ write_other slot (pointer (some buf)) m x 8 (omega arith)
            (part slot (8 * suc (count cs)) slot 8 x out (omega arith) (omega arith))
