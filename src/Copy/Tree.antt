-- ===== src/Copy/Tree.antt =====
-- src/copy.c: the block of memory that a copied syntax tree is laid out in. A number is an address,
-- and the cells are the structures and the pointers that the code writes, each at its first byte.
use pthreads.Base.{ℕ, ◌+◌, ◌-◌, ◌*◌, ◌<◌, ◌≡◌, Option, none, some, ◌==◌, if◌then◌else◌, suc}
use pthreads.Copy.{
  Engine, ZString, Value, Ast, zval_node, constant_node, list_node, node, Children, last, absent,
  child, copy_string, copy_zval,
}

pub data Cell : Type 0 where
  zval_cell : (attr : ℕ) → Value → Cell
  constant_cell : (attr : ℕ) → ZString → Cell
  list_cell : (kind attr children : ℕ) → Cell
  node_cell : (kind attr : ℕ) → Cell
  pointer : Option ℕ → Cell
  ref_cell : (refcount : ℕ) → Cell

abbrev pub Memory : Type 0
Memory = ℕ → Option Cell

abbrev pub write : ℕ → Cell → Memory → Memory
write a c m = λ (x : ℕ). if a == x then some c else m x

-- `sizeof` of `zend_ast_zval`, `zend_ast`, `zend_ast_list` and `zend_ast_ref`, where a pointer takes
-- 8 bytes and `child`, with one pointer, ends its structure.
pub record Sizes : Type 0 where
  pub zval : ℕ
  pub ast : ℕ
  pub list : ℕ
  pub ref : ℕ
  pub zval_filled : 0 < zval
  pub ast_filled : 8 < ast
  pub list_filled : 8 < list
  pub ref_filled : 0 < ref

abbrev pub count : Children → ℕ
count last = 0
count (absent cs) = suc (count cs)
count (child a cs) = suc (count cs)

module _ (z : Sizes) where
  -- `zend_ast_size` and `zend_ast_list_size`
  abbrev pub ast_size : ℕ → ℕ
  ast_size children = z.ast - 8 + 8 * children

  abbrev pub list_size : ℕ → ℕ
  list_size children = z.list - 8 + 8 * children

  -- `zend_ast_tree_size`
  unfoldable mutual
    pub tree_size : Ast → ℕ
    tree_size (zval_node attr v) = z.zval
    tree_size (constant_node attr s) = z.zval
    tree_size (list_node kind attr cs) = list_size (count cs) + children_size cs
    tree_size (node kind attr cs) = ast_size (count cs) + children_size cs

    pub children_size : Children → ℕ
    children_size last = 0
    children_size (absent cs) = children_size cs
    children_size (child a cs) = tree_size a + children_size cs

  -- The tree, and the pointers and trees of its children, stand in memory one after the other.
  unfoldable mutual
    unfolding tree_size

    pub Lies : Memory → ℕ → Ast → Type 0
    Lies m b (zval_node attr v) = m b ≡ some (zval_cell attr v)
    Lies m b (constant_node attr s) = m b ≡ some (constant_cell attr s)
    Lies m b (list_node kind attr cs) =
        (m b ≡ some (list_cell kind attr (count cs)))
        × LieChildren m (b + (z.list - 8)) (b + list_size (count cs)) cs
    Lies m b (node kind attr cs) =
        (m b ≡ some (node_cell kind attr))
        × LieChildren m (b + (z.ast - 8)) (b + ast_size (count cs)) cs

    pub LieChildren : Memory → ℕ → ℕ → Children → Type 0
    LieChildren m slot b last = Unit
    LieChildren m slot b (absent cs) =
        (m slot ≡ some (pointer none)) × LieChildren m (slot + 8) b cs
    LieChildren m slot b (child a cs) =
        (m slot ≡ some (pointer (some b)))
        × Lies m b a
        × LieChildren m (slot + 8) (b + tree_size a) cs

  module _ (e : Engine) where
    -- `pthreads_copy_ast_tree`: the end of what was laid out, and the memory; `copy_slots` is its loop
    -- over the children, where `slot` is the address of the next pointer.
    unfoldable mutual
      pub copy_tree : Ast → ℕ → Memory → ℕ × Memory
      copy_tree (zval_node attr v) buf m =
          (buf + z.zval, write buf (zval_cell attr (copy_zval e e.unwritten v).1) m)
      copy_tree (constant_node attr s) buf m =
          (buf + z.zval, write buf (constant_cell attr (copy_string e s)) m)
      copy_tree (list_node kind attr cs) buf m =
          copy_slots cs (buf + (z.list - 8)) (buf + list_size (count cs))
            (write buf (list_cell kind attr (count cs)) m)
      copy_tree (node kind attr cs) buf m =
          copy_slots cs (buf + (z.ast - 8)) (buf + ast_size (count cs))
            (write buf (node_cell kind attr) m)

      pub copy_slots : Children → ℕ → ℕ → Memory → ℕ × Memory
      copy_slots last slot buf m = (buf, m)
      copy_slots (absent cs) slot buf m = copy_slots cs (slot + 8) buf (write slot (pointer none) m)
      copy_slots (child a cs) slot buf m =
          let laid = copy_tree a buf (write slot (pointer (some buf)) m) in
          copy_slots cs (slot + 8) laid.0 laid.1

    -- `pthreads_copy_ast`, where `emalloc` answers `base`: how much is allocated, and the memory.
    unfoldable pub copy_ast_ref : Ast → ℕ → Memory → ℕ × Memory
    copy_ast_ref a base m =
        (tree_size a + z.ref, write base (ref_cell 1) (copy_tree a (base + z.ref) m).1)
