-- ===== src/Prepare/Late.antt =====
-- src/prepare.c: the constants of a copied class, and its late bindings.
use pthreads.Base.{ℕ, true, Option, none, some, if◌then◌else◌, is_some}
use mathlib.Core.Option.{map as map_option}
use pthreads.Zend.Key.{Key}
use pthreads.Zend.Hash.{HashApi}
use pthreads.Copy.{ZString, copy_string, copy_zval}
use pthreads.Prepare.Classes.{
  Outcome, done, failed, fatal, ◌>>=◌, each, PropertyInfo, ClassConstant, ConstantValue, plain,
  enum_case, Class, Thread, Source,
}
use pthreads.Prepare.Entry.{Recur, Change, change}
use pthreads.Prepare.Properties.{prepare_class_property_table}
use pthreads.Prepare.Statics.{prepare_class_statics, init_class_statics}

module _ (F : HashApi ZString) (R : HashApi ℕ) (P : HashApi PropertyInfo)
    (K : HashApi ClassConstant) where
  -- The value of a constant, unless it cannot be copied.
  unfoldable pub copy_constant_value : Source F R P K → ConstantValue → Outcome ConstantValue
  copy_constant_value w (plain v) =
      let copied = copy_zval w.engine v v in
      if copied.0 then done (plain (copied.1)) else failed fatal
  copy_constant_value w (enum_case none) = done (enum_case none)
  copy_constant_value w (enum_case (some v)) =
      let copied = copy_zval w.engine w.engine.unwritten v in
      if copied.0 then done (enum_case (some (copied.1))) else failed fatal

  -- `zend_enum_add_case` makes the constant of a case the class's own.
  unfoldable pub constant_class :
      Recur F R P K → ℕ → ClassConstant → Thread F R P K → Outcome (Thread F R P K × Option ℕ)
  constant_class recur p zc s = elim zc.constant_value [
    | plain v ↦ recur zc.constant_owner true s
    | enum_case backing ↦ done (s, some p)
  ]

  abbrev pub add_constant : Key → ClassConstant → Class F R P K → Class F R P K
  add_constant k rc q = record q { constants_table = K.update q.constants_table k rc }

  unfoldable pub prepare_constant :
      Recur F R P K → Source F R P K → ℕ → Key × ClassConstant → Change F R P K
  prepare_constant recur w p (k, zc) s =
      if is_some (K.find (s.classes p).constants_table k) then done s else (do
        v ← copy_constant_value w zc.constant_value
        (t, r) ← constant_class recur p zc s
        let rc : ClassConstant = record {
          constant_value = v;
          constant_owner = r;
          constant_comment = map_option (copy_string w.engine) zc.constant_comment;
        }
        change F R P K p (add_constant k rc) t)

  unfoldable pub prepare_class_constants :
      Recur F R P K → Source F R P K → Class F R P K → ℕ → Change F R P K
  prepare_class_constants recur w c p =
      each (prepare_constant recur w p) (K.entries c.constants_table)

  -- `pthreads_prepared_entry_late_bindings`
  unfoldable pub late_bindings : Recur F R P K → Source F R P K → ℕ → ℕ → Change F R P K
  late_bindings recur w x p s = do
    let c = s.classes x
    t ← if c.immutable then done s else (do
      s1 ← prepare_class_property_table F R P K recur w x p s
      s2 ← prepare_class_statics F R P K w c p s1
      prepare_class_constants recur w c p s2)
    if w.engine.before_81 then done t else init_class_statics F R P K w x p t
