-- ===== src/Prepare/Create.antt =====
-- src/prepare.c: `pthreads_create_entry`, by which a thread gets a class of another thread: its own
-- copy, one that it has already, or an immutable class itself. The calls of one class for another take
-- fuel. Types that name a class by its entry, of PHP before 8.1, are left out.
use pthreads.Base.{
  ℕ, zero, suc, Bool, true, not, ◌&&◌, ◌||◌, Option, none, some, List, [], ◌∷◌, ◌==◌, if◌then◌else◌,
  is_some,
}
use pthreads.Zend.Key.{Key, name}
use pthreads.Zend.Hash.{HashApi}
use pthreads.Copy.{ZString}
use pthreads.Copy.Function.{ZendType, builtin, named, types, Types, no_types, add_type}
use pthreads.Prepare.Classes.{
  Outcome, done, failed, no_fuel, ◌>>=◌, each, or_dangling, PropertyInfo, ClassConstant, Class,
  Thread, Source, register, copy_into,
}
use pthreads.Prepare.Entry.{Recur, Change, complete_entry, copy_entry}
use pthreads.Prepare.Late.{late_bindings}

-- The names in a type: its own, or those in its list.
abbrev pub names_in : Types → List ZString
names_in no_types = []
names_in (add_type (named mask s) ts) = s ∷ names_in ts
names_in (add_type (builtin mask) ts) = names_in ts
names_in (add_type (types mask us) ts) = names_in ts

abbrev pub type_names : ZendType → List ZString
type_names (builtin mask) = []
type_names (named mask s) = s ∷ []
type_names (types mask ts) = names_in ts

module _ (F : HashApi ZString) (R : HashApi ℕ) (P : HashApi PropertyInfo)
    (K : HashApi ClassConstant) where
  abbrev pub lower_key : Source F R P K → ZString → Key
  lower_key w n = name (w.lower n.bytes)

  -- One round of `pthreads_prepare_closures`: closures under a key that the thread does not have.
  unfoldable pub prepare_closure : Source F R P K → Key × ℕ → Change F R P K
  prepare_closure w (k, f) s = do
    g ← or_dangling (s.functions.functions f)
    if not g.closure || is_some (R.find s.function_table k) then done s else (do
      (t, c) ← copy_into F R P K w f s
      done (record t { function_table = R.update t.function_table k c }))

  unfoldable pub prepare_closures : Source F R P K → Change F R P K
  prepare_closures w = each (prepare_closure w) (R.entries w.source_functions)

  abbrev pub set_scope : ℕ → Option ℕ → Thread F R P K → Thread F R P K
  set_scope f o s = record s { scope = λ (a : ℕ). if f == a then o else s.scope a }

  -- A method of the class at this address.
  unfoldable pub scope_for : Recur F R P K → (x p f : ℕ) → Option ℕ → Change F R P K
  scope_for recur x p f none s = done s
  scope_for recur x p f (some a) s =
      if a == x
      then done (set_scope f (some p) s)
      else if (s.classes a).builtin
      then done s
      else (do (t, r) ← recur (some a) true s; done (set_scope f r t))

  -- `pthreads_prepared_entry_function_prepare`
  unfoldable pub prepare_scope : Recur F R P K → ℕ → ℕ → Key × ℕ → Change F R P K
  prepare_scope recur x p (k, f) s = scope_for recur x p f (s.scope f) s

  unfoldable pub depend_on : Recur F R P K → Bool → Option ℕ → Change F R P K
  depend_on recur late o s = do (t, r) ← recur o late s; done t

  unfoldable pub depend_on_found : Recur F R P K → Bool → Option ℕ → Change F R P K
  depend_on_found recur late none s = done s
  depend_on_found recur late (some a) s = depend_on recur late (some a) s

  -- The class that the thread that is copied from has under a name.
  unfoldable pub depend_on_name : Recur F R P K → Source F R P K → Bool → ZString → Change F R P K
  depend_on_name recur w late n =
      depend_on_found recur late (R.find w.source_classes (lower_key w n))

  unfoldable pub depend_on_property :
      Recur F R P K → Source F R P K → Bool → Key × PropertyInfo → Change F R P K
  depend_on_property recur w late (k, i) =
      each (depend_on_name recur w late) (type_names i.property_type)

  -- `pthreads_prepare_immutable_class_dependencies`
  unfoldable pub immutable_dependencies :
      Recur F R P K → Source F R P K → Class F R P K → Bool → Change F R P K
  immutable_dependencies recur w c late s = do
    s1 ←
        if c.linked
        then (do
          s2 ← if is_some c.parent then depend_on recur late c.parent s else done s
          each (depend_on recur late) c.interfaces s2)
        else done s
    each (depend_on_property recur w late) (P.entries c.properties_info) s1

  -- An anonymous class that was unbound when it was copied, and is bound by now.
  abbrev pub bound_since : Class F R P K → Class F R P K → Bool
  bound_since c q = (q.anonymous && not q.linked) && (c.anonymous && c.linked)

  unfoldable pub bind_if : Bool → Recur F R P K → Source F R P K → ℕ → ℕ → Change F R P K
  bind_if late recur w x p s = if late then late_bindings F R P K recur w x p s else done s

  -- What follows where the thread has no such class.
  unfoldable pub new_entry :
      Recur F R P K
      → Source F R P K
      → ℕ
      → Bool
      → Thread F R P K
      → Outcome (Thread F R P K × Option ℕ)
  new_entry recur w x late s =
      let c = s.classes x in
      let k = lower_key w c.class_name in
      if c.immutable
      then (do
        s1 ← immutable_dependencies recur w c late (register F R P K k x s)
        s2 ← bind_if late recur w x x s1
        done (s2, some x))
      else (do
        (s1, p) ← copy_entry F R P K recur w x s
        s2 ← bind_if late recur w x p (register F R P K k p s1)
        s3 ← prepare_closures w s2
        s4 ← each (prepare_scope recur x p) (R.entries (s3.classes p).function_table) s3
        done (s4, some p))

  unfoldable pub known_entry :
      Recur F R P K
      → Source F R P K
      → ℕ
      → ℕ
      → Bool
      → Thread F R P K
      → Outcome (Thread F R P K × Option ℕ)
  known_entry recur w x p late s =
      if bound_since (s.classes x) (s.classes p)
      then (if (s.classes p).immutable then new_entry recur w x late s else (do
        s1 ← complete_entry F R P K recur w x p s
        s2 ← bind_if late recur w x p s1
        done (s2, some p)))
      else done (s, some p)

  -- By the entry that the thread has under the name.
  unfoldable pub entry_for :
      Recur F R P K
      → Source F R P K
      → ℕ
      → Bool
      → Option ℕ
      → Thread F R P K
      → Outcome (Thread F R P K × Option ℕ)
  entry_for recur w x late none s = new_entry recur w x late s
  entry_for recur w x late (some p) s = known_entry recur w x p late s

  -- One call, by what its own calls do.
  unfoldable pub create : Recur F R P K → Source F R P K → Recur F R P K
  create recur w none late s = done (s, none)
  create recur w (some x) late s =
      let c = s.classes x in
      if c.builtin || c.preloaded
      then done (s, w.lookup_class c.class_name.bytes)
      else entry_for recur w x late (R.find s.class_table (lower_key w c.class_name)) s

  unfoldable pub create_entry : ℕ → Source F R P K → Recur F R P K
  create_entry zero w o late s = failed no_fuel
  create_entry (suc fuel) w o late s = create (create_entry fuel w) w o late s
