-- ===== src/Handlers/Properties.antt =====
-- What the property handlers of src/handlers.c do to one another.
use pthreads.Base.{ℕ, ◌≡◌, refl, ap, ◌∙◌, true, false, none, some, ◌∷◌, if◌then◌else◌}
use pthreads.Zend.Hash.{HashApi}
use pthreads.Store.Values.{Text, Zval, unset, null, string, Zstorage, Env, retain_in_local_cache}
use pthreads.Store.Convert.{save_zval}
use pthreads.Store.{
  State, Query, exists, Fetch, bp_var_r, bp_var_is, bp_var_w, is_found, coerce, delete, isset,
}
use pthreads.Store.Access.{got, missing, read, written, write}
use pthreads.Store.Sync.{write-read}
use pthreads.Store.Delete.{delete-read}
use pthreads.Handlers.{
  in_get, in_set, in_unset, in_isset, Error, answer, place_of, Obj, Class, magic_for, read_error,
  read_dimension, read_stored, read_property, write_dimension, checked, write_property,
  has_dimension, has_property, unset_dimension, unset_property, is_quiet,
}

-- A value that connections retain is not undefined.
retained-answer : (v : Zval) → retain_in_local_cache v ≡ true → answer (got v) ≡ some v
unfolding retain_in_local_cache
retained-answer unset k = absurd (cc k)
retained-answer null k = refl
retained-answer Zval.no k = refl
retained-answer Zval.yes_value k = refl
retained-answer (Zval.long n) k = refl
retained-answer (Zval.double n) k = refl
retained-answer (string t) k = refl
retained-answer (Zval.array a) k = refl
retained-answer (Zval.object o) k = refl
retained-answer (Zval.resource r) k = refl
retained-answer (Zval.indirect v) k = refl
retained-answer (Zval.reference v) k = refl

module _ (S : HashApi Zstorage) (L : HashApi Zval) (e : Env) (rebuilt : L.Table) where
  -- The handlers where no magic method is called and the member may be accessed.
  module _ (c : Class S L) (o : Obj S L) (member key : Text)
      (place : place_of (c.info member) member ≡ some key) where
    read_property-stored :
        (fetch : Fetch)
        → magic_for S L c o in_get member ≡ none
        → read_property S L e true rebuilt c member fetch o
          ≡ read_stored S L e true rebuilt
              (read_error S L e true rebuilt (c.info member))
              key
              fetch
              o
    unfolding read_property
    read_property-stored fetch free = rw (free, place) refl

    write_property-stored :
        (next : ℕ) (value v : Zval)
        → magic_for S L c o in_set member ≡ none
        → checked S L e true rebuilt c (c.info member) value ≡ some v
        → write_property S L e true rebuilt c next member value o
          ≡ write_dimension S L e true rebuilt next (some (string key)) v o
    unfolding write_property
    write_property-stored next value v free ok = rw (free, place, ok) refl

    unset_property-stored :
        magic_for S L c o in_unset member ≡ none
        → unset_property S L e true rebuilt c member o
          ≡ unset_dimension S L e true rebuilt (string key) o
    unfolding unset_property
    unset_property-stored free = rw (free, place) refl

    has_property-stored :
        (q : Query)
        → magic_for S L c o in_isset member ≡ none
        → has_property S L e true rebuilt c member q o
          ≡ (o, some (has_dimension S L e true rebuilt (string key) q o))
    unfolding has_property
    has_property-stored q free = rw (free, place) refl

  abbrev with_store : Obj S L → State S L → Obj S L
  with_store o s = record o { store = s }

  write_dimension-written :
      (o : Obj S L) (next : ℕ) (key v : Zval)
      → (write S L e true rebuilt next o.store (some key) v false).1 ≡ written
      → write_dimension S L e true rebuilt next (some key) v o
        ≡ with_store o (write S L e true rebuilt next o.store (some key) v false).0
  unfolding write_dimension
  write_dimension-written o next key v ran = rw ran refl

  has_dimension-isset :
      (o : Obj S L) (key : Zval) (q : Query)
      → has_dimension S L e true rebuilt key q o ≡ isset S L e true o.store key q
  unfolding has_dimension
  has_dimension-isset o key q = refl

  unset_dimension-delete :
      (o : Obj S L) (key : Zval)
      → unset_dimension S L e true rebuilt key o ≡ with_store o (delete S L e true o.store key).0
  unfolding unset_dimension
  unset_dimension-delete o key = refl

  read_stored-got :
      (o : Obj S L) (x : Error) (key : Text) (fetch : Fetch) (v : Zval)
      → retain_in_local_cache v ≡ true
      → read S L e true rebuilt o.store (string key) fetch ≡ (o.store, got v)
      → read_stored S L e true rebuilt x key fetch o ≡ (o, v)
  unfolding read_stored read_dimension
  read_stored-got o x key fetch v keep h = rw (h, retained-answer v keep) refl

  read_stored-missing :
      (o : Obj S L) (x : Error) (key : Text) (fetch : Fetch)
      → (read S L e true rebuilt o.store (string key) fetch).1 ≡ missing
      → let r = read_stored S L e true rebuilt x key fetch o in
        (r.1 ≡ null)
        × (r.0.errors ≡ (if is_quiet S L e true rebuilt fetch then o.errors else x ∷ o.errors))
  unfolding read_stored read_dimension
  read_stored-missing o x key bp_var_is h = rw h (refl, refl)
  read_stored-missing o x key bp_var_r h = rw h (refl, refl)
  read_stored-missing o x key bp_var_w h = rw h (refl, refl)

  -- For a member whose magic methods are missing or running already, and which may be accessed: a
  -- value that passes the check of the property's type, and that the store takes and connections
  -- retain, is written without an error, and reading the member then gives it and changes nothing.
  pub write_property-read_property :
      (c : Class S L) (o : Obj S L) (next : ℕ) (member key : Text) (value v : Zval) (fetch : Fetch)
      (z : Zstorage)
      → magic_for S L c o in_set member ≡ none
      → magic_for S L c o in_get member ≡ none
      → place_of (c.info member) member ≡ some key
      → checked S L e true rebuilt c (c.info member) value ≡ some v
      → save_zval e o.store.local.owner v ≡ some z
      → retain_in_local_cache v ≡ true
      → let w = write_property S L e true rebuilt c next member value o in
        (w.errors ≡ o.errors) × (read_property S L e true rebuilt c member fetch w ≡ (w, v))
  write_property-read_property c o next member key value v fetch z no_set no_get place ok saved
        keep =
      let (ran, again) =
        write-read S L e rebuilt rebuilt next o.store (string key) v false fetch z saved keep in
      let w = with_store o (write S L e true rebuilt next o.store (some (string key)) v false).0 in
      let wrote =
        write_property-stored c o member key place next value v no_set ok
        ∙ write_dimension-written o next (string key) v ran in
      rw wrote (
        refl,
        read_property-stored c w member key place fetch no_get
            ∙ read_stored-got w (read_error S L e true rebuilt (c.info member)) key fetch v keep
                again,
      )

  -- For a member whose magic methods are missing or running already, and which may be accessed and is
  -- in the store: once it is unset it does not exist, and reading it gives NULL and raises the error
  -- for it, unless the read is quiet.
  pub unset_property-read_property :
      (c : Class S L) (o : Obj S L) (member key : Text) (fetch : Fetch)
      → magic_for S L c o in_unset member ≡ none
      → magic_for S L c o in_get member ≡ none
      → magic_for S L c o in_isset member ≡ none
      → place_of (c.info member) member ≡ some key
      → is_found S L (S.find o.store.shared.hash (coerce S L e (string key))) ≡ true
      → let u = unset_property S L e true rebuilt c member o in
        let r = read_property S L e true rebuilt c member fetch u in
        ((has_property S L e true rebuilt c member exists u).1 ≡ some false)
        × (r.1 ≡ null)
        × (r.0.errors ≡ (
            if is_quiet S L e true rebuilt fetch
            then o.errors
            else read_error S L e true rebuilt (c.info member) ∷ o.errors))
  unset_property-read_property c o member key fetch no_unset no_get no_isset place found =
      let (ran, gone, missed, others) =
        delete-read S L e rebuilt o.store (string key) fetch found in
      let u = with_store o (delete S L e true o.store (string key)).0 in
      let x = read_error S L e true rebuilt (c.info member) in
      let stored = read_property-stored c u member key place fetch no_get in
      rw
        (unset_property-stored c o member key place no_unset
          ∙ unset_dimension-delete o (string key))
        (
          ap (λ p. p.1) (has_property-stored c u member key place exists no_isset)
              ∙ ap some (has_dimension-isset u (string key) exists ∙ gone),
          ap (λ p. p.1) stored ∙ (read_stored-missing u x key fetch missed).0,
          ap (λ p. p.0.errors) stored ∙ (read_stored-missing u x key fetch missed).1,
        )
