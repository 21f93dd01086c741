-- ===== src/Handlers/Tests.antt =====
-- Runs of the model of src/handlers.c on an object of a class with one private property.
use pthreads.Base.{◌+◌, ◌≡◌, refl, true, false, none, some, [], ◌∷◌, if◌then◌else◌}
use pthreads.Zend.Key.{name}
use pthreads.Zend.Hash.{HashApi}
use pthreads.Zend.Table.{list_table}
use pthreads.Store.Values.{Text, Zval, null, string, Zstorage, plain, Env, retain_in_local_cache}
use pthreads.Store.Convert.{save_zval}
use pthreads.Store.{bp_var_r, exists, coerce}
use pthreads.Handlers.{
  declared, Obj, Class, write_property, read_property, unset_property, has_property, is_quiet,
  read_error,
}
use pthreads.Handlers.Properties.{write_property-read_property, unset_property-read_property}

abbrev storages : HashApi Zstorage
storages = list_table Zstorage

abbrev values : HashApi Zval
values = list_table Zval

abbrev env : Env
env = record {
  thread = 1;
  valid = λ a. true;
  ts_of = λ a. a;
  original_of = λ a. none;
  connect = λ a. some a;
  copy_closure = λ c. some c;
  find_case = λ c m. none;
  find_resource = λ r. none;
  copy_text = λ a. a + 1;
  to_threaded = λ a. a;
  handle_numeric = λ bytes. none;
  to_bytes = λ v. [];
}

abbrev member : Text
member = record { address = 16; bytes = 120 ∷ []; permanent = true }

-- The name with the class in front.
abbrev mangled : Text
mangled = record { address = 32; bytes = 0 ∷ 67 ∷ 0 ∷ 120 ∷ []; permanent = true }

abbrev literal : Text
literal = record { address = 64; bytes = 121 ∷ []; permanent = true }

abbrev class : Class storages values
class = record {
  magic = λ a. none;
  info = λ m. declared mangled false;
  verify = λ i v. some v;
  is_true = λ v. true;
}

abbrev holding : Obj storages values
holding = record {
  store = record {
    shared = record {
      hash = ((name (0 ∷ 67 ∷ 0 ∷ 120 ∷ []), Zstorage.long 8) ∷ [], (refl, tt));
      modcount = 1;
    };
    local = record { owner = 1; modcount = 1; props = none };
  };
  guard = λ a m. false;
  errors = [];
}

write_property-read_property_example :
    let w =
      write_property storages values env true ([], tt) class 0 member (string literal) holding in
    (w.errors ≡ [])
    × (read_property storages values env true ([], tt) class member bp_var_r w
        ≡ (w, string literal))
unfolding save_zval retain_in_local_cache
write_property-read_property_example =
    write_property-read_property storages values env ([], tt) class holding 0 member mangled
      (string literal) (string literal) bp_var_r (plain literal) refl refl refl refl refl refl

unset_property-read_property_example :
    let u = unset_property storages values env true ([], tt) class member holding in
    let r = read_property storages values env true ([], tt) class member bp_var_r u in
    ((has_property storages values env true ([], tt) class member exists u).1 ≡ some false)
    × (r.1 ≡ null)
    × (r.0.errors ≡ (
        if is_quiet storages values env true ([], tt) bp_var_r
        then []
        else read_error storages values env true ([], tt) (declared mangled false) ∷ []))
unfolding coerce
unset_property-read_property_example =
    unset_property-read_property storages values env ([], tt) class holding member mangled bp_var_r
      refl refl refl refl refl
