-- ===== src/Store/Tests.antt =====
-- Two connections to one object, in two threads, over tables of entries in a list.
use pthreads.Base.{ℕ, ◌+◌, ◌≡◌, refl, true, false, none, some, [], ◌∷◌, arith, ◌==◌, if◌then◌else◌}
use pthreads.Zend.Key.{Key, same_key, index}
use pthreads.Zend.Hash.{HashApi}
use pthreads.Zend.Table.{list_table}
use pthreads.Store.Values.{
  Text, Zval, string, indirect, Zstorage, plain, ptr, string_of, Env, retain_in_local_cache,
  storage_is_cacheable, still_matches,
}
use pthreads.Store.Convert.{save_zval, restore_zval, create}
use pthreads.Store.Convert.RoundTrip.{content, save-restore}
use pthreads.Store.{
  delete, isset, exists, State, Local, bp_var_r, sync_local_properties, init_local_properties,
  find_prop, coerce,
}
use pthreads.Store.Access.{got, missing, read, written, write}
use pthreads.Store.Full.{full_sync_local_properties, filled_with, full_sync-filled_with}
use pthreads.Store.Iterate.{iterator_create, within}
use pthreads.Store.Iterate.Each.{MeetsFrom, each-keys}
use pthreads.Store.Cache.{kept, sync-kept}
use pthreads.Store.Sync.{write-read, write-seen}
use pthreads.Store.Delete.{delete-read}
use pthreads.Store.Merge.{merged, merge_threaded-find}
use pthreads.Store.Whole.{merge_threaded}
use pthreads.Store.Sequence.{Chunked, chunk-Chunked}

abbrev storages : HashApi Zstorage
storages = list_table Zstorage

abbrev values : HashApi Zval
values = list_table Zval

-- A thread, where every object exists and is its own original, and a string is copied to the
-- address behind it.
abbrev thread_at : ℕ → Env
thread_at n = record {
  thread = n;
  valid = λ a. true;
  ts_of = λ a. a;
  original_of = λ a. none;
  connect = λ a. some a;
  copy_closure = λ c. some c;
  find_case = λ c m. none;
  find_resource = λ r. none;
  copy_text = λ a. a + 1;
  to_threaded = λ a. a;
  handle_numeric = λ bytes. none;
  to_bytes = λ v. [];
}

abbrev hello : Text
hello = record { address = 80; bytes = 104 ∷ 105 ∷ []; permanent = false }

abbrev literal : Text
literal = record { address = 64; bytes = 120 ∷ []; permanent = true }

abbrev key : Zval
key = Zval.long 3

-- A string of thread 1 under the key 3, and thread 1's connection with it in its cache.
abbrev holding : State storages values
holding = record {
  shared = record {
    hash =
        ((index 3, ptr (string_of hello 1)) ∷ (index 4, Zstorage.long 8) ∷ [], (refl, (refl, tt)));
    modcount = 5;
  };
  local = record {
    owner = 1;
    modcount = 5;
    props = some ((index 3, string hello) ∷ [], (refl, tt));
  };
}

write-read_example :
    let w =
      write storages values
        (thread_at 1)
        true
        ([], tt)
        0
        holding
        (some key)
        (string literal)
        true in
    (w.1 ≡ written)
    × (read storages values (thread_at 1) true ([], tt) w.0 key bp_var_r
        ≡ (w.0, got (string literal)))
unfolding save_zval retain_in_local_cache
write-read_example =
    write-read storages values (thread_at 1) ([], tt) ([], tt) 0 holding key (string literal) true
      bp_var_r (plain literal) refl refl

abbrev elsewhere : Local storages values
elsewhere = record {
  owner = 2;
  modcount = 5;
  props = some ((index 3, string hello) ∷ [], (refl, tt));
}

write-seen_example :
    let w =
      (write storages values
        (thread_at 1)
        true
        ([], tt)
        0
        holding
        (some key)
        (Zval.long 12)
        true).0 in
    (read storages values
      (thread_at 2)
      true
      ([], tt)
      (record { shared = w.shared; local = elsewhere })
      key
      bp_var_r).1
    ≡ got (restore_zval (thread_at 2) (Zstorage.long 12))
unfolding save_zval storage_is_cacheable coerce still_matches
write-seen_example =
    write-seen storages values (thread_at 1) (thread_at 2) ([], tt) ([], tt) 0 holding elsewhere
      ((index 3, string hello) ∷ [], (refl, tt)) key (Zval.long 12) true (Zstorage.long 12) refl
      refl refl refl refl refl refl

-- A connection that is behind by a change.
abbrev behind : State storages values
behind = record holding { local = record elsewhere { modcount = 4 } }

sync-kept_example :
    let t = sync_local_properties storages values (thread_at 2) behind in
    (t.shared ≡ behind.shared)
    × (t.local.modcount ≡ behind.shared.modcount)
    × (t.local.owner ≡ behind.local.owner)
    × (find_prop storages values t.local.props (index 3) ≡ (
        if behind.local.modcount == behind.shared.modcount
        then find_prop storages values behind.local.props (index 3)
        else kept storages values
            (thread_at 2)
            (storages.find behind.shared.hash (index 3))
            (find_prop storages values behind.local.props (index 3))))
sync-kept_example = sync-kept storages values (thread_at 2) behind (index 3)

chunk-Chunked_example : Chunked storages values 3 (thread_at 1) holding 1 true
chunk-Chunked_example = chunk-Chunked storages values 3 (thread_at 1) holding 1 true (omega arith)

save-restore_example :
    content (restore_zval (thread_at 2) (ptr (string_of hello 1)))
    ≡ some (string (record { address = 0; bytes = 104 ∷ 105 ∷ []; permanent = false }))
unfolding save_zval create
save-restore_example =
    save-restore (thread_at 1) (thread_at 2) 1 (indirect (string hello)) _ (ptr (string_of hello 1))
      refl refl

delete-read_example :
    let (t, result) = delete storages values (thread_at 1) true holding key in
    (result ≡ true)
    × (isset storages values (thread_at 1) true t key exists ≡ false)
    × ((read storages values (thread_at 1) true ([], tt) t key bp_var_r).1 ≡ missing)
    × ((j : Key)
        → same_key (coerce storages values (thread_at 1) key) j ≡ false
        → storages.find t.shared.hash j ≡ storages.find holding.shared.hash j)
unfolding coerce
delete-read_example = delete-read storages values (thread_at 1) ([], tt) holding key bp_var_r refl

abbrev other_table : storages.Table
other_table = ((index 3, plain literal) ∷ [], (refl, tt))

merge_threaded-find_example :
    let (t, result) =
      merge_threaded storages values (thread_at 1) true true holding other_table false in
    (result ≡ true)
    × (storages.find t.shared.hash (index 3)
        ≡ merged
            (thread_at 1)
            false
            (storages.find holding.shared.hash (index 3))
            (storages.find other_table (index 3)))
merge_threaded-find_example =
    merge_threaded-find storages values (thread_at 1) holding other_table false (index 3)

full_sync-filled_with_example :
    let r =
      full_sync_local_properties storages values (thread_at 1) false true false ([], tt) holding in
    let synced = sync_local_properties storages values (thread_at 1) holding in
    (r.state.shared ≡ synced.shared)
    × (find_prop storages values r.state.local.props (index 3)
        ≡ filled_with storages values
            (thread_at 1)
            (values.find
              (init_local_properties storages values ([], tt) synced.local.props)
              (index 3))
            (storages.find synced.shared.hash (index 3)))
full_sync-filled_with_example =
    full_sync-filled_with storages values (thread_at 1) false ([], tt) holding (index 3)

each-keys_example :
    (iterator_create storages values true holding ≡ none)
    × (iterator_create storages values false holding ≡ some (within storages values holding 0))
    × MeetsFrom storages values
        (thread_at 1)
        ([], tt)
        90
        3
        0
        holding
        (storages.entries holding.shared.hash)
each-keys_example = each-keys storages values (thread_at 1) ([], tt) 90 3 holding (omega arith)
