-- ===== src/Globals.antt =====
-- src/globals.c and src/resources.c: what all threads of the process share besides their objects, the
-- strings that are kept once for all of them and the sockets in use by several, and the resources that
-- a thread has from another. The registry's lock is always obtained; the registry of objects is in
-- Object.
use pthreads.Base.{
  ℕ, ◌≡◌, Bool, true, false, not, ◌&&◌, Option, none, some, List, [], ◌∷◌, ◌==◌, if◌then◌else◌,
  is_some, map,
}
use pthreads.Base.Int.{ℤ, pos, negsuc}
use pthreads.Zend.Key.{Key, index, name}
use pthreads.Zend.Hash.{HashApi}
pub mod Intern
pub mod Sockets
pub mod Tests

-- A string by its address; `permanent` is the flag `IS_STR_PERMANENT`.
pub record SharedString : Type 0 where
  pub address : ℕ
  pub bytes : List ℕ
  pub permanent : Bool

-- `zend_interned_string_find_permanent`, the engine's table of strings that last as long as the
-- process, by the bytes: what it finds has these bytes and is permanent.
pub record PermanentTable : Type 0 where
  pub find_permanent : List ℕ → Option SharedString
  pub found_bytes : (b : List ℕ) (s : SharedString) → find_permanent b ≡ some s → s.bytes ≡ b
  pub found_permanent :
      (b : List ℕ) (s : SharedString) → find_permanent b ≡ some s → s.permanent ≡ true

-- `pthreads_resource`: the resource and the context that it comes from.
pub record KeptResource : Type 0 where
  pub original : ℕ
  pub ls : ℕ

module _ (I : HashApi SharedString) (K : HashApi ℤ) where
  pub record Globals : Type 0 where
    pub is_init : Bool
    pub failed : Bool
    pub interned_strings : I.Table
    pub shared_sockets : K.Table

  -- `monitor_ok` is whether the registry's monitor can be made. The result is the flag.
  unfoldable pub globals_init : (monitor_ok : Bool) → Globals → Globals × Bool
  globals_init monitor_ok g =
      if not g.is_init && not g.failed
      then (if monitor_ok
          then (
            record {
              is_init = true;
              failed = false;
              interned_strings = I.empty;
              shared_sockets = K.empty;
            },
            true,
          )
          else (record g { is_init = false; failed = true }, false))
      else (g, false)

  -- `pthreads_globals_shutdown`, and the sockets that it closes, in order.
  unfoldable pub shutdown : Globals → Globals × List ℤ
  shutdown g =
      if g.is_init
      then (
        record {
          is_init = false;
          failed = false;
          interned_strings = I.empty;
          shared_sockets = K.empty;
        },
        map (λ e. e.1) (K.entries g.shared_sockets),
      )
      else (g, [])

  module _ (z : PermanentTable) where
    unfoldable pub find_interned_string : Globals → SharedString → Option SharedString
    find_interned_string g s = if s.permanent then some s else elim (z.find_permanent s.bytes) [
      | some r ↦ some r
      | none ↦ I.find g.interned_strings (name s.bytes)
    ]

    -- `fresh` is the address at which `zend_string_init` makes a copy.
    abbrev pub new_interned : ℕ → SharedString → SharedString
    new_interned fresh s = record { address = fresh; bytes = s.bytes; permanent = true }

    unfoldable pub add_interned_string :
        (fresh : ℕ) → Globals → SharedString → Globals × SharedString
    add_interned_string fresh g s =
        if s.permanent then (g, s) else elim (find_interned_string g s) [
          | some r ↦ (g, r)
          | none ↦ (
            record g {
              interned_strings = I.update g.interned_strings (name s.bytes) (new_interned fresh s);
            },
            new_interned fresh s,
          )
        ]

  -- `zend_hash_index_add` keeps what is there.
  unfoldable pub socket_track : ℤ → Globals → Globals
  socket_track (negsuc n) g = g
  socket_track (pos n) g =
      if is_some (K.find g.shared_sockets (index n))
      then g
      else record g { shared_sockets = K.update g.shared_sockets (index n) (pos n) }

  unfoldable pub socket_shared : Globals → ℤ → Bool
  socket_shared g (negsuc n) = false
  socket_shared g (pos n) = is_some (K.find g.shared_sockets (index n))

  -- `pthreads_socket_free_obj_hook` in src/ext_sockets_hacks.c: the socket that the object still has
  -- when the engine's own handler closes it; -1 is no socket.
  unfoldable pub socket_free_hook : Globals → ℤ → ℤ
  socket_free_hook g (negsuc n) = negsuc n
  socket_free_hook g (pos n) = if socket_shared g (pos n) then negsuc 0 else pos n

module _ (R : HashApi KeptResource) where
  -- The thread's table of kept resources, `none` until there is one.
  unfoldable pub resources_keep : KeptResource → Option R.Table → Option R.Table
  resources_keep res none = some (R.update R.empty (index res.original) res)
  resources_keep res (some t) = some (R.update t (index res.original) res)

  unfoldable pub resources_kept : (ls : ℕ) → Option R.Table → ℕ → Bool
  resources_kept ls none entry = false
  resources_kept ls (some t) entry = elim (R.find t (index entry)) [
    | none ↦ false
    | some kept ↦ not (kept.ls == ls)
  ]

  -- `pthreads_resources_cleanup` in src/prepare.c: whether the entry leaves the list of resources.
  abbrev pub resources_cleanup : (ls : ℕ) → Option R.Table → ℕ → Bool
  resources_cleanup ls t bucket = resources_kept ls t bucket

  -- `pthreads_prepared_resource_dtor` in src/prepare.c: whether the engine's destructor is called.
  unfoldable pub prepared_resource_dtor : (has_default : Bool) (ls : ℕ) → Option R.Table → ℕ → Bool
  prepared_resource_dtor has_default ls t res = not (resources_kept ls t res) && has_default
