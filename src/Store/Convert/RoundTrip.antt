-- ===== src/Store/Convert/RoundTrip.antt =====
-- What a value that src/store.c stores comes back as, in any thread.
use pthreads.Base.{
  ℕ, ◌≡◌, refl, sym, ◌∙◌, false, Option, none, some, some_injective, ◌==◌, Bool-cases, inl, inr,
}
use pthreads.Store.Values.{
  Text, Zval, unset, string, array, object, resource, indirect, reference, Storage, string_of,
  Zstorage, plain, ptr, Env,
}
use pthreads.Store.Convert.{
  save_string, restore_string, create, save_zval, convert, restore_zval_ex, restore_zval,
  hard_copy_storage, as_ptr,
}

-- A simple value or string without the place of its bytes, behind any indirections; `none` for
-- other types.
abbrev pub content : Zval → Option Zval
content Zval.null = some Zval.null
content Zval.no = some Zval.no
content Zval.yes_value = some Zval.yes_value
content (Zval.long n) = some (Zval.long n)
content (Zval.double d) = some (Zval.double d)
content (string s) = some (string (record { address = 0; bytes = s.bytes; permanent = false }))
content (indirect v) = content v
content (reference v) = content v
content _ = none

restore_string-content :
    (e : Env) (s : Text) → content (string (restore_string e s)) ≡ content (string s)
unfolding restore_string
restore_string-content e s = elim (Bool-cases s.permanent) [ inl p ↦ rw p refl | inr t ↦ rw t refl ]

save_string-content : (e : Env) (s : Text) → content (string (save_string e s)) ≡ content (string s)
unfolding save_string
save_string-content e s = elim (Bool-cases s.permanent) [ inl p ↦ rw p refl | inr t ↦ rw t refl ]

string_of-content :
    (e : Env) (s : Text) (owner : ℕ) → content (convert e (string_of s owner)) ≡ content (string s)
unfolding convert
string_of-content e s owner = elim (Bool-cases (owner == e.thread)) [
  | inl o ↦ rw o refl
  | inr f ↦ rw f (restore_string-content e s)
]

create-content :
    (e e' : Env) (source : ℕ) (v c : Zval) (g : Storage)
    → content v ≡ some c
    → create e source v ≡ some g
    → content (convert e' g) ≡ some c
unfolding create
create-content e e' source (indirect v) c g h q = create-content e e' source v c g h q
create-content e e' source (reference v) c g h q = create-content e e' source v c g h q
create-content e e' source (string s) c g h q =
    let p : string_of s source ≡ g = some_injective q in
    rw (sym p) (string_of-content e' s source ∙ h)
create-content e e' source (resource r) c g h q = cc
create-content e e' source (object o) c g h q = cc
create-content e e' source (array a) c g h q = cc
create-content e e' source unset c g h q = cc
create-content e e' source Zval.null c g h q = cc
create-content e e' source Zval.no c g h q = cc
create-content e e' source Zval.yes_value c g h q = cc
create-content e e' source (Zval.long n) c g h q = cc
create-content e e' source (Zval.double d) c g h q = cc

as_ptr-content :
    (e : Env) (o : Option Storage) (c : Zval) (z : Zstorage)
    → ((g : Storage) → o ≡ some g → content (convert e g) ≡ some c)
    → as_ptr o ≡ some z
    → content (restore_zval e z) ≡ some c
unfolding restore_zval restore_zval_ex
as_ptr-content e none c z f q = cc
as_ptr-content e (some g) c z f q = let p : ptr g ≡ z = some_injective q in rw (sym p) (f g refl)

-- A simple value or a string, behind whatever indirections, that the store takes under one owner is
-- given back by any thread with the same type and the same number, bits or bytes.
pub save-restore :
    (e e' : Env) (source : ℕ) (v c : Zval) (z : Zstorage)
    → content v ≡ some c
    → save_zval e source v ≡ some z
    → content (restore_zval e' z) ≡ some c
unfolding save_zval restore_zval restore_zval_ex
save-restore e e' source (string s) c z h q = elim (Bool-cases s.permanent) [
  | inl p ↦
      let is : save_zval e source (string s) ≡ some (plain s) = rw p refl in
      let w : plain s ≡ z = some_injective (sym is ∙ q) in
      rw (sym w) (restore_string-content e' s ∙ h)
  | inr t ↦
      let is : save_zval e source (string s) ≡ as_ptr (create e source (string s)) = rw t refl in
      as_ptr-content e' (create e source (string s)) c z
        (λ g. create-content e e' source (string s) c g h) (sym is ∙ q)
]
save-restore e e' source (indirect v) c z h q =
    as_ptr-content e' (create e source v) c z (λ g. create-content e e' source v c g h) q
save-restore e e' source (reference v) c z h q =
    as_ptr-content e' (create e source v) c z (λ g. create-content e e' source v c g h) q
save-restore e e' source (resource r) c z h q = cc
save-restore e e' source (object o) c z h q = cc
save-restore e e' source (array a) c z h q = cc
save-restore e e' source unset c z h q = cc
save-restore e e' source Zval.null c z h q =
    let p : Zstorage.null ≡ z = some_injective q in rw (sym p) h
save-restore e e' source Zval.no c z h q =
    let p : Zstorage.no ≡ z = some_injective q in rw (sym p) h
save-restore e e' source Zval.yes_value c z h q =
    let p : Zstorage.yes_value ≡ z = some_injective q in rw (sym p) h
save-restore e e' source (Zval.long n) c z h q =
    let p : Zstorage.long n ≡ z = some_injective q in rw (sym p) h
save-restore e e' source (Zval.double d) c z h q =
    let p : Zstorage.double d ≡ z = some_injective q in rw (sym p) h

-- The copy that `merge` makes of a storage restores, in any thread, to the same content as the
-- storage itself.
pub hard_copy-restore :
    (e e' : Env) (z : Zstorage)
    → content (restore_zval e' (hard_copy_storage e z)) ≡ content (restore_zval e' z)
unfolding hard_copy_storage restore_zval restore_zval_ex
hard_copy-restore e e' (ptr (string_of s owner)) =
    restore_string-content e' (save_string e s)
    ∙ save_string-content e s
    ∙ sym (string_of-content e' s owner)
hard_copy-restore e e' (plain s) =
    restore_string-content e' (save_string e s)
    ∙ save_string-content e s
    ∙ sym (restore_string-content e' s)
hard_copy-restore e e' (ptr (Storage.closure_of c o)) = refl
hard_copy-restore e e' (ptr (Storage.threaded_of a)) = refl
hard_copy-restore e e' (ptr (Storage.resource_of r o)) = refl
hard_copy-restore e e' (ptr (Storage.socket_of s)) = refl
hard_copy-restore e e' (ptr (Storage.enum_of c m)) = refl
hard_copy-restore e e' Zstorage.null = refl
hard_copy-restore e e' Zstorage.no = refl
hard_copy-restore e e' Zstorage.yes_value = refl
hard_copy-restore e e' (Zstorage.long n) = refl
hard_copy-restore e e' (Zstorage.double d) = refl
