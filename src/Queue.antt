-- ===== src/Queue.antt =====
-- src/queue.c and src/queue.h: a doubly linked list of zvals with a stored size, over an explicit
-- memory of items. Calls of the Zend engine's reference counting are recorded in a trace.
pub mod Links
pub mod Relink
pub mod Push
pub mod Remove
pub mod Sequence
pub mod Clean
pub mod Tests
use pthreads.Base.{
  ℕ, zero, suc, Bool, ◌&&◌, Option, none, some, List, ◌∷◌, ◌==◌, if◌then◌else◌, incr, decr,
}

abbrev pub Ptr : Type 0
Ptr = ℕ

abbrev pub null : Ptr
null = 0

-- `value` stands for the object that the zval refers to.
pub record Item : Type 0 where
  pub next : Ptr
  pub prev : Ptr
  pub value : ℕ

-- `copied` is `ZVAL_COPY`, `released` is `zval_ptr_dtor`.
pub data Effect : Type 0 where
  copied : ℕ → Effect
  released : ℕ → Effect

pub record Memory : Type 0 where
  pub cell : Ptr → Option Item
  pub trace : List Effect

pub record Queue : Type 0 where
  pub size : ℕ
  pub head : Ptr
  pub tail : Ptr

pub data Garbage : Type 0 where
  free_item nothing : Garbage

abbrev pub item : Ptr → Ptr → ℕ → Item
item n p v = record { next = n; prev = p; value = v }

abbrev pub empty : Queue
empty = record { size = 0; head = null; tail = null }

-- `none` is a fault: an access through `NULL` or to an address that holds no item.
abbrev pub Cmd : Type 0 → Type 0
Cmd A = Memory → Option (A × Memory)

abbrev pub pure : {A : Type 0} → A → Cmd A
pure a m = some (a, m)

abbrev pub then_run : {A B : Type 0} → Option (A × Memory) → (A → Cmd B) → Option (B × Memory)
then_run none f = none
then_run (some (a, m)) f = f a m

infixl 5 ◌>>=◌ ◌>>◌
abbrev pub ◌>>=◌ : {A B : Type 0} → Cmd A → (A → Cmd B) → Cmd B
c >>= f = λ m. then_run (c m) f

abbrev pub ◌>>◌ : {A B : Type 0} → Cmd A → Cmd B → Cmd B
c >> k = c >>= λ _. k

unfoldable pub write : (Ptr → Option Item) → Ptr → Option Item → Ptr → Option Item
write h p c a = if a == p then c else h a

unfoldable pub load : Ptr → Cmd Item
load p m = if p == null then none else elim (m.cell p) [ none ↦ none | some i ↦ some (i, m) ]

abbrev store : Ptr → Option Item → Cmd (Unit {0})
store p c m = some (tt, record m { cell = write m.cell p c })

abbrev log : Effect → Cmd (Unit {0})
log e m = some (tt, record m { trace = e ∷ m.trace })

-- `p->next = q`, `p->prev = q`, `efree(p)`
unfoldable pub set_next : Ptr → Ptr → Cmd (Unit {0})
set_next p q = do i ← load p; store p (some (record i { next = q }))

unfoldable pub set_prev : Ptr → Ptr → Cmd (Unit {0})
set_prev p q = do i ← load p; store p (some (record i { prev = q }))

unfoldable pub efree : Ptr → Cmd (Unit {0})
efree p = load p >> store p none

-- `fresh` is what `emalloc` returns: it does not return `NULL`.
unfoldable pub item_new : Ptr → ℕ → Cmd Ptr
item_new fresh v = do store fresh (some (item null null v)); log (copied v); pure fresh

unfoldable pub set_prev_and_next : Ptr → Ptr → Ptr → Cmd (Unit {0})
set_prev_and_next p before after = do set_prev p before; set_next p after

unfoldable pub push : Queue → Ptr → Cmd Queue
push q p =
    if q.tail == null
    then (do
      set_prev_and_next p null null
      pure (record { size = incr q.size; head = p; tail = p }))
    else (do
      set_next q.tail p
      set_prev_and_next p q.tail null
      pure (record q { size = incr q.size; tail = p }))

unfoldable pub push_new : Ptr → Queue → ℕ → Cmd Queue
push_new fresh q v = do p ← item_new fresh v; push q p

-- As in the source, the size is not counted up.
unfoldable pub unshift : Queue → Ptr → Cmd Queue
unshift q p =
    if q.head == null
    then (do set_prev_and_next p null null; pure (record q { head = p; tail = p }))
    else (do set_prev q.head p; set_prev_and_next p null q.head; pure (record q { head = p }))

unfoldable pub unshift_new : Ptr → Queue → ℕ → Cmd Queue
unshift_new fresh q v = do p ← item_new fresh v; unshift q p

-- The four ways to unlink an item.
unfoldable pub unlink : Queue → Ptr → Cmd Queue
unlink q p =
    if (q.head == p) && (q.tail == p)
    then pure (record q { head = null; tail = null })
    else if q.head == p
    then (do i ← load p; set_prev i.next null; pure (record q { head = i.next }))
    else if q.tail == p
    then (do i ← load p; set_next i.prev null; pure (record q { tail = i.prev }))
    else (do i ← load p; set_prev i.next i.prev; set_next i.prev i.next; pure q)

-- With `wanted` the value is moved to the caller, else it is released.
unfoldable pub hand_out : Bool → ℕ → Cmd (Option ℕ)
hand_out wanted v = if wanted then pure (some v) else (do log (released v); pure none)

unfoldable pub discard : Garbage → Ptr → Cmd (Unit {0})
discard free_item p = efree p
discard nothing p = pure tt

pub record Removed : Type 0 where
  pub queue : Queue
  pub value : Option ℕ
  pub returned : ℕ

unfoldable pub remove : Queue → Ptr → Bool → Garbage → Cmd Removed
unfolding unlink hand_out discard
remove q p wanted garbage =
    if p == null then pure (record { queue = q; value = none; returned = 0 }) else (do
      q' ← unlink q p
      let n = decr q'.size
      i ← load p
      v ← hand_out wanted i.value
      discard garbage p
      pure (record { queue = record q' { size = n }; value = v; returned = n }))

unfoldable pub shift : Queue → Bool → Garbage → Cmd Removed
shift q = remove q q.head

unfoldable pub pop : Queue → Bool → Garbage → Cmd Removed
pop q = remove q q.tail

-- The loop of `pthreads_queue_clean`, with fuel for its rounds.
clean_loop : ℕ → Ptr → Cmd (Unit {0})
clean_loop zero p = λ m. none
clean_loop (suc k) p =
    let round : Cmd (Unit {0}) = (do
      i ← load p
      log (released i.value)
      efree p
      clean_loop k i.next) in
    if p == null then pure tt else round

unfoldable pub clean : ℕ → Queue → Cmd (Unit {0})
unfolding clean_loop
clean fuel q = clean_loop fuel q.head
