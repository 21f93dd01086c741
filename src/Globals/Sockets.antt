-- ===== src/Globals/Sockets.antt =====
-- The sockets that src/globals.c tracks: who closes them, and when.
use pthreads.Base.{
  ℕ, suc, ◌≡◌, inl, inr, refl, sym, ap, subst, ◌∙◌, Bool, true, false, ◌||◌, List, [], ◌∷◌,
  if◌then◌else◌, Bool-cases, is_some, ◌==◌, map, ==_iff, or_false,
}
use pthreads.Base.Int.{ℤ, pos, negsuc}
use pthreads.Zend.Key.{Key, index, name}
use pthreads.Zend.Hash.{HashApi, lookup, put, has_key, IsKeyed, find-update, find-empty}
use pthreads.Globals.{
  SharedString, Globals, globals_init, shutdown, socket_track, socket_shared, socket_free_hook,
}

abbrev pub is_socket : ℕ → ℤ → Bool
is_socket n (pos m) = m == n
is_socket n (negsuc m) = false

-- How often a socket stands in a list.
abbrev pub times : ℕ → List ℤ → ℕ
times n [] = 0
times n (s ∷ ss) = if is_socket n s then suc (times n ss) else times n ss

abbrev pub tracked : ℕ → List ℤ → Bool
tracked n [] = false
tracked n (s ∷ ss) = is_socket n s || tracked n ss

or_end : (a : Bool) → (a || false) ≡ a
or_end true = refl
or_end false = refl

or_true : (a : Bool) → (a || true) ≡ true
or_true true = refl
or_true false = refl

or_assoc : (a b c : Bool) → ((a || b) || c) ≡ (a || (b || c))
or_assoc true b c = refl
or_assoc false b c = refl

-- Each entry keeps its key's socket.
abbrev HoldSockets : List (Key × ℤ) → Type 0
HoldSockets [] = Unit
HoldSockets ((index n, s) ∷ es) = (s ≡ pos n) × HoldSockets es
HoldSockets ((name b, s) ∷ es) = ⊥

put-HoldSockets :
    (n : ℕ) (es : List (Key × ℤ)) → HoldSockets es → HoldSockets (put (index n) (pos n) es)
put-HoldSockets n [] h = (refl, tt)
put-HoldSockets n ((index m, s) ∷ es) (e, h) = elim (Bool-cases (m == n)) [
  | inl y ↦ rw y (ap pos (sym ((==_iff m n).0 y)), h)
  | inr d ↦ rw d (e, put-HoldSockets n es h)
]
put-HoldSockets n ((name b, s) ∷ es) h = absurd h

times-absent :
    (n : ℕ) (es : List (Key × ℤ))
    → HoldSockets es
    → has_key (index n) es ≡ false
    → times n (map (λ e. e.1) es) ≡ 0
times-absent n [] h a = refl
times-absent n ((index m, s) ∷ es) (e, h) a =
    let (d, b) = or_false (m == n) (has_key (index n) es) a in rw (e, d) (times-absent n es h b)
times-absent n ((name b, s) ∷ es) h a = absurd h

times-once :
    (n : ℕ) (es : List (Key × ℤ))
    → HoldSockets es
    → IsKeyed es
    → times n (map (λ e. e.1) es) ≡ (if is_some (lookup (index n) es) then 1 else 0)
times-once n [] h k = refl
times-once n ((index m, s) ∷ es) (e, h) (a, k) = elim (Bool-cases (m == n)) [
  | inl y ↦
      let gone =
        times-absent n es h (ap (λ x. has_key (index x) es) (sym ((==_iff m n).0 y)) ∙ a) in
      rw (e, y) (ap suc gone)
  | inr d ↦ rw (e, d) (times-once n es h k)
]
times-once n ((name b, s) ∷ es) h k = absurd h

module _ (I : HashApi SharedString) (K : HashApi ℤ) where
  -- Threads track the sockets in order.
  abbrev pub track_all : List ℤ → Globals I K → Globals I K
  track_all [] g = g
  track_all (s ∷ ss) g = track_all ss (socket_track I K s g)

  abbrev has_socket : Globals I K → ℕ → Bool
  has_socket g n = is_some (K.find g.shared_sockets (index n))

  track-HoldSockets :
      (s : ℤ) (g : Globals I K)
      → HoldSockets (K.entries g.shared_sockets)
      → HoldSockets (K.entries (socket_track I K s g).shared_sockets)
  unfolding socket_track
  track-HoldSockets (negsuc n) g h = h
  track-HoldSockets (pos n) g h = elim (Bool-cases (has_socket g n)) [
    | inl y ↦ rw y h
    | inr d ↦
        rw (d, K.entries_update g.shared_sockets (index n) (pos n))
          (put-HoldSockets n (K.entries g.shared_sockets) h)
  ]

  has_socket-track :
      (s : ℤ) (g : Globals I K) (n : ℕ)
      → has_socket (socket_track I K s g) n ≡ (has_socket g n || is_socket n s)
  unfolding socket_track
  has_socket-track (negsuc m) g n = sym (or_end (has_socket g n))
  has_socket-track (pos m) g n = elim (Bool-cases (has_socket g m)) [
    | inl y ↦ rw y (elim (Bool-cases (m == n)) [
      | inl q ↦
          let here : has_socket g n ≡ true = ap (has_socket g) (sym ((==_iff m n).0 q)) ∙ y in
          rw here refl
      | inr r ↦ rw r (sym (or_end (has_socket g n)))
    ])
    | inr d ↦
        rw (d, find-update K g.shared_sockets (index m) (index n) (pos m))
          (elim (Bool-cases (m == n)) [
            | inl q ↦ rw q (sym (or_true (has_socket g n)))
            | inr r ↦ rw r (sym (or_end (has_socket g n)))
          ])
  ]

  track_all-HoldSockets :
      (ss : List ℤ) (g : Globals I K)
      → HoldSockets (K.entries g.shared_sockets)
      → HoldSockets (K.entries (track_all ss g).shared_sockets)
  track_all-HoldSockets [] g h = h
  track_all-HoldSockets (s ∷ ss) g h =
      track_all-HoldSockets ss (socket_track I K s g) (track-HoldSockets s g h)

  has_socket-track_all :
      (ss : List ℤ) (g : Globals I K) (n : ℕ)
      → has_socket (track_all ss g) n ≡ (has_socket g n || tracked n ss)
  has_socket-track_all [] g n = sym (or_end (has_socket g n))
  has_socket-track_all (s ∷ ss) g n =
      has_socket-track_all ss (socket_track I K s g) n
      ∙ rw (has_socket-track s g n) (or_assoc (has_socket g n) (is_socket n s) (tracked n ss))

  -- The registry as a process starts with it.
  abbrev pub started : Globals I K → Globals I K
  started g = (globals_init I K true g).0

  -- What becomes of the socket `n` once the threads have tracked the sockets.
  pub record ClosedOnce (n : ℕ) (ss : List ℤ) (g : Globals I K) : Type 0 where
    pub shared : socket_shared I K g (pos n) ≡ tracked n ss
    pub freed : socket_free_hook I K g (pos n) ≡ (if tracked n ss then negsuc 0 else pos n)
    pub closed : times n (shutdown I K g).1 ≡ (if tracked n ss then 1 else 0)

  abbrev made : Globals I K
  made = record {
    is_init = true;
    failed = false;
    interned_strings = I.empty;
    shared_sockets = K.empty;
  }

  started_lem : (g : Globals I K) → g.is_init ≡ false → g.failed ≡ false → made ≡ started g
  unfolding globals_init
  started_lem g a b = rw (a, b) refl

  track_init : (s : ℤ) (g : Globals I K) → (socket_track I K s g).is_init ≡ g.is_init
  unfolding socket_track
  track_init (negsuc n) g = refl
  track_init (pos n) g = elim (Bool-cases (has_socket g n)) [
    | inl y ↦ rw y refl
    | inr d ↦ rw d refl
  ]

  track_all_init : (ss : List ℤ) (g : Globals I K) → (track_all ss g).is_init ≡ g.is_init
  track_all_init [] g = refl
  track_all_init (s ∷ ss) g = track_all_init ss (socket_track I K s g) ∙ track_init s g

  made-ClosedOnce : (ss : List ℤ) (n : ℕ) → ClosedOnce n ss (track_all ss made)
  unfolding shutdown socket_shared socket_free_hook
  made-ClosedOnce ss n =
      let there : has_socket (track_all ss made) n ≡ tracked n ss =
        has_socket-track_all ss made n ∙ rw (find-empty K (index n)) refl in
      let held = track_all-HoldSockets ss made (rw K.entries_empty tt) in
      let sockets = (track_all ss made).shared_sockets in
      record {
        shared = there;
        freed = rw there refl;
        closed = rw (track_all_init ss made) (
            times-once n (K.entries sockets) held (K.keyed sockets)
            ∙ rw⁻¹ (K.find_entries sockets (index n)) (ap (λ t. if t then 1 else 0) there));
      }

  -- Once the registry is made and threads have tracked sockets in any order, a socket counts as shared
  -- exactly if it was tracked; then freeing its object leaves it open, and the shutdown closes it
  -- exactly once; any other is closed with its object, and the shutdown does not close it.
  pub socket_track-ClosedOnce :
      (g : Globals I K) (ss : List ℤ) (n : ℕ)
      → g.is_init ≡ false
      → g.failed ≡ false
      → ClosedOnce n ss (track_all ss (started g))
  socket_track-ClosedOnce g ss n a b =
      subst (λ h. ClosedOnce n ss (track_all ss h)) (started_lem g a b) (made-ClosedOnce ss n)
