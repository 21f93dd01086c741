-- ===== src/Thread/Fits.antt =====
-- Which places of a creator and its thread, and which flags, fit together.
use pthreads.Base.{
  ◌<◌, ◌≡◌, ◌≢◌, refl, inl, inr, Bool, true, false, not, ◌&&◌, ◌||◌, none, arith, ◌==◌,
  if◌then◌else◌, Bool-cases,
}
use pthreads.Monitor.{
  Monitor, Flag, mask, started, running, joined, error, ready, exit, await_join, check,
}
use pthreads.Monitor
use pthreads.Monitor.Flags.{limit, same_flag, check-add, check-remove}
use pthreads.Thread.{
  Creator, outside, starting, waiting, syncing, exiting, Phase, absent, startup, working, held,
  cleaning, gone, start_refusal, join_refusal,
}

abbrev pub is_set : Monitor → Flag → Bool
is_set m f = not (check m (mask f) == 0)

abbrev same : Bool → Bool → Bool
same true b = b
same false b = not b

abbrev is_absent : Phase → Bool
is_absent absent = true
is_absent _ = false

-- The thread runs no PHP code any more.
abbrev pub is_done : Phase → Bool
is_done held = true
is_done cleaning = true
is_done gone = true
is_done _ = false

-- The thread has begun to release its objects.
abbrev pub is_late : Phase → Bool
is_late cleaning = true
is_late gone = true
is_late _ = false

abbrev is_held : Phase → Bool
is_held held = true
is_held _ = false

abbrev is_gone : Phase → Bool
is_gone gone = true
is_gone _ = false

-- Where the two are, by the flags for started, joined, waiting to be joined and to exit.
abbrev fits : Creator → Phase → (st jo aw ex : Bool) → Bool
fits outside p st jo aw ex =
    if jo
    then is_gone p && (st && (aw && ex))
    else not ex && (not (is_late p) && (same st (not (is_absent p)) && same aw (is_done p)))
fits starting p st jo aw ex =
    not jo && (not ex && (st && (not (is_absent p) && (not (is_late p) && same aw (is_done p)))))
fits waiting p st jo aw ex =
    jo && (not ex && (st && (not (is_absent p) && (not (is_late p) && same aw (is_done p)))))
fits syncing p st jo aw ex = jo && (not ex && (st && (is_held p && aw)))
fits exiting p st jo aw ex = jo && (ex && (st && (is_done p && aw)))

unfoldable pub fits_at : Creator → Phase → Monitor → Bool
fits_at c p m = fits c p (is_set m started) (is_set m joined) (is_set m await_join) (is_set m exit)

mask_solid : (g : Flag) → (mask g == 0) ≡ false
mask_solid started = refl
mask_solid running = refl
mask_solid joined = refl
mask_solid error = refl
mask_solid ready = refl
mask_solid Flag.collect_garbage = refl
mask_solid exit = refl
mask_solid await_join = refl

pub set-add :
    (m : Monitor) (f g : Flag)
    → m.state < limit
    → is_set (Monitor.add 0 m (mask f)) g ≡ (same_flag f g || is_set m g)
set-add m f g h = rw ((check-add m f g h).0) (elim (Bool-cases (same_flag f g)) [
  | inl at_flag ↦ rw (at_flag, mask_solid g) refl
  | inr apart ↦ rw apart refl
])

pub set-remove :
    (m : Monitor) (f g : Flag)
    → m.state < limit
    → is_set (Monitor.remove 0 m (mask f)) g ≡ (not (same_flag f g) && is_set m g)
set-remove m f g h = rw ((check-remove m f g h).0) (elim (Bool-cases (same_flag f g)) [
  | inl at_flag ↦ rw at_flag refl
  | inr apart ↦ rw apart refl
])

-- How the two halves move on.
pub fits-starts :
    (p : Phase) (st jo aw ex : Bool)
    → st ≡ false
    → fits outside p st jo aw ex ≡ true
    → fits starting startup true jo aw ex ≡ true
fits-starts absent st jo aw ex n h = ground (arith, n, h)
fits-starts startup st jo aw ex n h = ground (arith, n, h)
fits-starts working st jo aw ex n h = ground (arith, n, h)
fits-starts held st jo aw ex n h = ground (arith, n, h)
fits-starts cleaning st jo aw ex n h = ground (arith, n, h)
fits-starts gone st jo aw ex n h = ground (arith, n, h)

pub fits-finishes :
    (c : Creator) (st jo aw ex : Bool)
    → fits c working st jo aw ex ≡ true
    → fits c held st jo true ex ≡ true
fits-finishes outside st jo aw ex h = ground arith
fits-finishes starting st jo aw ex h = ground arith
fits-finishes waiting st jo aw ex h = ground arith
fits-finishes syncing st jo aw ex h = ground arith
fits-finishes exiting st jo aw ex h = ground arith

pub fits-prepares :
    (c : Creator) (st jo aw ex : Bool)
    → fits c startup st jo aw ex ≡ true
    → fits c working st jo aw ex ≡ true
fits-prepares outside st jo aw ex h = ground (arith, h)
fits-prepares starting st jo aw ex h = ground (arith, h)
fits-prepares waiting st jo aw ex h = ground (arith, h)
fits-prepares syncing st jo aw ex h = ground (arith, h)
fits-prepares exiting st jo aw ex h = ground (arith, h)

pub fits-returns :
    (p : Phase) (st jo aw ex : Bool)
    → fits starting p st jo aw ex ≡ true
    → fits outside p st jo aw ex ≡ true
fits-returns p st jo aw ex h = ground (arith, h)

pub fits-joins :
    (p : Phase) (st jo aw ex : Bool)
    → st ≡ true
    → jo ≡ false
    → fits outside p st jo aw ex ≡ true
    → fits waiting p st true aw ex ≡ true
fits-joins p st jo aw ex y n h = ground (arith, y, n, h)

pub fits-wakes :
    (p : Phase) (st jo aw ex : Bool)
    → aw ≡ true
    → fits waiting p st jo aw ex ≡ true
    → fits syncing p st jo aw ex ≡ true
fits-wakes absent st jo aw ex y h = ground (arith, y, h)
fits-wakes startup st jo aw ex y h = ground (arith, y, h)
fits-wakes working st jo aw ex y h = ground (arith, y, h)
fits-wakes held st jo aw ex y h = ground (arith, y, h)
fits-wakes cleaning st jo aw ex y h = ground (arith, y, h)
fits-wakes gone st jo aw ex y h = ground (arith, y, h)

pub fits-lets_go :
    (p : Phase) (st jo aw ex : Bool)
    → fits syncing p st jo aw ex ≡ true
    → fits exiting p st jo aw true ≡ true
fits-lets_go absent st jo aw ex h = ground (arith, h)
fits-lets_go startup st jo aw ex h = ground (arith, h)
fits-lets_go working st jo aw ex h = ground (arith, h)
fits-lets_go held st jo aw ex h = ground (arith, h)
fits-lets_go cleaning st jo aw ex h = ground (arith, h)
fits-lets_go gone st jo aw ex h = ground (arith, h)

pub fits-cleans :
    (c : Creator) (st jo aw ex : Bool)
    → ex ≡ true
    → fits c held st jo aw ex ≡ true
    → fits c cleaning st jo aw ex ≡ true
fits-cleans outside st jo aw ex y h = ground (arith, y, h)
fits-cleans starting st jo aw ex y h = ground (arith, y, h)
fits-cleans waiting st jo aw ex y h = ground (arith, y, h)
fits-cleans syncing st jo aw ex y h = ground (arith, y, h)
fits-cleans exiting st jo aw ex y h = ground (arith, y, h)

pub fits-ends :
    (c : Creator) (st jo aw ex : Bool)
    → fits c cleaning st jo aw ex ≡ true
    → fits c gone st jo aw ex ≡ true
fits-ends outside st jo aw ex h = ground (arith, h)
fits-ends starting st jo aw ex h = ground (arith, h)
fits-ends waiting st jo aw ex h = ground (arith, h)
fits-ends syncing st jo aw ex h = ground (arith, h)
fits-ends exiting st jo aw ex h = ground (arith, h)

pub fits-ends_join :
    (st jo aw ex : Bool)
    → fits exiting gone st jo aw ex ≡ true
    → fits outside gone st jo aw ex ≡ true
fits-ends_join st jo aw ex h = ground (arith, h)

pub fits_at-add :
    (c : Creator) (p : Phase) (m : Monitor) (f : Flag)
    → m.state < limit
    → fits_at c p (Monitor.add 0 m (mask f))
      ≡ fits c p
          (same_flag f started || is_set m started)
          (same_flag f joined || is_set m joined)
          (same_flag f await_join || is_set m await_join)
          (same_flag f exit || is_set m exit)
unfolding fits_at
fits_at-add c p m f h =
    rw (set-add m f started h, set-add m f joined h, set-add m f await_join h, set-add m f exit h)
      refl

pub not_started : (m : Monitor) → start_refusal true false m ≡ none → is_set m started ≡ false
unfolding start_refusal
not_started m h = ground (arith, h)

pub to_join :
    (m : Monitor)
    → join_refusal true false m ≡ none
    → (is_set m started ≡ true) × (is_set m joined ≡ false)
unfolding join_refusal
to_join m h = (ground (arith, h), ground (arith, h))

pub was_set : (m : Monitor) (f : Flag) → check m (mask f) ≢ 0 → is_set m f ≡ true
was_set m f h = ground (arith, h)

pub held_of : (p : Phase) (st jo aw ex : Bool) → fits syncing p st jo aw ex ≡ true → p ≡ held
held_of absent st jo aw ex h = absurd (ground (arith, h))
held_of startup st jo aw ex h = absurd (ground (arith, h))
held_of working st jo aw ex h = absurd (ground (arith, h))
held_of held st jo aw ex h = refl
held_of cleaning st jo aw ex h = absurd (ground (arith, h))
held_of gone st jo aw ex h = absurd (ground (arith, h))

pub late_of :
    (c : Creator) (p : Phase) (st jo aw ex : Bool)
    → fits c p st jo aw ex ≡ true
    → is_late p ≡ true
    → ex ≡ true
late_of outside p st jo aw ex h l = ground (arith, h, l)
late_of starting p st jo aw ex h l = ground (arith, h, l)
late_of waiting p st jo aw ex h l = ground (arith, h, l)
late_of syncing absent st jo aw ex h l = absurd (ground (arith, h, l))
late_of syncing startup st jo aw ex h l = absurd (ground (arith, h, l))
late_of syncing working st jo aw ex h l = absurd (ground (arith, h, l))
late_of syncing held st jo aw ex h l = absurd (ground (arith, h, l))
late_of syncing cleaning st jo aw ex h l = absurd (ground (arith, h, l))
late_of syncing gone st jo aw ex h l = absurd (ground (arith, h, l))
late_of exiting p st jo aw ex h l = ground (arith, h, l)

pub absent_of :
    (p : Phase) (st jo aw ex : Bool) → fits outside p st jo aw ex ≡ true → st ≡ false → p ≡ absent
absent_of absent st jo aw ex h n = refl
absent_of startup st jo aw ex h n = absurd (ground (arith, h, n))
absent_of working st jo aw ex h n = absurd (ground (arith, h, n))
absent_of held st jo aw ex h n = absurd (ground (arith, h, n))
absent_of cleaning st jo aw ex h n = absurd (ground (arith, h, n))
absent_of gone st jo aw ex h n = absurd (ground (arith, h, n))

pub gone_of :
    (p : Phase) (st jo aw ex : Bool) → fits outside p st jo aw ex ≡ true → jo ≡ true → p ≡ gone
gone_of absent st jo aw ex h y = absurd (ground (arith, h, y))
gone_of startup st jo aw ex h y = absurd (ground (arith, h, y))
gone_of working st jo aw ex h y = absurd (ground (arith, h, y))
gone_of held st jo aw ex h y = absurd (ground (arith, h, y))
gone_of cleaning st jo aw ex h y = absurd (ground (arith, h, y))
gone_of gone st jo aw ex h y = refl
