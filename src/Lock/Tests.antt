-- ===== src/Lock/Tests.antt =====
-- Runs of the locks, and the theorems at concrete inputs.
use mapcache.Base.{ℕ, Text, codes, ◌≡◌, refl, true, ◌⊎◌, [], ◌∷◌}
use mapcache.Samples.{listed_files, names_exist, names_remove}
use mapcache.Lock.{lock_filename, lock_or_wait, unlock}
use mapcache.Lock.Protocol.{
  idle, waiting, rendering, update, System, Step, acquire, taken, Load, sweep, Reach, start, later,
  mutual_exclusion, wait_ends,
}

abbrev tile_lock : Text
tile_lock = codes "/tmp/_gc_lock3-0-4-osm.lck"

lock_name :
    lock_filename (codes "/tmp") (codes "3-0-4-a/b c") ≡ codes "/tmp/_gc_lock3-0-4-a#b#c.lck"
unfolding lock_filename
lock_name = refl

-- A free lock is taken, and unlocking gives back the file system as it was.
lock_and_unlock :
    let (locked, f) = lock_or_wait listed_files (λ f n. f) (codes "/tmp") (codes "3-0-4-osm") [] in
    (locked ≡ true)
    × (f ≡ tile_lock ∷ [])
    × (unlock listed_files (codes "/tmp") (codes "3-0-4-osm") f ≡ [])
unfolding lock_or_wait unlock lock_filename
lock_and_unlock = (refl, refl, refl)

-- Caller 0 renders, and caller 1 waits for it.
abbrev contended : System listed_files
contended = record {
  files = tile_lock ∷ [];
  pc = update (update (λ _. idle) 0 (rendering tile_lock)) 1 (waiting tile_lock);
}

contended_reached : Reach listed_files contended
contended_reached =
    later (later (start [] (λ n. refl)) (acquire 0 tile_lock refl refl refl))
      (taken 1 tile_lock refl refl)

-- Another process loads its configuration, and its caller takes the lock of caller 0, which still renders.
abbrev two_rendering : System listed_files
two_rendering = record { files = tile_lock ∷ []; pc = update contended.pc 2 (rendering tile_lock) }

swept : Load listed_files contended (record { files = []; pc = contended.pc })
swept = sweep [] (λ n. refl)

taken_again : Step listed_files (record { files = []; pc = contended.pc }) two_rendering
taken_again = acquire 2 tile_lock refl refl refl

both_render :
    (two_rendering.pc 0 ≡ rendering tile_lock) × (two_rendering.pc 2 ≡ rendering tile_lock)
both_render = (refl, refl)

mutual_exclusion_example : (◌≡◌ {A = ℕ} 0 0) × (names_exist (tile_lock ∷ []) tile_lock ≡ true)
mutual_exclusion_example = mutual_exclusion listed_files contended_reached 0 0 tile_lock refl refl

wait_ends_example :
    (Step listed_files contended
      (record { files = contended.files; pc = update contended.pc 1 idle }))
    ⊎ ((j : ℕ) × (contended.pc j ≡ rendering tile_lock)
        × Step listed_files contended (record {
          files = names_remove contended.files tile_lock;
          pc = update contended.pc j idle;
        })
        × Step listed_files
            (record {
              files = names_remove contended.files tile_lock;
              pc = update contended.pc j idle;
            })
            (record {
              files = names_remove contended.files tile_lock;
              pc = update (update contended.pc j idle) 1 idle;
            }))
wait_ends_example = wait_ends listed_files contended_reached 1 tile_lock refl
