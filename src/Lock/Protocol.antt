-- ===== src/Lock/Protocol.antt =====
-- Threads and processes that lock resources, interleaved in any order, one access to the file system at
-- a time.
use mapcache.Base.{
  ℕ, Text, text_eq, text_eq_refl, text_eq_sound, ◌≡◌, true, false, ◌⊎◌, inl, inr, ◌==◌,
  if◌then◌else◌, arith, Bool-cases,
}
use mapcache.Lock.{Files}

-- Where a caller stands: outside, polling for the file to go, or rendering under its lock.
pub data Pc : Type 0 where
  idle : Pc
  waiting : Text → Pc
  rendering : Text → Pc

-- One caller moves and the others stay.
abbrev pub update : (ℕ → Pc) → ℕ → Pc → ℕ → Pc
update pc i p j = if i == j then p else pc j

module _ (fs : Files) where
  open fs use {Fs, exists, denied, create, remove, exists-create, exists-remove}

  pub record System : Type 0 where
    pub files : Fs
    pub pc : ℕ → Pc

  -- The accesses of `mapcache_lock_or_wait_for_resource` and `mapcache_unlock_resource`. A process that loads its
  -- configuration is apart, in `Load`: these are the steps between two loads.
  pub data Step (s : System) : System → Type 0 where
    acquire :
        (i : ℕ) (n : Text)
        → s.pc i ≡ idle
        → exists s.files n ≡ false
        → denied s.files n ≡ false
        → Step s (record { files = create s.files n; pc = update s.pc i (rendering n) })
    refused :
        (i : ℕ) (n : Text)
        → s.pc i ≡ idle
        → exists s.files n ≡ false
        → denied s.files n ≡ true
        → Step s s
    taken :
        (i : ℕ) (n : Text)
        → s.pc i ≡ idle
        → exists s.files n ≡ true
        → Step s (record { files = s.files; pc = update s.pc i (waiting n) })
    give_up :
        (i : ℕ) (n : Text)
        → s.pc i ≡ waiting n
        → exists s.files n ≡ false
        → Step s (record { files = s.files; pc = update s.pc i idle })
    release :
        (i : ℕ) (n : Text)
        → s.pc i ≡ rendering n
        → Step s (record { files = remove s.files n; pc = update s.pc i idle })

  -- `mapcache_configuration_parse`, whose flag `cgi` is 0, in any process: every lock file goes, the live
  -- ones too, and the callers of other processes stand where they stood. With `cgi` set all files stay,
  -- also those of callers that are gone.
  pub data Load (s : System) : System → Type 0 where
    sweep : (f : Fs) → ((n : Text) → exists f n ≡ false) → Load s (record { files = f; pc = s.pc })

  -- From a file system without lock files, as a load leaves it, and no caller inside.
  pub data Reach : System → Type 0 where
    start :
        (f : Fs) → ((n : Text) → exists f n ≡ false) → Reach (record { files = f; pc = λ _. idle })
    later : {s t : System} → Reach s → Step s t → Reach t

  -- A lock file exists exactly while one caller renders under it.
  pub record Inv (s : System) : Type 0 where
    pub held : (i : ℕ) (n : Text) → s.pc i ≡ rendering n → exists s.files n ≡ true
    pub unique : (i j : ℕ) (n : Text) → s.pc i ≡ rendering n → s.pc j ≡ rendering n → i ≡ j
    pub owned : (n : Text) → exists s.files n ≡ true → (i : ℕ) × (s.pc i ≡ rendering n)

  -- The owner of one lock is not the caller that releases another.
  still_rendering :
      (pc : ℕ → Pc) (i j : ℕ) (n m : Text)
      → pc i ≡ rendering n
      → text_eq n m ≡ false
      → pc j ≡ rendering m
      → update pc i idle j ≡ rendering m
  still_rendering pc i j n m r other e = ground (arith, text_eq_refl n)

  Step-Inv : {s t : System} → Step s t → Inv s → Inv t
  Step-Inv {s} (refused i n idle_i free forbidden) v = v
  Step-Inv {s} (acquire i n idle_i free may) v = record {
    held = λ j m e. ground (arith, exists-create s.files n m, text_eq_refl n, v.held j m);
    unique = λ j k m e e'. ground (arith, v.held j m, v.held k m, v.unique j k m);
    owned = λ m e. elim (Bool-cases (text_eq n m)) [
      | inl same ↦ (i, ground (arith, text_eq_sound n m))
      | inr other ↦
          let (j, r) = v.owned m (ground (arith, exists-create s.files n m)) in (j, ground arith)
    ];
  }
  Step-Inv {s} (taken i n idle_i busy) v = record {
    held = λ j m e. v.held j m (ground arith);
    unique = λ j k m e e'. v.unique j k m (ground arith) (ground arith);
    owned = λ m e. let (j, r) = v.owned m e in (j, ground arith);
  }
  Step-Inv {s} (give_up i n w free) v = record {
    held = λ j m e. v.held j m (ground arith);
    unique = λ j k m e e'. v.unique j k m (ground arith) (ground arith);
    owned = λ m e. let (j, r) = v.owned m e in (j, ground arith);
  }
  Step-Inv {s} (release i n r) v = record {
    held = λ j m e.
        ground (arith, exists-remove s.files n m, text_eq_sound n m, v.unique i j n, v.held j m);
    unique = λ j k m e e'. v.unique j k m (ground arith) (ground arith);
    owned = λ m e. elim (Bool-cases (text_eq n m)) [
      | inl same ↦ absurd (ground (arith, exists-remove s.files n m))
      | inr other ↦
          let (j, holds) = v.owned m (ground (arith, exists-remove s.files n m)) in
          (j, still_rendering s.pc i j n m r other holds)
    ];
  }

  pub Reach-Inv : {s : System} → Reach s → Inv s
  Reach-Inv (start f none_there) = record {
    held = λ i n e. absurd (cc);
    unique = λ i j n e e'. absurd (cc);
    owned = λ n e. absurd (ground (arith, none_there n));
  }
  Reach-Inv (later r st) = Step-Inv st (Reach-Inv r)

  -- In every state that is reachable by steps of the callers, at most one caller renders under a lock, and
  -- its file exists then.
  pub mutual_exclusion :
      {s : System}
      → Reach s
      → (i j : ℕ) (n : Text) → s.pc i ≡ rendering n
      → s.pc j ≡ rendering n
      → (i ≡ j) × (exists s.files n ≡ true)
  mutual_exclusion r i j n e e' = ((Reach-Inv r).unique i j n e e', (Reach-Inv r).held i n e)

  -- In a state that is reachable by steps of the callers no caller waits for nothing: either it may stop waiting
  -- at once, or another caller renders under the lock, that one may unlock, and if no third caller
  -- moves in between, then the waiting one may stop waiting at its next look.
  pub wait_ends :
      {s : System}
      → Reach s
      → (i : ℕ) (n : Text) → s.pc i ≡ waiting n
      → (Step s (record { files = s.files; pc = update s.pc i idle }))
        ⊎ ((j : ℕ) × (s.pc j ≡ rendering n)
            × Step s (record { files = remove s.files n; pc = update s.pc j idle })
            × Step
                (record { files = remove s.files n; pc = update s.pc j idle })
                (record { files = remove s.files n; pc = update (update s.pc j idle) i idle }))
  wait_ends {s} r i n w = elim (Bool-cases (exists s.files n)) [
    | inl busy ↦
        let (j, e) = (Reach-Inv r).owned n busy in
        inr (
          j,
          e,
          release j n e,
          give_up i n (ground arith) (ground (arith, exists-remove s.files n n, text_eq_refl n)),
        )
    | inr free ↦ inl (give_up i n w free)
  ]
