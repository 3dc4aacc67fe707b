-- ===== src/FixSession/Files.antt =====
-- The opening and the mapping of the file in `FixSessionReader::start`
-- (libs/fix_session/include/fix_session_reader.h). What the system calls return is a parameter; an
-- exception is a value.
use trading_simulation.Prelude.{
  ℕ, suc, ◌≡◌, refl, List, [], ◌∷◌, Option, none, some, Bool, if◌then◌else◌, inl, inr, Bool-cases,
  ◌==◌,
}
use trading_simulation.Prelude.Int.{ℤ, pos, ltb_ℤ}
use trading_simulation.Order.{Order}
use trading_simulation.OrderBook.{Outcome, done, fault, out_of_fuel}
use trading_simulation.FixSession.{start}
use trading_simulation.FixSession.Replay.{start_keeps}

-- What the calls of `start` return: the descriptor of `open`, the size that `fstat` gives if it
-- succeeds, and the bytes that `mmap` maps, if it does, for a size.
pub record Files : Type 0 where
  pub descriptor : ℤ
  pub stat_size : Option ℕ
  pub mapping : ℕ → Option (List ℕ)

pub data FileError : Type 0 where
  cannot_open : FileError
  fstat_failed : FileError
  mmap_failed : FileError

-- How `start` ends: by an exception, or as its loop does.
pub data Finish (S : Type 0) : Type 0 where
  thrown : FileError → Finish S
  ended : Outcome S → Finish S

-- What `start` takes from the system, and gives back.
pub data Effect : Type 0 where
  opened : Effect
  closed : Effect
  mapped : Effect
  unmapped : Effect

module _ {D S : Type 0} (atof : List ℕ → D) (callback : S → Order D → Outcome S) (z : D)
    (now : ℕ → ℤ) (running : ℕ → Bool) where
  -- The loop, and `munmap` behind it.
  abbrev pub unmap_after : Outcome S → Finish S × List Effect
  unmap_after (done s) = (ended (done s), opened ∷ mapped ∷ closed ∷ unmapped ∷ [])
  unmap_after fault = (ended fault, opened ∷ mapped ∷ closed ∷ [])
  unmap_after out_of_fuel = (ended out_of_fuel, opened ∷ mapped ∷ closed ∷ [])

  -- From `mmap` on; the descriptor is closed whether it fails or not.
  abbrev pub start_mapped : S → Option (List ℕ) → Finish S × List Effect
  start_mapped s none = (thrown mmap_failed, opened ∷ closed ∷ [])
  start_mapped s (some data_) = unmap_after (start atof callback z now running s data_)

  -- From `fstat` on.
  abbrev pub start_sized : Files → S → Option ℕ → Finish S × List Effect
  start_sized files s none = (thrown fstat_failed, opened ∷ closed ∷ [])
  start_sized files s (some size) =
      if size == 0
      then (ended (done s), opened ∷ closed ∷ [])
      else start_mapped s (files.mapping size)

  unfoldable pub start_file : Files → S → Finish S × List Effect
  start_file files s =
      if ltb_ℤ files.descriptor (pos 0)
      then (thrown cannot_open, [])
      else start_sized files s files.stat_size

  -- How often an effect occurs.
  abbrev pub occurs : Effect → List Effect → ℕ
  occurs e [] = 0
  occurs opened (opened ∷ es) = suc (occurs opened es)
  occurs closed (closed ∷ es) = suc (occurs closed es)
  occurs mapped (mapped ∷ es) = suc (occurs mapped es)
  occurs unmapped (unmapped ∷ es) = suc (occurs unmapped es)
  occurs e (f ∷ es) = occurs e es

  -- What was opened has been closed, and what was mapped unmapped.
  abbrev pub GivesBack : List Effect → Type 0
  GivesBack es = (occurs opened es ≡ occurs closed es) × (occurs mapped es ≡ occurs unmapped es)

  module _ (P : S → Type 0)
      (kept : (s : S) (o : Order D) → P s → (s' : S) × (callback s o ≡ done s') × P s') where
    -- An end by an exception, or with a state that has the property.
    abbrev pub EndsIn : Finish S → Type 0
    EndsIn (thrown e) = Unit
    EndsIn (ended out) = (s' : S) × (out ≡ done s') × P s'

    mapped-GivesBack :
        (s : S) (bytes : Option (List ℕ))
        → P s
        → GivesBack (start_mapped s bytes).1 × EndsIn (start_mapped s bytes).0
    mapped-GivesBack s none h = ((refl, refl), tt)
    mapped-GivesBack s (some data_) h =
        let (s', e, h') = start_keeps atof callback z now running P kept s data_ h in
        rw e ((refl, refl), (s', refl, h'))

    sized-GivesBack :
        (files : Files) (s : S) (size : Option ℕ)
        → P s
        → GivesBack (start_sized files s size).1 × EndsIn (start_sized files s size).0
    sized-GivesBack files s none h = ((refl, refl), tt)
    sized-GivesBack files s (some size) h = elim (Bool-cases (size == 0)) [
      | inl e ↦ rw e ((refl, refl), (s, refl, h))
      | inr e ↦ rw e (mapped-GivesBack s (files.mapping size) h)
    ]

    -- Whatever the system calls return, and whatever bytes are mapped, `start` closes the file that it
    -- opened and unmaps what it mapped, if the callback returns and keeps a property of the state; it
    -- ends by an exception or in a state with the property.
    pub start_file-GivesBack :
        (files : Files) (s : S)
        → P s
        → GivesBack (start_file files s).1 × EndsIn (start_file files s).0
    unfolding start_file
    start_file-GivesBack files s h = elim (Bool-cases (ltb_ℤ files.descriptor (pos 0))) [
      | inl e ↦ rw e ((refl, refl), tt)
      | inr e ↦ rw e (sized-GivesBack files s files.stat_size h)
    ]
