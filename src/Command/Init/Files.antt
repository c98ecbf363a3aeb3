-- ===== src/Command/Init/Files.antt =====
-- services/*/cli/init.go: the files of the disk before and after init.
use go_task_flow.Command.Init.{
  Entry, file, Disk, put, Os, left_behind, written, write_config, stat_entry, checked, guarded,
  after_mkdir, destination, write_default, run_init,
}
use go_task_flow.Domain.Errors.{Error, Result, ok, err}
use go_task_flow.Prelude.{
  String, ◌≡◌, refl, Bool, true, false, Option, none, some, str_eq, eq_iff, inl, inr, Bool-cases,
}

-- The files of one disk are on another, with their contents.
abbrev pub Keeps : Disk → Disk → Type 0
Keeps d d' = (q content : String) → d q ≡ some (file content) → d' q ≡ some (file content)

-- os.MkdirAll makes directories and leaves files alone.
pub record MakesDirectories (os : Os) : Type 0 where
  pub keeps : (d : Disk) (path : String) → Keeps d (os.mkdir_all d path).1

Keeps-put : (dest content : String) (d : Disk) → d dest ≡ none → Keeps d (put dest content d)
unfolding put
Keeps-put dest content d free q c here = elim (Bool-cases (str_eq dest q)) [
  | inl same ↦ absurd (cc (here, free, (eq_iff dest q).0 same))
  | inr other ↦ rw other here
]

module _ (os : Os) (dest yaml : String) where
  Keeps-written :
      (r : Option (Error × Option String)) (d : Disk)
      → d dest ≡ none
      → Keeps d (written os dest yaml r d).1
  unfolding written left_behind
  Keeps-written none d free = Keeps-put dest yaml d free
  Keeps-written (some (e, none)) d free = λ q c here. here
  Keeps-written (some (e, some content)) d free = Keeps-put dest content d free

  Keeps-stat_entry :
      (entry : Option Entry) (d : Disk)
      → d dest ≡ entry
      → Keeps d (stat_entry os dest yaml entry d).1
  unfolding stat_entry write_config
  Keeps-stat_entry (some entry) d here = λ q c x. x
  Keeps-stat_entry none d free = Keeps-written _ d free

  Keeps-checked : (e : Option Error) (d : Disk) → Keeps d (checked os dest yaml e d).1
  unfolding checked
  Keeps-checked (some e) d = λ q c x. x
  Keeps-checked none d = Keeps-stat_entry (d dest) d refl

  Keeps-after_mkdir : (e : Option Error) (d : Disk) → Keeps d (after_mkdir os false dest yaml e d).1
  unfolding after_mkdir guarded
  Keeps-after_mkdir (some e) d = λ q c x. x
  Keeps-after_mkdir none d = Keeps-checked _ d

Keeps-write_default :
    (os : Os) (yaml : String) (dest : Result String) (d : Disk)
    → MakesDirectories os
    → Keeps d (write_default os false yaml dest d).1
unfolding write_default
Keeps-write_default os yaml (err e) d makes q c x = x
Keeps-write_default os yaml (ok dest) d makes q c x =
    Keeps-after_mkdir os dest yaml (os.mkdir_all d (os.dir dest)).0 (os.mkdir_all d (os.dir dest)).1
      q c (makes.keeps d (os.dir dest) q c x)

-- Without --force, every file that was there before init is there afterwards with the same
-- content, also where the directory, the question for the file or the write fails. os.MkdirAll
-- leaves files alone.
pub Keeps-run_init :
    (os : Os) (cfg_file service yaml : String) (d : Disk)
    → MakesDirectories os
    → Keeps d (run_init os false cfg_file service yaml d).1
unfolding run_init
Keeps-run_init os cfg_file service yaml d makes = Keeps-write_default os yaml _ d makes

-- As Keeps, but for one path.
abbrev pub KeepsOthers : String → Disk → Disk → Type 0
KeepsOthers dest d d' =
    (q content : String)
    → str_eq dest q ≡ false
    → d q ≡ some (file content)
    → d' q ≡ some (file content)

-- How init ends, with or without --force.
pub data Written (os : Os) (cfg_file service yaml : String) (d : Disk) (r : Option Error × Disk)
    : Type 0 where
  homeless :
      (e : Error)
      → destination os cfg_file service ≡ err e
      → r ≡ (some e, d)
      → Written os cfg_file service yaml d r
  done :
      (dest : String)
      → destination os cfg_file service ≡ ok dest
      → r ≡ (none, put dest yaml (os.mkdir_all d (os.dir dest)).1)
      → Written os cfg_file service yaml d r
  unfinished :
      (dest : String) (e : Error)
      → destination os cfg_file service ≡ ok dest
      → r.0 ≡ some e
      → KeepsOthers dest d r.1
      → Written os cfg_file service yaml d r

module _ (os : Os) (cfg_file service yaml : String) (dest : String) (d : Disk)
    (makes : MakesDirectories os) (named : destination os cfg_file service ≡ ok dest) where
  abbrev made : Disk
  made = (os.mkdir_all d (os.dir dest)).1

  KeepsOthers-made : KeepsOthers dest d made
  KeepsOthers-made q c other x = makes.keeps d (os.dir dest) q c x

  KeepsOthers-put : (content : String) → KeepsOthers dest d (put dest content made)
  unfolding put
  KeepsOthers-put content q c other x = rw other (KeepsOthers-made q c other x)

  written-Written :
      (r : Option (Error × Option String))
      → Written os cfg_file service yaml d (written os dest yaml r made)
  unfolding written left_behind
  written-Written none = done dest named refl
  written-Written (some (e, none)) = unfinished dest _ named refl KeepsOthers-made
  written-Written (some (e, some content)) = unfinished dest _ named refl (KeepsOthers-put content)

  stat_entry-Written :
      (entry : Option Entry)
      → Written os cfg_file service yaml d (stat_entry os dest yaml entry made)
  unfolding stat_entry write_config
  stat_entry-Written (some entry) = unfinished dest _ named refl KeepsOthers-made
  stat_entry-Written none = written-Written (os.write_error made dest)

  checked-Written :
      (e : Option Error) → Written os cfg_file service yaml d (checked os dest yaml e made)
  unfolding checked
  checked-Written (some e) = unfinished dest _ named refl KeepsOthers-made
  checked-Written none = stat_entry-Written (made dest)

  guarded-Written :
      (force : Bool) → Written os cfg_file service yaml d (guarded os force dest yaml made)
  unfolding guarded write_config
  guarded-Written true = written-Written (os.write_error made dest)
  guarded-Written false = checked-Written (os.stat_error made dest)

  after_mkdir-Written :
      (force : Bool) (e : Option Error)
      → Written os cfg_file service yaml d (after_mkdir os force dest yaml e made)
  unfolding after_mkdir
  after_mkdir-Written force (some e) = unfinished dest _ named refl KeepsOthers-made
  after_mkdir-Written force none = guarded-Written force

write_default-Written :
    (os : Os) (force : Bool) (cfg_file service yaml : String) (d : Disk) (dest : Result String)
    → MakesDirectories os
    → destination os cfg_file service ≡ dest
    → Written os cfg_file service yaml d (write_default os force yaml dest d)
unfolding write_default
write_default-Written os force cfg_file service yaml d (err e) makes named = homeless e named refl
write_default-Written os force cfg_file service yaml d (ok dest) makes named =
    after_mkdir-Written os cfg_file service yaml dest d makes named force
      (os.mkdir_all d (os.dir dest)).0

-- With or without --force, init returns nil only when the default configuration is in the file of
-- --config, or of the service in the home directory, which is then the only change beside the
-- directories; where it returns an error, every other file is as it was. os.MkdirAll leaves files
-- alone.
pub run_init-Written :
    (os : Os) (force : Bool) (cfg_file service yaml : String) (d : Disk)
    → MakesDirectories os
    → Written os cfg_file service yaml d (run_init os force cfg_file service yaml d)
unfolding run_init
run_init-Written os force cfg_file service yaml d makes =
    write_default-Written os force cfg_file service yaml d (destination os cfg_file service) makes
      refl
