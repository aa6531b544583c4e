-- ===== src/Publish/Filesystem/Atomic.antt =====
-- `copyFile`, internal/publish/filesystem.go, at every moment that a crash may come.
use serial_sync.Base.{
  ◌⊎◌, inl, inr, String, false, Option, none, some, List, [], ◌∷◌, ◌≡◌, refl, ◌≟◌, ≟→≡, eq_refl,
  All, IfOk, IfOk-imp, Error, Result, ok, err, arith, ap, ◌∙◌,
}
use serial_sync.Base.Stateful.{return, ◌>>=◌}
use serial_sync.Publish.Target.{Disk, Entry, absent, regular}
use serial_sync.Publish.Filesystem.Copy.{
  Files, Calls, set, write, unless, first_error, move, discard, mismatch, verify, stage, clean_up,
  create, copy_file,
}

-- The disk of every moment, the latest first.
abbrev pub moments : Files → List Disk
moments f = f.disk ∷ f.past

abbrev pub started : Disk → Files
started disk = record { disk = disk; past = [] }

set_self : (d : Disk) (path : String) (e : Entry) → set d path e path ≡ e
unfolding set
set_self d path e = rw (eq_refl path) refl

set_other : (d : Disk) (path q : String) (e : Entry) → (q ≟ path) ≡ false → set d path e q ≡ d q
unfolding set
set_other d path q e n = rw n refl

discard_other :
    (failure : Option Error) (d : Disk) (path q : String)
    → (q ≟ path) ≡ false
    → discard failure path d q ≡ d q
unfolding discard
discard_other none d path q n = set_other d path q absent n
discard_other (some e) d path q n = refl

discard_self :
    (failure : Option Error) (d : Disk) (path : String)
    → failure ≡ none
    → discard failure path d path ≡ absent
unfolding discard
discard_self failure d path h = rw h (set_self d path absent)

-- What is gone stays gone.
discard_gone :
    (failure : Option Error) (d : Disk) (path : String)
    → d path ≡ absent
    → discard failure path d path ≡ absent
unfolding discard
discard_gone none d path h = set_self d path absent
discard_gone (some e) d path h = h

-- The temporary file's name is a new one, as `os.CreateTemp` makes it, and not the destination's.
abbrev pub IsNewName : String → Disk → Result String → Type 0
IsNewName dst d = IfOk (λ temp. (d temp ≡ absent) × ((dst ≟ temp) ≡ false))

-- What the copy makes of a disk: the destination has its old entry or all of the bytes at each
-- moment; the temporary file is gone at the end, if its removal or the copy is through; and no file
-- has changed at the end but the temporary one and the destination.
pub record IsAtomic (dst expected : String) (temp : Result String) (clean : Option Error)
    (before : Disk) (out : Files × Option Error) : Type 0 where
  pub whole : All (λ d. (d dst ≡ before dst) ⊎ (d dst ≡ regular expected)) (moments out.0)
  pub in_place : out.1 ≡ none → out.0.disk dst ≡ regular expected
  pub cleaned : (clean ≡ none) ⊎ (out.1 ≡ none) → IfOk (λ t. out.0.disk t ≡ absent) temp
  pub others :
      (q : String) → (q ≟ dst) ≡ false → IfOk (λ t. (q ≟ t) ≡ false) temp → out.0.disk q ≡ before q

-- No error is the first one if there is none.
first_error-none :
    (errors : List (Option Error)) → first_error errors ≡ none → All (λ e. e ≡ none) errors
unfolding first_error
first_error-none [] h = tt
first_error-none (none ∷ rest) h = (refl, first_error-none rest h)
first_error-none (some e ∷ rest) h = absurd (cc)

option_cases : (o : Option Error) → (o ≡ none) ⊎ ((e : Error) × (o ≡ some e))
option_cases none = inl refl
option_cases (some e) = inr (e, refl)

module _ (empty : String) (k : Calls) (src dst expected : String) where
  mismatch-none : mismatch empty k src dst expected ≡ none → k.copied.0 ≡ expected
  unfolding mismatch
  mismatch-none h = ≟→≡ k.copied.0 expected (ground arith)

  verified : verify empty k src dst expected ≡ none → k.copied.0 ≡ expected
  unfolding verify
  verified h =
      let (_, (_, (_, (_, (same, _))))) =
        first_error-none
          (k.copied.1
            ∷ k.sync
            ∷ k.close
            ∷ k.rehash
            ∷ mismatch empty k src dst expected
            ∷ k.chmod
            ∷ k.rename
            ∷ [])
          h in
      mismatch-none same

  module _ (d : Disk) (temp : String) (apart : (dst ≟ temp) ≡ false) where
    -- The disk with the temporary file, the one after the rename, and the two after the removal.
    abbrev staged : Disk
    staged = set (set d temp (regular empty)) temp (regular k.copied.0)

    abbrev moved : Disk
    moved = move temp dst staged

    staged-dst : staged dst ≡ d dst
    staged-dst =
        set_other (set d temp (regular empty)) temp dst (regular k.copied.0) apart
        ∙ set_other d temp dst (regular empty) apart

    moved-dst : moved dst ≡ regular k.copied.0
    unfolding move
    moved-dst =
        set_other (set staged dst (staged temp)) temp dst absent apart
        ∙ set_self staged dst (staged temp)
        ∙ set_self (set d temp (regular empty)) temp (regular k.copied.0)

    staged-other : (q : String) → (q ≟ temp) ≡ false → staged q ≡ d q
    staged-other q n =
        set_other (set d temp (regular empty)) temp q (regular k.copied.0) n
        ∙ set_other d temp q (regular empty) n

    moved-temp : moved temp ≡ absent
    unfolding move
    moved-temp = set_self (set staged dst (staged temp)) temp absent

    moved-other : (q : String) → (q ≟ dst) ≡ false → (q ≟ temp) ≡ false → moved q ≡ d q
    unfolding move
    moved-other q m n =
        set_other (set staged dst (staged temp)) temp q absent n
        ∙ set_other staged dst q (staged temp) m
        ∙ staged-other q n

    -- The temporary file's removal changes no other file.
    discarded : (e : Disk) (q : String) → (q ≟ temp) ≡ false → discard k.clean temp e q ≡ e q
    discarded e q n = discard_other k.clean e temp q n

    abandoned :
        (e : Error)
        → verify empty k src dst expected ≡ some e
        → IsAtomic dst expected
            (ok temp)
            k.clean
            d
            (create empty k src dst expected (ok temp) (started d))
    unfolding create stage clean_up write unless ◌>>=◌ return
    abandoned e h = rw h (record {
      whole = (
        inl (discarded staged dst apart ∙ staged-dst),
        (inl staged-dst, (inl (set_other d temp dst (regular empty) apart), (inl refl, tt))),
      );
      in_place = λ n. absurd (cc);
      cleaned = λ x. elim x [ inl n ↦ discard_self k.clean staged temp n | inr n ↦ absurd (cc) ];
      others = λ q m n. discarded staged q n ∙ staged-other q n;
    })

    renamed :
        verify empty k src dst expected ≡ none
        → IsAtomic dst expected
            (ok temp)
            k.clean
            d
            (create empty k src dst expected (ok temp) (started d))
    unfolding create stage clean_up write unless ◌>>=◌ return
    renamed h =
        let here : moved dst ≡ regular expected = moved-dst ∙ ap regular (verified h) in
        let after : discard k.clean temp moved dst ≡ regular expected =
          discarded moved dst apart ∙ here in
        rw h (record {
          whole = (
            inr after,
            (
              inr here,
              (inl staged-dst, (inl (set_other d temp dst (regular empty) apart), (inl refl, tt))),
            ),
          );
          in_place = λ n. after;
          cleaned = λ x. discard_gone k.clean moved temp moved-temp;
          others = λ q m n. discarded moved q n ∙ moved-other q m n;
        })

  -- Before there is a temporary file, nothing has changed.
  untried :
      (temp : Result String) (d : Disk) (e : Error)
      → IsNewName dst d temp
      → IsAtomic dst expected temp k.clean d (started d, some e)
  untried temp d e name = record {
    whole = (inl refl, tt);
    in_place = λ n. absurd (cc);
    cleaned = λ x. IfOk-imp _ _ temp (λ t f. f.0) name;
    others = λ q m n. refl;
  }

  create-IsAtomic :
      (temp : Result String) (d : Disk)
      → IsNewName dst d temp
      → IsAtomic dst expected temp k.clean d (create empty k src dst expected temp (started d))
  unfolding create return
  create-IsAtomic (err e) d name = untried (err e) d e name
  create-IsAtomic (ok temp) d (absent_before, apart) =
      elim (option_cases (verify empty k src dst expected)) [
        | inl h ↦ renamed d temp apart h
        | inr h ↦ abandoned d temp apart h.0 h.1
      ]

  opened-IsAtomic :
      (opens : Option Error) (d : Disk)
      → IsNewName dst d k.temp
      → IsAtomic dst expected k.temp k.clean d
          (unless opens (create empty k src dst expected k.temp) (started d))
  unfolding unless return
  opened-IsAtomic none d name = create-IsAtomic k.temp d name
  opened-IsAtomic (some e) d name = untried k.temp d e name

  -- If the temporary file's name is a new one and not the destination's, the copy is atomic,
  -- whichever of its calls fail: at every moment the destination has its old entry or all of the
  -- verified bytes, and it has them if the copy returns no error; the temporary file is gone at the
  -- end, if the copy returns no error or the file's removal does not fail; and no other file has
  -- changed by then.
  pub copy_file-IsAtomic :
      (d : Disk)
      → IsNewName dst d k.temp
      → IsAtomic dst expected k.temp k.clean d (copy_file empty k src dst expected (started d))
  unfolding copy_file
  copy_file-IsAtomic d name = opened-IsAtomic k.open_source d name
