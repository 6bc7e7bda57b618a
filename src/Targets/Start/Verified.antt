-- ===== src/Targets/Start/Verified.antt =====
-- A start of the scripts that ends well has verified the flash.
use swagger.Prelude.{
  ℕ, ◌%◌, ◌^◌, ◌<◌, ◌≡◌, refl, ap, inl, inr, Bool, true, false, Option, some, List, arith, ◌==◌,
  if◌then◌else◌, Bool-cases, length,
}
use swagger.Probe.{Link, Driver}
use swagger.Host.Packet.{SerialPort}
use swagger.Host.Script.{SquirrelVm, Session}
use swagger.Targets.{minus_one}
use swagger.Targets.Turn.{Bench, IsAtRest}
use swagger.Targets.Returns.{Returns}
use swagger.Targets.Connects.{ReturnsAs, tries, connect-tries}
use swagger.Targets.Verify.Matches.{file_words, binary_matches, binary_size}
use swagger.Targets.Verify.Flash.{Judges, verdict, verify_flash-matches}
use swagger.Targets.Kinetis.Program.{Programs, programs, flash_program-programs}
use swagger.Targets.Kinetis.Steps.{erases}
use swagger.Targets.Kinetis.Erasing.{flash_erase-erases}
use swagger.Targets.Start.{
  Ending, ended, returned, after_verify, after_program, after_erase, init_system,
}

-- The end where erasing and programming have returned these numbers, and the memory does or does not
-- match the file.
unfoldable pub ending : (erased programmed : ℕ) (matched : Bool) → Ending
ending erased programmed matched =
    if erased == 0
    then (if programmed == 0
        then (if matched then ended else returned minus_one)
        else returned minus_one)
    else returned minus_one

module _ (m : SquirrelVm) (q : SerialPort) (l : Link) (b : Bench m q l) where
  -- A script ends so, with the programmer ready.
  unfoldable pub Ends : Option (Ending × Session m q) → Ending → Type 0
  Ends o e = (s' : Session m q) × (d' : Driver l) × (o ≡ some (e, s')) × IsAtRest m q l b s' d'

  after_verify-Ends :
      (matched : Bool) (s : Session m q)
      → after_verify m b.frames q b.fuel_read b.c (verdict matched, s)
        ≡ (if matched then ended else returned minus_one, s)
  unfolding after_verify
  after_verify-Ends true s = refl
  after_verify-Ends false s = refl

  after_program-Ends :
      (blob : List ℕ) (v : ℕ) (s : Session m q) (d : Driver l)
      → IsAtRest m q l b s d
      → length blob < 2 ^ 32
      → Ends
          (after_program m b.frames q b.fuel_read b.c (some blob) (some v, s))
          (ending 0 v (binary_matches l (some blob) d))
  unfolding after_program ending Ends Judges binary_size
  after_program-Ends blob v s d rest small = elim (Bool-cases (v == 0)) [
    | inr bad ↦ rw bad (s, d, rw (after_program, bad) refl, rest)
    | inl good ↦
        let (s1, d1, verified, rest1) = verify_flash-matches m q l b (some blob) s d rest small in
        rw good (
          s1,
          d1,
          rw (after_program, good, verified)
              (ap some (after_verify-Ends (binary_matches l (some blob) d) s1)),
          rest1,
        )
  ]

  after_erase-Ends :
      (blob : List ℕ) (erased v : ℕ) (s : Session m q) (d d' : Driver l)
      → IsAtRest m q l b s d
      → length blob % 4 ≡ 0
      → length blob < 2 ^ 32
      → programs l (file_words blob) 0 d ≡ some (v, d')
      → Ends
          (after_erase m b.frames q b.fuel_read b.c (some blob) (erased, s))
          (ending erased v (binary_matches l (some blob) d'))
  unfolding after_erase ending Ends Programs
  after_erase-Ends blob erased v s d d' rest whole small e = elim (Bool-cases (erased == 0)) [
    | inr bad ↦ rw bad (s, d, rw (after_erase, bad) refl, rest)
    | inl good ↦
        let (s1, programmed, rest1) = flash_program-programs m q l b blob s d d' v rest whole e in
        let (s2, d2, ends, rest2) = after_program-Ends blob v s1 d' rest1 small in
        rw good (s2, d2, rw (after_erase, good, programmed) ends, rest2)
  ]

  -- initSystem of a script that is not interactive, with the programmer ready and a file of whole
  -- words, ends without a return just where the flash is erased with success, the words of the file are
  -- programmed with success, and after that the driver reads from the memory each word of the file,
  -- taken as a signed number of 32 bits; else it returns -1. The programmer is ready again. (The file
  -- has less than 2^32 bytes, no polling is exhausted, and the line is as documented.)
  pub init_system-ending :
      (blob : List ℕ) (s : Session m q) (d d' : Driver l) (v : ℕ)
      → IsAtRest m q l b s d
      → length blob % 4 ≡ 0
      → length blob < 2 ^ 32
      → programs l (file_words blob) 0 (erases l (tries l 10 d).1).1 ≡ some (v, d')
      → Ends
          (init_system m b.frames q b.fuel_read b.c (some blob) false s)
          (ending (erases l (tries l 10 d).1).0 v (binary_matches l (some blob) d'))
  unfolding init_system Ends ReturnsAs Returns
  init_system-ending blob s d d' v rest whole small e =
      let (s1, connected, rest1) = (connect-tries m q l b s d 0 0 rest (omega arith)).0 in
      let (s2, erased, rest2) = flash_erase-erases m q l b s1 (tries l 10 d).1 rest1 in
      let (s3, d3, ends, rest3) =
        after_erase-Ends blob (erases l (tries l 10 d).1).0 v s2 (erases l (tries l 10 d).1).1 d'
          rest2 whole small e in
      (s3, d3, rw (connected, erased) ends, rest3)
