-- ===== src/Targets/Start.antt =====
-- `initSystem` of `targets/init.nut`, with the one target of the table. The loading of the other
-- scripts, `sleep`, and what is logged are not modelled.
pub mod Verified
use swagger.Prelude.{ℕ, Bool, true, false, Option, none, some, List, ◌==◌, if◌then◌else◌}
use swagger.Firmware.Stuff.{◌>>=◌}
use swagger.Host.Packet.{SerialPort}
use swagger.Host.Script.{SquirrelVm, Session}
use swagger.Targets.{CallFrames, minus_one}
use swagger.Targets.Functions
use swagger.Targets.Verify.{verify_flash}
use swagger.Targets.Kinetis.{flash_program}
use swagger.Targets.Kinetis.Erase.{flash_erase}

-- How it ends: at its end, with a return, or with an error that is caught.
pub data Ending : Type 0 where
  ended : Ending
  returned : ℕ → Ending
  caught : Ending

module _ (m : SquirrelVm) (f : CallFrames m) (q : SerialPort) (fuel c : ℕ) where
  unfoldable pub after_verify : ℕ × Session m q → Ending × Session m q
  after_verify (result, s) = (if result == 0 then ended else returned minus_one, s)

  unfoldable pub after_program :
      (binary : Option (List ℕ)) → Option ℕ × Session m q → Option (Ending × Session m q)
  after_program binary (none, s) = some (caught, s)
  after_program binary (some result, s) = elim (result == 0) [
    | true ↦ (do verified ← verify_flash m f q fuel c binary s; some (after_verify verified))
    | false ↦ some (returned minus_one, s)
  ]

  unfoldable pub after_erase :
      (binary : Option (List ℕ)) → ℕ × Session m q → Option (Ending × Session m q)
  after_erase binary (result, s) = elim (result == 0) [
    | true ↦ (do programmed ← flash_program m f q fuel c binary s; after_program binary programmed)
    | false ↦ some (returned minus_one, s)
  ]

  -- `binary` is what the file `binFile` holds, where it can be opened.
  unfoldable pub init_system :
      (binary : Option (List ℕ)) (interactive : Bool) → Session m q → Option (Ending × Session m q)
  init_system binary interactive s = do
    (idcode, s1) ← Functions.connect m f q fuel c s
    elim interactive [
      | true ↦ some (ended, s1)
      | false ↦ (do erased ← flash_erase m f q fuel c s1; after_erase binary erased)
    ]
