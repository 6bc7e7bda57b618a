-- ===== src/Targets/Kinetis.antt =====
-- `targets/nxp/kinetis.nut` and the programming of `targets/nxp/mkv10z.nut`. What they log is not
-- modelled.
pub mod Registers
pub mod Longword
pub mod Program
pub mod Erase
pub mod Steps
pub mod Simulates
pub mod Erasing
use Prim.Native.Nat.{bit_and, bit_or}
use swagger.Prelude.{
  ℕ, zero, suc, ◌+◌, ◌/◌, ◌^◌, Bool, true, false, Option, none, some, List, [], ◌∷◌, ltb, ◌==◌,
  if◌then◌else◌,
}
use swagger.Word32.{join}
use swagger.Firmware.Stuff.{◌>>=◌}
use swagger.Host.Packet.{SerialPort}
use swagger.Host.Script.{SquirrelVm, Session}
use swagger.Targets.{CallFrames, minus_one, call_clear, call_pop8, call_pop32, call_execute}
use swagger.Targets.Functions
use swagger.Targets.Functions.Scs
use swagger.Targets.Functions.CmdStatus
use swagger.Targets.Functions.{
  queue_write_memory, queue_read_memory, queue_poll_memory, write_stat, read_stat, write_memory,
  read_memory, write_ap, read_ap, poll_ap, poll_ap_not, set_reset,
}
use swagger.Targets.Verify.{sign_extend}

-- What the flags of the flash controller report: a collision, an access error or a violation.
unfoldable pub flash_error : ℕ → Bool
flash_error retval =
    if bit_and retval Registers.fstat_rdcolerr == 0
    then (if bit_and retval Registers.fstat_accerr == 0
        then (if bit_and retval Registers.fstat_fpviol == 0 then false else true)
        else true)
    else true

module _ (m : SquirrelVm) (f : CallFrames m) (q : SerialPort) where
  -- The commands of `kinetis_flash_longword`.
  unfoldable pub queue_longword : (address word : ℕ) → Session m q → Session m q
  queue_longword address word s =
      let s1 =
        queue_write_memory m f q Registers.fstat
          (bit_or 0xFFFE_0000 (
            bit_or (bit_or Registers.fstat_rdcolerr Registers.fstat_accerr) Registers.fstat_fpviol))
          s in
      let s2 = queue_poll_memory m f q Registers.fstat Registers.fstat_ccif s1 in
      let s3 =
        queue_write_memory m f q Registers.fccob_base
          (bit_or 0x0600_0000 (bit_and address 0x00FF_FFFF)) s2 in
      let s4 = queue_write_memory m f q (Registers.fccob_base + 4) word s3 in
      let s5 =
        queue_write_memory m f q Registers.fstat (bit_or 0xFFFE_0000 Registers.fstat_ccif) s4 in
      let s6 = queue_poll_memory m f q Registers.fstat Registers.fstat_ccif s5 in
      queue_read_memory m f q Registers.fstat s6

  -- Its results, from the last to be popped on.
  unfoldable pub longword_flags : ℕ × Session m q → ℕ × Session m q
  longword_flags (retval, s) = (if flash_error retval then minus_one else 0, s)

  unfoldable pub longword_status : ℕ × Session m q → ℕ × Session m q
  longword_status (result, s) = elim (result == CmdStatus.ok) [
    | true ↦ longword_flags (call_pop32 m f q s)
    | false ↦ (minus_one, s)
  ]

  unfoldable pub longword_end : ℕ × Session m q → ℕ × Session m q
  longword_end (r, s) = elim (r == 0) [
    | true ↦ longword_status (call_pop8 m f q s)
    | false ↦ (minus_one, s)
  ]

  module _ (fuel c : ℕ) where
    unfoldable pub flash_longword : (address word : ℕ) → Session m q → Option (ℕ × Session m q)
    flash_longword address word s = do
      run ← call_execute m f q fuel c (queue_longword address word (call_clear m f q s))
      some (longword_end run)

    -- `flash_program` of `mkv10z.nut`, from the end of its loop on.
    unfoldable pub program_end : Session m q → Option (Option ℕ × Session m q)
    program_end s = do
      s1 ← set_reset m f q fuel c 1 s
      s2 ← set_reset m f q fuel c 0 s1
      some (some 0, s2)

    -- A word is programmed, but one of all ones is to be skipped.
    unfoldable pub program_word : (idx word : ℕ) → Session m q → Option (ℕ × Session m q)
    program_word idx word s = if word == 0xFFFF_FFFF then some (0, s) else flash_longword idx word s

    unfoldable pub program_round :
        (next : Session m q → Option (Option ℕ × Session m q))
        → ℕ × Session m q
        → Option (Option ℕ × Session m q)
    program_round next (result, s) = elim (result == 0) [
      | true ↦ next s
      | false ↦ some (some minus_one, s)
    ]

    -- `while(idx < myblob.len())`. `readn` throws where less than four bytes are left: there is no
    -- result then.
    unfoldable pub program_loop :
        (idx : ℕ) (blob : List ℕ) → Session m q → Option (Option ℕ × Session m q)
    program_loop idx [] s = program_end s
    program_loop idx (b0 ∷ b1 ∷ b2 ∷ b3 ∷ rest) s = do
      one ← program_word idx (sign_extend (join b0 b1 b2 b3)) s
      program_round (program_loop (idx + 4) rest) one
    program_loop idx few s = some (none, s)

    unfoldable pub flash_program :
        (binary : Option (List ℕ)) → Session m q → Option (Option ℕ × Session m q)
    flash_program none s = some (some minus_one, s)
    flash_program (some blob) s = program_loop 0 blob s
