-- ===== src/Firmware/Loop/Spin.antt =====
-- A polling that times out goes on at the same command.
use swagger.Prelude.{
  ℕ, zero, suc, ◌+◌, ◌<◌, ◌≡◌, refl, sym, true, some, List, arith, ltb, get_elem?,
}
use mathlib.Core.Path.{subst}
use swagger.Protocol.Command
use swagger.Protocol.Status
use swagger.Probe.{Link, Driver}
use swagger.Firmware.Loop.{
  Stack, Firmware, go_on, get_uint32, poll, exhausted, max_polls, finish_poll, dispatch, command,
  continue, run_commands, out_of_fuel,
}
use swagger.Firmware.Loop.Sound.{IsStack, IsSound, reply_with-sends, interface-IsSound}
use swagger.Firmware.Loop.Ends.{run_commands_empty, run_commands_step}

module _ (l : Link) (stack : Stack) (sizes : IsStack stack) (decoded : List ℕ) (end_ptr ptr : ℕ)
    (address mask : ℕ) (IsBusy : Driver l → Type 0) where
  -- The command at `ptr` is WAITMEMTRUE with its address and mask, and on a driver that is busy all
  -- rounds of the polling pass, after which it is busy.
  pub record Polls : Type 0 where
    pub inside : ptr < end_ptr
    pub cmd : get_elem? decoded ptr ≡ some Command.wait_mem_true
    pub address_read : get_uint32 decoded (ptr + 1) ≡ some address
    pub mask_read : get_uint32 decoded (ptr + 5) ≡ some mask
    pub polling :
        (d : Driver l)
        → IsBusy d
        → (d' : Driver l) × (poll l max_polls address mask d ≡ exhausted d') × IsBusy d'

  module _ (p : Polls) where
    command-stays :
        (fw : Firmware l)
        → IsSound l fw
        → IsBusy fw.interface
        → (fw' : Firmware l) × (command l stack decoded ptr fw ≡ some (go_on ptr fw'))
          × IsSound l fw'
          × IsBusy fw'.interface
    unfolding command dispatch finish_poll
    command-stays fw sound busy =
        let (d', polled, busy') = p.polling fw.interface busy in
        let (fw', sent, sound', calls, idx, interface, emptied) =
          reply_with-sends l stack Status.timeout (record fw { interface = d' }) sizes
            (interface-IsSound l d' fw sound) in
        (
          fw',
          rw (p.cmd, p.address_read, p.mask_read, polled, sent) refl,
          sound',
          subst IsBusy (sym interface) busy',
        )

    -- Where the polling of a WAITMEMTRUE command runs out of rounds, time after time, the command
    -- loop from this command does not end, whatever fuel it is given. (`IsBusy` is kept by a polling;
    -- it holds at the start, where the state is sound.)
    pub run_commands_spin :
        (fuel : ℕ) (fw : Firmware l)
        → IsSound l fw
        → IsBusy fw.interface
        → run_commands l fuel stack decoded end_ptr ptr fw ≡ out_of_fuel
    unfolding continue
    run_commands_spin zero fw sound busy = run_commands_empty l stack decoded end_ptr ptr fw
    run_commands_spin (suc fuel) fw sound busy =
        let (fw', stays, sound', busy') = command-stays fw sound busy in
        let below : ltb ptr end_ptr ≡ true = ground (arith, p.inside) in
        rw (run_commands_step l fuel stack decoded end_ptr ptr fw, below, stays)
          (run_commands_spin fuel fw' sound' busy')
