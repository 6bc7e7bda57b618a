-- ===== src/Firmware/Loop/TimeOut.antt =====
-- Where the command loop comes to a WAITMEMTRUE that times out.
use swagger.Prelude.{ℕ, ◌+◌, ◌-◌, ◌<◌, ◌≡◌, refl, some, List, ◌∷◌, get_elem?, take}
use swagger.Protocol.Command
use swagger.Arduino.{digital_write, high, led_pin}
use swagger.Probe.{Link, Driver}
use swagger.Firmware.Stuff.{unstuff_data}
use swagger.Firmware.Loop.{Stack, Firmware, go_on, get_uint32, poll, exhausted, max_polls, command}

-- The command at `ptr` is a WAITMEMTRUE, and its polling from `fw` on, of all its rounds, meets
-- neither its mask nor an error.
pub record TimesOut (l : Link) (decoded : List ℕ) (ptr : ℕ) (fw : Firmware l) : Type 0 where
  pub address : ℕ
  pub mask : ℕ
  pub after : Driver l
  pub cmd : get_elem? decoded ptr ≡ some Command.wait_mem_true
  pub address_read : get_uint32 decoded (ptr + 1) ≡ some address
  pub mask_read : get_uint32 decoded (ptr + 5) ≡ some mask
  pub polling : poll l max_polls address mask fw.interface ≡ exhausted after

module _ (l : Link) (stack : Stack) where
  -- The rounds of the command loop from its start on: it is at `ptr`, with the firmware at `fw`.
  pub data Reached (decoded : List ℕ) (end_ptr : ℕ) (start : Firmware l)
      : ℕ → Firmware l → Type 0 where
    begins : Reached decoded end_ptr start 0 start
    goes_on :
        {ptr next : ℕ} {fw fw' : Firmware l}
        → Reached decoded end_ptr start ptr fw
        → ptr < end_ptr
        → command l stack decoded ptr fw ≡ some (go_on next fw')
        → Reached decoded end_ptr start next fw'

  -- The command loop comes to a polling that times out.
  unfoldable pub MeetsTimeOut : (decoded : List ℕ) (end_ptr : ℕ) (start : Firmware l) → Type 0
  MeetsTimeOut decoded end_ptr start =
      (ptr : ℕ) × (fw : Firmware l) × Reached decoded end_ptr start ptr fw
      × (ptr < end_ptr)
      × TimesOut l decoded ptr fw

  -- The byte ends a packet, and so does the command loop on the commands that it decodes to.
  unfoldable pub Hangs : (byte_read : ℕ) (fw : Firmware l) → Type 0
  Hangs byte_read fw =
      (byte_read ≡ 0)
      × (decoded : List ℕ) × (bytes : ℕ) × (unstuff_data (take fw.rxidx fw.rxbuffer)
            stack.decodebuffer
          ≡ some (decoded, bytes))
      × MeetsTimeOut decoded (bytes - 1)
          (record fw { rxidx = 0; calls = digital_write led_pin high ∷ fw.calls })

  pub MeetsTimeOut-Hangs :
      (fw : Firmware l) (decoded : List ℕ) (bytes : ℕ)
      → unstuff_data (take fw.rxidx fw.rxbuffer) stack.decodebuffer ≡ some (decoded, bytes)
      → MeetsTimeOut decoded
          (bytes - 1)
          (record fw { rxidx = 0; calls = digital_write led_pin high ∷ fw.calls })
      → Hangs 0 fw
  unfolding Hangs
  MeetsTimeOut-Hangs fw decoded bytes unstuffs late = (refl, decoded, bytes, unstuffs, late)
