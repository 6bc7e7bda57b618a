-- ===== src/Firmware/Loop/Ends.antt =====
-- How the work on a received byte ends.
use swagger.Prelude.{
  ℕ, zero, suc, ◌+◌, ◌-◌, ◌%◌, ◌≤◌, ◌<◌, ◌≡◌, refl, ◌∙◌, ◌⊎◌, inl, inr, Option, none, some, List,
  arith, ltb, leb, ◌==◌, ==_iff, if◌then◌else◌, length, Bool-cases, take, set, drop, length-append,
  length-drop, length-take, length-set,
}
use swagger.Protocol.Status
use swagger.Probe.{Link}
use swagger.Firmware.Stuff.Decode.{overlay, unstuff_data-decode}
use swagger.Firmware.Loop.{
  Stack, Firmware, Next, go_on, returned, Ended, done, fault, out_of_fuel, continue, run_commands,
  command, reply_with, packet, receive,
}
use swagger.Firmware.Loop.Sound.{IsStack, IsSound, reply_with-sends}
use swagger.Firmware.Loop.TimeOut.{
  Reached, begins, goes_on, MeetsTimeOut, Hangs, MeetsTimeOut-Hangs,
}
use swagger.Firmware.Loop.Progress.{Advances, command-Advances}

module _ (l : Link) where
  pub run_commands_empty :
      (stack : Stack) (decoded : List ℕ) (end_ptr ptr : ℕ) (fw : Firmware l)
      → run_commands l zero stack decoded end_ptr ptr fw ≡ out_of_fuel
  unfolding run_commands
  run_commands_empty stack decoded end_ptr ptr fw = refl

  pub run_commands_step :
      (fuel : ℕ) (stack : Stack) (decoded : List ℕ) (end_ptr ptr : ℕ) (fw : Firmware l)
      → run_commands l (suc fuel) stack decoded end_ptr ptr fw ≡ (
          if ltb ptr end_ptr
          then continue l
              (run_commands l fuel stack decoded end_ptr)
              (command l stack decoded ptr fw)
          else (elim (reply_with l stack Status.ok fw) [ none ↦ fault | some fw' ↦ done fw' ]))
  unfolding run_commands
  run_commands_step fuel stack decoded end_ptr ptr fw = refl

module _ (l : Link) (stack : Stack) (sizes : IsStack stack) where
  -- The state stays sound; an access past an array needs a packet that decodes to more than
  -- `limit` bytes; and the fuel runs out only if `Stuck` holds.
  pub Ends : (limit end_ptr : ℕ) (Stuck : Type 0) → Ended l → Type 0
  Ends limit end_ptr Stuck (done fw) = IsSound l fw
  Ends limit end_ptr Stuck fault = limit < end_ptr
  Ends limit end_ptr Stuck out_of_fuel = Stuck

  module _ (decoded : List ℕ) (size : length decoded ≡ 64) (end_ptr : ℕ) (start : Firmware l) where
    Stuck : Type 0
    Stuck = MeetsTimeOut l stack decoded end_ptr start

    continue-Ends :
        (ptr : ℕ) (fw : Firmware l) (next : ℕ → Firmware l → Ended l) (step : Option (Next l))
        → ptr < end_ptr
        → Reached l stack decoded end_ptr start ptr fw
        → command l stack decoded ptr fw ≡ step
        → Advances l stack sizes decoded ptr fw step
        → ((ptr' : ℕ) (fw' : Firmware l)
            → IsSound l fw'
            → Reached l stack decoded end_ptr start ptr' fw'
            → (ptr < ptr') ⊎ Stuck
            → Ends 56 end_ptr Stuck (next ptr' fw'))
        → Ends 56 end_ptr Stuck (continue l next step)
    unfolding Ends continue Advances Stuck MeetsTimeOut
    continue-Ends ptr fw next none below here runs past each = omega (arith, past, size)
    continue-Ends ptr fw next (some (go_on ptr' fw')) below here runs (sound, inl further) each =
        each ptr' fw' sound (goes_on here below runs) (inl further)
    continue-Ends ptr fw next (some (go_on ptr' fw')) below here runs (sound, inr late) each =
        each ptr' fw' sound (goes_on here below runs) (inr (ptr, fw, here, below, late))
    continue-Ends ptr fw next (some (returned fw')) below here runs sound each = sound

    finish-Ends :
        (fw : Firmware l)
        → IsSound l fw
        → (fw' : Firmware l) × (reply_with l stack Status.ok fw ≡ some fw')
          × Ends 56 end_ptr Stuck (done fw')
    unfolding Ends
    finish-Ends fw sound =
        let (fw', sent, sound', calls, idx, interface, emptied) =
          reply_with-sends l stack Status.ok fw sizes sound in
        (fw', sent, sound')

    still_enough :
        (fuel ptr ptr' : ℕ)
        → ptr < end_ptr
        → (end_ptr - ptr < suc fuel) ⊎ Stuck
        → (ptr < ptr') ⊎ Stuck
        → (end_ptr - ptr' < fuel) ⊎ Stuck
    still_enough fuel ptr ptr' below (inl enough) (inl further) = inl (omega arith)
    still_enough fuel ptr ptr' below (inr stuck) further = inr stuck
    still_enough fuel ptr ptr' below enough (inr stuck) = inr stuck

    stuck-Ends : Stuck → Ends 56 end_ptr Stuck out_of_fuel
    unfolding Ends
    stuck-Ends stuck = stuck

    run_commands-Ends :
        (fuel ptr : ℕ) (fw : Firmware l)
        → IsSound l fw
        → Reached l stack decoded end_ptr start ptr fw
        → (end_ptr - ptr < fuel) ⊎ Stuck
        → Ends 56 end_ptr Stuck (run_commands l fuel stack decoded end_ptr ptr fw)
    run_commands-Ends zero ptr fw sound here (inl enough) = absurd (omega arith)
    run_commands-Ends zero ptr fw sound here (inr stuck) =
        rw (run_commands_empty l stack decoded end_ptr ptr fw) (stuck-Ends stuck)
    run_commands-Ends (suc fuel) ptr fw sound here enough = elim (Bool-cases (ltb ptr end_ptr)) [
      | inl below ↦
          rw (run_commands_step l fuel stack decoded end_ptr ptr fw, below)
            (continue-Ends ptr fw (run_commands l fuel stack decoded end_ptr)
              (command l stack decoded ptr fw) (ground arith) here refl
              (command-Advances l stack sizes decoded ptr fw sound)
              (λ ptr' fw' sound' here' further.
                run_commands-Ends fuel ptr' fw' sound' here'
                  (still_enough fuel ptr ptr' (ground arith) enough further)))
      | inr over ↦
          let (fw', sent, ends) = finish-Ends fw sound in
          rw (run_commands_step l fuel stack decoded end_ptr ptr fw, over, sent) ends
    ]

  weaken-Ends :
      (bytes rxidx : ℕ) (S T : Type 0) (r : Ended l)
      → bytes ≤ rxidx
      → (S → T)
      → Ends 56 (bytes - 1) S r
      → Ends 57 rxidx T r
  unfolding Ends
  weaken-Ends bytes rxidx S T (done fw) h weaker sound = sound
  weaken-Ends bytes rxidx S T fault h weaker far = omega (arith, far, h)
  weaken-Ends bytes rxidx S T out_of_fuel h weaker stuck = weaker stuck

  packet-Ends :
      (fuel : ℕ) (fw : Firmware l)
      → IsSound l fw
      → 64 ≤ fuel
      → Ends 57 fw.rxidx (Hangs l stack 0 fw) (packet l fuel stack fw)
  unfolding packet Stuck
  packet-Ends fuel fw sound enough =
      let read : length (take fw.rxidx fw.rxbuffer) ≡ fw.rxidx =
        omega (arith, length-take fw.rxidx fw.rxbuffer, sound.rx_size, sound.rx_fits) in
      let (outdata, decodes, unstuffs, bound) =
        unstuff_data-decode (take fw.rxidx fw.rxbuffer) stack.decodebuffer
          (omega (arith, read, sizes.decode_size, sound.rx_fits)) in
      let size : length (overlay outdata stack.decodebuffer) ≡ 64 = omega (
        arith,
        length-append outdata (drop (length outdata) stack.decodebuffer),
        length-drop (length outdata) stack.decodebuffer,
        sizes.decode_size,
        sound.rx_fits,
      ) in
      rw (packet, unstuffs)
        (weaken-Ends (length outdata) fw.rxidx _ _ _ (omega (arith, bound, read))
          (MeetsTimeOut-Hangs l stack fw _ (length outdata) unstuffs)
          (run_commands-Ends (overlay outdata stack.decodebuffer) size (length outdata - 1) _ fuel 0
            _ (record { rx_size = sound.rx_size; rx_fits = omega arith; reply = sound.reply })
            begins (inl (omega (arith, bound, read, sound.rx_fits)))))

  overflow-Ends :
      (T : Type 0) (fw : Firmware l)
      → IsSound l fw
      → let fw' = record fw {
        reply = record { txbuffer = fw.reply.txbuffer; txidx = 1 };
        rxidx = 0;
      } in
        Ends 57 fw.rxidx T (elim (reply_with l stack Status.rx_overflow fw') [
          | none ↦ fault
          | some fw'' ↦ done fw''
        ])
  unfolding Ends
  overflow-Ends T fw sound =
      let fw' = record fw {
        reply = record { txbuffer = fw.reply.txbuffer; txidx = 1 };
        rxidx = 0;
      } in
      let (fw'', sent, sound', calls, idx, interface, emptied) =
        reply_with-sends l stack Status.rx_overflow fw' sizes (record {
          rx_size = sound.rx_size;
          rx_fits = omega arith;
          reply = record { size = sound.reply.size; status = omega arith; fits = omega arith };
        }) in
      rw sent sound'

  store-Ends :
      (T : Type 0) (byte_read : ℕ) (fw : Firmware l)
      → IsSound l fw
      → fw.rxidx < 64
      → Ends 57 fw.rxidx T (
          done (record fw {
            rxbuffer = set fw.rxbuffer fw.rxidx byte_read;
            rxidx = (fw.rxidx + 1) % 256;
          }))
  unfolding Ends
  store-Ends T byte_read fw sound room = record {
    rx_size = length-set fw.rxbuffer fw.rxidx byte_read ∙ sound.rx_size;
    rx_fits = omega arith;
    reply = sound.reply;
  }

  -- On a sound state a received byte leaves a sound state; or the firmware reads past the end of
  -- decodebuffer, which takes a packet of 58 bytes at least; or it does not come to an end, with 64
  -- rounds of the command loop or more. Then the byte ended a packet, and one of the rounds on its
  -- commands, from the start of the loop on, was at a WAITMEMTRUE in the packet whose polling, with
  -- its own address and mask and from the driver as it was then, used up all its tries without an
  -- error or a match.
  pub receive-Ends :
      (fuel byte_read : ℕ) (fw : Firmware l)
      → IsSound l fw
      → 64 ≤ fuel
      → Ends 57 fw.rxidx (Hangs l stack byte_read fw) (receive l fuel stack byte_read fw)
  unfolding receive
  receive-Ends fuel byte_read fw sound enough = elim (Bool-cases (byte_read == 0)) [
    | inl e ↦
        let last : byte_read ≡ 0 = (==_iff byte_read 0).0 e in
        rw (e, last) (packet-Ends fuel fw sound enough)
    | inr e ↦ rw e (elim (Bool-cases (leb 64 fw.rxidx)) [
      | inl full ↦ rw full (overflow-Ends _ fw sound)
      | inr room ↦ rw room (store-Ends _ byte_read fw sound (ground arith))
    ])
  ]
