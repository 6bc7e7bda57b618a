-- ===== src/Firmware/Loop/Progress.antt =====
-- A command moves on in the packet, or ends the packet: the command loop ends.
use swagger.Prelude.{
  ℕ, zero, suc, ◌+◌, ◌≤◌, ◌<◌, ◌≡◌, refl, ◌⊎◌, inl, inr, Bool, true, false, Option, none, some,
  List, [], ◌∷◌, arith, ltb, ◌==◌, ==_iff, if◌then◌else◌, length, get_elem?, Bool-cases, ap, ◌∙◌,
}
use swagger.Protocol.Command
use swagger.Protocol.Status
use swagger.Probe.{Link, Driver}
use swagger.Firmware.Stuff.{◌>>=◌}
use swagger.Firmware.Loop.{
  Stack, Firmware, Next, go_on, returned, fail_with, queue32, finish_read, finish_write, get_uint32,
  Poll, met, failed, exhausted, poll, max_polls, finish_poll, dispatch, command, rx_size,
}
use swagger.Firmware.Loop.TimeOut.{TimesOut}
use swagger.Firmware.Loop.Sound.{
  IsStack, IsSound, reply_with-sends, queue8-IsSound, queue32-IsSound, interface-IsSound,
}

get_elem?-none : (xs : List ℕ) (i : ℕ) → get_elem? xs i ≡ none → length xs ≤ i
get_elem?-none [] i e = omega arith
get_elem?-none (x ∷ xs) zero e = ground (arith, e)
get_elem?-none (x ∷ xs) (suc i) e = omega (arith, get_elem?-none xs i e)

get_elem?-some : (xs : List ℕ) (i : ℕ) → i < length xs → (b : ℕ) × (get_elem? xs i ≡ some b)
get_elem?-some [] i h = absurd (omega arith)
get_elem?-some (x ∷ xs) zero h = (x, refl)
get_elem?-some (x ∷ xs) (suc i) h = get_elem?-some xs i (omega arith)

get_uint32-none : (xs : List ℕ) (i : ℕ) → get_uint32 xs i ≡ none → length xs < i + 4
unfolding get_uint32
get_uint32-none xs i e = elim (Bool-cases (ltb (i + 3) (length xs))) [
  | inr short ↦ ground arith
  | inl long ↦
      let (b0, e0) = get_elem?-some xs i (ground arith) in
      let (b1, e1) = get_elem?-some xs (i + 1) (ground arith) in
      let (b2, e2) = get_elem?-some xs (i + 2) (ground arith) in
      let (b3, e3) = get_elem?-some xs (i + 3) (ground arith) in
      absurd (ground (arith, rw (e0, e1, e2, e3) at e))
]

by_test : {P : Type 0} (b : Bool) → (b ≡ true → P) → (b ≡ false → P) → P
by_test true t f = t refl
by_test false t f = f refl

module _ (l : Link) (stack : Stack) (sizes : IsStack stack) (decoded : List ℕ) (ptr : ℕ)
    (before : Firmware l) where
  -- After the command at `ptr`, run from `before`: it read past the array only if it is one of the
  -- last bytes; the loop goes on further in the packet, or the command is a polling that timed out.
  unfoldable pub Advances : Option (Next l) → Type 0
  Advances none = length decoded < ptr + 9
  Advances (some (go_on next fw)) = IsSound l fw × ((ptr < next) ⊎ TimesOut l decoded ptr before)
  Advances (some (returned fw)) = IsSound l fw

  bind-Advances :
      {A : Type 0} (o : Option A) (f : A → Option (Next l))
      → (o ≡ none → length decoded < ptr + 9)
      → ((a : A) → o ≡ some a → Advances (f a))
      → Advances (o >>= f)
  unfolding Advances
  bind-Advances none f short each = short refl
  bind-Advances (some a) f short each = each a refl

  elem-Advances :
      (i : ℕ) (f : ℕ → Option (Next l))
      → i < 9
      → ((b : ℕ) → Advances (f b))
      → Advances (get_elem? decoded (ptr + i) >>= f)
  elem-Advances i f small each =
      bind-Advances (get_elem? decoded (ptr + i)) f
        (λ e. omega (arith, get_elem?-none decoded (ptr + i) e, small)) (λ b e. each b)

  word-Advances :
      (i : ℕ) (f : ℕ → Option (Next l))
      → i < 6
      → ((w : ℕ) → get_uint32 decoded (ptr + i) ≡ some w → Advances (f w))
      → Advances (get_uint32 decoded (ptr + i) >>= f)
  word-Advances i f small =
      bind-Advances (get_uint32 decoded (ptr + i)) f
        (λ e. omega (arith, get_uint32-none decoded (ptr + i) e, small))

  if-Advances :
      (b : Bool) (x y : Option (Next l)) → Advances x → Advances y → Advances (if b then x else y)
  if-Advances true x y h k = h
  if-Advances false x y h k = k

  fail_with-Advances :
      (status : ℕ) (fw : Firmware l) → IsSound l fw → Advances (fail_with l stack status fw)
  unfolding fail_with Advances
  fail_with-Advances status fw sound =
      let (fw', sent, sound', calls, idx, interface, emptied) =
        reply_with-sends l stack status fw sizes sound in
      rw sent sound'

  go_on-Advances :
      (next : ℕ) (fw : Firmware l) → ptr < next → IsSound l fw → Advances (some (go_on next fw))
  unfolding Advances
  go_on-Advances next fw further sound = (sound, inl further)

  stuck-Advances :
      (fw : Firmware l)
      → TimesOut l decoded ptr before
      → IsSound l fw
      → Advances (some (go_on ptr fw))
  unfolding Advances
  stuck-Advances fw stuck sound = (sound, inr stuck)

  finish_read-Advances :
      (next : ℕ) (r : (ℕ × ℕ) × Driver l) (fw : Firmware l)
      → ptr < next
      → IsSound l fw
      → Advances (finish_read l stack next r fw)
  unfolding finish_read
  finish_read-Advances next ((stat, word), d) fw further sound =
      let fw' = record fw { interface = d } in
      let sound' = interface-IsSound l d fw sound in
      if-Advances (stat == Status.ok) _ _
        (go_on-Advances next (queue32 l word fw') further (queue32-IsSound l word fw' sound'))
        (fail_with-Advances stat fw' sound')

  finish_write-Advances :
      (next : ℕ) (r : ℕ × Driver l) (fw : Firmware l)
      → ptr < next
      → IsSound l fw
      → Advances (finish_write l stack next r fw)
  unfolding finish_write
  finish_write-Advances next (stat, d) fw further sound =
      let fw' = record fw { interface = d } in
      let sound' = interface-IsSound l d fw sound in
      if-Advances (stat == Status.ok) _ _ (go_on-Advances next fw' further sound')
        (fail_with-Advances stat fw' sound')

  finish_poll-Advances :
      (address mask : ℕ) (p : Poll l)
      → IsSound l before
      → get_elem? decoded ptr ≡ some Command.wait_mem_true
      → get_uint32 decoded (ptr + 1) ≡ some address
      → get_uint32 decoded (ptr + 5) ≡ some mask
      → poll l max_polls address mask before.interface ≡ p
      → Advances (finish_poll l stack ptr p before)
  unfolding finish_poll
  finish_poll-Advances address mask (met d) sound at a m e =
      go_on-Advances (ptr + 9) _ (omega arith) (interface-IsSound l d before sound)
  finish_poll-Advances address mask (failed stat d) sound at a m e =
      fail_with-Advances stat _ (interface-IsSound l d before sound)
  finish_poll-Advances address mask (exhausted d) sound at a m e =
      let (fw', sent, sound', calls, idx, interface, emptied) =
        reply_with-sends l stack Status.timeout (record before { interface = d }) sizes
          (interface-IsSound l d before sound) in
      rw sent (
        stuck-Advances fw'
          (record {
            address = address;
            mask = mask;
            after = d;
            cmd = at;
            address_read = a;
            mask_read = m;
            polling = e;
          })
          sound')

  dispatch-Advances :
      (cmd : ℕ)
      → get_elem? decoded ptr ≡ some cmd
      → IsSound l before
      → Advances (dispatch l stack decoded ptr cmd before)
  unfolding dispatch
  dispatch-Advances cmd at sound =
      by_test (cmd == Command.reset)
        (λ e. rw e (
          elem-Advances 1 _ (omega arith) (λ state.
            go_on-Advances (ptr + 2) _ (omega arith)
              (record { rx_size = sound.rx_size; rx_fits = sound.rx_fits; reply = sound.reply }))))
        (λ e. rw e (
          by_test (cmd == Command.connect)
            (λ e. rw e (finish_read-Advances (ptr + 1) _ before (omega arith) sound))
            (λ e. rw e (
              by_test (cmd == Command.read_dp)
                (λ e. rw e (
                  elem-Advances 1 _ (omega arith)
                    (λ a. finish_read-Advances (ptr + 2) _ before (omega arith) sound)))
                (λ e. rw e (
                  by_test (cmd == Command.write_dp)
                    (λ e. rw e (
                      elem-Advances 1 _ (omega arith) (λ a.
                        word-Advances 2 _ (omega arith)
                          (λ w ew. finish_write-Advances (ptr + 6) _ before (omega arith) sound))))
                    (λ e. rw e (
                      by_test (cmd == Command.read_ap)
                        (λ e. rw e (
                          word-Advances 1 _ (omega arith)
                            (λ a ea. finish_read-Advances (ptr + 5) _ before (omega arith) sound)))
                        (λ e. rw e (
                          by_test (cmd == Command.write_ap)
                            (λ e. rw e (
                              word-Advances 1 _ (omega arith) (λ a ea.
                                word-Advances 5 _ (omega arith) (λ w ew.
                                  finish_write-Advances (ptr + 9) _ before (omega arith) sound))))
                            (λ e. rw e (
                              by_test (cmd == Command.read_mem)
                                (λ e. rw e (
                                  word-Advances 1 _ (omega arith) (λ a ea.
                                    finish_read-Advances (ptr + 5) _ before (omega arith) sound)))
                                (λ e. rw e (
                                  by_test (cmd == Command.wait_mem_true)
                                    (λ e. rw e (
                                      word-Advances 1 _ (omega arith) (λ a ea.
                                        word-Advances 5 _ (omega arith) (λ w ew.
                                          finish_poll-Advances a w _ sound
                                            (at ∙ ap some ((==_iff cmd Command.wait_mem_true).0 e))
                                            ea ew refl))))
                                    (λ e. rw e (
                                      by_test (cmd == Command.write_mem)
                                        (λ e. rw e (
                                          word-Advances 1 _ (omega arith) (λ a ea.
                                            word-Advances 5 _ (omega arith) (λ w ew.
                                              finish_write-Advances (ptr + 9) _ before (omega arith)
                                                sound))))
                                        (λ e. rw e (
                                          by_test (cmd == Command.get_prog_id)
                                            (λ e. rw e (
                                              go_on-Advances (ptr + 1) _ (omega arith) (
                                                queue8-IsSound l 0 _ (
                                                  queue8-IsSound l rx_size _
                                                    (queue8-IsSound l 0x01 before sound)))))
                                            (λ e. rw e (
                                              fail_with-Advances Status.unknown_cmd _ (
                                                queue32-IsSound l 0xDEAD_BEEF before
                                                  sound)))))))))))))))))))))

  pub command-Advances : IsSound l before → Advances (command l stack decoded ptr before)
  unfolding command
  command-Advances sound =
      bind-Advances (get_elem? decoded ptr) _ (λ e. omega (arith, get_elem?-none decoded ptr e))
        (λ cmd at. dispatch-Advances cmd at sound)
