-- ===== src/Host/Script/Words.antt =====
-- Words that a script queues and words that it pops.
use swagger.Prelude.{
  ℕ, ◌/◌, ◌%◌, ◌^◌, ◌≡◌, refl, some, List, [], ◌∷◌, ◌++◌, arith, append_four, length,
}
use swagger.Word32.{join, byte_mask, le_bytes, join-le_bytes}
use swagger.Host.Packet.{SerialPort}
use swagger.Host.Script.{
  SquirrelVm, Session, push, queue_u_int8, pop_u_int8, queue_u_int32, pop_word, pop_u_int32,
}

-- The bytes of a word are those of its lowest 32 bits.
join-low_bytes :
    (w : ℕ) → join (w % 256) (w / 2 ^ 8 % 256) (w / 2 ^ 16 % 256) (w / 2 ^ 24 % 256) ≡ w % 2 ^ 32
join-low_bytes w =
    let e0 : w % 2 ^ 32 % 256 ≡ w % 256 = omega arith in
    let e1 : w % 2 ^ 32 / 2 ^ 8 % 256 ≡ w / 2 ^ 8 % 256 = omega arith in
    let e2 : w % 2 ^ 32 / 2 ^ 16 % 256 ≡ w / 2 ^ 16 % 256 = omega arith in
    let e3 : w % 2 ^ 32 / 2 ^ 24 % 256 ≡ w / 2 ^ 24 % 256 = omega arith in
    rw (e0, e1, e2, e3) at (join-le_bytes (w % 2 ^ 32) (omega arith))

module _ (m : SquirrelVm) (q : SerialPort) where
  pub queue_u_int8-byte :
      (s : Session m q) (b : ℕ)
      → m.get_top s.vm ≡ 2
      → m.get_integer s.vm ≡ some b
      → queue_u_int8 m q s ≡ (0, record s { cmd_queue = s.cmd_queue ++ (b % 256 ∷ []) })
  unfolding queue_u_int8
  queue_u_int8-byte s b args arg = rw (args, arg) refl

  pub queue_u_int32-bytes :
      (s : Session m q) (w : ℕ)
      → m.get_top s.vm ≡ 2
      → m.get_integer s.vm ≡ some w
      → queue_u_int32 m q s ≡ (0, record s { cmd_queue = s.cmd_queue ++ le_bytes w })
  unfolding queue_u_int32
  queue_u_int32-bytes s w args arg =
      rw (args, arg, byte_mask, byte_mask, byte_mask, byte_mask, append_four) refl

  pop_word-bytes : (w : ℕ) (rest : List ℕ) → pop_word m q (le_bytes w ++ rest) ≡ (w % 2 ^ 32, rest)
  unfolding pop_word
  pop_word-bytes w rest = rw (join-low_bytes w) refl

  pub pop_u_int8-byte :
      (s : Session m q) (b : ℕ) (rest : List ℕ)
      → s.result_queue ≡ b ∷ rest
      → pop_u_int8 m q s ≡ (1, push m q b (record s { result_queue = rest }))
  unfolding pop_u_int8
  pop_u_int8-byte s b rest e = rw e refl

  pub pop_u_int32-bytes :
      (s : Session m q) (w : ℕ) (rest : List ℕ)
      → s.result_queue ≡ le_bytes w ++ rest
      → pop_u_int32 m q s ≡ (1, push m q (w % 2 ^ 32) (record s { result_queue = rest }))
  unfolding pop_u_int32
  pop_u_int32-bytes s w rest e = rw (e, pop_word-bytes w rest) refl

  pub pop_u_int32-empty :
      (s : Session m q)
      → s.result_queue ≡ []
      → pop_u_int32 m q s ≡ (1, push m q 0 (record s { result_queue = [] }))
  unfolding pop_u_int32 pop_word
  pop_u_int32-empty s e = rw e refl

  pub pop_u_int32-pop_word :
      (s : Session m q) (results : List ℕ)
      → s.result_queue ≡ results
      → pop_u_int32 m q s ≡ (
        1,
        push m q (pop_word m q results).0 (record s { result_queue = (pop_word m q results).1 }),
      )
  unfolding pop_u_int32
  pop_u_int32-pop_word s results e = rw e refl

  -- queueUInt32 with an integer argument adds four bytes to the command queue and returns nothing;
  -- where these come back at the front of the result queue, popUInt32 returns the lowest 32 bits of
  -- the integer and removes just them.
  pub pop_u_int32-queue_u_int32 :
      (s t : Session m q) (w : ℕ) (rest : List ℕ)
      → m.get_top s.vm ≡ 2
      → m.get_integer s.vm ≡ some w
      → (bytes : List ℕ) × (length bytes ≡ 4)
        × (queue_u_int32 m q s ≡ (0, record s { cmd_queue = s.cmd_queue ++ bytes }))
        × (pop_u_int32 m q (record t { result_queue = bytes ++ rest })
            ≡ (1, push m q (w % 2 ^ 32) (record t { result_queue = rest })))
  unfolding pop_u_int32
  pop_u_int32-queue_u_int32 s t w rest args arg =
      (le_bytes w, refl, queue_u_int32-bytes s w args arg, rw (pop_word-bytes w rest) refl)
