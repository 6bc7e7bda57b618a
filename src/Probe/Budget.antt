-- ===== src/Probe/Budget.antt =====
-- How many SWD transactions a method of `ArduinoSWDInterface` makes at most, whatever the target
-- answers: none of its loops can hang.
use swagger.Prelude.{ℕ, zero, suc, ◌+◌, ◌*◌, ◌≤◌, Bool, true, false, arith}
use swagger.Probe.{
  Link, Driver, register, retry, retry_write, retry_read, read_step, write_dp, read_dp, select_ap,
  write_ap, read_ap, wait_round, wait_loop, wait_for_memory, aim, read_memory, write_memory,
  wait_true_loop, wait_memory_true, bank,
}

-- A link that counts its transactions.
abbrev pub metered : Link → Link
metered l = record {
  State = l.State × ℕ;
  write_transaction = λ APnDP A23 word (s, n).
      let (code, s') = l.write_transaction APnDP A23 word s in (code, (s', n + 1));
  read_transaction = λ APnDP A23 old (s, n).
      let (result, s') = l.read_transaction APnDP A23 old s in (result, (s', n + 1));
  connect = λ (s, n). let (result, s') = l.connect s in (result, (s', n + 1));
}

module _ (l : Link) where
  -- The transactions so far.
  abbrev pub spent : Driver (metered l) → ℕ
  spent d = d.line.1

  retry_write_budget :
      (n : ℕ) (APnDP : Bool) (A23 word : ℕ) (s : l.State × ℕ)
      → (retry n ((metered l).write_transaction APnDP A23 word) s).1.1 ≤ s.1 + n
  unfolding retry
  retry_write_budget zero APnDP A23 word s = omega arith
  retry_write_budget (suc n) APnDP A23 word (s, k) =
      let s' = (l.write_transaction APnDP A23 word s).1 in
      ground (arith, retry_write_budget n APnDP A23 word (s', k + 1))

  retry_read_budget :
      (n : ℕ) (APnDP : Bool) (A23 : ℕ) (x : ℕ × (l.State × ℕ))
      → (retry n (read_step (metered l) APnDP A23) x).1.1.1 ≤ x.1.1 + n
  unfolding retry
  retry_read_budget zero APnDP A23 x = omega arith
  retry_read_budget (suc n) APnDP A23 (old, (s, k)) =
      let r = l.read_transaction APnDP A23 old s in
      ground (arith, retry_read_budget n APnDP A23 (r.0.1, (r.1, k + 1)))

  -- The budget of one call of either loop.
  retry_write-le :
      (APnDP : Bool) (A23 word : ℕ) (s : l.State × ℕ)
      → (retry_write (metered l) APnDP A23 word s).1.1 ≤ s.1 + 10
  unfolding retry_write
  retry_write-le = retry_write_budget 10

  retry_read-le :
      (APnDP : Bool) (A23 old : ℕ) (s : l.State × ℕ)
      → (retry_read (metered l) APnDP A23 old s).1.1 ≤ s.1 + 10
  unfolding retry_read
  retry_read-le APnDP A23 old s = retry_read_budget 10 APnDP A23 (old, s)

  write_dp-le :
      (address word : ℕ) (d : Driver (metered l))
      → spent (write_dp (metered l) address word d).1 ≤ spent d + 10
  unfolding write_dp
  write_dp-le address word d = retry_write-le false (register address) word d.line

  read_dp-le :
      (address old : ℕ) (d : Driver (metered l))
      → spent (read_dp (metered l) address old d).1 ≤ spent d + 10
  unfolding read_dp
  read_dp-le address old d = retry_read-le false (register address) old d.line

  select_ap-le :
      (address : ℕ) (d : Driver (metered l))
      → spent (select_ap (metered l) address d).1 ≤ spent d + 10
  unfolding select_ap
  select_ap-le address d = ground (arith, write_dp-le 8 (bank address) d)

  write_ap-le :
      (address word : ℕ) (d : Driver (metered l))
      → spent (write_ap (metered l) address word d).1 ≤ spent d + 20
  unfolding write_ap
  write_ap-le address word d =
      let d' = (select_ap (metered l) address d).1 in
      ground (arith, select_ap-le address d, retry_write-le true (register address) word d'.line)

  read_ap-le :
      (address old : ℕ) (d : Driver (metered l))
      → spent (read_ap (metered l) address old d).1 ≤ spent d + 30
  unfolding read_ap
  read_ap-le address old d =
      let d' = (select_ap (metered l) address d).1 in
      let r = retry_read (metered l) true (register address) old d'.line in
      ground (
        arith,
        select_ap-le address d,
        retry_read-le true (register address) old d'.line,
        read_dp-le 0x0C r.0.1 (record d' { line = r.1 }),
      )

  wait_loop-le :
      (left old : ℕ) (d : Driver (metered l))
      → spent (wait_loop (metered l) left old d).1 ≤ spent d + 30 + 30 * left
  unfolding wait_loop wait_round
  wait_loop-le zero old d = ground (arith, read_ap-le 0 old d)
  wait_loop-le (suc left) old d =
      let r = read_ap (metered l) 0 old d in
      ground (arith, read_ap-le 0 old d, wait_loop-le left r.0.1 r.1)

  aim-le :
      (address : ℕ) (d : Driver (metered l)) → spent (aim (metered l) address d).1 ≤ spent d + 370
  unfolding aim wait_for_memory
  aim-le address d =
      let d1 = (write_ap (metered l) 0 0x2200_0012 d).1 in
      let d2 = (wait_loop (metered l) 10 0 d1).1 in
      ground (arith, write_ap-le 0 0x2200_0012 d, wait_loop-le 10 0 d1, write_ap-le 4 address d2)

  -- `readMemory` makes at most 400 transactions.
  pub read_memory-le :
      (address old : ℕ) (d : Driver (metered l))
      → spent (read_memory (metered l) address old d).1 ≤ spent d + 400
  unfolding read_memory
  read_memory-le address old d =
      let d' = (aim (metered l) address d).1 in
      ground (arith, aim-le address d, read_ap-le 0x0C old d')

  -- `writeMemory` makes at most 390 transactions.
  pub write_memory-le :
      (address word : ℕ) (d : Driver (metered l))
      → spent (write_memory (metered l) address word d).1 ≤ spent d + 390
  unfolding write_memory
  write_memory-le address word d =
      let d' = (aim (metered l) address d).1 in
      ground (arith, aim-le address d, write_ap-le 0x0C word d')

  wait_true_loop-le :
      (left address word mask old : ℕ) (d : Driver (metered l))
      → spent (wait_true_loop (metered l) left address word mask old d).1 ≤ spent d + 400 * left
  unfolding wait_true_loop
  wait_true_loop-le zero address word mask old d = omega arith
  wait_true_loop-le (suc left) address word mask old d =
      let r = read_memory (metered l) address old d in
      ground
        (arith, read_memory-le address old d, wait_true_loop-le left address word mask r.0.1 r.1)

  -- `waitMemoryTrue` makes at most 4000 transactions.
  pub wait_memory_true-le :
      (address word mask : ℕ) (d : Driver (metered l))
      → spent (wait_memory_true (metered l) address word mask d).1 ≤ spent d + 4000
  unfolding wait_memory_true
  wait_memory_true-le address word mask d = wait_true_loop-le 10 address word mask 0 d

  -- No method of `ArduinoSWDInterface` but `tryConnect`, which makes one, makes more transactions
  -- than this, whatever the target answers: 10 for a debug port register, 20 and 30 for writing and
  -- reading an access port, 400 and 390 for reading and writing memory, and 4000 for a wait.
  pub method_budget :
      (address word mask old : ℕ) (d : Driver (metered l))
      → (spent (read_dp (metered l) address old d).1 ≤ spent d + 10)
        × (spent (write_dp (metered l) address word d).1 ≤ spent d + 10)
        × (spent (write_ap (metered l) address word d).1 ≤ spent d + 20)
        × (spent (read_ap (metered l) address old d).1 ≤ spent d + 30)
        × (spent (read_memory (metered l) address old d).1 ≤ spent d + 400)
        × (spent (write_memory (metered l) address word d).1 ≤ spent d + 390)
        × (spent (wait_memory_true (metered l) address word mask d).1 ≤ spent d + 4000)
  method_budget address word mask old d = (
    read_dp-le address old d,
    write_dp-le address word d,
    write_ap-le address word d,
    read_ap-le address old d,
    read_memory-le address old d,
    write_memory-le address word d,
    wait_memory_true-le address word mask d,
  )
