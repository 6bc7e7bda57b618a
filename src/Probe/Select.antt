-- ===== src/Probe/Select.antt =====
-- The cached SELECT register: `m_APcache` against the register of the target.
use swagger.Prelude.{
  ℕ, zero, suc, ◌≡◌, ◌≢◌, refl, Bool, true, false, ◌⊎◌, inl, arith, ◌==◌, if◌then◌else◌,
}
use swagger.Prelude.Bits.{bit_and_step}
use swagger.Protocol.Status
use swagger.Swd.{swd_ok}
use swagger.Probe.{
  Link, Driver, Run, status, register, bank, max_retries, dp_select, dp_rdbuff, invalid_cache,
  retry, retry_write, retry_read, read_step, write_dp, read_dp, select_ap, write_ap, read_ap,
  wait_round, wait_loop, wait_for_memory, aim, read_memory, write_memory, wait_true_loop,
}

-- What a debug port does with its SELECT register: a write that is acknowledged sets it, one that
-- is not acknowledged does nothing, and no other transaction changes it. (ARM Debug Interface v5,
-- the register SELECT is 2 in bits 3 and 2 of its address, and only written.)
pub record SelectRegister (l : Link) : Type 0 where
  pub select : l.State → ℕ
  pub write_select :
      (word : ℕ) (s : l.State)
      → (l.write_transaction false 2 word s).0 ≡ swd_ok
      → select (l.write_transaction false 2 word s).1 ≡ word
  pub write_refused :
      (word : ℕ) (s : l.State)
      → (l.write_transaction false 2 word s).0 ≢ swd_ok
      → select (l.write_transaction false 2 word s).1 ≡ select s
  pub write_other :
      (APnDP : Bool) (A23 word : ℕ) (s : l.State)
      → (APnDP ≡ true) ⊎ (A23 ≢ 2)
      → select (l.write_transaction APnDP A23 word s).1 ≡ select s
  pub read_any :
      (APnDP : Bool) (A23 old : ℕ) (s : l.State)
      → select (l.read_transaction APnDP A23 old s).1 ≡ select s

-- The lowest bit of a bank is 0, so no bank is the mark of an invalid cache.
bank-ne-invalid : (address : ℕ) → bank address ≢ invalid_cache
unfolding bank
bank-ne-invalid address e = omega (arith, bit_and_step address 0xFF00_00F0, e)

module _ (l : Link) (port : SelectRegister l) where
  open port use {select, write_select, write_refused, write_other, read_any}

  pub retry_write-select_other :
      (n : ℕ) (APnDP : Bool) (A23 word : ℕ) (s : l.State)
      → (APnDP ≡ true) ⊎ (A23 ≢ 2)
      → select (retry n (l.write_transaction APnDP A23 word) s).1 ≡ select s
  unfolding retry
  retry_write-select_other zero APnDP A23 word s other = refl
  retry_write-select_other (suc n) APnDP A23 word s other =
      let s' = (l.write_transaction APnDP A23 word s).1 in
      ground (
        arith,
        write_other APnDP A23 word s other,
        retry_write-select_other n APnDP A23 word s' other,
      )

  retry_read-select :
      (n : ℕ) (APnDP : Bool) (A23 : ℕ) (x : ℕ × l.State)
      → select (retry n (read_step l APnDP A23) x).1.1 ≡ select x.1
  unfolding retry
  retry_read-select zero APnDP A23 x = refl
  retry_read-select (suc n) APnDP A23 (old, s) =
      let x' = (read_step l APnDP A23 (old, s)).1 in
      ground (arith, read_any APnDP A23 old s, retry_read-select n APnDP A23 x')

  -- A retried write of SELECT sets the register if it reports success, and else leaves it alone.
  retry_write-select :
      (n word : ℕ) (s : l.State)
      → let r = retry n (l.write_transaction false 2 word) s in
        select r.1 ≡ (if r.0 == Status.ok then word else select s)
  unfolding retry status
  retry_write-select zero word s = refl
  retry_write-select (suc n) word s =
      let s' = (l.write_transaction false 2 word s).1 in
      ground (arith, write_select word s, write_refused word s, retry_write-select n word s')

  -- The cache is invalid, or it is what the register holds.
  abbrev pub IsCoherent : Driver l → Type 0
  IsCoherent d = (d.ap_cache ≡ invalid_cache) ⊎ (select d.line ≡ d.ap_cache)

  register_select : register dp_select ≡ 2
  unfolding register
  register_select = refl

  pub write_dp-select :
      (word : ℕ) (d : Driver l)
      → let r = write_dp l dp_select word d in
        (select r.1.line ≡ (if r.0 == Status.ok then word else select d.line))
        × (r.1.ap_cache ≡ d.ap_cache)
  unfolding write_dp retry_write
  write_dp-select word d = rw register_select (retry_write-select max_retries word d.line, refl)

  select_ap_lem :
      (address : ℕ) (d : Driver l)
      → IsCoherent d
      → let r = select_ap l address d in
        IsCoherent r.1 × (((r.0 == Status.ok) ≡ false) ⊎ (select r.1.line ≡ bank address))
  unfolding select_ap
  select_ap_lem address d coherent =
      ground (arith, write_dp-select (bank address) d, bank-ne-invalid address)

  -- An access port is never used with a wrong bank: where `selectAP` reports success, the SELECT
  -- register of the target holds the bank of the address, given a coherent cache before.
  pub select_ap-select :
      (address : ℕ) (d : Driver l)
      → IsCoherent d
      → (select_ap l address d).0 ≡ Status.ok
      → select (select_ap l address d).1.line ≡ bank address
  select_ap-select address d coherent ok = ground (arith, select_ap_lem address d coherent)

  pub write_ap-IsCoherent :
      (address word : ℕ) (d : Driver l) → IsCoherent d → IsCoherent (write_ap l address word d).1
  unfolding write_ap retry_write
  write_ap-IsCoherent address word d coherent =
      let d' = (select_ap l address d).1 in
      ground (
        arith,
        select_ap_lem address d coherent,
        retry_write-select_other max_retries true (register address) word d'.line (inl refl),
      )

  retry_read-IsCoherent :
      (APnDP : Bool) (A23 old : ℕ) (d : Driver l)
      → IsCoherent d
      → IsCoherent (record d { line = (retry_read l APnDP A23 old d.line).1 })
  unfolding retry_read
  retry_read-IsCoherent APnDP A23 old d coherent =
      rw (retry_read-select max_retries APnDP A23 (old, d.line)) coherent

  pub read_dp-IsCoherent :
      (address old : ℕ) (d : Driver l) → IsCoherent d → IsCoherent (read_dp l address old d).1
  unfolding read_dp
  read_dp-IsCoherent address old d = retry_read-IsCoherent false (register address) old d

  pub read_ap-IsCoherent :
      (address old : ℕ) (d : Driver l) → IsCoherent d → IsCoherent (read_ap l address old d).1
  unfolding read_ap
  read_ap-IsCoherent address old d coherent =
      let d' = (select_ap l address d).1 in
      let r = retry_read l true (register address) old d'.line in
      let chosen = (select_ap_lem address d coherent).0 in
      let used = retry_read-IsCoherent true (register address) old d' chosen in
      ground
        (arith, chosen, used, read_dp-IsCoherent dp_rdbuff r.0.1 (record d' { line = r.1 }) used)

  wait_round-IsCoherent :
      (next : ℕ → Run l ℕ) (old : ℕ) (d : Driver l)
      → ((o : ℕ) (e : Driver l) → IsCoherent e → IsCoherent (next o e).1)
      → IsCoherent d
      → IsCoherent (wait_round l next old d).1
  unfolding wait_round
  wait_round-IsCoherent next old d keeps coherent =
      let r = read_ap l 0 old d in
      let read = read_ap-IsCoherent 0 old d coherent in ground (arith, read, keeps r.0.1 r.1 read)

  wait_loop-IsCoherent :
      (left old : ℕ) (d : Driver l) → IsCoherent d → IsCoherent (wait_loop l left old d).1
  unfolding wait_loop
  wait_loop-IsCoherent zero old d = wait_round-IsCoherent _ old d (λ o e h. h)
  wait_loop-IsCoherent (suc left) old d =
      wait_round-IsCoherent (wait_loop l left) old d (wait_loop-IsCoherent left)

  aim-IsCoherent : (address : ℕ) (d : Driver l) → IsCoherent d → IsCoherent (aim l address d).1
  unfolding aim wait_for_memory
  aim-IsCoherent address d coherent =
      let d1 = (write_ap l 0 0x2200_0012 d).1 in
      let d2 = (wait_loop l 10 0 d1).1 in
      let h1 = write_ap-IsCoherent 0 0x2200_0012 d coherent in
      let h2 = wait_loop-IsCoherent 10 0 d1 h1 in
      ground (arith, h1, h2, write_ap-IsCoherent 4 address d2 h2)

  pub read_memory-IsCoherent :
      (address old : ℕ) (d : Driver l) → IsCoherent d → IsCoherent (read_memory l address old d).1
  unfolding read_memory
  read_memory-IsCoherent address old d coherent =
      let h = aim-IsCoherent address d coherent in
      ground (arith, h, read_ap-IsCoherent 0x0C old (aim l address d).1 h)

  pub write_memory-IsCoherent :
      (address word : ℕ) (d : Driver l)
      → IsCoherent d
      → IsCoherent (write_memory l address word d).1
  unfolding write_memory
  write_memory-IsCoherent address word d coherent =
      let h = aim-IsCoherent address d coherent in
      ground (arith, h, write_ap-IsCoherent 0x0C word (aim l address d).1 h)

  pub wait_true_loop-IsCoherent :
      (left address word mask old : ℕ) (d : Driver l)
      → IsCoherent d
      → IsCoherent (wait_true_loop l left address word mask old d).1
  unfolding wait_true_loop
  wait_true_loop-IsCoherent zero address word mask old d coherent = coherent
  wait_true_loop-IsCoherent (suc left) address word mask old d coherent =
      let r = read_memory l address old d in
      let h = read_memory-IsCoherent address old d coherent in
      ground (arith, h, wait_true_loop-IsCoherent left address word mask r.0.1 r.1 h)
