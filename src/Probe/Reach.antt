-- ===== src/Probe/Reach.antt =====
-- Any sequence of calls of the public methods of `ArduinoSWDInterface`.
use swagger.Prelude.{ℕ, false, ◌≡◌, ◌≢◌, refl, inl, inr, arith}
use swagger.Protocol.Status
use swagger.Probe.{
  Link, Driver, register, bank, dp_select, invalid_cache, write_dp, read_dp, select_ap, write_ap,
  read_ap, try_connect, read_memory, write_memory, wait_memory_true, retry_write,
}
use swagger.Probe.Select.{
  SelectRegister, IsCoherent, write_dp-select, write_ap-IsCoherent, read_dp-IsCoherent,
  read_ap-IsCoherent, read_memory-IsCoherent, write_memory-IsCoherent, wait_true_loop-IsCoherent,
  retry_write-select_other,
}

-- A call of a public method, with `writeDP` at any register but SELECT.
pub data Call (l : Link) : Driver l → Driver l → Type 0 where
  connects : (d : Driver l) → Call l d (try_connect l d).1
  reads_dp : (address old : ℕ) (d : Driver l) → Call l d (read_dp l address old d).1
  writes_dp :
      (address word : ℕ) (d : Driver l)
      → register address ≢ 2
      → Call l d (write_dp l address word d).1
  reads_ap : (address old : ℕ) (d : Driver l) → Call l d (read_ap l address old d).1
  writes_ap : (address word : ℕ) (d : Driver l) → Call l d (write_ap l address word d).1
  reads_memory : (address old : ℕ) (d : Driver l) → Call l d (read_memory l address old d).1
  writes_memory : (address word : ℕ) (d : Driver l) → Call l d (write_memory l address word d).1
  waits :
      (address word mask : ℕ) (d : Driver l) → Call l d (wait_memory_true l address word mask d).1

-- From a new object, whose cache is invalid.
pub data Reached (l : Link) : Driver l → Type 0 where
  created : (d : Driver l) → d.ap_cache ≡ invalid_cache → Reached l d
  called : {d d' : Driver l} → Reached l d → Call l d d' → Reached l d'

module _ (l : Link) (port : SelectRegister l) where
  write_dp-IsCoherent :
      (address word : ℕ) (d : Driver l)
      → register address ≢ 2
      → IsCoherent l port d
      → IsCoherent l port (write_dp l address word d).1
  unfolding write_dp retry_write
  write_dp-IsCoherent address word d other coherent =
      rw (retry_write-select_other l port 10 false (register address) word d.line (inr other))
        coherent

  Call-IsCoherent : {d d' : Driver l} → Call l d d' → IsCoherent l port d → IsCoherent l port d'
  unfolding try_connect wait_memory_true
  Call-IsCoherent (connects d) h = inl refl
  Call-IsCoherent (reads_dp address old d) h = read_dp-IsCoherent l port address old d h
  Call-IsCoherent (writes_dp address word d other) h = write_dp-IsCoherent address word d other h
  Call-IsCoherent (reads_ap address old d) h = read_ap-IsCoherent l port address old d h
  Call-IsCoherent (writes_ap address word d) h = write_ap-IsCoherent l port address word d h
  Call-IsCoherent (reads_memory address old d) h = read_memory-IsCoherent l port address old d h
  Call-IsCoherent (writes_memory address word d) h = write_memory-IsCoherent l port address word d h
  Call-IsCoherent (waits address word mask d) h =
      wait_true_loop-IsCoherent l port 10 address word mask 0 d h

  -- After any sequence of calls on a new object, none of which is a `writeDP` of SELECT, the cache
  -- is invalid or holds what the target's SELECT register holds.
  pub Reached-IsCoherent : {d : Driver l} → Reached l d → IsCoherent l port d
  Reached-IsCoherent (created d invalid) = inl invalid
  Reached-IsCoherent (called r c) = Call-IsCoherent c (Reached-IsCoherent r)

  -- `writeDP` of SELECT leaves the cache as it was. Where the cache holds the bank of an address
  -- and another word is written, the next `selectAP` of the address reports success, does nothing,
  -- and leaves the target with the wrong bank.
  pub write_dp_stale :
      (address word : ℕ) (d : Driver l)
      → d.ap_cache ≡ bank address
      → (write_dp l dp_select word d).0 ≡ Status.ok
      → word ≢ bank address
      → let d' = (write_dp l dp_select word d).1 in
        (select_ap l address d' ≡ (Status.ok, d')) × (port.select d'.line ≢ bank address)
  unfolding select_ap
  write_dp_stale address word d cached ok other =
      let (held, same) = write_dp-select l port word d in
      (ground (arith, same), ground (arith, held))
