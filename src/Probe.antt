-- ===== src/Probe.antt =====
-- `firmware/arduino_nano/swdinterface/mid_level.cpp`, class `ArduinoSWDInterface`: transactions that
-- are tried again while the target answers `SWD_WAIT`, access ports behind a cached SELECT
-- register, and memory behind an access port.
pub mod Retry
pub mod Select
pub mod Reach
pub mod Budget
pub mod Waiting
use Prim.Native.Nat.{bit_and}
use swagger.Prelude.{ℕ, zero, suc, ◌/◌, ◌^◌, Bool, true, false, ◌==◌, if◌then◌else◌}
use swagger.Protocol.Status
use swagger.Swd.{Wire, swd_ok, swd_wait, do_read_transaction, do_write_transaction, do_connect}

-- What the class takes from `SWDInterfaceBase`. A read is given the caller's `data` and returns it
-- behind the code.
pub record Link : Type 1 where
  pub State : Type 0
  pub write_transaction : (APnDP : Bool) (A23 word : ℕ) → State → ℕ × State
  pub read_transaction : (APnDP : Bool) (A23 old : ℕ) → State → (ℕ × ℕ) × State
  pub connect : State → (ℕ × ℕ) × State

-- The driver of the two wires is such a link.
abbrev pub swd_link : (Wire → Bool) → Link
swd_link target = record {
  State = Wire;
  write_transaction = do_write_transaction target;
  read_transaction = do_read_transaction target;
  connect = do_connect target;
}

abbrev pub max_retries : ℕ
max_retries = 10

abbrev pub dp_select : ℕ
dp_select = 0x08

abbrev pub dp_rdbuff : ℕ
dp_rdbuff = 0x0C

abbrev pub ahb_ap_csw : ℕ
ahb_ap_csw = 0x00

abbrev pub ahb_ap_tar : ℕ
ahb_ap_tar = 0x04

abbrev pub ahb_ap_data : ℕ
ahb_ap_data = 0x0C

abbrev pub invalid_cache : ℕ
invalid_cache = 0xFFFF_FFFF

-- `(address >> 2) & 0x03`
unfoldable pub register : ℕ → ℕ
register address = bit_and (address / 2 ^ 2) 0x03

-- `address & 0xFF0000F0`
unfoldable pub bank : ℕ → ℕ
bank address = bit_and address 0xFF00_00F0

-- `SWD_OK` is `RXCMD_STATUS_OK`; any other code that ends a loop is `RXCMD_STATUS_SWDFAULT`.
unfoldable pub status : ℕ → ℕ
status code = if code == swd_ok then Status.ok else Status.swd_fault

-- `while ((retval = transaction()) == SWD_WAIT)`, with the tries that `retries` leaves.
unfoldable pub retry : {X : Type 0} → ℕ → (X → ℕ × X) → X → ℕ × X
retry zero transaction x = (Status.timeout, x)
retry (suc left) transaction x =
    let r = transaction x in
    let again = retry left transaction r.1 in if r.0 == swd_wait then again else (status r.0, r.1)

module _ (l : Link) where
  -- `m_APcache`, with the state of the base class.
  pub record Driver : Type 0 where
    pub line : l.State
    pub ap_cache : ℕ

  abbrev pub Run : Type 0 → Type 0
  Run A = Driver → A × Driver

  unfoldable pub retry_write : (APnDP : Bool) (A23 word : ℕ) → l.State → ℕ × l.State
  retry_write APnDP A23 word = retry max_retries (l.write_transaction APnDP A23 word)

  -- A read updates the caller's `data` on every try.
  abbrev pub read_step : (APnDP : Bool) (A23 : ℕ) → ℕ × l.State → ℕ × (ℕ × l.State)
  read_step APnDP A23 (old, s) =
      let ((code, word), s') = l.read_transaction APnDP A23 old s in (code, (word, s'))

  unfoldable pub retry_read : (APnDP : Bool) (A23 old : ℕ) → l.State → (ℕ × ℕ) × l.State
  retry_read APnDP A23 old s =
      let r = retry max_retries (read_step APnDP A23) (old, s) in ((r.0, r.1.0), r.1.1)

  -- Returns the status and `idcode`.
  unfoldable pub try_connect : Run (ℕ × ℕ)
  try_connect d =
      let r = l.connect d.line in
      (
        (if r.0.0 == swd_ok then Status.ok else Status.swd_fault, r.0.1),
        record { line = r.1; ap_cache = invalid_cache },
      )

  unfoldable pub write_dp : (address word : ℕ) → Run ℕ
  write_dp address word d =
      let r = retry_write false (register address) word d.line in (r.0, record d { line = r.1 })

  unfoldable pub read_dp : (address old : ℕ) → Run (ℕ × ℕ)
  read_dp address old d =
      let r = retry_read false (register address) old d.line in (r.0, record d { line = r.1 })

  unfoldable pub select_ap : (address : ℕ) → Run ℕ
  select_ap address d =
      if bank address == d.ap_cache
      then (Status.ok, d)
      else let (retval, d') = write_dp dp_select (bank address) d in
        (retval, if retval == Status.ok then record d' { ap_cache = bank address } else d')

  unfoldable pub write_ap : (address word : ℕ) → Run ℕ
  write_ap address word d =
      let (retval, d') = select_ap address d in
      let r = retry_write true (register address) word d'.line in
      if retval == Status.ok then (r.0, record d' { line = r.1 }) else (retval, d')

  unfoldable pub read_ap : (address old : ℕ) → Run (ℕ × ℕ)
  read_ap address old d =
      let (retval, d') = select_ap address d in
      let r = retry_read true (register address) old d'.line in
      let d'' = record d' { line = r.1 } in
      if retval == Status.ok
      then (if r.0.0 == Status.ok then read_dp dp_rdbuff r.0.1 d'' else (r.0, d''))
      else ((retval, old), d')

  -- A round of the loop; `next` is what follows when the memory is busy.
  unfoldable pub wait_round : (ℕ → Run ℕ) → ℕ → Run ℕ
  wait_round next old d =
      let r = read_ap ahb_ap_csw old d in
      if r.0.0 == Status.ok
      then (if bit_and r.0.1 0x80 == 0 then (Status.ok, r.1) else next r.0.1 r.1)
      else (r.0.0, r.1)

  -- With the number of rounds left after this one; `old` is the local variable `data`.
  unfoldable pub wait_loop : ℕ → ℕ → Run ℕ
  wait_loop zero = wait_round (λ old d. (Status.timeout, d))
  wait_loop (suc left) = wait_round (wait_loop left)

  unfoldable pub wait_for_memory : Run ℕ
  wait_for_memory = wait_loop max_retries 0

  -- The steps that `readMemory` and `writeMemory` share: CSW, wait, TAR.
  unfoldable pub aim : (address : ℕ) → Run ℕ
  aim address d =
      let r = write_ap ahb_ap_csw 0x2200_0012 d in
      if r.0 == Status.ok
      then (let s = wait_for_memory r.1 in
          if s.0 == Status.ok then write_ap ahb_ap_tar address s.1 else s)
      else r

  unfoldable pub read_memory : (address old : ℕ) → Run (ℕ × ℕ)
  read_memory address old d =
      let r = aim address d in
      if r.0 == Status.ok then read_ap ahb_ap_data old r.1 else ((r.0, old), r.1)

  unfoldable pub write_memory : (address word : ℕ) → Run ℕ
  write_memory address word d =
      let r = aim address d in if r.0 == Status.ok then write_ap ahb_ap_data word r.1 else r

  -- `do … while ((memData & mask) != data)`, with the rounds that `retries` leaves.
  pub wait_true_loop : ℕ → (address word mask old : ℕ) → Run ℕ
  wait_true_loop zero address word mask old d = (Status.timeout, d)
  wait_true_loop (suc left) address word mask old d =
      let r = read_memory address old d in
      let again = wait_true_loop left address word mask r.0.1 r.1 in
      if r.0.0 == Status.ok
      then (if left == 0
          then (Status.timeout, r.1)
          else if bit_and r.0.1 mask == word
          then (Status.ok, r.1)
          else again)
      else (r.0.0, r.1)

  pub wait_memory_true : (address word mask : ℕ) → Run ℕ
  wait_memory_true address word mask = wait_true_loop max_retries address word mask 0
