-- ===== src/Host/Packet.antt =====
-- `src/hardwareinterface.cpp`: packets over a serial port. `QSerialPort` is a parameter.
pub mod RoundTrip
pub mod Write
pub mod Keeping
pub mod Closed
pub mod Opening
use swagger.Prelude.{ℕ, zero, suc, Bool, true, false, Option, none, some, List, [], ◌∷◌, ◌++◌}
use swagger.Prelude.{◌==◌, ◌||◌, if◌then◌else◌, length, init}
use swagger.Cobs.{encode, decode}
use swagger.Firmware.Stuff.{◌>>=◌}

-- The line settings that the constructor makes.
pub data PortSetting : Type 0 where
  baud_rate : ℕ → PortSetting
  port_name : List ℕ → PortSetting
  data_bits_8 : PortSetting
  no_parity : PortSetting
  one_stop : PortSetting
  no_flow_control : PortSetting

-- `QSerialPort` as far as it is used. `write` is `none` where Qt returns -1, and `read` of a byte
-- is `none` where it reads none.
pub record SerialPort : Type 1 where
  pub Port : Type 0
  pub set_up : PortSetting → Port → Port
  pub open_port : Port → Bool × Port
  pub close_port : Port → Port
  pub is_open : Port → Bool
  pub write : List ℕ → Port → Option ℕ × Port
  pub wait_for_bytes_written : (msecs : ℕ) → Port → Bool × Port
  pub bytes_available : Port → ℕ
  pub wait_for_ready_read : (msecs : ℕ) → Port → Bool × Port
  pub read : Port → Option ℕ × Port

-- The texts of `m_lastError`, by what they say.
pub data LastError : Type 0 where
  empty : LastError
  port_not_open : LastError
  unexpected_fragmentation : LastError
  timed_out_on_write : LastError
  timed_out_on_read : LastError
  error_cobs_encoding : LastError
  error_removing_zero : LastError

-- A call of `printf` and `printPacket`.
pub data Printed : Type 0 where
  tx : List ℕ → Printed
  tx_cobs : List ℕ → Printed
  rx_cobs : List ℕ → Printed
  rx_decoded : List ℕ → Printed

-- What the constructor throws, or `open` catches.
pub data OpenError : Type 0 where
  unsupported_baud_rate : OpenError
  port_error : OpenError

-- The cases of the switch on the baud rate.
pub is_supported : ℕ → Bool
is_supported baudrate =
    (baudrate == 1200)
    || (baudrate == 2400)
    || (baudrate == 9600)
    || (baudrate == 19200)
    || (baudrate == 57600)
    || (baudrate == 115200)

-- `m_port.write(…) != cobsbuffer.size()`, negated. (-1 is converted to the largest `size_t`.)
unfoldable pub is_whole : (cobsbuffer : List ℕ) → Option ℕ → Bool
is_whole cobsbuffer none = false
is_whole cobsbuffer (some n) = n == length cobsbuffer

module _ (q : SerialPort) where
  -- The members; `printed` is the output, newest first.
  pub record HardwareInterface : Type 0 where
    pub debug : Bool
    pub timeout : ℕ
    pub port : q.Port
    pub last_error : LastError
    pub printed : List Printed

  unfoldable pub print_packet : Printed → HardwareInterface → HardwareInterface
  print_packet p h = if h.debug then record h { printed = p ∷ h.printed } else h

  -- `open`, with the constructor: the new object, or why there is none. `fresh` is the `QSerialPort`
  -- that is constructed.
  pub data Opened : Type 0 where
    opened : HardwareInterface → Opened
    failed : OpenError → Opened

  pub open_interface : (fresh : q.Port) (comport : List ℕ) (baudrate : ℕ) → Opened
  open_interface fresh comport baudrate =
      if is_supported baudrate
      then (let set = q.set_up no_flow_control (
            q.set_up one_stop (
              q.set_up no_parity (
                q.set_up data_bits_8
                  (q.set_up (port_name comport) (q.set_up (baud_rate baudrate) fresh))))) in
          let (ok, port) = q.open_port set in
          if ok
          then opened (record {
            debug = false;
            timeout = 1000;
            port = port;
            last_error = empty;
            printed = [];
          })
          else failed port_error)
      else failed unsupported_baud_rate

  pub close : HardwareInterface → HardwareInterface
  close h = if q.is_open h.port then record h { port = q.close_port h.port } else h

  pub fail : LastError → HardwareInterface → Bool × HardwareInterface
  fail e h = (false, record h { last_error = e })

  -- The write of the encoded packet.
  unfoldable pub write_encoded : List ℕ → HardwareInterface → Bool × HardwareInterface
  write_encoded cobsbuffer h =
      let (written, port) = q.write cobsbuffer h.port in
      let h' = record h { port = port } in
      let (flushed, port') = q.wait_for_bytes_written h.timeout port in
      if is_whole cobsbuffer written
      then (let h'' = record h { port = port' } in
          if flushed then (true, h'') else fail timed_out_on_write h'')
      else fail unexpected_fragmentation h'

  unfoldable pub write_packet : (data' : List ℕ) → HardwareInterface → Bool × HardwareInterface
  write_packet data' h =
      if q.is_open h.port
      then (let (ok, cobsbuffer) = encode data' in
          let h' = print_packet (tx data') h in
          if ok
          then write_encoded cobsbuffer (print_packet (tx_cobs cobsbuffer) h')
          else fail error_cobs_encoding h')
      else fail port_not_open h

  -- How the loop of `readPacket` ends: with the bytes up to a zero, or on a time-out; or the fuel
  -- runs out, as the line may never send a zero.
  pub data Received : Type 0 where
    up_to_zero : List ℕ → q.Port → Received
    timed_out : q.Port → Received
    out_of_fuel : Received

  -- Waits for a byte; `none` on a time-out. `c` is what the variable holds, which a read without a
  -- byte leaves alone.
  pub next_byte : (timeout c : ℕ) → q.Port → Option ℕ × q.Port
  next_byte timeout c port =
      let (ready, waited) =
        if q.bytes_available port == 0 then q.wait_for_ready_read timeout port else (true, port) in
      if ready
      then (let (byte, port') = q.read waited in
          (some (elim byte [ none ↦ c | some b ↦ b ]), port'))
      else (none, waited)

  -- A round of the loop, after the wait; `next` is the loop from there.
  pub receive_round :
      (next : (c : ℕ) (rxbuffer : List ℕ) → q.Port → Received) (rxbuffer : List ℕ)
      → Option ℕ × q.Port
      → Received
  receive_round next rxbuffer (none, port) = timed_out port
  receive_round next rxbuffer (some c, port) =
      let rxbuffer' = rxbuffer ++ (c ∷ []) in
      if c == 0 then up_to_zero rxbuffer' port else next c rxbuffer' port

  pub receive_loop : (fuel timeout c : ℕ) (rxbuffer : List ℕ) → q.Port → Received
  receive_loop zero timeout c rxbuffer port = out_of_fuel
  receive_loop (suc fuel) timeout c rxbuffer port =
      receive_round (receive_loop fuel timeout) rxbuffer (next_byte timeout c port)

  -- The decoding of the packet: the result, `data` and the object.
  pub decode_packet : List ℕ → HardwareInterface → Option (Bool × (List ℕ × HardwareInterface))
  decode_packet rxbuffer h = do
    (ok, data') ← decode rxbuffer
    some (
        if ok
        then (if length data' == 0
            then (false, (data', record h { last_error = error_removing_zero }))
            else (true, (init data', print_packet (rx_decoded data') h)))
        else (false, (data', record h { last_error = error_cobs_encoding })))

  -- `none` is the loop that is out of fuel. `c` is uninitialised in the source.
  pub read_packet :
      (fuel c : ℕ) (data' : List ℕ)
      → HardwareInterface
      → Option (Bool × (List ℕ × HardwareInterface))
  read_packet fuel c data' h =
      if q.is_open h.port
      then (elim (receive_loop fuel h.timeout c [] h.port) [
        | out_of_fuel ↦ none
        | timed_out port ↦
            some (false, (data', record h { port = port; last_error = timed_out_on_read }))
        | up_to_zero rxbuffer port ↦
            decode_packet (init rxbuffer)
              (print_packet (rx_cobs rxbuffer) (record h { port = port }))
      ])
      else some (false, (data', record h { last_error = port_not_open }))
