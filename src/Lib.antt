-- ===== src/Lib.antt =====
-- Swagger flashes ARM microcontrollers over single-wire debug (SWD). A host program runs scripts
-- that queue commands; it sends them in COBS packets over a serial line to a programmer, whose
-- firmware runs them by SWD transactions and replies with a packet.
--
-- Prelude: shared names; Prelude/Bits has C's bit operations as arithmetic, Word32 the four
-- bytes of a word.
-- Cobs: src/cobs.cpp. `encode` and `decode` are COBS::encode and COBS::decode; a std::vector is
-- a list of bytes. The loop of `decode` takes a round for each byte of the input at most, which
-- is its fuel.
-- Protocol: include/protocol.h.
-- Swd: firmware/arduino_nano/swdinterface/low_level.cpp. The virtual pin functions are entries
-- of a trace (`PinCall`); the target is any function from the trace so far to the level that
-- getDataPin reads. Swd/View says what the target sees of a trace and what it answers, Swd/Ack
-- which of its answers are the ACK.
-- Probe: firmware/arduino_nano/swdinterface/mid_level.cpp, over an interface for the
-- transactions (`Link`), which Swd fills (`swd_link`). A retry loop recurs on the tries that are
-- left.
-- Arduino: the calls of the Arduino library as data, and the pin functions of mid_level.cpp.
-- Firmware: firmware/arduino_nano/swdinterface/swdinterface.ino. Firmware/Stuff has COBS over
-- arrays, where a write past the end is `none`; Firmware/Reply the reply queue and sendReply;
-- Firmware/Loop the receive buffer and the command interpreter, whose loop has fuel; 64 rounds
-- are enough for a packet where no polling times out (Firmware/Loop/TimeOut). The commands of
-- doc/protocol.md as data, the description that the loop is compared with, are in
-- Firmware/Loop/Requests. The contents of uninitialised arrays on the stack are arguments
-- (`Stack`).
-- Host: src/hardwareinterface.cpp (Host/Packet), src/squirrel_funcs.cpp (Host/Script) and the
-- console of src/main.cpp (Host/Console, whose buffer is a list, with fuel for each line) and
-- its main from the parsed options on (Host/Start). QSerialPort and the virtual machine are
-- parameters (`SerialPort`, `SquirrelVm`, `Interpreter`). readPacket waits for a zero byte
-- without a bound, so its loop has fuel; the length of the packet is enough.
-- System: the host and the programmer together. `Wired` is a serial port with the firmware at
-- its other end; System/Board is one. The line loses nothing and the host does not time out.
-- Targets: the scripts of targets/, over the functions of squirrel_funcs.cpp. How the virtual
-- machine makes the frame of a call is a parameter (`CallFrames`). Targets/Functions and
-- Targets/Verify are targets/targetfuncs.nut, Targets/Kinetis is targets/nxp/kinetis.nut and the
-- programming of targets/nxp/mkv10z.nut, Targets/Start is targets/init.nut; the other modules
-- are about what they do with the programmer at the other end (`Bench`). An integer of a script
-- is the two's complement pattern of 64 bits, as contrib/squirrel is built. 8 is enough as fuel
-- of the firmware for a packet of a script, and 64 for readPacket; the loops of the scripts
-- recur on the rounds that are left.
-- Sketch: firmware/arduino_nano/swdtest/swdtest.ino, over a trace of Arduino calls as Swd is
-- over pins.
-- Examples: tests, and the properties at concrete inputs.
--
-- Not modelled: the options and the set-up of the virtual machine in src/main.cpp, and the
-- registration in src/squirrel_funcs.cpp, which only call Qt and Squirrel; the table of targets
-- and the methods of a target that nothing calls (in targets/); what the scripts log; the
-- Squirrel virtual machine (contrib/squirrel) and the Qt and Arduino libraries, which are
-- third-party code; timing.
pub mod Prelude
pub mod Cobs
pub mod Swd
pub mod Protocol
pub mod Probe
pub mod Word32
pub mod Arduino
pub mod Firmware
pub mod Host
pub mod System
pub mod Targets
pub mod Sketch
pub mod Examples
