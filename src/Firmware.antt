-- ===== src/Firmware.antt =====
-- `firmware/arduino_nano/swdinterface/swdinterface.ino`: the program of the programmer.
pub mod Stuff
pub mod Reply
pub mod Loop
