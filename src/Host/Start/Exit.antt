-- ===== src/Host/Start/Exit.antt =====
-- What an exit code of 0 says.
use swagger.Prelude.{
  ℕ, ◌≡◌, refl, inl, inr, Bool, true, false, Option, none, some, List, Bool-cases, arith,
}
use swagger.Host.Packet.{SerialPort, Opened, opened, failed, open_interface, is_supported}
use swagger.Host.Packet.Opening.{close-closes, open_interface-opened}
use swagger.Host.Script.{SquirrelVm, Session}
use swagger.Host.Start.{
  Options, Engine, Outcome, file_missing, port_missing, baudrate_not_integer, port_not_opened,
  script_failed, finished, device_name, run_script, after_open, check_baudrate, check_port,
  check_file, main_program, exit_code,
}

module _ (m : SquirrelVm) (q : SerialPort) where
  -- The program came to its end: its options were complete, and the port is not open.
  pub IsComplete : Options → Outcome m q → Type 0
  IsComplete options (finished s) =
      (options.has_file ≡ true)
      × ((value : List ℕ) × (options.com_port ≡ some value))
      × ((baud : ℕ) × (options.baudrate ≡ some baud) × (is_supported baud ≡ true))
      × (q.is_open s.interface.port ≡ false)
  IsComplete options o = exit_code m q o ≡ 1

  code_one : (options : Options) (o : Outcome m q) → exit_code m q o ≡ 1 → IsComplete options o
  unfolding IsComplete exit_code
  code_one options file_missing e = e
  code_one options port_missing e = e
  code_one options baudrate_not_integer e = e
  code_one options (port_not_opened error) e = e
  code_one options (script_failed s) e = e
  code_one options (finished s) e = absurd (omega (arith, e))

  module _ (engine : Engine m q) (options : Options)
      (closes : (p : q.Port) → q.is_open (q.close_port p) ≡ false) where
    run_script-IsComplete :
        (s : Session m q) (value : List ℕ) (baud : ℕ)
        → options.has_file ≡ true
        → options.com_port ≡ some value
        → options.baudrate ≡ some baud
        → is_supported baud ≡ true
        → IsComplete options (run_script m q engine options s)
    unfolding IsComplete run_script exit_code
    run_script-IsComplete s value baud file port rate supported =
        let (ok, s1) = engine.do_script s in
        elim (Bool-cases ok) [
          | inr e ↦ rw e refl
          | inl e ↦ rw e (file, (value, port), (baud, rate, supported), close-closes q closes _)
        ]

    module _ (file : options.has_file ≡ true) (fresh : q.Port) where
      after_open-IsComplete :
          (value : List ℕ) (baud : ℕ)
          → options.com_port ≡ some value
          → options.baudrate ≡ some baud
          → (o : Opened q) → open_interface q fresh (device_name value) baud ≡ o
          → IsComplete options (after_open m q engine options o)
      unfolding after_open exit_code
      after_open-IsComplete value baud port rate (failed error) e =
          code_one options (port_not_opened error) refl
      after_open-IsComplete value baud port rate (opened h) e =
          run_script-IsComplete _ value baud file port rate
            (open_interface-opened q fresh (device_name value) baud h e)

      check_baudrate-IsComplete :
          (value : List ℕ) (baudrate : Option ℕ)
          → options.com_port ≡ some value
          → options.baudrate ≡ baudrate
          → IsComplete options (check_baudrate m q engine options fresh value baudrate)
      unfolding check_baudrate exit_code
      check_baudrate-IsComplete value none port rate = code_one options baudrate_not_integer refl
      check_baudrate-IsComplete value (some baud) port rate =
          after_open-IsComplete value baud port rate _ refl

      check_port-IsComplete :
          (com_port : Option (List ℕ))
          → options.com_port ≡ com_port
          → IsComplete options (check_port m q engine options fresh com_port)
      unfolding check_port exit_code
      check_port-IsComplete none port = code_one options port_missing refl
      check_port-IsComplete (some value) port = check_baudrate-IsComplete value _ port refl

    check_file-IsComplete :
        (fresh : q.Port) (has_file : Bool)
        → options.has_file ≡ has_file
        → IsComplete options (check_file m q engine options fresh has_file)
    unfolding check_file exit_code
    check_file-IsComplete fresh true file = check_port-IsComplete file fresh options.com_port refl
    check_file-IsComplete fresh false file = code_one options file_missing refl

    -- The program ends with the exit code 1, or it has been given the option for the file, a port and
    -- a supported baud rate, and has closed the port. (A port that is closed is not open.)
    pub main_program-IsComplete :
        (fresh : q.Port) → IsComplete options (main_program m q engine options fresh)
    unfolding main_program
    main_program-IsComplete fresh = check_file-IsComplete fresh options.has_file refl
