-- ===== src/Host/Start.antt =====
-- `main` of `src/main.cpp` from the parsed options on. What `QCommandLineParser` finds, the virtual
-- machine and the scripts are parameters.
use swagger.Prelude.{ℕ, Bool, true, false, Option, none, some, List, [], ◌∷◌, ◌++◌, if◌then◌else◌}
use swagger.Host.Packet.{
  SerialPort, HardwareInterface, OpenError, Opened, opened, failed, open_interface, close,
}
use swagger.Host.Script.{SquirrelVm, Session}
pub mod Exit

-- What the parser finds: whether the option for the file is set, the value of the one for the port
-- if it is set, the baud rate as `uint32_t` if its value is an integer (it is 57600 by default), and
-- whether the option for the interactive mode is set.
pub record Options : Type 0 where
  pub has_file : Bool
  pub com_port : Option (List ℕ)
  pub baudrate : Option ℕ
  pub is_interactive : Bool

-- `"/dev/tty." << value`
pub device_name : List ℕ → List ℕ
device_name value = (47 ∷ 100 ∷ 101 ∷ 118 ∷ 47 ∷ 116 ∷ 116 ∷ 121 ∷ 46 ∷ []) ++ value

module _ (m : SquirrelVm) (q : SerialPort) where
  -- The virtual machine with its functions and variables, the run of `init.nut` with its success,
  -- and `Interactive`.
  pub record Engine : Type 0 where
    pub new_vm : Options → m.Vm
    pub do_script : Session m q → Bool × Session m q
    pub interactive : Session m q → Session m q

  -- How the program ends.
  pub data Outcome : Type 0 where
    file_missing : Outcome
    port_missing : Outcome
    baudrate_not_integer : Outcome
    port_not_opened : OpenError → Outcome
    script_failed : Session m q → Outcome
    finished : Session m q → Outcome

  -- `showHelp(1)` ends the program with the code 1.
  pub exit_code : Outcome → ℕ
  exit_code (finished s) = 0
  exit_code o = 1

  -- From the load of the targets on.
  pub run_script : Engine → Options → Session m q → Outcome
  run_script engine options s =
      let (ok, s1) = engine.do_script s in
      if ok
      then (let s2 = if options.is_interactive then engine.interactive s1 else s1 in
          finished (record s2 { interface = close q s2.interface }))
      else script_failed s1

  pub after_open : Engine → Options → Opened q → Outcome
  after_open engine options (failed e) = port_not_opened e
  after_open engine options (opened h) = run_script engine options (record {
    vm = engine.new_vm options;
    interface = h;
    cmd_queue = [];
    result_queue = [];
    messages = [];
  })

  -- The baud rate is looked at last.
  pub check_baudrate : Engine → Options → (fresh : q.Port) (value : List ℕ) → Option ℕ → Outcome
  check_baudrate engine options fresh value none = baudrate_not_integer
  check_baudrate engine options fresh value (some baud) =
      after_open engine options (open_interface q fresh (device_name value) baud)

  pub check_port : Engine → Options → (fresh : q.Port) → Option (List ℕ) → Outcome
  check_port engine options fresh none = port_missing
  check_port engine options fresh (some value) =
      check_baudrate engine options fresh value options.baudrate

  pub check_file : Engine → Options → (fresh : q.Port) → (has_file : Bool) → Outcome
  check_file engine options fresh false = file_missing
  check_file engine options fresh true = check_port engine options fresh options.com_port

  pub main_program : Engine → Options → (fresh : q.Port) → Outcome
  main_program engine options fresh = check_file engine options fresh options.has_file
