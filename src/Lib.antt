-- ===== src/Lib.antt =====
-- A model of halevt, a daemon that runs commands when HAL reports that devices and their
-- properties come, change and go, with proofs about it. Paths are from the root of the repository.
--
-- The program. A configuration file lists, for boolean expressions over HAL properties, commands
-- to run (src/parse_config.c, src/match.c). The daemon keeps a list of the devices with their
-- properties (src/devices_list.c), so that a device can still be matched when it is gone. The
-- callbacks that libhal calls (src/hal_interface.c) evaluate the expressions for the device of the
-- event, fill in and spawn the commands, and bring the list up to date.
--
-- The files, in the order in which they build on each other:
--   Base: shared helpers. Base/Tests Boolean tests and Option; Base/Lists lists over the
--     native numbers; Base/Text texts as lists of bytes, with strstr, strcat and isspace
--     (Base/Search: strstr for one byte); Base/Numbers int, atoi, strtoull and "%d".
--   Names: halevt_hal_string, halevt_parse_property_name, halevt_print_property_name of
--     src/parse_config.c. Names/Cut, Names/RoundTrip and Names/Exact on the parse, Names/Print on the
--     message.
--   Exec: halevt_new_exec and halevt_print_exec of src/parse_config.c. Exec/Bounds on the two
--     passes, Exec/RoundTrip on what they make of a text, Exec/Print on the message.
--   Expr: halevt_new_boolean_expression and halevt_print_boolean_expression of src/match.c.
--     The loop over the text is Expr/Scan; Expr/Scan/Safe is on its buffers. Expr/Segments
--     describes what it is to find, Expr/Tokens shows that it does; Expr/Parse is on a whole
--     text and on an atom, Expr/Print on the message.
--   Devices: src/devices_list.c. Devices/Find, Devices/Keys, Devices/View, Devices/Added and
--     Devices/Keyed on the list as a map.
--   Hal: what src/hal_interface.c asks of libhal and makes of the answers
--     (halevt_get_iterator_value, halevt_get_property_value, halevt_udi_property_value);
--     Hal/Matching the ways to match and to find the values of a name. Hal/Cached and Hal/Uint
--     compare matching by udi with matching by device.
--   Eval: halevt_value_true and halevt_true_tree of src/match.c. Eval/Correct on their
--     meaning.
--   Command: halevt_run_command of src/hal_interface.c. Command/Sizes and Command/Growth on
--     the buffer of the command.
--   Config: the structures and the add functions of src/parse_config.c; Config/Xml
--     halevt_parse_config. Config/Spec describes what a document stands for, Config/Actions,
--     Config/Put, Config/Roots and Config/Parse are on the parse.
--   Events: the callbacks, halevt_setup_HAL and halevt_run_oninit of src/hal_interface.c, and
--     their calls in main of src/manager.c. Events/Runs on the commands, Events/Modified
--     and Events/Sync on the list beside HAL, Events/Startup on the start, Events/Stale on a removal
--     after it.
--   Mount: the file of volumes of halevt-mount/halevt-mount.c (halevt_mount_parse_file,
--     halevt_mount_print_udis), with Mount/RoundTrip on writing and reading it. Mount/Check:
--     halevt_mount_check_udi, halevt_mount_remove_udi and the loop of halevt_mount_sync_udi,
--     with Mount/Check/Sound, Mount/Check/Loop and Mount/Check/Kept on what they leave.
--   Debug: src/debug.c and DEBUG_REPORT of src/common.h, with Debug/Lines on the buffers.
--   ConfFiles: halevt_find_conf_files of src/manager.c. ConfFiles/Extension on the loop that looks
--     for ".xml", ConfFiles/Search on what is found.
--   Daemon: main of src/manager.c, over the calls of Daemon/Defs that may end the program. What the
--     two walks over the devices do is in Events. Daemon/Keeps and Daemon/Identity on the rights,
--     Daemon/Start on the configuration files, Daemon/Serves on a run that works.
--   Mount/Find, Mount/Add: halevt_mount_find_udi and halevt_mount_add_udi of
--     halevt-mount/halevt-mount.c. Mount/Options, Mount/World, Mount/Commands and Mount/Main: its
--     main, by options and names of files, the files and the system, the commands, and the whole.
--     Mount/Main/Current, Mount/Main/Whole and Mount/Main/Stored are on the device file,
--     Mount/Options/Settled on the
--     options, Mount/Commands/Cleaned, Mount/Commands/Unmounted and
--     Mount/Commands/Mounted on three of the commands.
--     Mount/Lock: the lock around a run, with Mount/Lock/Alone on who works.
--   Config/Print, Devices/Print: halevt_print_config, with Config/Print/Lines on its
--     text, halevt_print_device and halevt_print_all_devices.
--   Tests: runs on concrete inputs; Tests/World the boolstuff, the HAL and the configuration
--     of the tests.
--
-- How the code is modelled. A text is the list of its bytes without the NUL; cutting a text in
-- place gives texts of their own. A linked list is a list with its head in front, and a function
-- that changes one returns the new one. NULL is `none`. A function whose buffer has a size that
-- the source computes is `none` where it would write outside of it; a crash on NULL and a signed
-- overflow are `none` too. Allocation is taken to succeed. The size of a
-- buffer that grows or is added up is an int (`as_int`, below 2 ^ 31), and so is what atoi gives for
-- a value of HAL; the bounds that this needs are hypotheses on the length of a text. Other counts
-- are numbers without bounds. What stdio has buffered is written when the program ends, and then may
-- fail; the file has from the start the bytes that it has at the end.
-- Fuel: both passes of halevt_new_exec take a round for each place in the text, at most one more
-- than the text has bytes, and are called with so many. The loop over the lines of a file takes a
-- round for each byte and one more.
-- Outside of the program, and parameters here: boolstuff (`BoolStuff`, with what its normal form
-- is documented to be in `IsNormalizer`), libhal (`Hal`, one state that answers while one event is
-- handled), C's double (`Floats`), and libxml2, whose tree of nodes is what the parse starts from.
-- The spawned command is a result; what the shell does with it is outside.
--
-- The rounds of the loop in debug are bounded by the bytes of the message, those of the search for
-- an extension by the bytes of the name.
--
-- The lock of halevt-mount is a step relation over any number of runs. A file has a number, which
-- stays its own when the file loses its name.
--
-- Not modelled: the functions that free memory, the texts of the messages, and signals. A file that
-- is there is taken to be readable.
pub mod Base
pub mod Names
pub mod Exec
pub mod Expr
pub mod Devices
pub mod Hal
pub mod Eval
pub mod Command
pub mod Config
pub mod Events
pub mod Mount
pub mod Debug
pub mod ConfFiles
pub mod Daemon
pub mod Tests
