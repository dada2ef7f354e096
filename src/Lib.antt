-- ===== src/Lib.antt =====
-- rcdiscover finds GigE Vision devices in the local network, and changes their addresses. This
-- library models its core, rcdiscover/, its command line tools and its graphical tool, tools/.
--
-- A discovery broadcasts a request on the sockets of all interfaces (Discover over Socket), with a
-- request id from the counter of the program (RequestCounter). Listener threads keep the answers
-- that carry a pending id, decoded by DeviceInfo, and `getResponse` hands them to the caller. The
-- tools filter the devices (Cli/Filter with Wildcard and Text), print them (Cli/Table), or act on
-- them with FORCEIP commands (ForceIp) and magic packets (Wol). Gvcp reads and writes registers of
-- one device. The graphical tool enters the answers into a table in a thread of its own (Gui/
-- DiscoverWindow and Gui/Discovering), and its windows send the same commands (Gui/Windows). The
-- modules follow the files:
--
--   Base             tests, lists, texts, exceptions as values
--   Words            bytes and numbers, of gvcp_ip_config.cc, wol.cc and utils.h in rcdiscover/
--   RequestCounter   rcdiscover/gige_request_counter.cc
--   DeviceInfo       rcdiscover/deviceinfo.cc and deviceinfo.h
--   Socket           rcdiscover/socket_linux.cc, with the ownership of handles in Socket/Handles
--   WindowsSocket    rcdiscover/socket_windows.cc
--   Discover         rcdiscover/discover.cc, with the threads in Discover/Threads
--   Gvcp             rcdiscover/gvcp_ip_config.cc
--   ForceIp          rcdiscover/force_ip.cc
--   Wol              rcdiscover/wol.cc
--   Text, Wildcard   rcdiscover/utils.h
--   Cli/Filter, Cli/Collect, Cli/Table   tools/rcdiscover-cli/cli_utils.cc
--   Cli/Commands     rcdiscover_force_ip.cc, rcdiscover_reset.cc and rcdiscover_reconnect.cc in
--                    tools/rcdiscover-cli/
--   Cli/Main         tools/rcdiscover.cc and tools/rcdiscover-cli/rcdiscover_discover.cc
--   Gui/DeviceList   device_list.cc in tools/rcdiscover-gui/
--   Gui/Inputs       input_ip.cc, input_mac.cc, input_filter.cc and device_choice.cc there
--   Gui/Windows      set_tmp_ip_window.cc, change_ip_config_window.cc, reconnect_window.cc and
--                    reset_window.cc there
--   Gui/DiscoverWindow, Gui/Discovering  discover_window.cc there, with rcdiscover/ping.cc
--   Gui/Config       the configuration file of tools/rcdiscover-gui.cc
--   Gui/Worker       worker.cc there: Pairing and Licensed search for pairs of cameras, Discover is
--                    the whole search, Backup the text of backup files, and Tasks the threads that
--                    change or store two cameras
--   Gui/Layout       layout.h there, with the places that the constructors of the windows give
--   Gui/Dialogs      the single instances of the windows, and the timer of logo.cc
--   Examples         the theorems at concrete inputs
--
-- Functions keep the words of the source: `sendAndReceive` is `send_and_receive`. State is passed
-- explicitly: the counter and the wire, the list of packets sent, are fields of a record, and an
-- exception is a value next to the state in which it leaves. A read outside of an array or a text
-- is the outcome `none`. Numbers are natural numbers, with the reduction modulo a power of 2
-- written out where the source's type wraps around.
--
-- Parameters are the operating system (`Os` in Socket: the results of its calls), the network with
-- a device behind it (`net` in Gvcp: a state and a function from packets to replies), what arrives
-- at a listener (`Arrival` in Discover), and, for the tools, what discovery returns and the answer
-- of the user. `std::getline`, `std::stoul` and the stream output of numbers are written out in Text
-- after the C++ standard, `>>` in Gui/Inputs, `std::sort` and `std::unique` in Cli/Collect.
--
-- No model runs on fuel: `attempts` counts the three attempts of the source, and all other loops
-- follow a list, a number of bytes or the arguments.
--
-- The widgets of the FLTK library are kept as what the program reads of them: the text of a field,
-- the answer to a question, the rows that are selected. Threads are step relations: the listeners
-- with the destructor that joins them, and the discovery thread with the lock of the library, which
-- an exception in its critical section leaves locked. In the threads of worker.cc an exception of a
-- camera, a file or a check is an outcome of the call, and is caught where the source catches it.
--
-- The file worker.cc, which no build file names, calls functions of files that the repository does
-- not hold: the status of a calibration and of a license (`Checks`), and the calls of two cameras
-- (`System` in Gui/Worker/Tasks), are parameters.
--
-- Not modelled: the drawing of the table and the logo, and the texts of the windows; the ICMP calls
-- on Windows; a second request while listeners run; timeouts, which only decide when a round finds
-- nothing; and message and help texts.
pub mod Base
pub mod Words
pub mod RequestCounter
pub mod DeviceInfo
pub mod Socket
pub mod WindowsSocket
pub mod Discover
pub mod Gvcp
pub mod ForceIp
pub mod Wol
pub mod Text
pub mod Wildcard
pub mod Cli
pub mod Gui
pub mod Examples
