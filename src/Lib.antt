-- ===== src/Lib.antt =====
-- The core of the PLC runtime: the process memory with its mapping engine, and the parts that read and
-- write it from outside. Paths below are from the root of the repository.
--
-- Parts, and the modules that model them:
--   System    src/main.cpp with the threads that it starts: one state, and the actions of the threads on it in
--             any order. A scan is three actions (PlcScheduler.cpp, loop), a round of the S7 server two
--             (S7Server.cpp, syncLoop), a request of a server, of the web page or a key one.
--   Listener  start, stop, serverLoop and the end of handleClient of src/modbus/ModbusServer.cpp,
--             src/mc/McServer.cpp and src/xgt/XgtServer.cpp, which are alike.
--   Memory    src/core/PlcMemory.{hpp,cpp}. `PlcMemory` is a record of the vectors and the mapping
--             rules; the accessors, written four times in the source, are one function over `BitArea`
--             or `WordArea`. Memory.Address is parseAddress, Memory.Values readValue and writeValue,
--             Memory.Load loadMappings, Memory.Sync syncMappings. Memory.Cells is the abstract view: a
--             reference names a cell or none, and a cell holds a value.
--   Modbus    src/modbus/ModbusServer.cpp: processRequest; Modbus.Server is the framing of handleClient
--             over the stream of bytes that the client sends.
--   Mc        src/mc/McServer.cpp: processRequest; Mc.Server is handleClient.
--   Xgt       src/xgt/XgtServer.cpp: processRequest and resolveAddress; Xgt.Server is handleClient with
--             the drain that reads the bytes a packet's length field leaves out.
--   S7        src/s7/S7Server.cpp: syncBeforeCycle and syncAfterCycle over the buffers of the library;
--             S7.Lifecycle is start, stop and getClientsCount.
--   Loader    src/core/PlcLoader.cpp: the bindings of the logic library and the copies before and after
--             a scan; Loader.Library is loadLibrary, unloadLibrary, initLogic and runLogic.
--   Logic     src/logic: the three simulated plants that the loader loads as libraries, Logic.Tank
--             (mock_logic.cpp), Logic.Trim (trim_logic.cpp) and Logic.Assembly (assembly_logic.cpp): the variables
--             are a record, config_init__ and config_run__ functions of it, each machine and each case of
--             the sequence one function. Flags are Booleans. `double` is a type with the operations of
--             Logic.Double; a conversion that C++ leaves undefined is `none`, and a theorem that needs a law of
--             the arithmetic has it as a hypothesis, which Tests.Micro meets with numbers in millionths.
--             Trim.Scans, Assembly.Scans and Tank.Cycles are many scans, each after the copies of the loader.
--   Scheduler src/core/PlcScheduler.cpp: the loop that runs the logic, its statistics and its deadlines. A cycle
--             gives the readings of the clock in nanoseconds; the logic is a function of the tick and the
--             variables.
--   Startup   src/main.cpp: the options, and the starts of the servers with the stops that a failure calls.
--   Tui       src/tui/PlcTui.cpp: the keys of inputLoop; Tui.Padding is getVisibleLength and padString.
--   Mqtt      src/mqtt/MqttPublisher.cpp: start, stop, the rounds of publishLoop and the messages.
--   Web       src/web/WebServer.cpp: the handlers of the API, over requests whose members are parsed.
--   Tags      src/core/PlcTagManager.cpp: tags by name, their values, the loop of loadConfig; Tags.Config is saveConfig.
--   Shared    lists, strings, bytes and words, total correctness of steps that may fault.
--   Tests     a small memory, and each theorem applied to concrete data.
--
-- The scan calls the copies of the loader around the logic; they call syncMappings. The S7 server copies
-- in a thread of its own. The servers read and write the memory between, each under its own request.
--
-- A byte is a number below 2^8 and a word one below 2^16, with casts written out as remainders. A read of
-- a request that C++ leaves undefined is `none`, so a result `some` says that there is none; an error that
-- the code reports is a response. A write out of range of a vector is ignored, as in the source.
--
-- Fuel: handle_client has as fuel the number of rounds, each of which consumes at least eight bytes
-- (Modbus), ten (Mc) or nineteen (Xgt), so the length of the stream and one more is enough. Five digits
-- are enough for the 16-bit numbers that Loader, Tags and Mqtt print.
--
-- Not modelled: the contents of sockets and the scheduling of threads (`recv` takes the next bytes of a
-- stream, sending succeeds; System leaves the order of the actions open, and takes a request as one
-- action), the mutexes, the passing of time; the JSON and HTTP libraries (a file is given parsed, or as one
-- that does not open or does not parse, and a request by its members); dlopen, dlsym, the snap7 and the
-- mosquitto libraries, whose answers are parameters; the web page, which is a literal; the screens of the
-- terminal, which print doubles.
pub mod Listener
pub mod Loader
pub mod Logic
pub mod Mc
pub mod Memory
pub mod Modbus
pub mod Mqtt
pub mod S7
pub mod Scheduler
pub mod Shared
pub mod Startup
pub mod System
pub mod Tags
pub mod Tests
pub mod Tui
pub mod Web
pub mod Xgt
