-- ===== src/Lib.antt =====
-- huawei_solar is a Python library that reads and writes the registers of Huawei inverters, their
-- batteries, meters and EMMA controllers over Modbus. A name of a register stands for an address, a
-- number of 16-bit registers and a class that decodes and encodes its value. The client turns names
-- into requests and responses into values, and the bridge groups the names that a caller asks for.
--
-- Files and code:
--   Base          shared names, native-number lists, sorting (`list.sort`), integers and floats
--   Exceptions    src/huawei_solar/exceptions.py, with results that may be an error
--   Payload       pymodbus's payload builder and decoder: a parameter `Payload` with its documented
--                 behaviour `IsPayload`; `BigEndian` meets it, and the theorems about the order of
--                 calls on the builder and the decoder stand in `Emit`, `Slots` and `Takes`
--   Struct        Python's struct module: formats, pack, unpack and unpack_from
--   Modbus        src/huawei_solar/modbus.py: a module for each kind of request with its response
--   Optimizers    src/huawei_solar/files.py: `RealTime` is OptimizerRealTimeDataFile and
--                 `SystemInformation` is OptimizerSystemInformationDataFile; `Entries` is the loop
--                 over entries of one format that both share
--   Registers     src/huawei_solar/registers.py (classes and table), register_values.py,
--                 register_names.py. `Number` is NumberRegister, `Codec` the choice of the class,
--                 `LgResu`, `Luna2000`, `ChargeDischarge` and `Peak` are the period registers, `Tou`
--                 is what the validation of time of use periods shares, `Days` the days of a week
--   Client        src/huawei_solar/huawei_solar.py: `Read` is _read_registers, `GetMultiple` is
--                 get_multiple and _decode_response, `Write` is set and _write_registers,
--                 `Files` is get_file, `Login` is login and heartbeat, `DeviceIdentifiers` reads the
--                 device identifiers, `DeviceInfos` is get_device_infos, `Connection` is
--                 _communication_lock, `Creation` is create, create_rtu, stop and _reconnect, and
--                 `Retry` is the decorator of the backoff package, a parameter with its documented
--                 behaviour
--   Bridge        src/huawei_solar/bridge.py: `Batches` is the grouping loop of batch_update,
--                 `Update` the rest of it with the state of a HuaweiSUN2000Bridge, `Results` its dicts,
--                 `Session` the login and heartbeat with set and _read_file on a `SessionState`,
--                 whose `Steps` are the pieces between two awaits, and `Discovery` what a
--                 HuaweiSUN2000Bridge asks for when it is created, with the choice of its class, and
--                 `Creation` is _create, HuaweiSolarProductInfo and HuaweiEMMABridge
--   Tests         the theorems at concrete inputs
--
-- A decoder is a function from the bytes left to a value and the bytes left behind it, and a builder
-- the list of the bytes added. A request to a device is an argument that says what the device does at
-- each attempt. A method of the bridge takes its state and gives a result and the state afterwards, as
-- it runs by itself; `Session.Steps` is about methods and the heartbeat task that take turns.
-- The loop that groups registers runs on fuel: as many rounds as there are registers are enough,
-- since every round takes at least one. Other loops are given rounds, and are `none` while they have
-- not ended: get_file has 65,537, since a frame number is two bytes, and the loops over the bytes of a
-- device identifier or of a file have as many as there are bytes, since each round reads some.
--
-- The loop over the pages of device identifiers has no bound in the code, and takes the number of its
-- rounds as an argument.
--
-- `_communication_lock` makes the calls of one client a list, each with the times that the clock shows
-- to it, in whole numbers of any unit.
--
-- Not modelled: the methods of a bridge that read optimizer files, the waits between attempts, the
-- log, and the change of timestamps by the time zone, which batch_update takes as an argument. hmac,
-- sha256 and the CRC of pymodbus are not code of the repository. Floating-point numbers are a
-- parameter.
pub mod Base
pub mod Exceptions
pub mod Payload
pub mod Struct
pub mod Modbus
pub mod Optimizers
pub mod Registers
pub mod Client
pub mod Bridge
pub mod Tests
