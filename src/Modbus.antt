-- ===== src/Modbus.antt =====
-- src/huawei_solar/modbus.py: the requests and responses of the inverter's private function code and
-- of the reading of device identifiers. `encode` is what pymodbus sends behind the function code;
-- `decode`, or the constructor of an upload response, takes what it received.
pub mod Private
pub mod StartUpload
pub mod Upload
pub mod CompleteUpload
pub mod DeviceIdentifier
pub mod Laws
pub mod Objects
