-- ===== src/Client.antt =====
-- `AsyncHuaweiSolar` of src/huawei_solar/huawei_solar.py.
pub mod Retry
pub mod Read
pub mod GetMultiple
pub mod Write
pub mod Files
pub mod Login
pub mod DeviceIdentifiers
pub mod Connection
pub mod Creation
pub mod DeviceInfos
