-- ===== src/Bridge.antt =====
-- src/huawei_solar/bridge.py: `HuaweiSolarBridge.batch_update` and the methods that it calls.
pub mod Batches
pub mod Results
pub mod Update
pub mod SessionState
pub mod Session
pub mod Discovery
pub mod Creation
