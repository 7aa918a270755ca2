-- ===== src/Mqtt.antt =====
-- mqttws31.js, the MQTT client for browsers in the broker's distribution.
pub mod Faults
pub mod Length
pub mod Utf8
pub mod Message
pub mod Wire
pub mod Client
pub mod Interface
