-- ===== src/Checks.antt =====
-- The theorems at concrete inputs, and runs of the model.
mod Fixtures
mod Encoding
mod RingChecks
mod StorageChecks
mod ServerChecks
mod MqttChecks
mod BrowserChecks
mod StompChecks
mod CommChecks
mod ClientChecks
mod AmqChecks
mod EcsChecks
mod ShellChecks
