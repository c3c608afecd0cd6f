-- ===== src/Client.antt =====
-- The console client: what GameClient/main.cpp keeps, the handlers of the packets that come from the
-- server, the keys, and the loops of GameClient/TcpClient.cpp. What is drawn is not modelled.
pub mod State
pub mod Maps
pub mod Words
pub mod Field
pub mod Belongings
pub mod Company
pub mod Dispatch
pub mod Nearest
pub mod Lines
pub mod Keys
pub mod Receiving
pub mod Sound
pub mod Fitting
pub mod Asking
pub mod Mirror
pub mod Playing
pub mod Log
