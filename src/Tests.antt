-- ===== src/Tests.antt =====
-- The theorems at concrete inputs, and runs of the handlers on a small town.
mod Town
mod Shopping
mod Wearing
mod Leveling
mod Moving
mod Questing
mod Partying
mod Fighting
mod Wire
mod Serving
mod Calling
mod Bytes
mod Playing
mod Loading
