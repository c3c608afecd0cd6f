-- ===== src/World.antt =====
-- The server's state: the globals of GameServer/main.cpp, the Session objects and the
-- SessionManager, and what the server has sent, asked of the database and drawn from rand().
--
-- `heap` holds the Session objects by id, since a handler writes through a shared pointer;
-- `sessions` lists the keys of SessionManager::sessions_ in their order. A std::map that the
-- program only reads by key is a function. Where it only uses operator[] and erase, a key that is
-- absent is one at the default value.
pub mod Data
pub mod Sessions
pub mod Database
pub mod Quiet
