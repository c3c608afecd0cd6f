-- ===== src/Lib.antt =====
-- The MMORPG simulator: the game server (GameServer/) with its state, its packet handlers and the
-- receive buffers in front of them, the protocol (Common/) down to the bytes of each struct, and the
-- console client (GameClient/).
--
-- How the parts interact. A Session reads bytes from its socket and cuts them into packets
-- (`Framing`); `Server.handle_packet` runs one handler for each, with the session that sent it. A
-- handler reads and writes the globals of GameServer/main.cpp and the players in the Session
-- objects, sends packets to one session or to all (`World.Sessions`), calls stored procedures
-- (`World.Database`) and draws from rand(). Everything runs on one thread, so a handler is a
-- function from `World` to `World`, and the order of events is the order in which `Server.run`
-- applies them. `Server.Machine` is the same server on bytes: a read is put behind what its session's
-- buffer holds, and the loop calls the handler of each packet on the bytes at its payload. A client
-- (`Client`) turns keys into requests, and packets into what it shows; its requests and the server's
-- packets become bytes by `Wire`.
--
-- The files and the code:
--   Common      shared names, Boolean tests, lists, the integers and the machine words
--   Protocol    Common/Protocol.h: the packet types, a record for each payload, and `Packet`, what a
--               packet carries, with `packet_type`
--   World       the globals of GameServer/main.cpp, PlayerData and Session of GameServer/Session.h, and
--               GameServer/SessionManager.cpp; AddItemToDB and its like
--   Item        FindItem, FindEmptySlot, RollDrop, and how an item enters an inventory
--   Shop        OnShopOpen, OnShopBuy, OnShopSell
--   Status      SendCharInfo and the public view of a player
--   Gear        OnItemUse, OnItemEquip
--   Level       CheckLevelUp
--   Movement    OnMove, IsNearQuestNPC
--   Quest       FindQuest, OnQuestList, OnQuestAccept, OnQuestComplete, UpdateQuestProgress
--   Party       SendPartyUpdate, RemoveFromParty, OnPartyInvite, OnPartyAccept, OnPartyLeave
--   Loader      LoadItems and LoadQuests on the text of a file
--   Combat      SpawnNPC, SendAllNPCs, OnAttack
--   Framing     Session::ProcessBuffer, the reads of Session::DoRead, the bytes of Session::Send, and
--               the loop that the server and GameClient/TcpClient.cpp share, with any handlers
--   Wire        the structs of Common/Protocol.h as bytes, for requests and for answers
--   Client      GameClient/main.cpp: the state, the handlers, the keys and the chat line, and
--               RecvLoop, ProcessPackets and Send of GameClient/TcpClient.cpp
--   Account     OnLogin, SendCharList, OnCharList, OnCharCreate
--   Entry       OnCharSelect, SendOtherPlayers, LoadInventory, LoadQuestProgress
--   Attendance  SendAttendanceInfo, OnAttendanceCheck
--   Chat        OnChat
--   Connection  ExecuteProc, CheckFailoverState, Reconnect of GameServer/DBConnection.cpp
--   Server      GameServer/PacketHandler.cpp with the handlers that main registers, OnHeartbeat,
--               OnPlayerDisconnect, GameServer/TcpServer.cpp, and the events that reach the server;
--               `Server.Machine` is the server on bytes, `Server.Start` its start in main
--   Tests       runs on a small town with two players
-- The child modules of a part hold its theorems, and are named for what they prove.
--
-- How state corresponds. A Session object lives in `heap` under its id, and `sessions` lists the
-- keys of the manager's map in order, since a broadcast goes through them so. A std::map that is
-- only read by key is a function; a quest book is a list in the order of its keys. `sent` holds all
-- packets that were sent, the newest first, `calls` the calls of the database and `rands` how many
-- numbers were drawn. The values of rand() and of std::hash and the answers of the database are in
-- `Env`, and a theorem assumes of them the one answer that it is about at most; `none` stands for a call that
-- DBConnection::ExecuteProc gives up. Every field of unsigned type wraps where the code computes
-- with it; int16_t coordinates go through `int16`. A text is kept without its padding, and a copy by
-- strncpy_s is cut to its count.
--
-- Fuel. CheckLevelUp runs on 3 * exp + 3 rounds: a round takes max_exp off the experience, and
-- max_exp is 0 in at most one round out of two, since it is a hundred times the level afterwards.
-- ProcessBuffer runs on any fuel above the number of bytes in the buffer, since each packet takes at
-- least a byte away, unless the loop comes to a header that says 0.
-- A loader's loop runs on any fuel above the number of characters, if all braces are closed. The loop
-- on bytes runs on any fuel above the number of bytes that arrive at a session. A number is
-- printed with twenty digits at most, which 64 bits do not exceed.
--
-- How bytes correspond. A struct is its fields one behind the other, a number its bytes from the
-- lowest on, a char array its text with zeros behind, of which at least one fits. A handler copies a
-- whole struct whatever length the header says: what lies behind the bytes that have come is the
-- argument `stale`, any bytes for each read and each pass of its loop. What is typed at a prompt of the
-- client is an argument of the key before it; WideCharToMultiByte is the argument `utf8`.
--
-- Not modelled: the sockets and the event loops (a read is the bytes it delivers; that it
-- delivers no more than the buffer has room for is said only in `Framing.Overlong`), the lock of
-- the session manager, the client's receiving thread (a packet is handled between two keys),
-- console output with DrawMap and DrawCharSelect, the ODBC calls themselves (`Connection.Driver`
-- has their answers), reading the files of data/ (their text is the argument of `Loader`, and the
-- tables are arguments of `Server.Start`), and the stored procedures of scripts/. A call of the
-- database is its procedure with its arguments, not its text. In the client's handlers a count is
-- that of the entries in use: what its loops do with a larger one leaves the arrays. The handlers of
-- `Server.run` go on where strcpy_s and strncpy_s end the program by a text that is too long for its
-- array, and where `rand() % 0` does: `Shop.try_shop_buy`, `Shop.try_shop_sell`,
-- `Account.list_chars` and `Item.roll` give `none` there, and theorems about whole runs speak of the
-- server up to such an end. A text in an array without a zero ends with the array here, where the
-- handlers read on.
pub mod Common
pub mod Protocol
pub mod World
pub mod Item
pub mod Shop
pub mod Status
pub mod Gear
pub mod Level
pub mod Movement
pub mod Quest
pub mod Party
pub mod Combat
pub mod Loader
pub mod Framing
pub mod Wire
pub mod Client
pub mod Connection
pub mod Chat
pub mod Attendance
pub mod Account
pub mod Entry
pub mod Server
pub mod Tests
