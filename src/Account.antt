-- ===== src/Account.antt =====
-- Logging in and the list of characters (GameServer/main.cpp: OnLogin, SendCharList, OnCharList,
-- OnCharCreate).
pub mod Accepted
use Prim.Native.Nat.{min}
use mmorpg_simulator.Common.{
  ℕ, ◌+◌, ◌-◌, ◌*◌, ◌%◌, ◌^◌, ◌&&◌, ◌||◌, ◌==◌, Bool, Option, none, some, List, [], ◌∷◌, ltb, leb,
  if◌then◌else◌, map, take, length, true, Text, codes, u8, u16,
}
use mmorpg_simulator.Protocol.{login_result, char_list, char_create_result}
use mmorpg_simulator.Protocol.Payloads.{CharListEntry}
use mmorpg_simulator.Protocol.Requests.{Login, CharCreate}
use mmorpg_simulator.World.Data.{World, Env, Cell, ProcCall, ResultSet}
use mmorpg_simulator.World.Sessions.{player, set_player, send}
use mmorpg_simulator.World.Database.{call, reply, rows, column, text_column, first_num}

-- std::atoll, as far as its result is positive: spaces, a plus, digits, up to the largest int64_t.
-- A minus sign, or no digit, gives a result that is not positive, for which 0 stands.
abbrev pub digits : ℕ → Text → ℕ
digits n [] = n
digits n (c ∷ t) = if leb 48 c && leb c 57 then digits (n * 10 + (c - 48)) t else n

abbrev pub plus_sign : Text → Text
plus_sign [] = []
plus_sign (c ∷ t) = if c == 43 then t else c ∷ t

abbrev pub spaces : Text → Text
spaces [] = []
spaces (c ∷ t) = if c == 32 || leb 9 c && leb c 13 then spaces t else c ∷ t

unfoldable pub positive_atoll : Text → ℕ
positive_atoll t = min (digits 0 (plus_sign (spaces t))) (2 ^ 63 - 1)

-- The number for an account: the text as a number if that is positive, else one made of its hash.
unfoldable pub channel_id : Env → Text → ℕ
unfolding positive_atoll
channel_id env t =
    let n = positive_atoll t in if n == 0 then env.hash t % 900000000 + 100000000 else n

-- `charName` takes 20 bytes of the column. strncpy_s puts a name of fewer bytes into the entry; for
-- one of 20 it ends the program, which list_chars tells.
abbrev char_entry : List Cell → CharListEntry
char_entry r = record {
  char_uid = column 0 r;
  name = take 20 (text_column 1 r);
  char_type = u8 (column 2 r);
  level = u16 (column 3 r);
}

-- Up to five characters.
abbrev pub char_entries : ResultSet → List CharListEntry
char_entries rs = map char_entry (take 5 rs)

-- What SendCharList leaves where strncpy_s returns.
abbrev pub send_char_list : ℕ → World → World
send_char_list s w =
    let c = ProcCall.character_list (player w s).account_uid in
    send s (char_list (char_entries (rows (reply c w)))) (call c w)

abbrev pub name_size : ℕ
name_size = 20

abbrev pub names_fit : ResultSet → Bool
names_fit [] = true
names_fit (r ∷ rs) = ltb (length (text_column 1 r)) name_size && names_fit rs

-- SendCharList. `none`: strncpy_s ends the program.
abbrev pub list_chars : ℕ → World → Option World
list_chars s w =
    if names_fit (take 5 (rows (reply (ProcCall.character_list (player w s).account_uid) w)))
    then some (send_char_list s w)
    else none

-- An int64_t that is greater than 0.
abbrev pub is_positive : ℕ → Bool
is_positive n = ltb 0 n && ltb n (2 ^ 63)

unfoldable pub on_login : ℕ → Login → World → World
unfolding channel_id
on_login s req w =
    let id = channel_id w.env req.account_id in
    let c = ProcCall.account_login 0 id in
    let uid = first_num (reply c w) in
    let w1 = call c w in
    let known = is_positive uid in
    let account = if known then uid else id in
    let message : Text = if known then codes "Login successful" else codes "Login (no DB)" in
    let w2 = set_player s (record (player w1 s) { account_uid = account }) w1 in
    let w3 =
      send s (login_result (record { success = 1; account_uid = account; message = message })) w2 in
    send_char_list s w3

unfoldable pub on_char_list : ℕ → World → World
on_char_list = send_char_list

unfoldable pub on_char_create : ℕ → CharCreate → World → World
on_char_create s req w =
    let c = ProcCall.character_create (player w s).account_uid req.name req.char_type in
    let uid = first_num (reply c w) in
    let w1 = call c w in
    if ltb 0 uid
    then send_char_list s (
        send s
          (char_create_result
            (record { success = 1; char_uid = uid; message = codes "Character created" }))
          w1)
    else send s
        (char_create_result
          (record { success = 0; char_uid = uid; message = codes "Create failed" }))
        w1
