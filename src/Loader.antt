-- ===== src/Loader.antt =====
-- The game data: LoadItems and LoadQuests of GameServer/main.cpp, on the text of the file. A place in
-- a text is what stands from it on. A number without a colon behind its name is 0 here, where the
-- source would read outside of the text; a negative weight is 0.
pub mod Ends
use mmorpg_simulator.Common.{
  ℕ, zero, suc, ◌+◌, ◌-◌, ◌*◌, ◌%◌, ◌^◌, ◌==◌, leb, ◌&&◌, ◌||◌, Bool, true, false, not,
  if◌then◌else◌, Option, none, some, List, [], ◌∷◌, ◌++◌, map, drop, length, Text, codes,
}
use mmorpg_simulator.Common.Int.{ℤ, pos, negsuc, pos_part, neg_part, sub_ℕ}
use mmorpg_simulator.World.Data.{ItemData, DropEntry, QuestData}

abbrev pub begins_with : Text → Text → Bool
begins_with [] t = true
begins_with (a ∷ p) [] = false
begins_with (a ∷ p) (b ∷ t) = a == b && begins_with p t

-- std::string::find: from the first place on at which the pattern stands.
unfoldable pub find_text : Text → Text → Option Text
find_text p [] = if begins_with p [] then some [] else none
find_text p (b ∷ t) = if begins_with p (b ∷ t) then some (b ∷ t) else find_text p t

unfoldable pub find_char : ℕ → Text → Option Text
find_char c [] = none
find_char c (b ∷ t) = if b == c then some (b ∷ t) else find_char c t

-- What stands before the character, or with it.
abbrev pub before_char : ℕ → Text → Text
before_char c [] = []
before_char c (b ∷ t) = if b == c then [] else b ∷ before_char c t

abbrev pub up_to_char : ℕ → Text → Text
up_to_char c [] = []
up_to_char c (b ∷ t) = if b == c then b ∷ [] else b ∷ up_to_char c t

abbrev pub quoted : Text → Text
quoted key = 34 ∷ (key ++ 34 ∷ [])

abbrev pub string_from : Option Text → Text
string_from none = []
string_from (some t) = before_char 34 (drop 1 t)

abbrev pub string_behind : Text → Option Text → Text
string_behind key none = []
string_behind key (some t) = string_from (find_char 34 (drop (length key + 2) t))

-- parseStr
unfoldable pub parse_str : Text → Text → Text
parse_str s key = string_behind key (find_text (quoted key) s)

-- The loop over ':' and ' '.
abbrev pub skip_colons : Text → Text
skip_colons [] = []
skip_colons (b ∷ t) = if b == 58 || b == 32 then skip_colons t else b ∷ t

abbrev pub skip_spaces : Text → Text
skip_spaces [] = []
skip_spaces (b ∷ t) = if b == 32 || leb 9 b && leb b 13 then skip_spaces t else b ∷ t

abbrev pub decimal_from : ℕ → Text → ℕ
decimal_from n [] = n
decimal_from n (b ∷ t) = if leb 48 b && leb b 57 then decimal_from (n * 10 + (b - 48)) t else n

abbrev pub signed_number : Text → ℤ
signed_number [] = pos 0
signed_number (b ∷ t) =
    if b == 45
    then sub_ℕ 0 (decimal_from 0 t)
    else if b == 43
    then pos (decimal_from 0 t)
    else pos (decimal_from 0 (b ∷ t))

-- std::atoi
abbrev pub atoi : Text → ℤ
atoi t = signed_number (skip_spaces t)

abbrev pub number_at : Option Text → ℤ
number_at none = pos 0
number_at (some t) = atoi (skip_colons t)

abbrev pub number_behind : Option Text → ℤ
number_behind none = pos 0
number_behind (some t) = number_at (find_char 58 t)

-- parseInt
unfoldable pub parse_int : Text → Text → ℤ
parse_int s key = number_behind (find_text (quoted key) s)

-- The conversion of an int to an unsigned type with `n` values.
abbrev pub unsigned : ℕ → ℤ → ℕ
unsigned n a = (pos_part a + (n - neg_part a % n)) % n

abbrev pub with_object : Text → Option (List Text) → Option (List Text)
with_object obj none = none
with_object obj (some objs) = some (obj ∷ objs)

-- The loop over the objects of an array, on what is left of it and on all of it: behind an object
-- that no brace closes it begins again. `none`: the fuel ran out.
unfoldable pub objects : ℕ → Text → Text → Option (List Text)
objects zero all rest = none
objects (suc fuel) all rest = elim (find_char 123 rest) [
  | none ↦ some []
  | some t ↦ elim (find_char 125 t) [
    | none ↦ with_object t (objects fuel all all)
    | some u ↦ with_object (up_to_char 125 t) (objects fuel all (drop 1 u))
  ]
]

abbrev pub item_from : Text → ItemData
item_from obj = record {
  id = unsigned (2 ^ 16) (parse_int obj (codes "id"));
  name = parse_str obj (codes "name");
  kind = parse_str obj (codes "type");
  atk = unsigned (2 ^ 16) (parse_int obj (codes "atk"));
  def = unsigned (2 ^ 16) (parse_int obj (codes "def"));
  hp = unsigned (2 ^ 16) (parse_int obj (codes "hp"));
  price = unsigned (2 ^ 32) (parse_int obj (codes "price"));
}

abbrev pub drop_from : Text → DropEntry
drop_from obj = record {
  item_id = unsigned (2 ^ 16) (parse_int obj (codes "itemId"));
  weight = pos_part (parse_int obj (codes "weight"));
}

abbrev pub quest_from : Text → QuestData
quest_from obj = record {
  id = unsigned (2 ^ 16) (parse_int obj (codes "id"));
  name = parse_str obj (codes "name");
  target = unsigned (2 ^ 16) (parse_int obj (codes "target"));
  reward_gold = unsigned (2 ^ 32) (parse_int obj (codes "rewardGold"));
  reward_exp = unsigned (2 ^ 32) (parse_int obj (codes "rewardExp"));
  reward_item_id = unsigned (2 ^ 16) (parse_int obj (codes "rewardItemId"));
}

-- From the bracket on that opens an array to the one that closes it, or to the end of the text
-- where none does; for an array that does not open at the front of the text, as in LoadItems, where
-- its name stands before it. `none`: std::out_of_range.
abbrev pub array_in : Option Text → Option Text
array_in none = none
array_in (some t) = some (up_to_char 93 t)

abbrev pub array_behind : Option Text → Option Text
array_behind none = none
array_behind (some t) = array_in (find_char 91 t)

abbrev pub objects_in : ℕ → Option Text → Option (List Text)
objects_in fuel none = none
objects_in fuel (some arr) = objects fuel arr arr

-- At the front of the text the length `arrEnd - arrStart + 1` wraps to 0 where no bracket closes the
-- array.
abbrev pub front_array : Text → Text
front_array t = elim (find_char 93 t) [ none ↦ [] | some _ ↦ up_to_char 93 t ]

-- The array of LoadQuests, which may open at the front of the text.
abbrev pub quest_array : Text → Option Text
quest_array [] = none
quest_array (b ∷ json) =
    if b == 91 then some (front_array (b ∷ json)) else array_in (find_char 91 json)

-- What LoadQuests appends to `g_quests`. `none`: it has no end on this fuel, or std::out_of_range.
unfoldable pub load_quests : ℕ → Text → Option (List QuestData)
load_quests fuel json = elim (objects_in fuel (quest_array json)) [
  | none ↦ none
  | some objs ↦ some (map quest_from objs)
]

abbrev pub weights : List DropEntry → ℕ
weights [] = 0
weights (d ∷ ds) = d.weight + weights ds

abbrev pub drops_in : ℕ → Option Text → Option (List DropEntry)
drops_in fuel none = some []
drops_in fuel (some t) = elim (objects_in fuel (array_in (find_char 91 t))) [
  | none ↦ none
  | some objs ↦ some (map drop_from objs)
]

pub record LoadedItems : Type 0 where
  pub items : List ItemData
  pub drop_table : List DropEntry
  pub total_weight : ℕ

abbrev pub with_drops : List Text → Option (List DropEntry) → Option LoadedItems
with_drops objs none = none
with_drops objs (some drops) =
    some (record { items = map item_from objs; drop_table = drops; total_weight = weights drops })

-- What LoadItems appends to `g_items` and to `g_dropTable`, with `g_totalWeight`.
unfoldable pub load_items : ℕ → Text → Option LoadedItems
load_items fuel json =
    elim (objects_in fuel (array_behind (find_text (quoted (codes "items")) json))) [
      | none ↦ none
      | some objs ↦ with_drops objs (drops_in fuel (find_text (quoted (codes "dropTable")) json))
    ]
