-- ===== src/Tests/Loading.antt =====
-- The loaders on small files.
use mmorpg_simulator.Common.{ℕ, ◌≡◌, ◌⊎◌, refl, some, none, List, [], ◌∷◌, arith, Text, codes}
use mmorpg_simulator.Loader.{load_quests, objects, find_text, find_char, parse_str, parse_int}
use mmorpg_simulator.Loader.Ends.{IsOpen, objects_end}

abbrev quest_file : Text
quest_file = codes "[{\"id\": 3, \"name\": \"Ore\", \"target\": 5, \"rewardGold\":70}]"

quests_loaded :
    load_quests 10 quest_file
    ≡ some (
        record {
          id = 3;
          name = codes "Ore";
          target = 5;
          reward_gold = 70;
          reward_exp = 0;
          reward_item_id = 0;
        }
        ∷ [])
unfolding load_quests objects find_text find_char parse_str parse_int
quests_loaded = refl

-- An array inside an object ends the outer one too early, before the object's brace.
abbrev nested : Text
nested = codes "[{\"tags\": [1]"

objects_end_example :
    ((objs : List Text) × (objects 20 nested nested ≡ some objs))
    ⊎ (IsOpen nested × ((more : ℕ) → objects more nested nested ≡ none))
objects_end_example = objects_end 20 nested (omega arith)
