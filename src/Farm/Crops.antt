-- ===== src/Farm/Crops.antt =====
-- The crop configuration (server/internal/farm/infrastructure/crop_config.go).
use farm_server.Base.{
  ℕ, ◌*◌, ◌/◌, ◌≤◌, ◌<◌, ◌≡◌, ◌&&◌, String, List, [], ◌∷◌, Option, none, some, arith, ltb,
  if◌then◌else◌, str_eq, All, Option-cases, inl, inr, subst,
}
use farm_server.Farm.{minute, max_int64, max_economy_quantity}
use farm_server.Errors.{farm_crop_not_found, internal, coded, Result, ok, err, Result-cases}

pub record CropConfig : Type 0 where
  pub seed_price : ℕ
  pub growth_duration : ℕ
  pub harvest_yield : ℕ
  pub sell_price : ℕ
  pub item_id : ℕ
  pub catalog_key : String

abbrev wheat : CropConfig
wheat = record {
  seed_price = 10;
  growth_duration = 3 * minute;
  harvest_yield = 5;
  sell_price = 20;
  item_id = 1;
  catalog_key = "crop_WHEAT";
}

abbrev carrot : CropConfig
carrot = record {
  seed_price = 20;
  growth_duration = 6 * minute;
  harvest_yield = 6;
  sell_price = 25;
  item_id = 2;
  catalog_key = "crop_CARROT";
}

abbrev tomato : CropConfig
tomato = record {
  seed_price = 30;
  growth_duration = 9 * minute;
  harvest_yield = 8;
  sell_price = 30;
  item_id = 3;
  catalog_key = "crop_TOMATO";
}

unfoldable pub crop_configs : List (String × CropConfig)
crop_configs =
    ("1", wheat)
    ∷ ("WHEAT", wheat)
    ∷ ("2", carrot)
    ∷ ("CARROT", carrot)
    ∷ ("3", tomato)
    ∷ ("TOMATO", tomato)
    ∷ []

unfoldable pub find_config : String → List (String × CropConfig) → Option CropConfig
find_config k [] = none
find_config k ((j, c) ∷ cs) = if str_eq k j then some c else find_config k cs

abbrev pub default_growth_duration : ℕ
default_growth_duration = 10 * minute

-- The guards of `getCropConfig` on one entry of the table.
pub check_prices : CropConfig → Result CropConfig
check_prices cfg =
    if ltb 0 cfg.seed_price && ltb (max_int64 / max_economy_quantity) cfg.seed_price
    then err (coded internal)
    else if ltb 0 cfg.sell_price && ltb (max_int64 / max_economy_quantity) cfg.sell_price
    then err (coded internal)
    else ok cfg

-- `getCropConfig` over a table, and over the one of the program.
abbrev pub config_from : List (String × CropConfig) → String → Result CropConfig
config_from table id = elim (find_config id table) [
  | none ↦ err (coded farm_crop_not_found)
  | some cfg ↦ check_prices cfg
]

unfoldable pub get_crop_config : String → Result CropConfig
unfolding check_prices
get_crop_config id = config_from crop_configs id

unfoldable pub harvest_yield_for_crop : String → ℕ
harvest_yield_for_crop id = elim (get_crop_config id) [
  | ok cfg ↦ if ltb 0 cfg.harvest_yield then cfg.harvest_yield else 1
  | err e ↦ 1
]

unfoldable pub crop_id_to_item_id : String → ℕ
crop_id_to_item_id id = elim (get_crop_config id) [
  | ok cfg ↦ if ltb 0 cfg.item_id then cfg.item_id else 1
  | err e ↦ 1
]

unfoldable pub catalog_key_for_crop : String → Option String
catalog_key_for_crop id = elim (get_crop_config id) [
  | ok cfg ↦ if str_eq cfg.catalog_key "" then none else some cfg.catalog_key
  | err e ↦ none
]

-- What every entry of the table satisfies.
pub record IsSound (cfg : CropConfig) : Type 0 where
  pub seed_safe : cfg.seed_price * max_economy_quantity ≤ max_int64
  pub sell_safe : cfg.sell_price * max_economy_quantity ≤ max_int64
  pub seed_positive : 0 < cfg.seed_price
  pub yield_positive : 0 < cfg.harvest_yield
  pub yield_small : cfg.harvest_yield < 10
  pub item_positive : 0 < cfg.item_id
  pub ripens_late : 2 * minute < cfg.growth_duration

find_config-All :
    (P : CropConfig → Type 0) (id : String) (cfg : CropConfig) (cs : List (String × CropConfig))
    → All (λ e. P e.1) cs
    → find_config id cs ≡ some cfg
    → P cfg
unfolding find_config
find_config-All P id cfg [] h e = cc
find_config-All P id cfg ((j, c) ∷ cs) h e = ground (arith, find_config-All P id cfg cs h.1)

crop_configs-IsSound : All (λ e. IsSound e.1) crop_configs
unfolding crop_configs
crop_configs-IsSound = omega arith

-- A configuration that `get_crop_config` returns has a yield between 1 and 9, an item, prices whose
-- product with the largest quantity fits an `int64`, and ripens after more than the two minutes
-- that watering can take off.
pub get_crop_config-IsSound :
    (id : String) (cfg : CropConfig) → get_crop_config id ≡ ok cfg → IsSound cfg
unfolding get_crop_config
get_crop_config-IsSound id cfg h = elim (Option-cases (find_config id crop_configs)) [
  | inl e ↦ ground arith
  | inr (c, e) ↦
      subst IsSound (ground arith)
        (find_config-All IsSound id c crop_configs crop_configs-IsSound e)
]

-- Both prices times the largest quantity fit an `int64`.
abbrev pub IsAffordable : CropConfig → Type 0
IsAffordable cfg =
    (cfg.seed_price * max_economy_quantity ≤ max_int64)
    × (cfg.sell_price * max_economy_quantity ≤ max_int64)

pub harvest_yield_bounds :
    (id : String) → (0 < harvest_yield_for_crop id) × (harvest_yield_for_crop id < 10)
unfolding harvest_yield_for_crop
harvest_yield_bounds id = elim (Result-cases (get_crop_config id)) [
  | inl (cfg, e) ↦ ground (arith, get_crop_config-IsSound id cfg e)
  | inr (e, h) ↦ ground arith
]
