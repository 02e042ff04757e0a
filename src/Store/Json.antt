-- ===== src/Store/Json.antt =====
-- The stored form of a snapshot: `marshalSnapshot` and `unmarshalSnapshot` of
-- server/internal/farm/infrastructure/committer_mysql.go.
use farm_server.Base.{
  ℕ, ◌≡◌, refl, not, ◌&&◌, String, List, [], ◌∷◌, Option, none, some, Dict, insert, IsDistinct,
  erase_absent, All, if◌then◌else◌, arith,
}
use farm_server.Farm.{Plot}
use farm_server.Farm.Crops.{harvest_yield_for_crop}
use farm_server.Farm.Growth.{is_empty}
use farm_server.Farm.Apply.{is_unset}
use farm_server.Store.{Env, ReadsBack, PlotJson}

plot_to_json : Plot → PlotJson
plot_to_json p = record {
  crop_id = p.crop_id;
  status = p.status;
  planted_at = p.planted_at;
  mature_at = p.mature_at;
  watered_count = p.watered_count;
  remaining_yield = some p.remaining_yield;
}

-- Snapshots older than `remaining_yield` have the crop's yield on each planted plot.
yield_from_json : PlotJson → Option ℕ → ℕ
yield_from_json p (some n) = n
yield_from_json p none =
    if not (is_empty p.status) && not (is_unset p.status)
    then harvest_yield_for_crop p.crop_id
    else 0

plot_from_json : ℕ → PlotJson → Plot
unfolding yield_from_json
plot_from_json id p = record {
  plot_id = id;
  crop_id = p.crop_id;
  status = p.status;
  planted_at = p.planted_at;
  mature_at = p.mature_at;
  watered_count = p.watered_count;
  remaining_yield = yield_from_json p p.remaining_yield;
}

unfoldable pub marshal_plots : Env → Dict Plot → List (String × PlotJson)
unfolding plot_to_json
marshal_plots env [] = []
marshal_plots env ((id, p) ∷ plots) = (env.itoa id, plot_to_json p) ∷ marshal_plots env plots

add_plot : Option ℕ → PlotJson → Option (Dict Plot) → Option (Dict Plot)
add_plot none p plots = none
add_plot (some id) p none = none
add_plot (some id) p (some plots) = some (insert id (plot_from_json id p) plots)

-- `none` is the error for a key that is no plot id.
unfoldable pub unmarshal_plots : Env → List (String × PlotJson) → Option (Dict Plot)
unfolding plot_from_json add_plot
unmarshal_plots env [] = some []
unmarshal_plots env ((key, p) ∷ body) = add_plot (env.parse_int key) p (unmarshal_plots env body)

-- Every plot stands under its own id, as the commands leave it.
abbrev pub HasOwnIds : Dict Plot → Type 0
HasOwnIds = All (λ e. e.1.plot_id ≡ e.0)

-- A stored map of plots is read back as it was, if each plot stands once, under its own id, and the
-- decimal text of an id is read back as that id.
pub unmarshal-marshal :
    (env : Env) (plots : Dict Plot)
    → ReadsBack env
    → IsDistinct plots
    → HasOwnIds plots
    → unmarshal_plots env (marshal_plots env plots) ≡ some plots
unfolding unmarshal_plots marshal_plots
unmarshal-marshal env [] back d ids = refl
unmarshal-marshal env ((id, p) ∷ plots) back d ids =
    rw (back id, unmarshal-marshal env plots back d.1 ids.1, erase_absent id plots d.0)
      (ground arith)
