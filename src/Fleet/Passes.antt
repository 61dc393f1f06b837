-- ===== src/Fleet/Passes.antt =====
-- tools/fleet/pagequeue.py, `PASSES`, with the names of tools/rmi-ai-machine/ocr_wave.py that it
-- takes: the reading keys, the roots and the prefix of a failure that is the page's own.
use docket_yard.Prelude.{ℕ, String, Option, none, some, List, [], ◌∷◌, str_eq, if◌then◌else◌}
use docket_yard.Fleet.Rows.{Producer}

abbrev pub page_owned : String
page_owned = "page:"

abbrev pub dots_key : Producer
dots_key = ("method", "dots.mocr") ∷ ("method_version", "1.5") ∷ ("render_profile", "200") ∷ []

abbrev pub hunyuan_key : Producer
hunyuan_key = ("method", "hunyuan-ocr") ∷ ("method_version", "1.5") ∷ ("render_profile", "150") ∷ []

-- The function that turns a worker's answer into an engine page and its text.
pub data Builder : Type 0 where
  dots_page hunyuan_page : Builder

pub data Source : Type 0 where
  route list : Source

-- An entry of `PASSES`. Roots are directory names; the megapixels are in tenths.
pub record Spec : Type 0 where
  pub key : Producer
  pub role : String
  pub payload_kind : String
  pub class : Option String
  pub seeded_from : Source
  pub route_root : String
  pub root : String
  pub invalidates : List String
  pub max_megapixels : ℕ
  pub page : Builder

abbrev pub dots : Spec
dots = record {
  key = dots_key;
  role = "primary";
  payload_kind = "dots.mocr.json";
  class = some "degraded";
  seeded_from = Source.route;
  route_root = "route";
  root = "dots";
  invalidates = "ppocr-second" ∷ [];
  max_megapixels = 60;
  page = dots_page;
}

abbrev pub tabular : Spec
tabular = record {
  key = hunyuan_key;
  role = "primary";
  payload_kind = "hunyuan-ocr.json";
  class = some "tabular";
  seeded_from = Source.route;
  route_root = "route";
  root = "hunyuan-tabular";
  invalidates = [];
  max_megapixels = 60;
  page = hunyuan_page;
}

abbrev pub reread : Spec
reread = record {
  key = dots_key;
  role = "second";
  payload_kind = "dots.mocr.json";
  class = none;
  seeded_from = Source.list;
  route_root = "route-reread";
  root = "dots-reread";
  invalidates = [];
  max_megapixels = 60;
  page = dots_page;
}

-- `PASSES[pass_]`; `none` is its KeyError.
abbrev pub passes : String → Option Spec
passes p =
    if str_eq p "dots"
    then some dots
    else if str_eq p "tabular"
    then some tabular
    else if str_eq p "reread"
    then some reread
    else none
