-- ===== src/Readings/Pins/Tests.antt =====
-- Runs of src/docketyard/text/load.py, `declare_producer` and `repoint_producer`.
use docket_yard.Prelude.{◌≤◌, ◌≡◌, none, some, List, [], ◌∷◌, arith}
use docket_yard.Readings.Pins.{PinKey, Producer, Declaration, pinned, declaration, repoint_producer}
use docket_yard.Readings.Pins.Moved.{pins_of, pinned-repoint_producer}

abbrev native : PinKey
native = record {
  reading_channel = "text-layer";
  render_profile = "native";
  reading_role = "primary";
}

abbrev old : Producer
old = record { method = "pymupdf"; method_version = "1.24" }

abbrev new : Producer
new = record { method = "pymupdf"; method_version = "1.26" }

abbrev rows : List Declaration
rows = declaration 100 native old none 1 ∷ []

pinned-repoint_producer_example :
    (pinned native (repoint_producer 200 native new none rows) ≡ some new)
    × (pins_of native (repoint_producer 200 native new none rows) ≤ 1)
pinned-repoint_producer_example = pinned-repoint_producer native 200 new none rows (omega arith)
