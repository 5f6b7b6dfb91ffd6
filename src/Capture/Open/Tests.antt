-- ===== src/Capture/Open/Tests.antt =====
-- Filter expressions of capture/capture.go.
use memsniff.Capture.Open.{port_filter}
use memsniff.Capture.Open.Ports.{read_result, read_filter-port_filter}
use memsniff.Common.{◌≡◌, [], ◌∷◌, map, some, arith, pos}

read_filter-port_filter_example :
    read_result (port_filter (map pos (11211 ∷ 11212 ∷ []))) ≡ some (map pos (11211 ∷ 11212 ∷ []))
read_filter-port_filter_example =
    read_filter-port_filter 11211 (11212 ∷ []) (omega arith, (omega arith, tt))
