-- ===== src/Log/Tests.antt =====
-- Messages that main.go logs before the display runs.
use memsniff.Log.{Logs, buffer}
use memsniff.Log.Written.{WrittenOut, logged-WrittenOut}
use memsniff.Common.{ℕ, [], ◌∷◌, some, refl}

-- Every proxy leads to the first buffer.
abbrev start : Logs ℕ
start = record {
  sinks = λ i. [];
  buffers = λ i. (1 ∷ []) ∷ [];
  proxies = λ i. some (record { contexts = []; base = buffer 0 });
}

logged-WrittenOut_example : WrittenOut 1 0 0 3 start (7 ∷ []) ((2 ∷ []) ∷ (3 ∷ 4 ∷ []) ∷ [])
logged-WrittenOut_example =
    logged-WrittenOut 0 0 0 3 start (7 ∷ []) ((2 ∷ []) ∷ (3 ∷ 4 ∷ []) ∷ []) refl
