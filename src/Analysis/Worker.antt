-- ===== src/Analysis/Worker.antt =====
-- analysis/worker.go: one worker, with the channel of batches that wait for it and its hotlist.
pub mod Copy
pub mod Steps
mod Tests
use memsniff.Model.{Event, EventType, event_get_hit}
use memsniff.Hotlist.{Entry, add_all, top}
use memsniff.Common.{
  ℕ, zero, suc, ◌+◌, ◌-◌, ◌≡◌, refl, ap, ap₂, same_bytes?, same_ℤ?, Bool, true, false, List, [],
  ◌∷◌, ◌++◌, Option, none, some, ltb, if◌then◌else◌, length, replicate, ℤ, pos,
}

pub record KeyInfo : Type 0 where
  pub name : List ℕ
  pub size : ℤ

-- Go's comparison of two keyInfos as map keys.
unfoldable pub same_info? : (a b : KeyInfo) → Dec (a ≡ b)
same_info? a b = elim (same_bytes? a.name b.name) [
  | no d ↦ no (λ e. d (ap (λ (k : KeyInfo). k.name) e))
  | yes p ↦ elim (same_ℤ? a.size b.size) [
    | no d ↦ no (λ e. d (ap (λ (k : KeyInfo). k.size) e))
    | yes q ↦ yes (ap₂ (λ n s. record { name = n; size = s }) p q)
  ]
]

-- Weight
abbrev pub weight : KeyInfo → ℤ
weight ki = ki.size

-- The zero value.
abbrev pub blank : KeyInfo
blank = record { name = []; size = pos 0 }

-- `make(chan []keyInfo, 1024)`
abbrev pub queue_cap : ℕ
queue_cap = 1024

pub record Worker : Type 0 where
  pub hl : List (Entry KeyInfo)
  pub waiting : List (List KeyInfo)

unfoldable pub new_worker : Worker
new_worker = record { hl = []; waiting = [] }

abbrev pub is_hit : EventType → Bool
is_hit event_get_hit = true
is_hit _ = false

abbrev pub info : Event → KeyInfo
info e = record { name = e.key; size = e.size }

-- `kis = kis[:i+1]; kis[i] = ki`, where the array behind `kis` is zero from its length on.
unfoldable pub put : List KeyInfo → ℕ → KeyInfo → List KeyInfo
put kis i ki = (kis ++ replicate (i - length kis) blank) ++ ki ∷ []

-- The loop of handleEvents, at index `i`.
unfoldable pub copy_hits : ℕ → List KeyInfo → List Event → List KeyInfo
copy_hits i kis [] = kis
copy_hits i kis (e ∷ es) = copy_hits (suc i) (if is_hit e.type then put kis i (info e) else kis) es

-- handleEvents; the result is false for errQueueFull.
unfoldable pub handle_events : Worker → List Event → Worker × Bool
handle_events w evts =
    if ltb (length w.waiting) queue_cap
    then (record w { waiting = w.waiting ++ copy_hits 0 [] evts ∷ [] }, true)
    else (w, false)

-- The cases of the select in loop: a batch is counted, the top entries are asked for, or all are
-- forgotten. A channel with nothing in it leaves its case waiting.
unfoldable pub take_batch : Worker → Worker
take_batch w = elim w.waiting [
  | [] ↦ w
  | kis ∷ rest ↦ record { hl = add_all same_info? w.hl kis; waiting = rest }
]

unfoldable pub worker_top : Worker → ℕ → List (Entry KeyInfo)
worker_top w k = top weight w.hl k

unfoldable pub reset_worker : Worker → Worker
reset_worker w = record w { hl = [] }
