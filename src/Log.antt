-- ===== src/Log.antt =====
-- log/logger.go: loggers over a store that holds what was logged. A logger is the contexts that were
-- wrapped round another one, the outermost first, and what they are wrapped round.
pub mod Written
mod Tests
use memsniff.Common.{
  ℕ, zero, suc, Bool, true, false, List, [], ◌∷◌, ◌++◌, Option, none, some, ◌==◌, if◌then◌else◌,
}

-- A sink only takes messages, such as a ConsoleLogger or the display; loggers of each kind are
-- numbered.
pub data Base : Type 0 where
  sink buffer proxy : ℕ → Base

pub record Logger (Item : Type 0) : Type 0 where
  pub contexts : List Item
  pub base : Base

-- The messages of each sink and each BufferLogger, and what each ProxyLogger forwards to.
pub record Logs (Item : Type 0) : Type 0 where
  pub sinks : ℕ → List (List Item)
  pub buffers : ℕ → List (List Item)
  pub proxies : ℕ → Option (Logger Item)

abbrev pub put : {A : Type 0} → (ℕ → A) → ℕ → A → ℕ → A
put f i a j = if j == i then a else f j

module _ {Item : Type 0} where
  -- NewContext; `none` is nil.
  unfoldable pub new_context : Option (Logger Item) → Item → Option (Logger Item)
  new_context none context = none
  new_context (some l) context = some (record l { contexts = context ∷ l.contexts })

  -- What (*ContextLogger).Log makes of a message on its way in.
  unfoldable pub with_contexts : List Item → List Item → List Item
  with_contexts [] items = items
  with_contexts (c ∷ cs) items = with_contexts cs (c ∷ items)

  unfoldable pub set_logger : Logs Item → ℕ → Logger Item → Logs Item
  set_logger s i l = record s { proxies = put s.proxies i (some l) }

  -- Log, on fuel for each proxy; `none` is the panic of a proxy with no logger, or that proxies
  -- forward in a circle.
  unfoldable pub log_to : ℕ → Logs Item → Base → List Item → Option (Logs Item)
  log_to fuel s (sink i) items = some (record s { sinks = put s.sinks i (s.sinks i ++ items ∷ []) })
  log_to fuel s (buffer i) items =
      some (record s { buffers = put s.buffers i (s.buffers i ++ items ∷ []) })
  log_to zero s (proxy i) items = none
  log_to (suc fuel) s (proxy i) items = elim (s.proxies i) [
    | none ↦ none
    | some l ↦ log_to fuel s l.base (with_contexts l.contexts items)
  ]

  unfoldable pub log : ℕ → Logs Item → Logger Item → List Item → Option (Logs Item)
  log fuel s l items = log_to fuel s l.base (with_contexts l.contexts items)

  unfoldable pub log_all : ℕ → Logs Item → Logger Item → List (List Item) → Option (Logs Item)
  log_all fuel s l [] = some s
  log_all fuel s l (m ∷ ms) = elim (log fuel s l m) [ none ↦ none | some t ↦ log_all fuel t l ms ]

  -- Whether a message to a logger ends in BufferLogger `b`, whose lock WriteTo holds.
  unfoldable pub reaches : ℕ → Logs Item → Base → ℕ → Bool
  reaches fuel s (sink i) b = false
  reaches fuel s (buffer i) b = i == b
  reaches zero s (proxy i) b = false
  reaches (suc fuel) s (proxy i) b = elim (s.proxies i) [
    | none ↦ false
    | some l ↦ reaches fuel s l.base b
  ]

  -- WriteTo; `none` also where it waits for its own lock.
  unfoldable pub write_to : ℕ → Logs Item → ℕ → Logger Item → Option (Logs Item)
  write_to fuel s b l = if reaches fuel s l.base b then none else log_all fuel s l (s.buffers b)
