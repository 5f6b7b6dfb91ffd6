-- ===== src/Presentation/Ui.antt =====
-- presentation/presentation.go and the event loop of presentation/termbox.go, as steps of its
-- goroutine and of those that log. Calls of termbox are taken to succeed.
pub mod Messages
pub mod Pausing
mod Tests
use memsniff.Mctext.Text.{codes}
use memsniff.Analysis.Pool.{Pool, KeyReport, report}
use memsniff.Presentation.Screen.{
  Cell, Size, Stats, log_lines, render_header, render_report, render_footer, render_messages,
}
use memsniff.Common.{
  ℕ, zero, suc, Bool, true, false, not, ◌||◌, List, [], ◌∷◌, ◌++◌, Option, none, some, ltb, ◌==◌,
  if◌then◌else◌, length, drop, ℤ,
}

-- A key event has a rune or a special key, and the other is 0.
pub data Event : Type 0 where
  key : ℕ → ℕ → Event
  resize other : Event

-- The goroutine of the event loop is at its select, or in Log with a message for a key event, or
-- has returned nil.
pub data Phase : Type 0 where
  looping quit : Phase
  sending : List ℕ → ℕ → ℕ → Phase

pub record Ui : Type 0 where
  pub analysis : Pool
  pub messages : List (List ℕ)
  pub msg_chan : List (List ℕ)
  pub prev_report : List KeyReport
  pub cumulative : Bool
  pub paused : Bool
  pub phase : Phase
  pub screen : List Cell

-- The update tick fires, the loop takes a message, an event comes, another goroutine logs, and the
-- loop's own message is sent.
pub data Action : Type 0 where
  tick receive send : Action
  event : Event → Action
  log : List ℕ → Action

abbrev pub msg_cap : ℕ
msg_cap = 128

-- termbox.KeyCtrlC and termbox.KeyCtrlL
abbrev pub ctrl_c : ℕ
ctrl_c = 3

abbrev pub ctrl_l : ℕ
ctrl_l = 12

unfoldable pub new_ui : Pool → Bool → Ui
new_ui analysis cumulative = record {
  analysis = analysis;
  messages = [];
  msg_chan = [];
  prev_report = [];
  cumulative = cumulative;
  paused = false;
  phase = looping;
  screen = [];
}

unfoldable pub handle_new_message : Ui → List ℕ → Ui
handle_new_message u msg =
    if ltb (length u.messages) log_lines
    then record u { messages = u.messages ++ msg ∷ [] }
    else record u { messages = drop 1 u.messages ++ msg ∷ [] }

-- A message enters the channel, if it has room.
unfoldable pub enter : Ui → List ℕ → Option Ui
enter u msg =
    if ltb (length u.msg_chan) msg_cap
    then some (record u { msg_chan = u.msg_chan ++ msg ∷ [] })
    else none

abbrev pub pause_text : Bool → List ℕ
pause_text true = codes "Updates paused\n"
pause_text false = codes "Updates unpaused\n"

-- handlePause up to its call of Log.
unfoldable pub handle_pause : Ui → ℕ → ℕ → Ui
handle_pause u ch k = record u {
  paused = not u.paused;
  phase = sending (pause_text (not u.paused)) ch k;
}

-- The terminal: its size, the widths of runes, the times of reports and the drop rate as text, and
-- the statistics of the moment.
module _ (rune_width : ℕ → ℕ) (size : Size) (rate : ℤ → ℤ → List ℕ) (time : List ℕ)
    (stats : Stats) where
  unfoldable pub draw : List KeyReport → List (List ℕ) → List Cell
  draw keys msgs =
      render_header rune_width size
      ++ (render_report rune_width size keys
          ++ (render_footer rune_width size rate time stats
              ++ render_messages rune_width size msgs))

  unfoldable pub update : Ui → Ui
  update u =
      let (analysis, rep) = report u.analysis (not u.cumulative) in
      let shown : List KeyReport = if u.paused then u.prev_report else rep in
      record u { analysis = analysis; prev_report = shown; screen = draw shown u.messages }

  -- A key event behind the test for the pause key.
  unfoldable pub after_pause : Ui → ℕ → ℕ → Ui
  after_pause u ch k =
      if ch == b'q' || k == ctrl_c
      then record u { phase = quit }
      else if k == ctrl_l
      then update u
      else u

  unfoldable pub handle_event : Ui → Event → Ui
  handle_event u (key ch k) = if ch == b'p' then handle_pause u ch k else after_pause u ch k
  handle_event u resize = update u
  handle_event u other = u

  -- A step of the event loop at a phase; `none` where it waits or has returned.
  unfoldable pub loop_step : Ui → Phase → Action → Option Ui
  loop_step u looping tick = some (update u)
  loop_step u looping receive = elim u.msg_chan [
    | [] ↦ none
    | msg ∷ rest ↦ some (handle_new_message (record u { msg_chan = rest }) msg)
  ]
  loop_step u looping (event e) = some (handle_event u e)
  loop_step u looping send = none
  loop_step u looping (log msg) = enter u msg
  loop_step u (sending msg ch k) send = elim (enter u msg) [
    | none ↦ none
    | some v ↦ some (after_pause (record v { phase = looping }) ch k)
  ]
  loop_step u (sending msg ch k) tick = none
  loop_step u (sending msg ch k) receive = none
  loop_step u (sending msg ch k) (event e) = none
  loop_step u (sending msg ch k) (log other_msg) = enter u other_msg
  loop_step u quit tick = none
  loop_step u quit receive = none
  loop_step u quit send = none
  loop_step u quit (event e) = none
  loop_step u quit (log msg) = enter u msg

  unfoldable pub runs : List Action → Ui → Option Ui
  runs [] u = some u
  runs (a ∷ acts) u = elim (loop_step u u.phase a) [ none ↦ none | some v ↦ runs acts v ]
