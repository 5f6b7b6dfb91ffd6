-- ===== src/Presentation/Ui/Pausing.antt =====
-- What the pause key does in presentation/termbox.go.
use memsniff.Presentation.Screen.{Size, Stats}
use memsniff.Presentation.Ui.{
  Ui, looping, sending, Action, tick, receive, send, event, log, key, msg_cap, enter, pause_text,
  handle_pause, handle_event, loop_step, runs,
}
use memsniff.Common.{ℕ, ◌≤◌, ◌≡◌, refl, not, List, [], ◌∷◌, none, some, length, ℤ, le→ltb_false}

full_enter : (u : Ui) (msg : List ℕ) → msg_cap ≤ length u.msg_chan → enter u msg ≡ none
unfolding enter
full_enter u msg h = rw (le→ltb_false (length u.msg_chan) msg_cap h) refl

module _ (rune_width : ℕ → ℕ) (size : Size) (rate : ℤ → ℤ → List ℕ) (time : List ℕ)
    (stats : Stats) where
  -- In Log with the channel full, no step is possible at all.
  stuck :
      (u : Ui) (msg : List ℕ) (ch k : ℕ) (a : Action)
      → msg_cap ≤ length u.msg_chan
      → loop_step rune_width size rate time stats u (sending msg ch k) a ≡ none
  unfolding loop_step
  stuck u msg ch k tick h = refl
  stuck u msg ch k receive h = refl
  stuck u msg ch k send h = rw (full_enter u msg h, loop_step) refl
  stuck u msg ch k (event e) h = refl
  stuck u msg ch k (log other_msg) h = full_enter u other_msg h

  -- When the event loop is at its select and msgChan is full, a press of the pause key is
  -- handled up to its call of Log, and then no step is possible, neither of the event loop nor
  -- of another goroutine that logs.
  pub pause-stuck :
      (u : Ui) (k : ℕ) (a : Action) (acts : List Action)
      → u.phase ≡ looping
      → msg_cap ≤ length u.msg_chan
      → (runs rune_width size rate time stats (event (key b'p' k) ∷ []) u
          ≡ some (handle_pause u b'p' k))
        × (runs rune_width size rate time stats (event (key b'p' k) ∷ a ∷ acts) u ≡ none)
  unfolding runs loop_step handle_event handle_pause
  pause-stuck u k a acts p h =
      (rw p refl, rw (p, stuck (handle_pause u b'p' k) (pause_text (not u.paused)) b'p' k a h) refl)
