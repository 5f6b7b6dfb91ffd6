-- ===== src/Mctext/Args.antt =====
-- readArgs of protocol/mctext/consumer.go, and whole request lines.
use memsniff.Buffer.{contains}
use memsniff.Buffer.Reading.{Free, Free-append}
use memsniff.Source
use memsniff.Source.{Source}
use memsniff.Source.Plain.{SourceHolds}
use memsniff.Model.{with_server}
use memsniff.Mctext.Text.{codes, trim_right, ascii_word}
use memsniff.Mctext.{
  Conversation, Fields, State, Step, client, server, delimiters, goto, read_args, read_command,
  command_state, read_word, after_arg, step_read_args, step_read_command, step_in, step, or_unset,
  init, last, run_loop,
}
use memsniff.Mctext.Run.{run_loop_next}
use memsniff.Mctext.Request.{
  Ending, space, newline, crlf, before, delim, ended, read_word-ReadsWord, trim_right-stop,
  trim_right-end, delim-contains, before-Free, read_command-ReadsCommand, next_state,
}
use memsniff.Common.{
  ℕ, suc, ◌+◌, ◌≡◌, refl, sym, ap, ap₂, ◌∙◌, true, List, [], ◌∷◌, ◌++◌, append_assoc, append-nil,
  none, some, arith, length, length-append, take, take-append_length, subst, if◌then◌else◌, ◌==◌,
}

last-snoc : (x : ℕ) (xs : List ℕ) (d : ℕ) → last x (xs ++ d ∷ []) ≡ d
last-snoc x [] d = refl
last-snoc x (y ∷ ys) d = last-snoc y ys d

init-snoc : (x : ℕ) (xs : List ℕ) (d : ℕ) → init x (xs ++ d ∷ []) ≡ x ∷ xs
init-snoc x xs d =
    ap (λ n. take n (x ∷ (xs ++ d ∷ []))) {x = length (xs ++ d ∷ [])} {y = suc (length xs)}
      (omega (arith, length-append xs (d ∷ [])))
    ∙ ap (◌∷◌ x) (take-append_length xs (d ∷ []))

-- An argument that has been read.
abbrev with_arg : Conversation → List ℕ → Conversation
with_arg c arg = record c { own = record c.own { args = c.own.args ++ arg ∷ [] } }

after_arg-snoc :
    (c : Conversation) (xs : List ℕ) (d : ℕ)
    → after_arg c (xs ++ d ∷ []) ≡ (
        let c' = with_arg c (trim_right (codes "\r") xs) in
        if d == b' ' then (c', none) else (goto c' (or_unset (command_state c.own.cmd)), none))
unfolding after_arg
after_arg-snoc c [] d = refl
after_arg-snoc c (x ∷ xs) d = rw (init-snoc x xs d, last-snoc x xs d) refl

-- The bytes that an argument may not hold: those that end it, and those that are trimmed from it.
abbrev pub IsArg : List ℕ → Type 0
IsArg word = Free delimiters word × Free (codes "\r") word

trimmed_arg :
    (word : List ℕ) (e : Ending) → IsArg word → trim_right (codes "\r") (word ++ before e) ≡ word
unfolding contains
trimmed_arg word space a =
    ap (trim_right (codes "\r")) (append-nil word) ∙ trim_right-stop (codes "\r") word a.1
trimmed_arg word newline a =
    ap (trim_right (codes "\r")) (append-nil word) ∙ trim_right-stop (codes "\r") word a.1
trimmed_arg word crlf a =
    trim_right-end (codes "\r") word b'\r' refl ∙ trim_right-stop (codes "\r") word a.1

-- The State behind an argument.
abbrev pub after_state : Ending → Fields → State
after_state space o = o.state
after_state _ o = or_unset (command_state o.cmd)

pub record ReadsArg (c : Conversation) (word rest : List ℕ) (e : Ending) (r : Step) : Type 0 where
  pub no_error : r.1 ≡ none
  pub own_is :
      r.0.own ≡ record c.own { state = after_state e c.own; args = c.own.args ++ word ∷ [] }
  pub holds : SourceHolds (client r.0) rest

after_arg_word :
    (c : Conversation) (word : List ℕ) (e : Ending)
    → IsArg word
    → after_arg c ((word ++ before e) ++ delim e ∷ []) ≡ (
      record c {
        own = record c.own { state = after_state e c.own; args = c.own.args ++ word ∷ [] };
      },
      none,
    )
after_arg_word c word space a =
    after_arg-snoc c (word ++ []) b' ' ∙ ap (λ w. (with_arg c w, none)) (trimmed_arg word space a)
after_arg_word c word newline a =
    after_arg-snoc c (word ++ []) b'\n'
    ∙ ap (λ w. (goto (with_arg c w) (or_unset (command_state c.own.cmd)), none))
        (trimmed_arg word newline a)
after_arg_word c word crlf a =
    after_arg-snoc c (word ++ codes "\r") b'\n'
    ∙ ap (λ w. (goto (with_arg c w) (or_unset (command_state c.own.cmd)), none))
        (trimmed_arg word crlf a)

read_args-ReadsArg :
    (c : Conversation) (word rest : List ℕ) (e : Ending)
    → IsArg word
    → SourceHolds (client c) (word ++ ended e rest)
    → ReadsArg c word rest e (step_read_args c)
unfolding step_read_args
read_args-ReadsArg c word rest e a h =
    let c' = with_server c (Source.truncate (server c)) in
    ground (
      arith,
      read_word-ReadsWord c' (word ++ before e) rest (delim e)
          (subst (SourceHolds (client c)) (sym (append_assoc word (before e) (delim e ∷ rest))) h)
          (Free-append delimiters word (before e) a.0 (before-Free e)) (delim-contains e),
      after_arg_word (read_word c').0 word e a,
    )

-- A request line's arguments, the last one ended by the line.
unfoldable pub render_args : List ℕ → List (List ℕ) → List ℕ → List ℕ
render_args last [] rest = last ++ ended crlf rest
render_args word (w ∷ ws) rest = word ++ ended space (render_args w ws rest)

abbrev pub AllArgs : List (List ℕ) → Type 0
AllArgs [] = Unit
AllArgs (w ∷ ws) = IsArg w × AllArgs ws

-- After some rounds of the loop, the request is parsed.
pub record Parses (c : Conversation) (rounds : ℕ) (own : Fields) (rest : List ℕ) : Type 0 where
  pub parsed : Conversation
  pub loops : (f : ℕ) → run_loop (f + rounds) c ≡ run_loop f parsed
  pub own_is : parsed.own ≡ own
  pub holds : SourceHolds (client parsed) rest

one_round :
    (f : ℕ) (c : Conversation) (n : ℕ)
    → (step c).1 ≡ none
    → run_loop (f + suc n) c ≡ run_loop (f + n) (step c).0
one_round f c n e =
    ap (λ k. run_loop k c) {x = f + suc n} {y = suc (f + n)} (omega arith)
    ∙ run_loop_next (f + n) c e

args_parsed : Fields → List (List ℕ) → Fields
args_parsed o ws = record o { state = or_unset (command_state o.cmd); args = o.args ++ ws }

-- The round in the state readArgs.
round_args : (c : Conversation) → c.own.state ≡ read_args → step c ≡ step_read_args c
unfolding step_in
round_args c s = ap (λ t. step_in t c) s

read_args-Parses :
    (ws : List (List ℕ)) (c : Conversation) (word rest : List ℕ)
    → c.own.state ≡ read_args
    → IsArg word
    → AllArgs ws
    → SourceHolds (client c) (render_args word ws rest)
    → Parses c (suc (length ws)) (args_parsed c.own (word ∷ ws)) rest
unfolding render_args args_parsed
read_args-Parses [] c word rest s a all h =
    let r = read_args-ReadsArg c word rest crlf a h in
    record {
      parsed = (step_read_args c).0;
      loops = λ f.
          one_round f c 0 (ap (λ (x : Step). x.1) (round_args c s) ∙ r.no_error)
          ∙ ap₂ run_loop {x = f + 0} {y = f} (omega arith)
              (ap (λ (x : Step). x.0) (round_args c s));
      own_is = r.own_is;
      holds = r.holds;
    }
read_args-Parses (w ∷ ws) c word rest s a all h =
    let r = read_args-ReadsArg c word (render_args w ws rest) space a h in
    let p =
      read_args-Parses ws (step_read_args c).0 w rest (ap (λ (o : Fields). o.state) r.own_is ∙ s)
        all.0 all.1 r.holds in
    record {
      parsed = p.parsed;
      loops = λ f.
          one_round f c (suc (length ws)) (ap (λ (x : Step). x.1) (round_args c s) ∙ r.no_error)
          ∙ ap (λ (x : Step). run_loop (f + suc (length ws)) x.0) (round_args c s)
          ∙ p.loops f;
      own_is =
          p.own_is
          ∙ ap (λ (o : Fields). args_parsed o (w ∷ ws)) r.own_is
          ∙ ap (λ ws'. record c.own { state = or_unset (command_state c.own.cmd); args = ws' })
              (append_assoc c.own.args (word ∷ []) (w ∷ ws));
      holds = p.holds;
    }

round_command : (c : Conversation) → c.own.state ≡ read_command → step c ≡ step_read_command c
unfolding step_in
round_command c s = ap (λ t. step_in t c) s

-- A client stream that begins with a known command, a space, and arguments with spaces between
-- them and a carriage return and newline behind the last, read from the state readCommand:
-- after one round of the loop of run for the command and one for each argument, the
-- conversation has that command, exactly those arguments and the State that handles the
-- command, and the client stream is behind the line.
pub request-Parses :
    (c : Conversation) (cmd word : List ℕ) (ws : List (List ℕ)) (rest : List ℕ) (handler : State)
    → c.own.state ≡ read_command
    → ascii_word cmd ≡ true
    → command_state cmd ≡ some handler
    → IsArg word
    → AllArgs ws
    → SourceHolds (client c) (cmd ++ ended space (render_args word ws rest))
    → Parses c
        (suc (suc (length ws)))
        (record { state = handler; cmd = cmd; args = word ∷ ws })
        rest
unfolding args_parsed
request-Parses c cmd word ws rest handler s a known arg all h =
    let r = read_command-ReadsCommand c cmd (render_args word ws rest) space a h in
    let own : (step_read_command c).0.own ≡ record { state = read_args; cmd = cmd; args = [] } =
      r.own_is ∙ ap (λ o. record { state = next_state o; cmd = cmd; args = [] }) known in
    let p =
      read_args-Parses ws (step_read_command c).0 word rest (ap (λ (o : Fields). o.state) own) arg
        all r.holds in
    record {
      parsed = p.parsed;
      loops = λ f.
          one_round f c (suc (length ws)) (ap (λ (x : Step). x.1) (round_command c s) ∙ r.no_error)
          ∙ ap (λ (x : Step). run_loop (f + suc (length ws)) x.0) (round_command c s)
          ∙ p.loops f;
      own_is =
          p.own_is
          ∙ ap (λ (o : Fields). args_parsed o (word ∷ ws)) own
          ∙ ap (λ o. record { state = or_unset o; cmd = cmd; args = word ∷ ws }) known;
      holds = p.holds;
    }
