-- ===== src/Mctext/Request.antt =====
-- readCommand of protocol/mctext/consumer.go on a well-formed client stream.
use memsniff.Error.{Error}
use memsniff.Buffer.{contains}
use memsniff.Buffer.Reading.{Free, Free-append}
use memsniff.Source
use memsniff.Source.{Source}
use memsniff.Source.Plain.{SourceHolds, index_any-SourceHolds, read_n-SourceHolds}
use memsniff.Model.{with_server}
use memsniff.Mctext.Text.{codes, trim_right, ascii_word, all_letters}
use memsniff.Mctext.{
  Conversation, State, Step, client, server, delimiters, goto, read_args, handle_unknown,
  command_state, read_word, after_command, step_read_command,
}
use memsniff.Common.{
  ℕ, ◌+◌, ◌≡◌, refl, sym, ap, ◌∙◌, true, List, [], ◌∷◌, ◌++◌, append_assoc, append-nil, Option,
  none, some, arith, length, length-append, subst,
}

-- What reading a word with its delimiter `d` does.
pub record ReadsWord (c : Conversation) (word rest : List ℕ)
    (r : Conversation × List ℕ × Option Error) : Type 0 where
  pub word_is : r.1 ≡ word
  pub no_error : r.2 ≡ none
  pub holds : SourceHolds (client r.0) rest
  pub same_own : r.0.own ≡ c.own
  pub same_server : server r.0 ≡ server c

pub read_word-ReadsWord :
    (c : Conversation) (word rest : List ℕ) (d : ℕ)
    → SourceHolds (client c) (word ++ d ∷ rest)
    → Free delimiters word
    → contains delimiters d ≡ true
    → ReadsWord c (word ++ d ∷ []) rest (read_word c)
unfolding read_word
read_word-ReadsWord c word rest d h f hit = ground (
  arith,
  index_any-SourceHolds (client c) delimiters word rest d h f hit,
  read_n-SourceHolds (client c) (word ++ d ∷ []) rest (length word + 1)
      (subst (SourceHolds (client c)) (sym (append_assoc word (d ∷ []) rest)) h)
      (length-append word (d ∷ [])),
)

-- Trimming goes no further than a byte outside the cutset.
pub trim_right-stop : (cutset word : List ℕ) → Free cutset word → trim_right cutset word ≡ word
unfolding trim_right
trim_right-stop cutset [] f = refl
trim_right-stop cutset (x ∷ []) f = ground arith
trim_right-stop cutset (x ∷ y ∷ ys) f = rw (trim_right-stop cutset (y ∷ ys) f.1) refl

pub trim_right-end :
    (cutset word : List ℕ) (d : ℕ)
    → contains cutset d ≡ true
    → trim_right cutset (word ++ d ∷ []) ≡ trim_right cutset word
unfolding trim_right
trim_right-end cutset [] d h = ground arith
trim_right-end cutset (x ∷ xs) d h = rw (trim_right-end cutset xs d h) refl

letters-Free :
    (word : List ℕ) → all_letters word ≡ true → Free (codes " \r\n") word × Free delimiters word
unfolding all_letters contains
letters-Free [] h = (tt, tt)
letters-Free (x ∷ xs) h = ground (arith, letters-Free xs)

-- What ends a word of a request line: a space, or the end of the line in either form.
pub data Ending : Type 0 where
  space newline crlf : Ending

abbrev pub before : Ending → List ℕ
before crlf = codes "\r"
before _ = []

abbrev pub delim : Ending → ℕ
delim space = b' '
delim _ = b'\n'

-- The bytes of an ending, and what comes behind it.
abbrev pub ended : Ending → List ℕ → List ℕ
ended e rest = before e ++ delim e ∷ rest

-- The State behind a command: its arguments are read if the command is known.
abbrev pub next_state : Option State → State
next_state none = handle_unknown
next_state (some s) = read_args

pub record ReadsCommand (c : Conversation) (cmd rest : List ℕ) (r : Step) : Type 0 where
  pub no_error : r.1 ≡ none
  pub own_is : r.0.own ≡ record { state = next_state (command_state cmd); cmd = cmd; args = [] }
  pub holds : SourceHolds (client r.0) rest
  pub server_is : server r.0 ≡ Source.truncate (server c)

pub delim-contains : (e : Ending) → contains delimiters (delim e) ≡ true
unfolding contains
delim-contains space = refl
delim-contains newline = refl
delim-contains crlf = refl

pub before-Free : (e : Ending) → Free delimiters (before e)
unfolding contains
before-Free space = tt
before-Free newline = tt
before-Free crlf = (refl, tt)

trimmed_command :
    (cmd : List ℕ) (e : Ending)
    → all_letters cmd ≡ true
    → trim_right (codes " \r\n") ((cmd ++ before e) ++ delim e ∷ []) ≡ cmd
unfolding contains
trimmed_command cmd space h =
    trim_right-end _ (cmd ++ []) b' ' refl
    ∙ ap (trim_right (codes " \r\n")) (append-nil cmd)
    ∙ trim_right-stop _ cmd (letters-Free cmd h).0
trimmed_command cmd newline h =
    trim_right-end _ (cmd ++ []) b'\n' refl
    ∙ ap (trim_right (codes " \r\n")) (append-nil cmd)
    ∙ trim_right-stop _ cmd (letters-Free cmd h).0
trimmed_command cmd crlf h =
    trim_right-end _ (cmd ++ codes "\r") b'\n' refl
    ∙ trim_right-end _ cmd b'\r' refl
    ∙ trim_right-stop _ cmd (letters-Free cmd h).0

ascii_word-letters : (cmd : List ℕ) → ascii_word cmd ≡ true → all_letters cmd ≡ true
unfolding ascii_word
ascii_word-letters [] h = absurd (ground arith)
ascii_word-letters (x ∷ xs) h = h

after_command_word :
    (c : Conversation) (word cmd : List ℕ)
    → trim_right (codes " \r\n") word ≡ cmd
    → ascii_word cmd ≡ true
    → after_command c word ≡ (
      goto (record c { own = record c.own { cmd = cmd } }) (next_state (command_state cmd)),
      none,
    )
unfolding after_command
after_command_word c word cmd t a = rw t (ground arith)

-- readCommand on a client stream that begins with letters ended by a space, a newline or a
-- carriage return and newline: it returns nil, takes the letters as the command, uses up
-- exactly the letters and what ended them, drops what the server sent before, and goes on to
-- readArgs for a known command and to handleUnknown for any other, whatever ended the letters.
pub read_command-ReadsCommand :
    (c : Conversation) (cmd rest : List ℕ) (e : Ending)
    → ascii_word cmd ≡ true
    → SourceHolds (client c) (cmd ++ ended e rest)
    → ReadsCommand c cmd rest (step_read_command c)
unfolding step_read_command
read_command-ReadsCommand c cmd rest e a h =
    let c' =
      with_server (record c { own = record c.own { args = [] } }) (Source.truncate (server c)) in
    ground (
      arith,
      read_word-ReadsWord c' (cmd ++ before e) rest (delim e)
          (subst (SourceHolds (client c)) (sym (append_assoc cmd (before e) (delim e ∷ rest))) h)
          (Free-append delimiters cmd (before e) (letters-Free cmd (ascii_word-letters cmd a)).1
            (before-Free e))
          (delim-contains e),
      after_command_word (read_word c').0 ((cmd ++ before e) ++ delim e ∷ []) cmd
          (trimmed_command cmd e (ascii_word-letters cmd a)) a,
    )
