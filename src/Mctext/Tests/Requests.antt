-- ===== src/Mctext/Tests/Requests.antt =====
-- Runs of protocol/mctext/consumer.go on a request line and on a binary connection.
use memsniff.Buffer
use memsniff.Mctext.{Conversation, run, command_state}
use memsniff.Mctext.Text.{codes, equal, all_letters, ascii_word}
use memsniff.Buffer.Cells.{cells}
use memsniff.Source.Plain.{ReaderHolds}
use memsniff.Mctext.{read_command, handle_get}
use memsniff.Mctext.Feed.{feed_all}
use memsniff.Mctext.Args.{IsArg, Parses, render_args, request-Parses}
use memsniff.Common.{ℕ, ◌++◌, ◌≡◌, refl, List, [], ◌∷◌, some, true, false, arith, inl}
use memsniff.Mctext.{peek_magic_byte}
use memsniff.Mctext.Kept.{Extends}
use memsniff.Mctext.History.{feed_all-Extends}
use memsniff.Mctext.Binary.{Ignores, binary_ignored}
use memsniff.Mctext.Tests.{holding, conversation, inputs}

abbrev get_request : List ℕ
get_request = codes "get a b\r\nquit\r\n"

abbrev requesting : Conversation
requesting = conversation read_command [] get_request []

holding-get :
    ReaderHolds
      (holding get_request)
      (codes "get " ++ render_args (codes "a") (codes "b" ∷ []) (codes "quit\r\n"))
unfolding Buffer.total_data Buffer.total_len cells render_args
holding-get = record {
  working = refl;
  held = record {
    valid = record { held = refl; counted = refl; bounded = omega arith; idle = inl refl };
    shown = refl;
    pending = refl;
  };
}

get_known : command_state (codes "get") ≡ some handle_get
unfolding command_state equal
get_known = refl

get_word : ascii_word (codes "get") ≡ true
unfolding ascii_word all_letters
get_word = refl

letter-IsArg : (c : ℕ) → Buffer.contains (codes " \n\r") c ≡ false → IsArg (c ∷ [])
unfolding Buffer.contains
letter-IsArg c h = ground arith

a-IsArg : IsArg (codes "a")
unfolding Buffer.contains
a-IsArg = letter-IsArg b'a' refl

b-IsArg : IsArg (codes "b")
unfolding Buffer.contains
b-IsArg = letter-IsArg b'b' refl

request-Parses_example :
    Parses requesting 3
      (record { state = handle_get; cmd = codes "get"; args = codes "a" ∷ codes "b" ∷ [] })
      (codes "quit\r\n")
request-Parses_example =
    request-Parses requesting (codes "get") (codes "a") (codes "b" ∷ []) (codes "quit\r\n")
      handle_get refl get_word get_known a-IsArg (b-IsArg, tt) holding-get

-- The request header of a binary get.
abbrev binary_get : List ℕ
binary_get = 0x80 ∷ 0 ∷ 0 ∷ 1 ∷ []

abbrev binary : Conversation
binary = conversation peek_magic_byte [] binary_get []

holding-binary : ReaderHolds (holding binary_get) binary_get
unfolding Buffer.total_data Buffer.total_len cells
holding-binary = record {
  working = refl;
  held = record {
    valid = record { held = refl; counted = refl; bounded = omega arith; idle = inl refl };
    shown = refl;
    pending = refl;
  };
}

binary_ignored_example : Ignores binary (feed_all (run binary) inputs)
binary_ignored_example = binary_ignored binary (0 ∷ 0 ∷ 1 ∷ []) inputs refl holding-binary

feed_all-Extends_example : Extends requesting (feed_all requesting inputs)
feed_all-Extends_example = feed_all-Extends inputs requesting
