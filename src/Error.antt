-- ===== src/Error.antt =====
-- The error values that the reader and the protocol code return (assembly/reader/error.go,
-- io.EOF and its kin, protocol/mctext/consumer.go).
use memsniff.Common.{ℕ, Option, none, some}

pub data Error : Type 0 where
  -- reader.ErrShortRead
  short_read : Error
  -- reader.ErrLostData{Lost}
  lost_data : ℕ → Error
  -- io.ErrShortWrite, io.EOF, io.ErrUnexpectedEOF
  short_write eof unexpected_eof : Error
  -- mctext.errProtocolDesync
  protocol_desync : Error
  -- *strconv.NumError
  num_error : Error
  -- no values of the program: a run-time panic, and a loop of the model that has no fuel left
  go_panic out_of_fuel : Error

-- The errors that Go code returns.
abbrev pub IsReturned : Error → Type 0
IsReturned go_panic = ⊥
IsReturned out_of_fuel = ⊥
IsReturned _ = Unit

abbrev pub AllReturned : Option Error → Type 0
AllReturned none = Unit
AllReturned (some e) = IsReturned e
