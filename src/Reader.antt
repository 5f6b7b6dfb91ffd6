-- ===== src/Reader.antt =====
-- assembly/reader/reader.go: a Buffer with the state of its connection.
pub mod Laws
pub mod Taking
mod Tests
use memsniff.Error.{Error, short_read, unexpected_eof}
use memsniff.Buffer
use memsniff.Buffer.{Buffer, new_buffer}
use memsniff.Common.{
  ℕ, ◌+◌, ◌*◌, Bool, true, false, ◌||◌, List, [], ◌∷◌, Option, none, some, if◌then◌else◌, length, ℤ,
}

-- BufferSize
abbrev pub buffer_size : ℕ
buffer_size = 32 * 1024

pub record Reader : Type 0 where
  pub buffer : Buffer
  pub closed : Bool
  pub at_eof : Bool
  pub failed : Option Error

unfoldable pub new_reader : Reader
new_reader = record {
  buffer = new_buffer buffer_size;
  closed = false;
  at_eof = false;
  failed = none;
}

-- tcpassembly.Reassembly: the bytes lost before `bytes`, or a negative count at a stream's start.
pub record Reassembly : Type 0 where
  pub skip : ℤ
  pub bytes : List ℕ

-- The loop of Reassembled stops at the first failing write and keeps its error.
unfoldable pub write_all : Reader → List Reassembly → Reader
write_all r [] = r
write_all r (x ∷ xs) =
    let (b, e) = Buffer.write r.buffer x.skip x.bytes in
    let rest = write_all (record r { buffer = b }) xs in
    elim e [ some err ↦ record r { buffer = b; failed = some err } | none ↦ rest ]

abbrev is_some {ℓ} : {A : Type ℓ} → Option A → Bool
is_some none = false
is_some (some a) = true

unfoldable pub reassembled : Reader → List Reassembly → Reader
reassembled r xs = if r.closed || is_some r.failed then r else write_all r xs

unfoldable pub reassembly_complete : Reader → Reader
reassembly_complete r = record r { at_eof = true }

unfoldable pub reset : Reader → Reader
reset r = record { buffer = Buffer.reset r.buffer; closed = false; at_eof = false; failed = none }

unfoldable pub truncate : Reader → Reader
truncate r = record r { buffer = Buffer.reset r.buffer }

unfoldable pub close : Reader → Reader
close r = record r { closed = true; buffer = Buffer.reset r.buffer }

-- `if err == ErrShortRead && r.eof { err = io.ErrUnexpectedEOF }`
unfoldable pub end_error : Bool → Option Error → Option Error
end_error true (some short_read) = some unexpected_eof
end_error _ e = e

-- The error of Discard; the count that it returns is `n`, or 0 with an error.
unfoldable pub discard : Reader → ℤ → Reader × Option Error
discard r n = elim r.failed [
  | some e ↦ (r, some e)
  | none ↦ (record r { buffer = Buffer.discard r.buffer n }, none)
]

unfoldable pub read_n : Reader → ℕ → Reader × List ℕ × Option Error
read_n r n = elim r.failed [
  | some e ↦ (r, [], some e)
  | none ↦
      let (b, out, e) = Buffer.read_n r.buffer n in
      (record r { buffer = b }, out, end_error r.at_eof e)
]

unfoldable pub index_any : Reader → List ℕ → Option ℕ × Option Error
index_any r chars = elim r.failed [
  | some e ↦ (none, some e)
  | none ↦ let (i, e) = Buffer.index_any r.buffer chars in (i, end_error r.at_eof e)
]

unfoldable pub peek_n : Reader → ℕ → List ℕ × Option Error
peek_n r n = elim r.failed [
  | some e ↦ ([], some e)
  | none ↦ let (out, e) = Buffer.peek_n r.buffer n in (out, end_error r.at_eof e)
]

unfoldable pub read_line : Reader → Reader × List ℕ × Option Error
read_line r = elim r.failed [
  | some e ↦ (r, [], some e)
  | none ↦
      let (b, out, e) = Buffer.read_line r.buffer in
      (record r { buffer = b }, out, end_error r.at_eof e)
]

-- Read into a slice of `n` bytes: the bytes copied, and the error. No data yet is no error.
unfoldable pub read : Reader → ℕ → Reader × List ℕ × Option Error
read r n =
    let (r', out, e) = read_n r n in
    elim e [
      | none ↦ (r', out, none)
      | some short_read ↦ (r', out, none)
      | some other ↦ (r', [], some other)
    ]
