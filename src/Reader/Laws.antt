-- ===== src/Reader/Laws.antt =====
-- What assembly/reader/reader.go promises of a reader that goes back to its pool.
use memsniff.Buffer
use memsniff.Reader.{
  Reader, Reassembly, new_reader, reassembled, write_all, reassembly_complete, reset, truncate,
  close, discard, read_n, read_line,
}
use memsniff.Common.{
  ℕ, ◌≡◌, refl, ◌∙◌, List, [], ◌∷◌, ◌++◌, ◌+◌, pos, ◌-ℤ◌, arith, ℤ, Option-cases, inl, inr,
}

-- What one use of a reader does to it, on behalf of a stream.
pub data Use : Type 0 where
  receives : List Reassembly → Use
  completes truncates closes resets : Use
  discards : ℤ → Use
  reads : ℕ → Use
  reads_line : Use

unfoldable pub use_reader : Reader → Use → Reader
use_reader r (receives xs) = reassembled r xs
use_reader r completes = reassembly_complete r
use_reader r truncates = truncate r
use_reader r closes = close r
use_reader r resets = reset r
use_reader r (discards n) = (discard r n).0
use_reader r (reads n) = (read_n r n).0
use_reader r reads_line = (read_line r).0

unfoldable pub use_all : Reader → List Use → Reader
use_all r [] = r
use_all r (u ∷ us) = use_all (use_reader r u) us

write-cap :
    (b : Buffer.Buffer) (skip : ℤ) (bytes : List ℕ) → (Buffer.write b skip bytes).0.cap ≡ b.cap
unfolding Buffer.write Buffer.append_data
write-cap b skip bytes = ground arith

discard_loop-cap :
    (b : Buffer.Buffer) (gone ks : List Buffer.Block) (n : ℤ)
    → (Buffer.discard_loop b gone ks n).cap ≡ b.cap
unfolding Buffer.discard_loop Buffer.block_discard Buffer.drop_blocks
discard_loop-cap b gone [] n = refl
discard_loop-cap b gone (k ∷ ks) n =
    ground (arith, discard_loop-cap b (gone ++ k ∷ []) ks (n -ℤ pos (Buffer.block_len k)))

discard-cap : (b : Buffer.Buffer) (n : ℤ) → (Buffer.discard b n).cap ≡ b.cap
unfolding Buffer.discard
discard-cap b n = discard_loop-cap b [] b.blocks n

read_n-cap : (b : Buffer.Buffer) (n : ℕ) → (Buffer.read_n b n).0.cap ≡ b.cap
unfolding Buffer.read_n
read_n-cap b n =
    let (avail, gap) = Buffer.contiguous_available b in
    ground (arith, discard-cap b (pos (avail + gap)), discard-cap b (pos n))

read_line-cap : (b : Buffer.Buffer) → (Buffer.read_line b).0.cap ≡ b.cap
unfolding Buffer.read_line
read_line-cap b = elim (Option-cases (Buffer.find_any b (b'\n' ∷ []))) [
  | inl missing ↦
      let (avail, gap) = Buffer.contiguous_available b in
      ground (arith, discard-cap b (pos (avail + gap)))
  | inr (i, found) ↦ rw (found, Buffer.read_line) (discard-cap b (pos (i + 1)))
]

write_all-cap : (xs : List Reassembly) (r : Reader) → (write_all r xs).buffer.cap ≡ r.buffer.cap
unfolding write_all
write_all-cap [] r = refl
write_all-cap (x ∷ xs) r = ground (
  arith,
  write-cap r.buffer x.skip x.bytes,
  write_all-cap xs (record r { buffer = (Buffer.write r.buffer x.skip x.bytes).0 }),
)

use_reader-cap : (r : Reader) (u : Use) → (use_reader r u).buffer.cap ≡ r.buffer.cap
unfolding use_reader reassembled reassembly_complete truncate close reset discard read_n read_line
    Buffer.reset
use_reader-cap r (receives xs) = ground (arith, write_all-cap xs r)
use_reader-cap r completes = refl
use_reader-cap r truncates = refl
use_reader-cap r closes = refl
use_reader-cap r resets = refl
use_reader-cap r (discards n) = ground (arith, discard-cap r.buffer n)
use_reader-cap r (reads n) = ground (arith, read_n-cap r.buffer n)
use_reader-cap r reads_line = ground (arith, read_line-cap r.buffer)

use_all-cap : (us : List Use) (r : Reader) → (use_all r us).buffer.cap ≡ r.buffer.cap
unfolding use_all
use_all-cap [] r = refl
use_all-cap (u ∷ us) r = use_all-cap us (use_reader r u) ∙ use_reader-cap r u

-- After any sequence of calls on a new reader, Reset makes it equal to a new reader, so a
-- reader that comes back from the pool carries nothing of its last stream.
pub reset-new_reader : (us : List Use) → reset (use_all new_reader us) ≡ new_reader
unfolding reset new_reader Buffer.reset Buffer.new_buffer
reset-new_reader us = ground (arith, use_all-cap us new_reader)
