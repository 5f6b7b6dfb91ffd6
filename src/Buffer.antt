-- ===== src/Buffer.antt =====
-- assembly/reader/buffer.go: received bytes with the gaps between them.
-- Go's `bytes.Buffer` is the list of its unread bytes. A slice that a reading method returns is a
-- value here: the program copies it before the next call that writes.
pub mod Cells
pub mod Discard
pub mod Dropping
pub mod Stream
pub mod Discarding
pub mod Writing
pub mod Front
pub mod Reading
pub mod Lines
pub mod Negative
pub mod Data
pub mod Plain
pub mod Words
mod Tests
use memsniff.Error.{Error, short_read, lost_data, short_write}
use memsniff.Common.{
  ℕ, zero, suc, ◌+◌, ◌-◌, Bool, true, false, not, ◌&&◌, ◌||◌, List, [], ◌∷◌, ◌++◌, Option, none,
  some, ltb, leb, ◌==◌, if◌then◌else◌, length, take, drop, ℤ, pos, pos_part, neg_part, ◌-ℤ◌, ◌+ℤ◌,
  ltb_ℤ, shrink,
}

pub record Block : Type 0 where
  pub gap : ℕ
  pub data_len : ℕ

-- `to_discard` (`discard` in the source) is the count of bytes to drop on arrival; only a negative
-- `Discard` makes it negative. The source's ints wrap round where `len`, a gap or this count would
-- leave 64 bits, which takes a Discard of a count near 2^63; here they do not wrap, so that a buffer
-- stands for one of the source as long as they fit.
pub record Buffer : Type 0 where
  pub buf : List ℕ
  pub len : ℕ
  pub cap : ℕ
  pub blocks : List Block
  pub to_discard : ℤ

unfoldable pub new_buffer : ℕ → Buffer
new_buffer cap = record { buf = []; len = 0; cap = cap; blocks = []; to_discard = pos 0 }

unfoldable pub reset : Buffer → Buffer
reset b = record b { buf = []; len = 0; blocks = []; to_discard = pos 0 }

-- (block).hasGap and (block).len
abbrev pub has_gap : Block → Bool
has_gap k = ltb 0 k.gap

abbrev pub block_len : Block → ℕ
block_len k = k.gap + k.data_len

-- `b.blocks[len(b.blocks)-1].dataLen += n`
unfoldable pub extend_last : ℕ → List Block → List Block
extend_last n [] = []
extend_last n (k ∷ []) = record k { data_len = k.data_len + n } ∷ []
extend_last n (k ∷ l ∷ ks) = k ∷ extend_last n (l ∷ ks)

-- The bookkeeping of a write: `skip == 0 && len(b.blocks) > 0` extends the last block.
unfoldable pub add_block : ℕ → ℕ → List Block → List Block
add_block skip n [] = record { gap = skip; data_len = n } ∷ []
add_block skip n (k ∷ ks) =
    if skip == 0
    then extend_last n (k ∷ ks)
    else (k ∷ ks) ++ (record { gap = skip; data_len = n } ∷ [])

-- The part of Write behind the pending discard, on the skip and the data that are left.
unfoldable pub append_data : Buffer → ℕ → List ℕ → Buffer × Option Error
append_data b skip bytes =
    if ltb b.cap (length b.buf + length bytes) then (b, some short_write) else (
      record b {
        buf = b.buf ++ bytes;
        to_discard = pos 0;
        blocks = add_block skip (length bytes) b.blocks;
        len = b.len + (skip + length bytes);
      },
      none,
    )

-- A negative skip, which starts mid-conversation, counts as 0: `pos_part`.
unfoldable pub write : Buffer → ℤ → List ℕ → Buffer × Option Error
write b skip bytes =
    let s = pos_part skip in
    let pending = b.to_discard in
    if not (ltb_ℤ pending (pos (s + length bytes)))
    then (record b { to_discard = pending -ℤ pos s -ℤ pos (length bytes) }, none)
    else if not (ltb_ℤ (pos s) pending)
    then append_data b (shrink s pending) bytes
    else append_data b 0 (drop (pos_part pending - s) bytes)

unfoldable pub contiguous : ℕ → List Block → ℕ × ℕ
contiguous avail [] = (avail, 0)
contiguous avail (k ∷ ks) = if has_gap k then (avail, k.gap) else contiguous (avail + k.data_len) ks

-- (avail, gap) of contiguousAvailable
unfoldable pub contiguous_available : Buffer → ℕ × ℕ
contiguous_available b = contiguous 0 b.blocks

-- (block).discard, on the first `n` bytes of a block of `b`, where `len` and the gap after it fit in an
-- int. The panics of the source are at
-- `n >= block.len()`; the one caller tests `l > toDiscard` first.
unfoldable pub block_discard : Buffer → Block → ℤ → Buffer × Block
block_discard b k n =
    let b' = record b { len = shrink b.len n } in
    let m = pos_part n - k.gap in
    if ltb_ℤ n (pos k.gap)
    then (b', record k { gap = shrink k.gap n })
    else (record b' { buf = drop m b.buf }, record { gap = 0; data_len = k.data_len - m })

unfoldable pub total_len : List Block → ℕ
total_len [] = 0
total_len (k ∷ ks) = block_len k + total_len ks

unfoldable pub total_data : List Block → ℕ
total_data [] = 0
total_data (k ∷ ks) = k.data_len + total_data ks

-- dropBlocks, given the blocks that go and the blocks that stay.
unfoldable pub drop_blocks : Buffer → List Block → List Block → Buffer
drop_blocks b gone kept = record b {
  len = b.len - total_len gone;
  blocks = kept;
  buf = drop (total_data gone) b.buf;
}

-- The loop of Discard over the blocks; `gone` are those passed over so far.
unfoldable pub discard_loop : Buffer → List Block → List Block → ℤ → Buffer
discard_loop b gone [] n = record b {
  buf = [];
  len = 0;
  blocks = [];
  to_discard = b.to_discard +ℤ n;
}
discard_loop b gone (k ∷ ks) n =
    let (b', k') = block_discard b k n in
    let rest = discard_loop b (gone ++ k ∷ []) ks (n -ℤ pos (block_len k)) in
    if ltb_ℤ n (pos (block_len k)) then drop_blocks b' gone (k' ∷ ks) else rest

unfoldable pub discard : Buffer → ℤ → Buffer
discard b n = discard_loop b [] b.blocks n

unfoldable pub read_n : Buffer → ℕ → Buffer × List ℕ × Option Error
read_n b n =
    let (avail, gap) = contiguous_available b in
    if ltb b.len n
    then (b, [], some short_read)
    else if ltb avail n
    then (discard b (pos (avail + gap)), take avail b.buf, some (lost_data gap))
    else (discard b (pos n), take n b.buf, none)

unfoldable pub peek_n : Buffer → ℕ → List ℕ × Option Error
peek_n b n =
    let (avail, gap) = contiguous_available b in
    if ltb b.len n
    then ([], some short_read)
    else if ltb avail n
    then (take avail b.buf, some (lost_data gap))
    else (take n b.buf, none)

unfoldable pub contains : List ℕ → ℕ → Bool
contains [] c = false
contains (d ∷ ds) c = c == d || contains ds c

-- `bytes.IndexAny` for ASCII `chars`; `none` is -1.
unfoldable pub position_any : List ℕ → List ℕ → Option ℕ
position_any chars [] = none
position_any chars (c ∷ cs) =
    if contains chars c
    then some 0
    else elim (position_any chars cs) [ none ↦ none | some i ↦ some (suc i) ]

-- What IndexAny returns when nothing is found: lost data if a gap comes next, else a short read.
unfoldable pub not_found : Buffer → Error
not_found b =
    let (avail, gap) = contiguous_available b in
    if ltb avail b.len then lost_data gap else short_read

-- (b).indexAny
unfoldable pub find_any : Buffer → List ℕ → Option ℕ
find_any b chars = position_any chars (take (contiguous_available b).0 b.buf)

unfoldable pub index_any : Buffer → List ℕ → Option ℕ × Option Error
index_any b chars = elim (find_any b chars) [
  | none ↦ (none, some (not_found b))
  | some i ↦ (some i, none)
]

-- `out[:len(out)-1]` where `out` ends in \r.
unfoldable pub trim_cr : List ℕ → List ℕ
trim_cr [] = []
trim_cr (c ∷ []) = if c == b'\r' then [] else c ∷ []
trim_cr (c ∷ d ∷ cs) = c ∷ trim_cr (d ∷ cs)

unfoldable pub read_line : Buffer → Buffer × List ℕ × Option Error
read_line b =
    let (avail, gap) = contiguous_available b in
    elim (find_any b (b'\n' ∷ [])) [
      | none ↦
          if ltb avail b.len
          then (discard b (pos (avail + gap)), [], some (lost_data gap))
          else (b, [], some short_read)
      | some i ↦ (discard b (pos (i + 1)), trim_cr (take i b.buf), none)
    ]

-- (b).validate: its test, whose failure is a panic.
unfoldable pub validate : Buffer → Bool
validate b = total_data b.blocks == length b.buf
