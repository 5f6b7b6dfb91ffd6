-- ===== src/Source/Plain.antt =====
-- A Source that holds plain bytes: its reads are those of the bytes.
use memsniff.Buffer
use memsniff.Buffer.Plain.{Holds, read_line-Holds, discard-Holds}
use memsniff.Buffer.Words.{index_any-Holds, read_n-Holds}
use memsniff.Buffer.Reading.{Free}
use memsniff.Reader
use memsniff.Reader.{Reader}
use memsniff.Source.{Source, eof_source, reader, read_line, discard, index_any, read_n}
use memsniff.Common.{ℕ, ◌≡◌, true, List, [], ◌∷◌, ◌++◌, none, some, arith, length, pos}

pub record ReaderHolds (r : Reader) (bytes : List ℕ) : Type 0 where
  pub working : r.failed ≡ none
  pub held : Holds r.buffer bytes

abbrev pub SourceHolds : Source → List ℕ → Type 0
SourceHolds eof_source bytes = ⊥
SourceHolds (reader r) bytes = ReaderHolds r bytes

pub read_line-SourceHolds :
    (s : Source) (line rest : List ℕ)
    → SourceHolds s (line ++ b'\n' ∷ rest)
    → Free (b'\n' ∷ []) line
    → ((read_line s).1 ≡ Buffer.trim_cr line)
      × ((read_line s).2 ≡ none)
      × SourceHolds (read_line s).0 rest
unfolding read_line Reader.read_line Reader.end_error
read_line-SourceHolds eof_source line rest h f = absurd h
read_line-SourceHolds (reader r) line rest h f =
    ground (arith, read_line-Holds r.buffer line rest h.held f)

pub discard-SourceHolds :
    (s : Source) (first rest : List ℕ) (n : ℕ)
    → SourceHolds s (first ++ rest)
    → length first ≡ n
    → ((discard s (pos n)).1 ≡ none) × SourceHolds (discard s (pos n)).0 rest
unfolding discard Reader.discard
discard-SourceHolds eof_source first rest n h e = absurd h
discard-SourceHolds (reader r) first rest n h e =
    ground (arith, discard-Holds r.buffer first rest n h.held e)

pub index_any-SourceHolds :
    (s : Source) (chars word rest : List ℕ) (d : ℕ)
    → SourceHolds s (word ++ d ∷ rest)
    → Free chars word
    → Buffer.contains chars d ≡ true
    → index_any s chars ≡ (some (length word), none)
unfolding index_any Reader.index_any Reader.end_error
index_any-SourceHolds eof_source chars word rest d h f hit = absurd h
index_any-SourceHolds (reader r) chars word rest d h f hit =
    ground (arith, index_any-Holds r.buffer chars word rest d h.held f hit)

pub read_n-SourceHolds :
    (s : Source) (first rest : List ℕ) (n : ℕ)
    → SourceHolds s (first ++ rest)
    → length first ≡ n
    → ((read_n s n).1 ≡ first) × ((read_n s n).2 ≡ none) × SourceHolds (read_n s n).0 rest
unfolding read_n Reader.read_n Reader.end_error
read_n-SourceHolds eof_source first rest n h e = absurd h
read_n-SourceHolds (reader r) first rest n h e =
    ground (arith, read_n-Holds r.buffer first rest n h.held e)
