-- ===== src/Presentation/Screen.antt =====
-- The drawing functions of presentation/termbox.go, as the cells they set, in order.
pub mod Rows
use memsniff.Mctext.Text.{codes}
use memsniff.Decimal.{itoa}
use memsniff.Analysis.Pool.{KeyReport}
use memsniff.Common.{
  ◌&&◌, ◌==◌, ℕ, zero, suc, ◌+◌, ◌-◌, ◌*◌, ◌/◌, Bool, true, false, List, [], ◌∷◌, ◌++◌, ltb, leb,
  if◌then◌else◌, length, replicate, ℤ, pos, ◌+ℤ◌, ◌-ℤ◌, ltb_ℤ,
}

-- termbox.SetCell
pub record Cell : Type 0 where
  pub x : ℕ
  pub y : ℤ
  pub ch : ℕ

abbrev pub num_columns : ℕ
num_columns = 12

abbrev pub status_lines : ℕ
status_lines = 1

abbrev pub log_lines : ℕ
log_lines = 4

-- What termbox.Size returns.
pub record Size : Type 0 where
  pub width : ℕ
  pub height : ℕ

unfoldable pub column_x : Size → ℕ → ℕ
column_x size col = if leb num_columns col then size.width else size.width * col / num_columns

unfoldable pub y_from_bottom : Size → ℕ → ℤ
y_from_bottom size n = pos size.height -ℤ pos 1 -ℤ pos n

-- Stats of presentation.go; the counts are ints.
pub record Stats : Type 0 where
  pub entered_filter : ℤ
  pub passed_filter : ℤ
  pub captured : ℤ
  pub dropped_kernel : ℤ
  pub dropped_parser : ℤ
  pub dropped_analysis : ℤ
  pub dropped_total : ℤ
  pub responses_parsed : ℤ

-- fmt's %10d
unfoldable pub padded : ℤ → List ℕ
padded n = let text = itoa n in replicate (10 - length text) b' ' ++ text

-- `rate` is how fmt prints what dropLabel computes in floating point of the dropped and the passed
-- packets.
unfoldable pub drop_label : (ℤ → ℤ → List ℕ) → Stats → List ℕ
drop_label rate s =
    codes "Dropped: "
    ++ (itoa s.dropped_kernel
        ++ (b'+' ∷ itoa s.dropped_parser)
        ++ (b'+' ∷ itoa s.dropped_analysis)
        ++ (b'=' ∷ itoa s.dropped_total)
        ++ (codes " (" ++ (rate s.dropped_total s.passed_filter ++ codes "%)")))

-- The rune that a byte `a` begins, with the bytes behind it, and how many of these belong to it; a
-- byte that begins no valid encoding stands for U+FFFD alone.
abbrev between : ℕ → ℕ → ℕ → Bool
between low high c = leb low c && leb c high

abbrev two_bytes : ℕ → ℕ → ℕ × ℕ
two_bytes a b =
    if between 194 223 a && between 128 191 b then ((a - 192) * 64 + (b - 128), 1) else (65533, 0)

-- The second byte is bounded so that no encoding is too long, a surrogate, or past U+10FFFF.
abbrev three_bytes : ℕ → ℕ → ℕ → ℕ × ℕ
three_bytes a b c =
    if between 224 239 a
      && between (if a == 224 then 160 else 128) (if a == 237 then 159 else 191) b
      && between 128 191 c
    then ((a - 224) * 4096 + (b - 128) * 64 + (c - 128), 2)
    else two_bytes a b

abbrev four_bytes : ℕ → ℕ → ℕ → ℕ → ℕ × ℕ
four_bytes a b c d =
    if between 240 244 a
      && between (if a == 240 then 144 else 128) (if a == 244 then 143 else 191) b
      && between 128 191 c
      && between 128 191 d
    then ((a - 240) * 262144 + (b - 128) * 4096 + (c - 128) * 64 + (d - 128), 3)
    else three_bytes a b c

unfoldable pub decode_rune : ℕ → List ℕ → ℕ × ℕ
decode_rune a rest = if ltb a 128 then (a, 0) else elim rest [
  | [] ↦ (65533, 0)
  | b ∷ [] ↦ two_bytes a b
  | b ∷ c ∷ [] ↦ three_bytes a b c
  | b ∷ c ∷ d ∷ more ↦ four_bytes a b c d
]

-- `[]rune(txt)`, from behind the next `skip` bytes.
unfoldable pub runes_from : ℕ → List ℕ → List ℕ
runes_from skip [] = []
runes_from (suc skip) (a ∷ rest) = runes_from skip rest
runes_from zero (a ∷ rest) = (decode_rune a rest).0 ∷ runes_from (decode_rune a rest).1 rest

unfoldable pub runes : List ℕ → List ℕ
runes txt = runes_from 0 txt

-- The width of a rune, by go-runewidth.
module _ (rune_width : ℕ → ℕ) (size : Size) where
  unfoldable pub text_cells : ℕ → ℤ → List ℕ → List Cell
  text_cells x y [] = []
  text_cells x y (r ∷ rs) = record { x = x; y = y; ch = r } ∷ text_cells (x + rune_width r) y rs

  unfoldable pub render_text : ℕ → ℤ → List ℕ → List Cell
  render_text column y txt = text_cells (column_x size column) y (runes txt)

  -- The loop of renderLine, with the cells that it may still set.
  unfoldable pub line_cells : ℕ → ℕ → ℕ → ℤ → ℕ → List Cell
  line_cells zero x end y ch = []
  line_cells (suc k) x end y ch =
      let rest = line_cells k (x + rune_width ch) end y ch in
      if ltb x end then record { x = x; y = y; ch = ch } ∷ rest else []

  unfoldable pub render_line : ℕ → ℕ → ℤ → ℕ → List Cell
  render_line column span y ch =
      line_cells (column_x size (column + span)) (column_x size column)
        (column_x size (column + span)) y ch

  unfoldable pub render_header : List Cell
  render_header =
      render_text 0 (pos 0) (codes "Key")
      ++ (render_text 8 (pos 0) (codes "Requests (est)")
          ++ (render_text 9 (pos 0) (codes "Size")
              ++ (render_text 10 (pos 0) (codes "Bandwidth (est)")
                  ++ render_line 0 12 (pos 1) b'-')))

  -- The four texts of a row of renderReport.
  unfoldable pub render_key : ℤ → KeyReport → List Cell
  render_key y kr =
      render_text 0 y kr.name
      ++ (render_text 8 y (itoa kr.requests)
          ++ (render_text 9 y (itoa kr.size) ++ render_text 10 y (itoa kr.traffic)))

  -- The loop of renderReport, from index `i`.
  unfoldable pub render_rows : ℕ → List KeyReport → List Cell
  render_rows i [] = []
  render_rows i (kr ∷ krs) =
      let rest = render_rows (suc i) krs in
      if ltb_ℤ (y_from_bottom size (status_lines + log_lines)) (pos (i + 2))
      then []
      else render_key (pos (i + 2)) kr ++ rest

  unfoldable pub render_report : List KeyReport → List Cell
  render_report keys = render_rows 0 keys

  unfoldable pub render_messages_from : ℕ → List (List ℕ) → List Cell
  render_messages_from i [] = []
  render_messages_from i (msg ∷ msgs) =
      render_text 0 (y_from_bottom size (i + status_lines)) msg ++ render_messages_from (suc i) msgs

  unfoldable pub render_messages : List (List ℕ) → List Cell
  render_messages msgs = render_messages_from 0 msgs

  -- `time` is the report's time as text.
  unfoldable pub render_footer : (ℤ → ℤ → List ℕ) → List ℕ → Stats → List Cell
  render_footer rate time stats =
      let y = y_from_bottom size 0 in
      render_text 0 y time
      ++ (render_text 2 y (drop_label rate stats)
          ++ (render_text 4 y (codes "Packets: " ++ padded stats.passed_filter)
              ++ render_text 6 y (codes "GET responses: " ++ padded stats.responses_parsed)))
