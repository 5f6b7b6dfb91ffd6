-- ===== src/Presentation/Screen/Rows.antt =====
-- Which rows of the screen the parts of presentation/termbox.go draw on.
use memsniff.Decimal.{itoa}
use memsniff.Analysis.Pool.{KeyReport}
use memsniff.Mctext.Text.{codes}
use memsniff.Presentation.Screen.{
  runes, render_line, render_header, line_cells, render_footer, drop_label, padded, Stats, Cell,
  Size, column_x, y_from_bottom, text_cells, render_text, render_key, render_rows, render_report,
  render_messages_from, render_messages, num_columns, log_lines, status_lines,
}
use memsniff.Common.{
  zero, suc, ltb, ℤ, ℕ, suc, ◌+◌, ◌-◌, ◌*◌, ◌≤◌, ◌<◌, ◌≡◌, refl, sym, ap, ◌∙◌, subst, List, [], ◌∷◌,
  ◌++◌, arith, leb, length, length-take, take, take-nil, pos, ltb_ℤ, Bool-cases, inl, inr,
}

-- Every cell lies on a row from `top` to `bottom`.
abbrev pub AreBetween : ℕ → ℕ → List Cell → Type 0
AreBetween top bottom [] = Unit
AreBetween top bottom (c ∷ cs) =
    ((row : ℕ) × (c.y ≡ pos row) × (top ≤ row) × (row ≤ bottom)) × AreBetween top bottom cs

AreBetween-append :
    (top bottom : ℕ) (cs ds : List Cell)
    → AreBetween top bottom cs
    → AreBetween top bottom ds
    → AreBetween top bottom (cs ++ ds)
AreBetween-append top bottom [] ds h g = g
AreBetween-append top bottom (c ∷ cs) ds h g = (h.0, AreBetween-append top bottom cs ds h.1 g)

scaled : (w col : ℕ) → col < 12 → w * col ≤ w * 12
scaled w col h = grind arith

pub column_x_le : (size : Size) (col : ℕ) → column_x size col ≤ size.width
unfolding column_x
column_x_le size col = elim (Bool-cases (leb num_columns col)) [
  | inl e ↦ rw e (omega arith)
  | inr e ↦ rw e (omega (arith, scaled size.width col (ground (arith, e))))
]

-- When a row is too low for the report.
row_hidden :
    (size : Size) (i : ℕ)
    → ltb_ℤ (y_from_bottom size (status_lines + log_lines)) (pos (i + 2)) ≡ leb size.height (i + 7)
unfolding y_from_bottom
row_hidden size i = ground arith

module _ (rune_width : ℕ → ℕ) (size : Size) where
  text_cells-AreBetween :
      (top bottom row x : ℕ) (txt : List ℕ)
      → top ≤ row
      → row ≤ bottom
      → AreBetween top bottom (text_cells rune_width size x (pos row) txt)
  unfolding text_cells
  text_cells-AreBetween top bottom row x [] h g = tt
  text_cells-AreBetween top bottom row x (r ∷ rs) h g =
      ((row, refl, h, g), text_cells-AreBetween top bottom row (x + rune_width r) rs h g)

  render_text-AreBetween :
      (top bottom row column : ℕ) (txt : List ℕ)
      → top ≤ row
      → row ≤ bottom
      → AreBetween top bottom (render_text rune_width size column (pos row) txt)
  unfolding render_text
  render_text-AreBetween top bottom row column txt h g =
      text_cells-AreBetween top bottom row (column_x size column) (runes txt) h g

  -- The rows of all of these keys, one below the other.
  unfoldable pub all_rows : ℕ → List KeyReport → List Cell
  all_rows y [] = []
  all_rows y (kr ∷ krs) = render_key rune_width size (pos y) kr ++ all_rows (suc y) krs

  render_rows-all_rows :
      (i : ℕ) (keys : List KeyReport)
      → render_rows rune_width size i keys ≡ all_rows (i + 2) (take (size.height - 7 - i) keys)
  unfolding render_rows all_rows
  render_rows-all_rows i [] = ap (all_rows (i + 2)) (sym (take-nil (size.height - 7 - i)))
  render_rows-all_rows i (kr ∷ krs) = elim (Bool-cases (leb size.height (i + 7))) [
    | inl low ↦
        let none : size.height - 7 - i ≡ 0 = ground (arith, low) in
        rw (row_hidden size i, low, none) refl
    | inr high ↦
        let more : size.height - 7 - i ≡ suc (size.height - 7 - suc i) = ground (arith, high) in
        rw (row_hidden size i, high, more)
          (ap (λ cs. render_key rune_width size (pos (i + 2)) kr ++ cs)
            (render_rows-all_rows (suc i) krs
              ∙ ap (λ y. all_rows y (take (size.height - 7 - suc i) krs)) {x = suc i + 2}
                  {y = suc (i + 2)} (omega arith)))
  ]

  render_key-AreBetween :
      (top bottom row : ℕ) (kr : KeyReport)
      → top ≤ row
      → row ≤ bottom
      → AreBetween top bottom (render_key rune_width size (pos row) kr)
  unfolding render_key
  render_key-AreBetween top bottom row kr h g =
      AreBetween-append top bottom _ _ (render_text-AreBetween top bottom row 0 kr.name h g) (
        AreBetween-append top bottom _ _
          (render_text-AreBetween top bottom row 8 (itoa kr.requests) h g)
          (AreBetween-append top bottom _ _
            (render_text-AreBetween top bottom row 9 (itoa kr.size) h g)
            (render_text-AreBetween top bottom row 10 (itoa kr.traffic) h g)))

  all_rows-AreBetween :
      (top bottom row : ℕ) (keys : List KeyReport)
      → top ≤ row
      → row + length keys ≤ suc bottom
      → AreBetween top bottom (all_rows row keys)
  unfolding all_rows
  all_rows-AreBetween top bottom row [] h g = tt
  all_rows-AreBetween top bottom row (kr ∷ krs) h g =
      AreBetween-append top bottom _ _ (render_key-AreBetween top bottom row kr h (omega arith))
        (all_rows-AreBetween top bottom (suc row) krs (omega arith) (omega arith))

  messages-AreBetween :
      (top bottom i : ℕ) (msgs : List (List ℕ))
      → size.height ≡ suc (suc bottom)
      → top + (i + length msgs) ≤ suc bottom
      → AreBetween top bottom (render_messages_from rune_width size i msgs)
  unfolding render_messages_from
  messages-AreBetween top bottom i [] h g = tt
  messages-AreBetween top bottom i (msg ∷ msgs) h g =
      let e : y_from_bottom size (i + status_lines) ≡ pos (bottom - i) =
        unfold y_from_bottom in ground arith in
      AreBetween-append top bottom _ _
        (rw e (render_text-AreBetween top bottom (bottom - i) 0 msg (omega arith) (omega arith)))
        (messages-AreBetween top bottom (suc i) msgs h (omega arith))

  line_cells-AreBetween :
      (top bottom row k x end ch : ℕ)
      → top ≤ row
      → row ≤ bottom
      → AreBetween top bottom (line_cells rune_width size k x end (pos row) ch)
  unfolding line_cells
  line_cells-AreBetween top bottom row zero x end ch h g = tt
  line_cells-AreBetween top bottom row (suc k) x end ch h g = elim (Bool-cases (ltb x end)) [
    | inl inside ↦
        rw (inside, line_cells)
          ((row, refl, h, g), line_cells-AreBetween top bottom row k (x + rune_width ch) end ch h g)
    | inr outside ↦ rw (outside, line_cells) tt
  ]

  header-AreBetween : AreBetween 0 1 (render_header rune_width size)
  unfolding render_header render_line
  header-AreBetween =
      AreBetween-append 0 1 _ _
        (render_text-AreBetween 0 1 0 0 (codes "Key") (omega arith) (omega arith))
        (AreBetween-append 0 1 _ _
          (render_text-AreBetween 0 1 0 8 (codes "Requests (est)") (omega arith) (omega arith))
          (AreBetween-append 0 1 _ _
            (render_text-AreBetween 0 1 0 9 (codes "Size") (omega arith) (omega arith))
            (AreBetween-append 0 1 _ _
              (render_text-AreBetween 0 1 0 10 (codes "Bandwidth (est)") (omega arith)
                (omega arith))
              (line_cells-AreBetween 0 1 1 (column_x size (0 + 12)) (column_x size 0)
                (column_x size (0 + 12)) b'-' (omega arith) (omega arith)))))

  footer-AreBetween :
      (rate : ℤ → ℤ → List ℕ) (time : List ℕ) (stats : Stats)
      → 0 < size.height
      → AreBetween
          (size.height - 1)
          (size.height - 1)
          (render_footer rune_width size rate time stats)
  unfolding render_footer
  footer-AreBetween rate time stats h =
      let row = size.height - 1 in
      let last : y_from_bottom size 0 ≡ pos row = unfold y_from_bottom in ground arith in
      let text : (column : ℕ) (txt : List ℕ)
          → AreBetween row row (render_text rune_width size column (pos row) txt) =
        λ column txt. render_text-AreBetween row row row column txt (omega arith) (omega arith) in
      rw last (
        AreBetween-append row row _ _ (text 0 time) (
          AreBetween-append row row _ _ (text 2 (drop_label rate stats)) (
            AreBetween-append row row _ _ (text 4 (codes "Packets: " ++ padded stats.passed_filter))
              (text 6 (codes "GET responses: " ++ padded stats.responses_parsed)))))

  -- The parts of the screen that the header, the keys of a report, the messages and the footer take.
  pub record Regions (rate : ℤ → ℤ → List ℕ) (time : List ℕ) (stats : Stats) (keys : List KeyReport)
      (msgs : List (List ℕ)) : Type 0 where
    pub header_at : AreBetween 0 1 (render_header rune_width size)
    pub rows : render_report rune_width size keys ≡ all_rows 2 (take (size.height - 7) keys)
    pub keys_at : AreBetween 2 (size.height - 6) (render_report rune_width size keys)
    pub messages_at :
        AreBetween (size.height - 5) (size.height - 2) (render_messages rune_width size msgs)
    pub footer_at :
        AreBetween
          (size.height - 1)
          (size.height - 1)
          (render_footer rune_width size rate time stats)

  -- On a screen of at least seven rows, with at most four messages: the header is drawn on rows
  -- 0 and 1, renderReport draws the rows of exactly the first height - 7 keys, from row 2 to
  -- row height - 6 at most, renderMessages draws on rows height - 5 to height - 2, and the
  -- footer on row height - 1.
  pub screen-Regions :
      (rate : ℤ → ℤ → List ℕ) (time : List ℕ) (stats : Stats) (keys : List KeyReport)
      (msgs : List (List ℕ))
      → 7 ≤ size.height
      → length msgs ≤ log_lines
      → Regions rate time stats keys msgs
  unfolding render_report render_messages
  screen-Regions rate time stats keys msgs h few =
      let e : render_rows rune_width size 0 keys ≡ all_rows 2 (take (size.height - 7) keys) =
        render_rows-all_rows 0 keys
        ∙ ap (λ n. all_rows 2 (take n keys)) {x = size.height - 7 - 0} {y = size.height - 7}
            (omega arith) in
      record {
        header_at = header-AreBetween;
        rows = e;
        keys_at = subst (AreBetween 2 (size.height - 6)) (sym e) (
            all_rows-AreBetween 2 (size.height - 6) 2 (take (size.height - 7) keys) (omega arith)
              (omega (arith, length-take (size.height - 7) keys)));
        messages_at =
            messages-AreBetween (size.height - 5) (size.height - 2) 0 msgs (omega arith)
              (omega arith);
        footer_at = footer-AreBetween rate time stats (omega arith);
      }
