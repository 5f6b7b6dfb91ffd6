-- ===== src/Main.antt =====
-- main.go: the statistics that the display shows, put together from those of the parts.
use memsniff.Word.{wrap, wrap_small}
use memsniff.Decode.Pool.{Pool}
use memsniff.Analysis.Pool
use memsniff.Presentation.Screen.{Stats}
use memsniff.Common.{◌≡◌, ◌<◌, ◌^◌, arith, ap, ap₂, ◌∙◌, ℕ, ◌+◌, Option, none, some, ℤ, pos, ◌+ℤ◌}

-- pcap.Stats
pub record CaptureStats : Type 0 where
  pub received : ℤ
  pub if_dropped : ℤ
  pub dropped : ℤ

abbrev with_capture : Stats → Option CaptureStats → Stats
with_capture stats none = stats
with_capture stats (some c) = record stats {
  entered_filter = c.received;
  dropped_kernel = wrap (c.if_dropped +ℤ c.dropped);
}

-- The function that statGenerator returns: the variable `stats` after a call, which is also the
-- result. The capture statistics are `none` where Stats returns an error.
unfoldable pub generate_stats :
    {Src Info : Type 0} → Stats → Option CaptureStats → Pool Src Info → Pool.Pool → Stats
generate_stats stats capture decode analysis =
    let s = with_capture stats capture in
    record s {
      captured = wrap (pos decode.captured);
      dropped_parser = wrap (pos decode.dropped);
      responses_parsed = wrap (pos analysis.handled);
      dropped_analysis = wrap (pos analysis.dropped);
      passed_filter = wrap (s.dropped_kernel +ℤ wrap (pos decode.captured));
      dropped_total =
          wrap
            (wrap (s.dropped_kernel +ℤ wrap (pos decode.dropped)) +ℤ wrap (pos analysis.dropped));
    }

small_sum : (m n : ℕ) → m + n < 2 ^ 63 → wrap (pos m +ℤ pos n) ≡ pos (m + n)
small_sum m n h =
    let e : pos m +ℤ pos n ≡ pos (m + n) = ground arith in ap wrap e ∙ wrap_small (m + n) h

-- The packets that passed the filter are those that the kernel dropped and those that were captured;
-- the drops also count those that the decode pool discarded.
pub generate_stats-counts :
    {Src Info : Type 0} (stats : Stats) (c : CaptureStats) (a b : ℕ) (decode : Pool Src Info)
    (analysis : Pool.Pool)
    → c.if_dropped ≡ pos a
    → c.dropped ≡ pos b
    → a + b + (decode.captured + decode.dropped + analysis.dropped) < 2 ^ 63
    → ((generate_stats stats (some c) decode analysis).passed_filter
        ≡ pos (a + b + decode.captured))
      × ((generate_stats stats (some c) decode analysis).dropped_total
          ≡ pos (a + b + (decode.dropped + analysis.dropped)))
unfolding generate_stats
generate_stats-counts stats c a b decode analysis ea eb fits =
    let kernel : wrap (c.if_dropped +ℤ c.dropped) ≡ pos (a + b) =
      ap₂ (λ x y. wrap (x +ℤ y)) ea eb ∙ small_sum a b (omega arith) in
    (
      ap₂ (λ x y. wrap (x +ℤ y)) kernel (wrap_small decode.captured (omega arith))
          ∙ small_sum (a + b) decode.captured (omega arith),
      ap₂ (λ x y. wrap (x +ℤ y))
            (ap₂ (λ x y. wrap (x +ℤ y)) kernel (wrap_small decode.dropped (omega arith))
              ∙ small_sum (a + b) decode.dropped (omega arith))
            (wrap_small analysis.dropped (omega arith))
          ∙ small_sum (a + b + decode.dropped) analysis.dropped (omega arith)
          ∙ ap pos {x = a + b + decode.dropped + analysis.dropped}
              {y = a + b + (decode.dropped + analysis.dropped)} (omega arith),
    )
