-- ===== src/Analysis/Worker/Copy.antt =====
-- What handleEvents of analysis/worker.go copies out of a batch of events.
use mathlib.Core.List.{map-append}
use memsniff.Model.{Event}
use memsniff.Analysis.Worker.{KeyInfo, is_hit, info, blank, put, copy_hits}
use memsniff.Common.{
  ℕ, zero, suc, ◌-◌, ◌≤◌, ◌≡◌, refl, sym, ap, ◌∙◌, true, false, List, [], ◌∷◌, ◌++◌, map,
  append_assoc, append-nil, arith, length, replicate, length-append, length-map, Bool-cases, inl,
  inr, if◌then◌else◌,
}

-- What the copy holds at an event's index.
abbrev pub slot : Event → KeyInfo
slot e = if is_hit e.type then info e else blank

abbrev pub NoHits : List Event → Type 0
NoHits [] = Unit
NoHits (e ∷ es) = (is_hit e.type ≡ false) × NoHits es

copy_hits-NoHits :
    (es : List Event) (i : ℕ) (kis : List KeyInfo) → NoHits es → copy_hits i kis es ≡ kis
unfolding copy_hits
copy_hits-NoHits [] i kis h = refl
copy_hits-NoHits (e ∷ es) i kis h = rw (h.0, copy_hits) (copy_hits-NoHits es (suc i) kis h.1)

replicate-snoc : (n : ℕ) → replicate (suc n) blank ≡ replicate n blank ++ blank ∷ []
replicate-snoc zero = refl
replicate-snoc (suc n) = ap (◌∷◌ blank) (replicate-snoc n)

-- `kis` is the copy of the events `done`, without blanks at its end.
record CopyOf (i : ℕ) (kis : List KeyInfo) (done : List Event) : Type 0 where
  short : length kis ≤ i
  padded : kis ++ replicate (i - length kis) blank ≡ map slot done
  counted : length done ≡ i

slot_hit : (e : Event) → is_hit e.type ≡ true → info e ≡ slot e
slot_hit e h = rw h refl

slot-blank : (e : Event) → is_hit e.type ≡ false → blank ≡ slot e
slot-blank e h = rw h refl

put-done :
    (i : ℕ) (kis : List KeyInfo) (done : List Event) (e : Event)
    → CopyOf i kis done
    → is_hit e.type ≡ true
    → put kis i (info e) ≡ map slot (done ++ e ∷ [])
unfolding put
put-done i kis done e c h =
    ap (λ k. k ++ info e ∷ []) c.padded
    ∙ ap (λ k. map slot done ++ k ∷ []) (slot_hit e h)
    ∙ sym (map-append slot done (e ∷ []))

hit-CopyOf :
    (i : ℕ) (kis : List KeyInfo) (done : List Event) (e : Event)
    → CopyOf i kis done
    → is_hit e.type ≡ true
    → CopyOf (suc i) (put kis i (info e)) (done ++ e ∷ [])
hit-CopyOf i kis done e c h = record {
  short = omega (arith, size);
  padded =
      ap (λ k. put kis i (info e) ++ replicate k blank) {x = suc i - length (put kis i (info e))}
        {y = 0} (omega (arith, size))
      ∙ append-nil (put kis i (info e))
      ∙ put-done i kis done e c h;
  counted = omega (arith, length-append done (e ∷ []), c.counted);
}
  where
    size : length (put kis i (info e)) ≡ suc i
    size =
        ap length (put-done i kis done e c h)
        ∙ length-map (done ++ e ∷ []) slot
        ∙ length-append done (e ∷ [])
        ∙ omega (arith, c.counted)

miss-CopyOf :
    (i : ℕ) (kis : List KeyInfo) (done : List Event) (e : Event)
    → CopyOf i kis done
    → is_hit e.type ≡ false
    → CopyOf (suc i) kis (done ++ e ∷ [])
miss-CopyOf i kis done e c h = record {
  short = omega (arith, c.short);
  padded =
      ap (λ k. kis ++ replicate k blank) {x = suc i - length kis} {y = suc (i - length kis)}
        (omega (arith, c.short))
      ∙ ap (λ bs. kis ++ bs) (replicate-snoc (i - length kis))
      ∙ sym (append_assoc kis (replicate (i - length kis) blank) (blank ∷ []))
      ∙ ap (λ k. k ++ blank ∷ []) c.padded
      ∙ ap (λ k. map slot done ++ k ∷ []) (slot-blank e h)
      ∙ sym (map-append slot done (e ∷ []));
  counted = omega (arith, length-append done (e ∷ []), c.counted);
}

copy_hits-CopyOf :
    (es : List Event) (i : ℕ) (kis : List KeyInfo) (done : List Event) (e : Event)
    (rest : List Event)
    → CopyOf i kis done
    → is_hit e.type ≡ true
    → NoHits rest
    → copy_hits i kis (es ++ e ∷ rest) ≡ map slot (done ++ (es ++ e ∷ []))
unfolding copy_hits
copy_hits-CopyOf [] i kis done e rest c h n =
    rw (h, copy_hits)
      (copy_hits-NoHits rest (suc i) (put kis i (info e)) n ∙ put-done i kis done e c h)
copy_hits-CopyOf (x ∷ xs) i kis done e rest c h n = elim (Bool-cases (is_hit x.type)) [
  | inl hit ↦
      rw (hit, copy_hits)
        (copy_hits-CopyOf xs (suc i) (put kis i (info x)) (done ++ x ∷ []) e rest
            (hit-CopyOf i kis done x c hit) h n
          ∙ ap (map slot) (append_assoc done (x ∷ []) (xs ++ e ∷ [])))
  | inr miss ↦
      rw (miss, copy_hits)
        (copy_hits-CopyOf xs (suc i) kis (done ++ x ∷ []) e rest (miss-CopyOf i kis done x c miss) h
            n
          ∙ ap (map slot) (append_assoc done (x ∷ []) (xs ++ e ∷ [])))
]

-- handleEvents copies, for a batch with a hit, one keyInfo for each event up to the last hit,
-- in order: the key and size of a hit, and a keyInfo with no name and size 0 for an event that
-- is no hit; the events behind the last hit leave nothing.
pub copy_hits-slot :
    (es : List Event) (e : Event) (rest : List Event)
    → is_hit e.type ≡ true
    → NoHits rest
    → copy_hits 0 [] (es ++ e ∷ rest) ≡ map slot (es ++ e ∷ [])
copy_hits-slot es e rest h n =
    copy_hits-CopyOf es 0 [] [] e rest
      (record { short = omega arith; padded = refl; counted = refl }) h n
