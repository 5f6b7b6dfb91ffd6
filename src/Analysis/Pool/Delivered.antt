-- ===== src/Analysis/Pool/Delivered.antt =====
-- What a worker knows after a delivery by HandleEvents of analysis/pool.go.
use mathlib.Core.Logic.{ite, if_neg}
use memsniff.Model.{Event}
use memsniff.Partition.{of_worker, belongs, belongs_is}
use memsniff.Hotlist.Counts.{occurrences, ℤ-add_zero}
use memsniff.Analysis.Worker.{
  KeyInfo, Worker, same_info?, queue_cap, is_hit, info, put, blank, copy_hits,
}
use memsniff.Analysis.Worker.Steps.{known, known-queued, handle_events_room, handle_events_full}
use memsniff.Analysis.Pool.{event_slot, key_slot, deliver, deliver_all}
use memsniff.Common.{
  ℕ, zero, suc, ◌-◌, ◌≡◌, refl, sym, ap, ◌∙◌, subst, true, List, [], ◌∷◌, ◌++◌, append_assoc,
  append-nil, map, Option, some, arith, length, length-append, get_elem?, replicate, ltb,
  Bool-cases, inl, inr, pos, ◌+ℤ◌,
}

-- Every event is a hit.
abbrev pub AreHits : List Event → Type 0
AreHits [] = Unit
AreHits (e ∷ es) = (is_hit e.type ≡ true) × AreHits es

copy_hits_on :
    (es : List Event) (i : ℕ) (kis : List KeyInfo)
    → AreHits es
    → length kis ≡ i
    → copy_hits i kis es ≡ kis ++ map info es
unfolding copy_hits put
copy_hits_on [] i kis h l = sym (append-nil kis)
copy_hits_on (e ∷ es) i kis h l =
    let no_gap : put kis i (info e) ≡ kis ++ info e ∷ [] =
      ap (λ n. (kis ++ replicate n blank) ++ info e ∷ []) {x = i - length kis} {y = 0}
        (omega (arith, l))
      ∙ ap (λ ks. ks ++ info e ∷ []) (append-nil kis) in
    rw (h.0, copy_hits, no_gap)
      (copy_hits_on es (suc i) (kis ++ info e ∷ []) h.1
          (omega (arith, length-append kis (info e ∷ []), l))
        ∙ append_assoc kis (info e ∷ []) (map info es))

-- A batch that a worker drops nothing of.
pub deliver-known :
    (w : Worker) (b : List Event) (x : KeyInfo)
    → AreHits b
    → (deliver w b).2 ≡ 0
    → known (deliver w b).0 x ≡ known w x +ℤ pos (occurrences same_info? (map info b) x)
unfolding deliver
deliver-known w [] x h d = unfold occurrences in ℤ-add_zero (known w x)
deliver-known w (e ∷ es) x h d = elim (Bool-cases (ltb (length w.waiting) queue_cap)) [
  | inl room ↦ rw (handle_events_room w (e ∷ es) room) (
      known-queued w (copy_hits 0 [] (e ∷ es)) x
      ∙ ap (λ ks. known w x +ℤ pos (occurrences same_info? ks x))
          (copy_hits_on (e ∷ es) 0 [] h refl))
  | inr full ↦ absurd (ground (arith, d, handle_events_full w (e ∷ es) full))
]

pub deliver_all-get :
    (ws : List Worker) (bs : List (List Event)) (i : ℕ) (w : Worker) (b : List Event)
    → get_elem? ws i ≡ some w
    → get_elem? bs i ≡ some b
    → (deliver_all ws bs).2 ≡ 0
    → (get_elem? (deliver_all ws bs).0 i ≡ some (deliver w b).0) × ((deliver w b).2 ≡ 0)
unfolding deliver_all
deliver_all-get [] bs i w b g h d = absurd (ground (arith, g))
deliver_all-get (v ∷ ws) [] i w b g h d = absurd (ground (arith, h))
deliver_all-get (v ∷ ws) (c ∷ bs) zero w b g h d =
    let ev : v ≡ w = ground (arith, g) in
    let eb : c ≡ b = ground (arith, h) in
    let same : deliver v c ≡ deliver w b = ap (λ u. deliver u c) ev ∙ ap (deliver w) eb in
    (
      ap (λ (r : Worker × ℕ × ℕ). some r.0) same,
      subst (λ (r : Worker × ℕ × ℕ). r.2 ≡ 0) same (omega (arith, d)),
    )
deliver_all-get (v ∷ ws) (c ∷ bs) (suc i) w b g h d =
    deliver_all-get ws bs i w b g h (omega (arith, d))

-- The events of the worker that a key belongs to hold all of its occurrences.
pub own_occurrences :
    (n i : ℕ) (x : KeyInfo) (es : List Event)
    → key_slot n x.name ≡ some i
    → occurrences same_info? (map info (of_worker (event_slot n) i es)) x
      ≡ occurrences same_info? (map info es) x
unfolding of_worker occurrences
own_occurrences n i x [] s = refl
own_occurrences n i x (e ∷ es) s =
    let rest = own_occurrences n i x es s in
    elim (Bool-cases (belongs (event_slot n) i e)) [
      | inl own ↦ rw own (ap (λ m. ite (same_info? (info e) x) (suc m) m) rest)
      | inr other ↦ rw other (elim (same_info? (info e) x) [
        | yes p ↦
            let q : event_slot n e ≡ some i = ap (λ k. key_slot n k.name) p ∙ s in
            absurd (ground (arith, belongs_is (event_slot n) i i e q, other))
        | no d ↦ rest ∙ sym (if_neg (same_info? (info e) x) d _ _)
      ])
    ]

pub AreHits-of_worker :
    (slot_of : Event → Option ℕ) (i : ℕ) (es : List Event)
    → AreHits es
    → AreHits (of_worker slot_of i es)
unfolding of_worker
AreHits-of_worker slot_of i [] h = tt
AreHits-of_worker slot_of i (e ∷ es) h = elim (Bool-cases (belongs slot_of i e)) [
  | inl own ↦ rw own (h.0, AreHits-of_worker slot_of i es h.1)
  | inr other ↦ rw other (AreHits-of_worker slot_of i es h.1)
]

pub AreHits-append : (es fs : List Event) → AreHits (es ++ fs) → AreHits es × AreHits fs
AreHits-append [] fs h = (tt, h)
AreHits-append (e ∷ es) fs h = let r = AreHits-append es fs h.1 in ((h.0, r.0), r.1)
