-- ===== src/Analysis/Worker/Steps.antt =====
-- A worker of analysis/worker.go between a sender and its own loop, in any interleaving.
use mathlib.Core.List.{flatten}
use memsniff.Model.{Event}
use memsniff.Hotlist.{add_all}
use memsniff.Hotlist.Counts.{
  count_of, occurrences, count_of-add_all, ℤ-add, ℤ-add_zero, occurrences-append,
}
use memsniff.Analysis.Worker.{
  KeyInfo, Worker, same_info?, queue_cap, copy_hits, handle_events, take_batch,
}
use memsniff.Common.{
  flatten-snoc, ◌≡◌, refl, sym, ap, ◌∙◌, Bool, true, false, List, [], ◌∷◌, ◌++◌, length, ltb,
  if◌then◌else◌, Bool-cases, inl, inr, ◌⊎◌, ℤ, pos, ◌+ℤ◌,
}

pub data Action : Type 0 where
  sends : List Event → Action
  takes : Action

unfoldable pub act : Worker → Action → Worker
act w (sends evts) = (handle_events w evts).0
act w takes = take_batch w

unfoldable pub act_all : Worker → List Action → Worker
act_all w [] = w
act_all w (a ∷ more) = act_all (act w a) more

-- The keyInfos of the batches that the worker accepts.
unfoldable pub accepted : Worker → List Action → List KeyInfo
accepted w [] = []
accepted w (sends evts ∷ more) =
    let rest = accepted (act w (sends evts)) more in
    if (handle_events w evts).1 then copy_hits 0 [] evts ++ rest else rest
accepted w (takes ∷ more) = accepted (act w takes) more

-- How often a worker has counted a keyInfo, or will when it has taken what is waiting.
unfoldable pub known : Worker → KeyInfo → ℤ
known w x = count_of same_info? w.hl x +ℤ pos (occurrences same_info? (flatten w.waiting) x)

-- A worker with one batch more, and with one batch counted.
abbrev pub queued : Worker → List KeyInfo → Worker
queued w kis = record w { waiting = w.waiting ++ kis ∷ [] }

abbrev counted : Worker → List KeyInfo → List (List KeyInfo) → Worker
counted w kis rest = record { hl = add_all same_info? w.hl kis; waiting = rest }

pub known-queued :
    (w : Worker) (kis : List KeyInfo) (x : KeyInfo)
    → known (queued w kis) x ≡ known w x +ℤ pos (occurrences same_info? kis x)
unfolding known
known-queued w kis x =
    ap (λ m. count_of same_info? w.hl x +ℤ pos m)
      (ap (λ ks. occurrences same_info? ks x) (flatten-snoc w.waiting kis)
        ∙ occurrences-append same_info? (flatten w.waiting) kis x)
    ∙ sym (
        ℤ-add (count_of same_info? w.hl x) (occurrences same_info? (flatten w.waiting) x)
          (occurrences same_info? kis x))

known-counted :
    (w : Worker) (kis : List KeyInfo) (rest : List (List KeyInfo)) (x : KeyInfo)
    → w.waiting ≡ kis ∷ rest
    → known (counted w kis rest) x ≡ known w x
unfolding known flatten
known-counted w kis rest x e =
    ap (λ c. c +ℤ pos (occurrences same_info? (flatten rest) x))
      (count_of-add_all same_info? kis w.hl x)
    ∙ ℤ-add (count_of same_info? w.hl x) (occurrences same_info? kis x)
        (occurrences same_info? (flatten rest) x)
    ∙ ap (λ m. count_of same_info? w.hl x +ℤ pos m)
        (sym (occurrences-append same_info? kis (flatten rest) x))
    ∙ ap (λ ws. count_of same_info? w.hl x +ℤ pos (occurrences same_info? (flatten ws) x)) (sym e)

take_batch-cases :
    (w : Worker) (ws : List (List KeyInfo))
    → w.waiting ≡ ws
    → (take_batch w ≡ w)
      ⊎ ((kis : List KeyInfo) × (rest : List (List KeyInfo)) × (w.waiting ≡ kis ∷ rest)
          × (take_batch w ≡ counted w kis rest))
unfolding take_batch
take_batch-cases w [] e = inl (ap (λ ws. elim ws [ [] ↦ w | k ∷ ks ↦ counted w k ks ]) e)
take_batch-cases w (kis ∷ rest) e = inr (kis, rest, e, rw (e, take_batch) refl)

pub known-take_batch : (w : Worker) (x : KeyInfo) → known (take_batch w) x ≡ known w x
known-take_batch w x = elim (take_batch-cases w w.waiting refl) [
  | inl e ↦ ap (λ v. known v x) e
  | inr (kis, rest, q, e) ↦ ap (λ v. known v x) e ∙ known-counted w kis rest x q
]

-- What is accepted and left, by the answer to a batch.
abbrev accepted_by : List Event → List Action → Worker × Bool → List KeyInfo
accepted_by evts more r =
    if r.1 then copy_hits 0 [] evts ++ accepted r.0 more else accepted r.0 more

pub handle_events_room :
    (w : Worker) (evts : List Event)
    → ltb (length w.waiting) queue_cap ≡ true
    → handle_events w evts ≡ (queued w (copy_hits 0 [] evts), true)
unfolding handle_events
handle_events_room w evts e = rw e refl

pub handle_events_full :
    (w : Worker) (evts : List Event)
    → ltb (length w.waiting) queue_cap ≡ false
    → handle_events w evts ≡ (w, false)
unfolding handle_events
handle_events_full w evts e = rw e refl

-- However the sending of batches and the worker's own rounds interleave, the times that a
-- worker has counted a keyInfo, or will once it has taken what waits, rise by its occurrences
-- in the copies of the batches that were accepted; a batch that meets a full queue adds
-- nothing.
pub known-act_all :
    (steps : List Action) (w : Worker) (x : KeyInfo)
    → known (act_all w steps) x ≡ known w x +ℤ pos (occurrences same_info? (accepted w steps) x)
unfolding act_all act accepted
known-act_all [] w x = unfold occurrences in ℤ-add_zero (known w x)
known-act_all (takes ∷ more) w x =
    known-act_all more (take_batch w) x
    ∙ ap (λ k. k +ℤ pos (occurrences same_info? (accepted (take_batch w) more) x))
        (known-take_batch w x)
known-act_all (sends evts ∷ more) w x = elim (Bool-cases (ltb (length w.waiting) queue_cap)) [
  | inl room ↦
      let kis = copy_hits 0 [] evts in
      let h = handle_events_room w evts room in
      ap (λ v. known (act_all v.0 more) x) h
      ∙ known-act_all more (queued w kis) x
      ∙ ap (λ k. k +ℤ pos (occurrences same_info? (accepted (queued w kis) more) x))
          (known-queued w kis x)
      ∙ ℤ-add (known w x) (occurrences same_info? kis x)
          (occurrences same_info? (accepted (queued w kis) more) x)
      ∙ ap (λ m. known w x +ℤ pos m)
          (sym (occurrences-append same_info? kis (accepted (queued w kis) more) x))
      ∙ ap (λ ks. known w x +ℤ pos (occurrences same_info? ks x))
          (sym (ap (accepted_by evts more) h))
  | inr full ↦
      let h = handle_events_full w evts full in
      ap (λ v. known (act_all v.0 more) x) h
      ∙ known-act_all more w x
      ∙ ap (λ ks. known w x +ℤ pos (occurrences same_info? ks x))
          (sym (ap (accepted_by evts more) h))
]
