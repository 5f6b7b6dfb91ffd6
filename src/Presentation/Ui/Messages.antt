-- ===== src/Presentation/Ui/Messages.antt =====
-- The messages that presentation/termbox.go shows.
use memsniff.Presentation.Screen.{log_lines}
use memsniff.Presentation.Ui.{Ui, handle_new_message}
use memsniff.Common.{
  ℕ, ◌+◌, ◌-◌, ◌≤◌, ◌≡◌, sym, ap, ◌∙◌, subst, List, [], ◌∷◌, ◌++◌, append_assoc, append-nil, arith,
  ltb, length, length-append, length-drop, drop, drop-append_le, drop-drop, Bool-cases, inl, inr,
}

-- The last `n` elements of a list.
abbrev pub last_of : {A : Type 0} → ℕ → List A → List A
last_of n xs = drop (length xs - n) xs

-- The messages that the event loop takes, one after the other.
unfoldable pub handle_messages : Ui → List (List ℕ) → Ui
handle_messages u [] = u
handle_messages u (msg ∷ msgs) = handle_messages (handle_new_message u msg) msgs

last_of-append :
    {A : Type 0} (n : ℕ) (xs ys : List A) → last_of n (last_of n xs ++ ys) ≡ last_of n (xs ++ ys)
last_of-append n xs ys =
    ap (λ zs. drop (length (last_of n xs ++ ys) - n) zs)
      (sym (drop-append_le (length xs - n) xs ys (omega arith)))
    ∙ drop-drop (length (last_of n xs ++ ys) - n) (length xs - n) (xs ++ ys)
    ∙ ap (λ k. drop k (xs ++ ys)) {x = length xs - n + (length (last_of n xs ++ ys) - n)}
        {y = length (xs ++ ys) - n}
        (omega (
          arith,
          length-append (last_of n xs) ys,
          length-append xs ys,
          length-drop (length xs - n) xs,
        ))

last_of-short : {A : Type 0} (n : ℕ) (xs : List A) → length xs ≤ n → last_of n xs ≡ xs
last_of-short n xs h = ap (λ k. drop k xs) {x = length xs - n} {y = 0} (omega arith)

length-last_of : {A : Type 0} (n : ℕ) (xs : List A) → length (last_of n xs) ≤ n
length-last_of n xs = omega (arith, length-drop (length xs - n) xs)

one_message :
    (u : Ui) (msg : List ℕ)
    → length u.messages ≤ log_lines
    → (handle_new_message u msg).messages ≡ last_of log_lines (u.messages ++ msg ∷ [])
unfolding handle_new_message
one_message u msg h = elim (Bool-cases (ltb (length u.messages) log_lines)) [
  | inl e ↦ rw e (
      sym (
        last_of-short log_lines (u.messages ++ msg ∷ [])
          (ground (arith, e, length-append u.messages (msg ∷ [])))))
  | inr e ↦
      let full : length u.messages ≡ log_lines = ground (arith, e) in
      rw e (
        sym (drop-append_le 1 u.messages (msg ∷ []) (omega arith))
        ∙ ap (λ k. drop k (u.messages ++ msg ∷ [])) {x = 1}
            {y = length (u.messages ++ msg ∷ []) - log_lines}
            (omega (arith, length-append u.messages (msg ∷ []))))
]

-- The messages shown are the last ones taken.
pub handle_messages-last_of :
    (msgs : List (List ℕ)) (u : Ui)
    → length u.messages ≤ log_lines
    → (handle_messages u msgs).messages ≡ last_of log_lines (u.messages ++ msgs)
unfolding handle_messages
handle_messages-last_of [] u h =
    sym (ap (last_of log_lines) (append-nil u.messages) ∙ last_of-short log_lines u.messages h)
handle_messages-last_of (msg ∷ msgs) u h =
    let e = one_message u msg h in
    handle_messages-last_of msgs (handle_new_message u msg) (
      subst (λ ms. length ms ≤ log_lines) (sym e)
        (length-last_of log_lines (u.messages ++ msg ∷ [])))
    ∙ ap (λ ms. last_of log_lines (ms ++ msgs)) e
    ∙ last_of-append log_lines (u.messages ++ msg ∷ []) msgs
    ∙ ap (last_of log_lines) (append_assoc u.messages (msg ∷ []) msgs)
