-- ===== src/Capture/Open/Ports.antt =====
-- The filter expression of portFilter in capture/capture.go, read by pcap's grammar.
use memsniff.Buffer.Reading.{Free}
use memsniff.Mctext.Text.{codes, split, atoi, equal}
use memsniff.Mctext.Reply.{split-field, split-last}
use memsniff.Decimal.{itoa, decimal-Free, atoi-itoa}
use memsniff.Capture.Open.{Result, ok, error, port_filter, more_ports}
use memsniff.Common.{
  ℕ, ◌^◌, ◌<◌, ◌≡◌, refl, ap, ap₂, ◌∙◌, append-nil, ◌&&◌, List, [], ◌∷◌, ◌++◌, map, Option, none,
  some, if◌then◌else◌, ℤ, pos,
}

-- The ports of an expression, of terms `tcp port N` with `or` between them; `none` if it is no such
-- expression.
abbrev add_port : Option ℤ → Option (List ℤ) → Option (List ℤ)
add_port none ports = none
add_port (some port) none = none
add_port (some port) (some ports) = some (port ∷ ports)

unfoldable pub read_terms : List (List ℕ) → Option (List ℤ)
read_terms (a ∷ b ∷ c ∷ []) =
    if equal a (codes "tcp") && equal b (codes "port") then add_port (atoi c) (some []) else none
read_terms (a ∷ b ∷ c ∷ d ∷ rest) =
    let ports = read_terms rest in
    if equal a (codes "tcp") && equal b (codes "port") && equal d (codes "or")
    then add_port (atoi c) ports
    else none
read_terms [] = none
read_terms (a ∷ []) = none
read_terms (a ∷ b ∷ []) = none

unfoldable pub read_filter : List ℕ → Option (List ℤ)
read_filter text = read_terms (split b' ' text)

-- Numbers of ports that an int can hold.
abbrev pub AreInts : List ℕ → Type 0
AreInts [] = Unit
AreInts (n ∷ ns) = (n < 2 ^ 63) × AreInts ns

itoa-Free : (n : ℕ) → Free (codes " \n") (itoa (pos n))
unfolding itoa
itoa-Free n = decimal-Free n n [] tt

split_clause :
    (n : ℕ) (rest : List ℕ)
    → split b' ' (codes "tcp port " ++ (itoa (pos n) ++ b' ' ∷ rest))
      ≡ codes "tcp" ∷ codes "port" ∷ itoa (pos n) ∷ split b' ' rest
unfolding split
split_clause n rest =
    ap (λ fs. codes "tcp" ∷ codes "port" ∷ fs) (split-field (itoa (pos n)) rest (itoa-Free n))

split_end :
    (n : ℕ)
    → split b' ' (codes "tcp port " ++ (itoa (pos n) ++ []))
      ≡ codes "tcp" ∷ codes "port" ∷ itoa (pos n) ∷ []
unfolding split
split_end n =
    ap (λ fs. codes "tcp" ∷ codes "port" ∷ fs)
      (ap (split b' ') (append-nil (itoa (pos n))) ∙ split-last (itoa (pos n)) (itoa-Free n))

split_or : (rest : List ℕ) → split b' ' (codes "or " ++ rest) ≡ codes "or" ∷ split b' ' rest
unfolding split
split_or rest = refl

read_more :
    (n : ℕ) (ns : List ℕ)
    → AreInts (n ∷ ns)
    → read_terms (split b' ' (codes "tcp port " ++ (itoa (pos n) ++ more_ports (map pos ns))))
      ≡ some (map pos (n ∷ ns))
unfolding read_terms equal more_ports
read_more n [] fits = ap read_terms (split_end n) ∙ rw (atoi-itoa n fits.0) refl
read_more n (m ∷ ms) fits =
    let rest : List ℕ = codes "tcp port " ++ (itoa (pos m) ++ more_ports (map pos ms)) in
    ap read_terms (split_clause n (codes "or " ++ rest))
    ∙ ap (λ fs. read_terms (codes "tcp" ∷ codes "port" ∷ itoa (pos n) ∷ fs)) (split_or rest)
    ∙ ap₂ add_port (atoi-itoa n fits.0) (read_more m ms fits.1)

abbrev pub read_result : Result (List ℕ) → Option (List ℤ)
read_result (ok text) = read_filter text
read_result (error e) = none

-- For at least one port, each of which fits an int, portFilter gives an expression that, read
-- as terms `tcp port N` with `or` between them, names these ports in their order.
pub read_filter-port_filter :
    (n : ℕ) (ns : List ℕ)
    → AreInts (n ∷ ns)
    → read_result (port_filter (map pos (n ∷ ns))) ≡ some (map pos (n ∷ ns))
unfolding port_filter read_filter
read_filter-port_filter n ns fits = read_more n ns fits
