-- ===== src/Mctext/Reply.antt =====
-- The replies that handleGet of protocol/mctext/consumer.go reads: memcached's
-- "VALUE <key> <flags> <bytes>\r\n<data>\r\n" for each hit, then "END\r\n".
use memsniff.Buffer.{contains, trim_cr}
use memsniff.Buffer.Reading.{Free, Free-append}
use memsniff.Model.{Event, event_get_hit}
use memsniff.Mctext.Text.{codes, equal, split, atoi}
use memsniff.Mctext.{value_fields, with_crlf}
use memsniff.Word.{wrap}
use memsniff.Common.{ℕ, ◌+◌, ◌^◌, ◌<◌, ◌≡◌, refl, ap, List, [], ◌∷◌, ◌++◌, some, arith, length, pos}

-- A hit as the server sends it; `size_text` is the decimal size of `value`.
pub record Item : Type 0 where
  pub key : List ℕ
  pub flags : List ℕ
  pub size_text : List ℕ
  pub value : List ℕ

-- The fields are free of the bytes that end a field or a line, and the size is that of the value.
pub record IsWellFormed (it : Item) : Type 0 where
  pub key_ok : Free (codes " \n") it.key
  pub flags_ok : Free (codes " \n") it.flags
  pub size_ok : Free (codes " \n") it.size_text
  pub size_is : atoi it.size_text ≡ some (pos (length it.value))
  pub fits : length it.value + 2 < 2 ^ 63

abbrev pub header : Item → List ℕ
header it = codes "VALUE" ++ b' ' ∷ (it.key ++ b' ' ∷ (it.flags ++ b' ' ∷ it.size_text))

abbrev pub crlf : List ℕ
crlf = codes "\r\n"

unfoldable pub render : List Item → List ℕ → List ℕ
render [] rest = codes "END\r\n" ++ rest
render (it ∷ its) rest =
    (header it ++ b'\r' ∷ []) ++ b'\n' ∷ ((it.value ++ crlf) ++ render its rest)

abbrev pub hit : Item → Event
hit it = record { type = event_get_hit; key = it.key; size = pos (length it.value) }

abbrev pub AllWellFormed : List Item → Type 0
AllWellFormed [] = Unit
AllWellFormed (it ∷ its) = IsWellFormed it × AllWellFormed its

-- Free of both delimiters, free of each.
Free-newline : (xs : List ℕ) → Free (codes " \n") xs → Free (b'\n' ∷ []) xs
unfolding contains
Free-newline [] f = tt
Free-newline (x ∷ xs) f = (ground arith, Free-newline xs f.1)

pub trim_cr-snoc : (xs : List ℕ) → trim_cr (xs ++ b'\r' ∷ []) ≡ xs
unfolding trim_cr
trim_cr-snoc [] = refl
trim_cr-snoc (x ∷ []) = refl
trim_cr-snoc (x ∷ y ∷ ys) = ap (◌∷◌ x) (trim_cr-snoc (y ∷ ys))

-- A field free of spaces, and what stands behind the next space.
pub split-field :
    (word rest : List ℕ)
    → Free (codes " \n") word
    → split b' ' (word ++ b' ' ∷ rest) ≡ word ∷ split b' ' rest
unfolding split contains
split-field [] rest f = refl
split-field (x ∷ xs) rest f = ground (arith, split-field xs rest f.1)

pub split-last : (word : List ℕ) → Free (codes " \n") word → split b' ' word ≡ word ∷ []
unfolding split contains
split-last [] f = refl
split-last (x ∷ xs) f = ground (arith, split-last xs f.1)

pub value_fields-header :
    (it : Item)
    → IsWellFormed it
    → value_fields (split b' ' (header it)) ≡ some (it.key, it.size_text)
unfolding value_fields
value_fields-header it w =
    rw
      (
        split-field (codes "VALUE") (it.key ++ b' ' ∷ (it.flags ++ b' ' ∷ it.size_text)) free_name,
        split-field it.key (it.flags ++ b' ' ∷ it.size_text) w.key_ok,
        split-field it.flags it.size_text w.flags_ok,
        split-last it.size_text w.size_ok,
      )
      (unfold equal in refl)
  where
    free_name : Free (codes " \n") (codes "VALUE")
    free_name = unfold contains in (refl, (refl, (refl, (refl, (refl, tt)))))

pub with_crlf_small : (n : ℕ) → n + 2 < 2 ^ 63 → with_crlf (pos n) ≡ pos (n + 2)
unfolding wrap
with_crlf_small n h = ground arith

pub header-Free : (it : Item) → IsWellFormed it → Free (b'\n' ∷ []) (header it ++ b'\r' ∷ [])
unfolding contains
header-Free it w = (refl, (refl, (refl, (refl, (refl, (refl, fields))))))
  where
    fields : Free (b'\n' ∷ []) ((it.key ++ b' ' ∷ (it.flags ++ b' ' ∷ it.size_text)) ++ b'\r' ∷ [])
    fields =
        Free-append (b'\n' ∷ []) (it.key ++ b' ' ∷ (it.flags ++ b' ' ∷ it.size_text)) (b'\r' ∷ [])
          (Free-append (b'\n' ∷ []) it.key _ (Free-newline it.key w.key_ok) (
            refl,
            Free-append (b'\n' ∷ []) it.flags _ (Free-newline it.flags w.flags_ok)
                (refl, Free-newline it.size_text w.size_ok),
          ))
          (refl, tt)
