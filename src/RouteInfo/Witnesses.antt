-- ===== src/RouteInfo/Witnesses.antt =====
-- The theorem on routes at a concrete parser, which reads a list of items.
use pipewire_gobject.Prelude.{◌≡◌, refl, ap, String, true, Option, none, some, List, [], ◌∷◌, take}
use pipewire_gobject.Prelude.Int.{ℤ, pos, negsuc, is_negative}
use pipewire_gobject.RouteInfo.{Parser, parse_info}
use pipewire_gobject.RouteInfo.Dictionary.{Item, int, text, flatten, IsParser, parse_info-take}

abbrev next_int : List Item → ℤ × ℤ × List Item
next_int [] = (negsuc 0, pos 0, [])
next_int (int n ∷ rest) = (pos 0, n, rest)
next_int (text s ∷ rest) = (negsuc 0, pos 0, text s ∷ rest)

abbrev next_text : List Item → ℤ × Option String × List Item
next_text [] = (negsuc 0, none, [])
next_text (int n ∷ rest) = (negsuc 0, none, int n ∷ rest)
next_text (text s ∷ rest) = (pos 0, some s, rest)

abbrev reader : Parser (List Item) (List Item)
reader = record {
  is_struct = λ pod. true;
  start = λ pod. pod;
  push_struct = λ p. (pos 0, p);
  get_int = next_int;
  get_string = next_text;
}

reader-IsParser : IsParser reader (λ p. p) (λ pod. pod)
reader-IsParser = record {
  opens = λ pod e. (refl, refl);
  reads_int = λ p n rest e. (
    ap (λ (q : List Item). is_negative (next_int q).0) e,
    ap (λ (q : List Item). (next_int q).1) e,
    ap (λ (q : List Item). (next_int q).2) e,
  );
  reads_text = λ p s rest e. (
    ap (λ (q : List Item). is_negative (next_text q).0) e,
    ap (λ (q : List Item). (next_text q).1) e,
    ap (λ (q : List Item). (next_text q).2) e,
  );
  ends = λ p e. ap (λ (q : List Item). is_negative (next_text q).0) e;
}

abbrev entries : List (String × String)
entries = ("port.type", "headphones") ∷ ("card.profile.port", "1") ∷ []

-- A count that is too large.
parse_info-take_example : parse_info reader (some (int (pos 5) ∷ flatten entries)) ≡ take 5 entries
parse_info-take_example =
    parse_info-take reader (λ p. p) (λ pod. pod) reader-IsParser (int (pos 5) ∷ flatten entries) 5
      entries refl refl
