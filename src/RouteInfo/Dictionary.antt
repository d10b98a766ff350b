-- ===== src/RouteInfo/Dictionary.antt =====
-- What the dictionary of a route holds, by the items of its POD.
use pipewire_gobject.Prelude.{
  ℕ, zero, suc, ◌≡◌, refl, ap, ◌∙◌, String, true, false, some, List, [], ◌∷◌, take,
}
use pipewire_gobject.Prelude.Int.{ℤ, pos, is_negative}
use pipewire_gobject.RouteInfo.{Parser, add_entry, parse_items, rounds, parse_info}

-- An item of a struct.
pub data Item : Type 0 where
  int : ℤ → Item
  text : String → Item

-- The items of a dictionary, without its count.
abbrev pub flatten : List (String × String) → List Item
flatten [] = []
flatten ((key, value) ∷ entries) = text key ∷ text value ∷ flatten entries

-- What the documentation of SPA says of a parser whose state stands for the items that are left.
pub record IsParser {P Inner : Type 0} (parser : Parser P Inner) (items : P → List Item)
    (contents : Inner → List Item) : Type 0 where
  pub opens :
      (pod : Inner)
      → parser.is_struct pod ≡ true
      → (is_negative (parser.push_struct (parser.start pod)).0 ≡ false)
        × (items (parser.push_struct (parser.start pod)).1 ≡ contents pod)
  pub reads_int :
      (p : P) (n : ℤ) (rest : List Item)
      → items p ≡ int n ∷ rest
      → (is_negative (parser.get_int p).0 ≡ false)
        × ((parser.get_int p).1 ≡ n)
        × (items (parser.get_int p).2 ≡ rest)
  pub reads_text :
      (p : P) (s : String) (rest : List Item)
      → items p ≡ text s ∷ rest
      → (is_negative (parser.get_string p).0 ≡ false)
        × ((parser.get_string p).1 ≡ some s)
        × (items (parser.get_string p).2 ≡ rest)
  pub ends : (p : P) → items p ≡ [] → is_negative (parser.get_string p).0 ≡ true

module _ {P Inner : Type 0} (parser : Parser P Inner) (items : P → List Item)
    (contents : Inner → List Item) (lawful : IsParser parser items contents) where
  parse_items-take :
      (n : ℕ) (p : P) (entries : List (String × String))
      → items p ≡ flatten entries
      → parse_items parser n p ≡ take n entries
  unfolding parse_items add_entry
  parse_items-take zero p entries h = refl
  parse_items-take (suc n) p [] h = rw (lawful.ends p h) refl
  parse_items-take (suc n) p ((key, value) ∷ entries) h =
      let (k0, k1, k2) = lawful.reads_text p key (text value ∷ flatten entries) h in
      let (v0, v1, v2) = lawful.reads_text (parser.get_string p).2 value (flatten entries) k2 in
      rw (k0, v0, k1, v1)
        (ap (λ rest. (key, value) ∷ rest)
          (parse_items-take n (parser.get_string (parser.get_string p).2).2 entries v2))

  -- A struct that holds a count and then the entries of a dictionary, key and value in turn, gives
  -- as many of the entries as the count says, in their order, and all of them where the count is
  -- too large: the loop ends with the items, whatever the count.
  pub parse_info-take :
      (pod : Inner) (n : ℕ) (entries : List (String × String))
      → parser.is_struct pod ≡ true
      → contents pod ≡ int (pos n) ∷ flatten entries
      → parse_info parser (some pod) ≡ take n entries
  unfolding parse_info rounds
  parse_info-take pod n entries struct holds =
      let (o0, o1) = lawful.opens pod struct in
      let pushed = parser.push_struct (parser.start pod) in
      let (c0, c1, c2) = lawful.reads_int pushed.1 (pos n) (flatten entries) (o1 ∙ holds) in
      rw (struct, o0, c0, c1) (parse_items-take n (parser.get_int pushed.1).2 entries c2)
