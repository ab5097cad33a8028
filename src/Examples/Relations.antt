-- ===== src/Examples/Relations.antt =====
-- Three objects in a row, and a ring of two.
use laforge.Base.{
  ℕ, zero, suc, ◌+◌, ◌<◌, ◌≤◌, String, Bool, true, false, Option, none, some, List, [], ◌∷◌, ◌≡◌,
  ◌↔◌, refl, arith, str_eq, In,
}
use laforge.Relationship.{
  Relationships, WalkError, traverse_children, walked, has_indirect_child, walk_relationship,
}
use laforge.Relationship.Search.{Below, has_indirect_child-Below}
use laforge.Relationship.Bounded.{walk_relationship-bounded}
use laforge.Relationship.Cycle.{ring_never_answers}

data Place : Type 0 where
  city street house : Place

abbrev inside : Place → List Place
inside city = street ∷ []
inside street = house ∷ house ∷ []
inside house = []

abbrev outside : Place → List Place
outside city = []
outside street = city ∷ []
outside house = street ∷ []

abbrev name : Place → String
name city = "city"
name street = "street"
name house = "house"

abbrev places : Relationships
places = record {
  Object = Place;
  get_id = name;
  children = inside;
  parents = outside;
  children_ids = λ p. [];
}

abbrev rank : Place → ℕ
rank city = 2
rank street = 1
rank house = 0

inside_down : (x y : Place) → In y (inside x) → rank y < rank x
inside_down city city i = ground (arith, i)
inside_down city street i = omega arith
inside_down city house i = omega arith
inside_down street city i = ground (arith, i)
inside_down street street i = ground (arith, i)
inside_down street house i = omega arith
inside_down house y i = elim i [ ]

has_indirect_child-Below_example :
    (answer : Bool) × (has_indirect_child places 3 city house ≡ some answer)
    × ((answer ≡ true) ↔ ((y : Place) × Below inside city y × (name y ≡ "house")))
has_indirect_child-Below_example =
    has_indirect_child-Below places rank 3 city house inside_down (omega arith)

abbrev count_call : Place → ℕ → ℕ → ℕ × Option WalkError
count_call p distance n = (suc n, none)

abbrev Positive : ℕ → Type 0
Positive n = 1 ≤ n

counted :
    (x : Place) (distance n : ℕ) → 0 ≤ distance → distance < 0 + 1 → Positive n → Positive (suc n)
counted x distance n low high p = omega arith

walk_relationship-bounded_example :
    (t : ℕ) × (e : Option WalkError) × (walk_relationship places 2
        (some 1)
        0
        traverse_children
        count_call
        city
        1
      ≡ walked t e)
    × Positive t
walk_relationship-bounded_example =
    walk_relationship-bounded places Positive count_call 1 0 traverse_children city 1 counted
      (omega arith)

data Corner : Type 0 where
  left right apart : Corner

abbrev opposite : Corner → List Corner
opposite left = right ∷ []
opposite right = left ∷ []
opposite apart = []

abbrev corner : Corner → String
corner left = "left"
corner right = "right"
corner apart = "apart"

abbrev ring : Relationships
ring = record {
  Object = Corner;
  get_id = corner;
  children = opposite;
  parents = opposite;
  children_ids = λ c. [];
}

abbrev turn : Corner → Corner
turn left = right
turn right = left
turn apart = apart

abbrev around : ℕ → Corner
around zero = left
around (suc n) = turn (around n)

-- The rounds in the ring.
OnRing : Corner → Type 0
OnRing c = (opposite c ≡ turn c ∷ []) × (str_eq (corner c) "apart" ≡ false)

turn-OnRing : (c : Corner) → OnRing c → OnRing (turn c)
unfolding OnRing
turn-OnRing left h = (refl, refl)
turn-OnRing right h = (refl, refl)
turn-OnRing apart h = ground (arith, h.1)

around-OnRing : (n : ℕ) → OnRing (around n)
unfolding OnRing
around-OnRing zero = (refl, refl)
around-OnRing (suc n) = turn-OnRing (around n) (around-OnRing n)

only_child : (n : ℕ) → opposite (around n) ≡ turn (around n) ∷ []
unfolding OnRing
only_child n = (around-OnRing n).0

other_corner : (n : ℕ) → str_eq (corner (around n)) "apart" ≡ false
unfolding OnRing
other_corner n = (around-OnRing n).1

ring_never_answers_example : has_indirect_child ring 100 left apart ≡ none
ring_never_answers_example = ring_never_answers ring around apart 100 only_child other_corner
